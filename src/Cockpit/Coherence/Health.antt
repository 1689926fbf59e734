-- ===== src/Cockpit/Coherence/Health.antt =====
-- Reading one domain of `data_health` after another was written.
use supersonic.Prelude.{
  String, String-discrete, string_eq, ◌≡◌, ◌≢◌, some, if_pos, if_neg, refl, ne_by_compare,
}
use supersonic.Prelude.Dict.{Dict, lookup, insert, lookup-insert}
use supersonic.Contract.{DataHealth}

module _ (d : Dict String DataHealth) (v : DataHealth) where
  pub lookup-insert_self : (k : String) → lookup k (insert k v d) ≡ some v
  lookup-insert_self k = rw lookup-insert (if_pos (String-discrete k k) refl _ _)

  pub lookup-insert_ne : (k j : String) → k ≢ j → lookup j (insert k v d) ≡ lookup j d
  lookup-insert_ne k j h = rw lookup-insert (if_neg (String-discrete k j) h _ _)

pub navigation-ne-vision : ◌≢◌ {A = String} "navigation" "vision"
navigation-ne-vision = ne_by_compare "navigation" "vision" refl

pub paused-ne-suppressed : ◌≢◌ {A = String} "paused" "suppressed"
paused-ne-suppressed = ne_by_compare "paused" "suppressed" refl

pub navigation-ne-vehicle : ◌≢◌ {A = String} "navigation" "vehicle"
navigation-ne-vehicle = ne_by_compare "navigation" "vehicle" refl

pub vision-ne-vehicle : ◌≢◌ {A = String} "vision" "vehicle"
vision-ne-vehicle = ne_by_compare "vision" "vehicle" refl

pub vision-ne-navigation : ◌≢◌ {A = String} "vision" "navigation"
vision-ne-navigation = ne_by_compare "vision" "navigation" refl
