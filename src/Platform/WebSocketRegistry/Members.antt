-- ===== src/Platform/WebSocketRegistry/Members.antt =====
-- apps/backend/app/platform/websocket_registry.py: the sets under the keys of a `defaultdict(set)`.
use supersonic.Prelude.{
  if◌then◌else◌, if_pos, if_neg, ap, ◌∙◌, refl, arith, some, string_eq, String, List, ℕ, ◌≢◌, ◌≡◌,
  [], discard, is_empty, ◌∷◌, String-discrete,
}
use supersonic.Platform.WebSocketRegistry.{drop_member, add_member, members_of, or_empty}
use supersonic.Prelude.Dict.{
  Dict, insert, erase, lookup-insert, lookup-erase_ne, lookup-erase, lookup,
}

pub members_of-insert_ne :
    (key other : String) (items : List ℕ) (d : Dict String (List ℕ))
    → key ≢ other
    → members_of other (insert key items d) ≡ members_of other d
members_of-insert_ne key other items d n = ap or_empty (
    lookup-insert key other items d
    ∙ if_neg (String-discrete key other) n (some items) (lookup other d))

pub members_of-insert_self :
    (key : String) (items : List ℕ) (d : Dict String (List ℕ))
    → members_of key (insert key items d) ≡ items
members_of-insert_self key items d = ap or_empty (
    lookup-insert key key items d
    ∙ if_pos (String-discrete key key) refl (some items) (lookup key d))

pub members_of-erase_self :
    (key : String) (d : Dict String (List ℕ)) → members_of key (erase key d) ≡ []
members_of-erase_self key d = ap or_empty (lookup-erase key d)

pub members_of-erase_ne :
    (key other : String) (d : Dict String (List ℕ))
    → key ≢ other
    → members_of other (erase key d) ≡ members_of other d
members_of-erase_ne key other d n = ap or_empty (lookup-erase_ne key other d n)

members_of-store :
    (key : String) (rest : List ℕ) (d : Dict String (List ℕ))
    → members_of key (if is_empty rest then erase key d else insert key rest d) ≡ rest
members_of-store key [] d = members_of-erase_self key d
members_of-store key (x ∷ rest) d = members_of-insert_self key (x ∷ rest) d

pub members_of-drop_self :
    (key : String) (item : ℕ) (d : Dict String (List ℕ))
    → members_of key (drop_member key item d) ≡ discard item (members_of key d)
unfolding drop_member
members_of-drop_self key item d = members_of-store key (discard item (members_of key d)) d

pub members_of-drop_ne :
    (key other : String) (item : ℕ) (d : Dict String (List ℕ))
    → key ≢ other
    → members_of other (drop_member key item d) ≡ members_of other d
unfolding drop_member
members_of-drop_ne key other item d n = ground (
  arith,
  members_of-erase_ne key other d n,
  members_of-insert_ne key other (discard item (members_of key d)) d n,
)

pub members_of-add_ne :
    (key other : String) (item : ℕ) (d : Dict String (List ℕ))
    → key ≢ other
    → members_of other (add_member key item d) ≡ members_of other d
unfolding add_member
members_of-add_ne key other item d n = members_of-insert_ne key other _ d n
