-- ===== src/Platform/Admin/LastAdmin.antt =====
-- apps/backend/app/platform/admin.py: an enabled administrator remains.
use supersonic.Prelude.{
  Bool, true, false, not, ◌&&◌, List, [], ◌∷◌, String, Option, none, some, ◌≡◌, refl, arith, subst,
  sym, throw_if, ◌>>=◌, inl, inr, Bool-cases, All, is_none, ◌==◌, string_eq,
}
use supersonic.Prelude.Triples.{Ends, Triple, Triple-bind}
use supersonic.Platform.Models.{User, Role, role_eq}
use supersonic.Contract.{Time}
use supersonic.Platform.Store.{Store, find_row, get_user_by_id}
use supersonic.Platform.Sanitization.{PythonTexts}
use supersonic.Platform.Database.{last_admin_protected, call, query, with_value}
use supersonic.Platform.Database.Rules.{call-Ends}
use supersonic.Platform.Admin.Statements.{
  has_role, may_switch, is_enabled, enabled_role_holder_ids, update_where,
}
use supersonic.Platform.Admin.{AdminWorld, on_database}
use supersonic.Platform.Admin.Users.{find_user, protect_if, protect_enabled_admin, is_last_admin}
use supersonic.Platform.Admin.Enabled.{
  IsUnique, HasAdmin, HasOther, IsRow, KeepsRow, locked_ids, found-IsRow, protected-HasOther,
  update-HasAdmin, update-HasOther, update-IsUnique,
}
use supersonic.Platform.Admin.Keeps.{During, on_database-Ends}

-- The ids of the users differ, and an administrator is enabled.
abbrev pub IsManaged : List User → Type 0
IsManaged us = IsUnique us × HasAdmin us

abbrev pub Managed : AdminWorld → Type 0
Managed = During IsManaged

-- The user is the row of its id.
abbrev pub Located : User → AdminWorld → Type 0
Located u w = Managed w × All (IsRow u) w.database.work.users

abbrev pub Found : Option User → AdminWorld → Type 0
Found none w = Managed w
Found (some u) w = Located u w

-- Where a guard was due, another administrator is enabled.
abbrev pub Protected : Bool → Role → User → AdminWorld → Type 0
Protected due new_role u w =
    Located u w
    × (due ≡ true → (new_role == Role.admin) ≡ false → HasOther u.id w.database.work.users)

find_row-Found :
    (found : Option User) (w : AdminWorld) (id : String)
    → Managed w
    → find_row (λ u. u.id) id w.database.work.users ≡ found
    → Found found w
find_row-Found none w id h e = h
find_row-Found (some u) w id h e = (h, (found-IsRow w.database.work.users id u h.1.0 e).0)

locked-query : (s : Store) → enabled_role_holder_ids Role.admin s ≡ locked_ids s.users
unfolding enabled_role_holder_ids locked_ids
locked-query s = refl

throw-Protected :
    (last : Bool) (new_role : Role) (u : User) (w : AdminWorld)
    → Located u w
    → (last ≡ false → HasOther u.id w.database.work.users)
    → Ends (λ _. Protected true new_role u) (λ _. Managed) (throw_if last last_admin_protected w)
throw-Protected true new_role u w h k = h.0
throw-Protected false new_role u w h k = (h, λ _ _. k refl)

-- The ids that the statement returned.
abbrev Locked : User → List String → AdminWorld → Type 0
Locked u ids w = Located u w × (locked_ids w.database.work.users ≡ ids)

query-Locked :
    (u : User)
    → Triple
        (Located u)
        (on_database (query (enabled_role_holder_ids Role.admin)))
        (Locked u)
        (λ _. Managed)
query-Locked u w h =
    on_database-Ends (Locked u) (λ _. Managed) w
      (query (enabled_role_holder_ids Role.admin) w.database)
      (call-Ends _ (λ a d. Locked u a (record w { database = d }))
        (λ _ d. Managed (record w { database = d })) w.database
        (h, sym (locked-query w.database.work)) h.0)

locks-Protected :
    (new_role : Role) (u : User)
    → Triple
        (Located u)
        (on_database (query (enabled_role_holder_ids Role.admin)) >>= λ ids.
          throw_if (is_last_admin u.id ids) last_admin_protected)
        (λ _. Protected true new_role u)
        (λ _. Managed)
locks-Protected new_role u =
    Triple-bind (Located u) (on_database (query (enabled_role_holder_ids Role.admin))) _ (Locked u)
      _ _ (query-Locked u)
      λ ids w h. throw-Protected (is_last_admin u.id ids) new_role u w h.0 λ f.
        protected-HasOther u.id w.database.work.users h.0.0.1.0 h.0.0.1.1
          (subst (λ l. is_last_admin u.id l ≡ false) (sym h.1) f)

pub protect-Protected :
    (due : Bool) (new_role : Role) (u : User)
    → Triple
        (Located u)
        (protect_if due new_role u.id)
        (λ _. Protected due new_role u)
        (λ _. Managed)
unfolding protect_enabled_admin
protect-Protected false new_role u = λ w h. (h, λ d _. cc)
protect-Protected true Role.admin u = λ w h. (h, λ _ n. ground (arith, n))
protect-Protected true Role.operator u = locks-Protected Role.operator u
protect-Protected true Role.viewer u = locks-Protected Role.viewer u

All-map :
    {A : Type 0} (P Q : A → Type 0) (xs : List A) → ((a : A) → P a → Q a) → All P xs → All Q xs
All-map P Q [] f h = tt
All-map P Q (x ∷ xs) f h = (f x h.0, All-map P Q xs f h.1)

-- A row of the id that is not an enabled administrator's.
row-KeepsRow :
    (test : User → Bool) (change : User → User) (u r : User)
    → is_enabled Role.admin u ≡ false
    → (test r ≡ true → (r.id == u.id) ≡ true)
    → IsRow u r
    → KeepsRow test change r
row-KeepsRow test change u r n t row =
    λ e a. cc (subst (λ v. is_enabled Role.admin v ≡ true) (row (t e)) a, n)

pub set_role-IsManaged :
    (new_role : Role) (now : Time) (u : User) (us : List User)
    → IsManaged us
    → All (IsRow u) us
    → (is_enabled Role.admin u ≡ true → (new_role == Role.admin) ≡ false → HasOther u.id us)
    → IsManaged (
        update_where
          (has_role u.id u.role)
          (λ v. record v { role = new_role; updated_at = now })
          us)
set_role-IsManaged new_role now u us h rows other = (
  update-IsUnique (has_role u.id u.role) _ us (λ v. refl) h.0,
  elim (Bool-cases (new_role == Role.admin)) [
    | inl a ↦
        update-HasAdmin (has_role u.id u.role) _ us
          (All-map (IsRow u)
            (KeepsRow (has_role u.id u.role) (λ v. record v { role = new_role; updated_at = now }))
            us (λ r _ _ e. ground (arith, a, e)) rows)
          h.1
    | inr n ↦ elim (Bool-cases (is_enabled Role.admin u)) [
      | inl e ↦
          update-HasOther u.id (has_role u.id u.role) _ us (λ r t. ground (arith, t)) (other e n)
      | inr e ↦
          update-HasAdmin (has_role u.id u.role) _ us
            (All-map (IsRow u) _ us
              (λ r.
                row-KeepsRow (has_role u.id u.role)
                  (λ v. record v { role = new_role; updated_at = now }) u r e
                  (λ t. ground (arith, t)))
              rows)
            h.1
    ]
  ],
)

pub set_disabled-IsManaged :
    (at : Option Time) (now : Time) (u : User) (us : List User)
    → IsManaged us
    → All (IsRow u) us
    → ((not (is_none at) && u.role == Role.admin) ≡ true → HasOther u.id us)
    → IsManaged (
        update_where (may_switch u.id at) (λ v. record v { disabled_at = at; updated_at = now }) us)
set_disabled-IsManaged none now u us h rows other = (
  update-IsUnique (may_switch u.id none) _ us (λ v. refl) h.0,
  update-HasAdmin (may_switch u.id none) _ us
      (All-map (IsRow u)
        (KeepsRow (may_switch u.id none) (λ v. record v { disabled_at = none; updated_at = now }))
        us (λ r _ _ e. ground (arith, e)) rows)
      h.1,
)
set_disabled-IsManaged (some t) now u us h rows other = (
  update-IsUnique (may_switch u.id (some t)) _ us (λ v. refl) h.0,
  elim (Bool-cases (u.role == Role.admin)) [
    | inl e ↦
        update-HasOther u.id (may_switch u.id (some t)) _ us (λ r m. ground (arith, m)) (other e)
    | inr e ↦
        update-HasAdmin (may_switch u.id (some t)) _ us
          (All-map (IsRow u) _ us
            (λ r.
              row-KeepsRow (may_switch u.id (some t))
                (λ v. record v { disabled_at = some t; updated_at = now }) u r (ground (arith, e))
                (λ m. ground (arith, m)))
            rows)
          h.1
  ],
)

module _ (texts : PythonTexts) where
  find-Found :
      (o : Option String)
      → Triple Managed
          (on_database (with_value o (λ id. query (get_user_by_id id))))
          Found
          (λ _. Managed)
  unfolding get_user_by_id
  find-Found none w h = h
  find-Found (some id) w h =
      on_database-Ends Found (λ _. Managed) w (call (λ s. (get_user_by_id id s, s)) w.database)
        (call-Ends (λ s. (get_user_by_id id s, s)) (λ a d. Found a (record w { database = d }))
          (λ _ d. Managed (record w { database = d })) w.database
          (find_row-Found (get_user_by_id id w.database.work) _ id h refl) h)

  pub find_user-Found :
      (user_id : String) → Triple Managed (find_user texts user_id) Found (λ _. Managed)
  unfolding find_user
  find_user-Found user_id = find-Found (texts.uuid user_id)
