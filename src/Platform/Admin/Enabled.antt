-- ===== src/Platform/Admin/Enabled.antt =====
-- apps/backend/app/platform/admin.py: the enabled administrators among the rows of the users.
use supersonic.Prelude.{
  Bool, true, false, not, ◌&&◌, List, [], ◌∷◌, String, some, ◌==◌, string_eq, leb, nat_eq, length,
  contains, map, ◌≡◌, refl, arith, All, Bool-cases, inl, inr, some_injective, subst,
}
use supersonic.Platform.Models.{User, Role, role_eq}
use supersonic.Platform.Store.{find_row}
use supersonic.Platform.Admin.Statements.{any_match, update_where, is_enabled}
use supersonic.Platform.Rows.{select_where}
use supersonic.Platform.Admin.Users.{is_last_admin}

-- The ids of rows differ.
abbrev pub IsUnique : List User → Type 0
IsUnique [] = Unit
IsUnique (u ∷ us) = (contains u.id (map (λ v. v.id) us) ≡ false) × IsUnique us

abbrev pub HasAdmin : List User → Type 0
HasAdmin us = any_match (is_enabled Role.admin) us ≡ true

-- Another row than that of the id is an enabled administrator's.
abbrev pub is_other : String → User → Bool
is_other id u = is_enabled Role.admin u && not (u.id == id)

abbrev pub HasOther : String → List User → Type 0
HasOther id us = any_match (is_other id) us ≡ true

-- An update keeps ids and keeps administrators where `P` tells that it does.
abbrev pub KeepsRow : (User → Bool) → (User → User) → User → Type 0
KeepsRow test change u =
    test u ≡ true → is_enabled Role.admin u ≡ true → is_enabled Role.admin (change u) ≡ true

pub update-HasAdmin :
    (test : User → Bool) (change : User → User) (us : List User)
    → All (KeepsRow test change) us
    → HasAdmin us
    → HasAdmin (update_where test change us)
unfolding any_match update_where
update-HasAdmin test change [] k h = h
update-HasAdmin test change (u ∷ us) k h = elim (Bool-cases (test u)) [
  | inl e ↦ rw e (ground (arith, h, k.0 e, update-HasAdmin test change us k.1))
  | inr e ↦ rw e (ground (arith, h, update-HasAdmin test change us k.1))
]

pub update-HasOther :
    (id : String) (test : User → Bool) (change : User → User) (us : List User)
    → ((u : User) → test u ≡ true → (u.id == id) ≡ true)
    → HasOther id us
    → HasAdmin (update_where test change us)
unfolding any_match update_where
update-HasOther id test change [] t h = h
update-HasOther id test change (u ∷ us) t h = elim (Bool-cases (test u)) [
  | inl e ↦ rw e (ground (arith, h, t u e, update-HasOther id test change us t))
  | inr e ↦ rw e (ground (arith, h, update-HasOther id test change us t))
]

-- Any other change keeps the ids.
pub update-ids :
    (test : User → Bool) (change : User → User) (us : List User)
    → ((u : User) → (change u).id ≡ u.id)
    → map (λ u. u.id) (update_where test change us) ≡ map (λ u. u.id) us
unfolding update_where
update-ids test change [] c = refl
update-ids test change (u ∷ us) c = elim (Bool-cases (test u)) [
  | inl e ↦ rw (e, c u, update-ids test change us c)
  | inr e ↦ rw (e, update-ids test change us c)
]

pub update-IsUnique :
    (test : User → Bool) (change : User → User) (us : List User)
    → ((u : User) → (change u).id ≡ u.id)
    → IsUnique us
    → IsUnique (update_where test change us)
unfolding update_where
update-IsUnique test change [] c h = tt
update-IsUnique test change (u ∷ us) c h = elim (Bool-cases (test u)) [
  | inl e ↦ rw (e, c u, update-ids test change us c) (h.0, update-IsUnique test change us c h.1)
  | inr e ↦ rw (e, update-ids test change us c) (h.0, update-IsUnique test change us c h.1)
]

-- The ids that the statement locks.
unfoldable pub locked_ids : List User → List String
unfolding select_where
locked_ids us = map (λ u. u.id) (select_where (is_enabled Role.admin) us)

locked-unlocked :
    (id : String) (us : List User)
    → contains id (map (λ u. u.id) us) ≡ false
    → contains id (locked_ids us) ≡ false
unfolding locked_ids select_where contains
locked-unlocked id [] h = h
locked-unlocked id (u ∷ us) h = elim (Bool-cases (is_enabled Role.admin u)) [
  | inl e ↦ rw e (ground (arith, h, locked-unlocked id us))
  | inr e ↦ rw e (ground (arith, h, locked-unlocked id us))
]

-- Somebody is locked, and not the user of the id.
unlocked-HasOther :
    (id : String) (us : List User)
    → contains id (locked_ids us) ≡ false
    → leb (length (locked_ids us)) 0 ≡ false
    → HasOther id us
unfolding locked_ids select_where contains any_match
unlocked-HasOther id [] c n = ground (arith, n)
unlocked-HasOther id (u ∷ us) c n = elim (Bool-cases (is_enabled Role.admin u)) [
  | inl e ↦ rw e (ground (arith, rw e at c))
  | inr e ↦ rw e (unlocked-HasOther id us (rw e at c) (rw e at n))
]

HasAdmin-locked : (us : List User) → HasAdmin us → leb (length (locked_ids us)) 0 ≡ false
unfolding locked_ids select_where any_match
HasAdmin-locked [] h = cc
HasAdmin-locked (u ∷ us) h = elim (Bool-cases (is_enabled Role.admin u)) [
  | inl e ↦ rw e (ground arith)
  | inr e ↦ rw e (HasAdmin-locked us (rw e at h))
]

-- What `_protect_enabled_admin` lets pass.
pub protected-HasOther :
    (id : String) (us : List User)
    → IsUnique us
    → HasAdmin us
    → is_last_admin id (locked_ids us) ≡ false
    → HasOther id us
unfolding locked_ids select_where contains any_match
protected-HasOther id [] unique h l = h
protected-HasOther id (u ∷ us) unique h l = elim (Bool-cases (is_enabled Role.admin u)) [
  | inr e ↦ rw e (protected-HasOther id us unique.1 (rw e at h) (rw e at l))
  | inl e ↦ elim (Bool-cases (u.id == id)) [
    | inr n ↦ rw (e, n) refl
    | inl s ↦
        let unlocked : contains id (locked_ids us) ≡ false =
          locked-unlocked id us (ground (arith, unique.0, s)) in
        let more : leb (length (locked_ids us)) 0 ≡ false = ground (arith, rw (e, s) at l) in
        rw (e, s) (unlocked-HasOther id us unlocked more)
  ]
]

-- The row that an id finds is the one row of the id.
abbrev pub IsRow : User → User → Type 0
IsRow u r = (r.id == u.id) ≡ true → r ≡ u

absent-IsRow :
    (u : User) (us : List User) → contains u.id (map (λ v. v.id) us) ≡ false → All (IsRow u) us
unfolding contains
absent-IsRow u [] h = tt
absent-IsRow u (r ∷ us) h = (λ e. ground (arith, h, e), absent-IsRow u us (ground (arith, h)))

pub found-IsRow :
    (us : List User) (id : String) (u : User)
    → IsUnique us
    → find_row (λ v. v.id) id us ≡ some u
    → All (IsRow u) us × (u.id ≡ id)
unfolding find_row
found-IsRow [] id u unique h = cc
found-IsRow (r ∷ us) id u unique h = elim (Bool-cases (r.id == id)) [
  | inl e ↦
      let same : r ≡ u = some_injective (rw e at h) in
      subst (λ v. All (IsRow v) (r ∷ us) × (v.id ≡ id)) same
        ((λ _. refl, absent-IsRow r us unique.0), ground (arith, e))
  | inr e ↦
      let (rows, found) = found-IsRow us id u unique.1 (rw e at h) in
      ((λ s. ground (arith, e, s, found), rows), found)
]
