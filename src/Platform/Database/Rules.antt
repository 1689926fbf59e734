-- ===== src/Platform/Database/Rules.antt =====
-- apps/backend/app/adapters/postgres/unit_of_work.py: what a call leaves of the database.
use supersonic.Prelude.{◌≡◌, Bool-cases, inl, inr, ◌+◌, Result, ok, raise, arith}
use supersonic.Prelude.Triples.{Ends}
use supersonic.Platform.Store.{Store}
use supersonic.Platform.Database.{
  Database, call, commit_unit, close_unit, in_unit, DatabaseAction, PlatformError,
  database_unavailable,
}

-- The database after a call that left `s`.
abbrev pub after : Database → Store → Database
after d s = record d { calls = d.calls + 1; work = s }

module _ {A : Type 0} where
  pub call-Ends :
      (f : Store → A × Store) (Q : A → Database → Type 0) (R : PlatformError → Database → Type 0)
      (d : Database)
      → Q (f d.work).0 (after d (f d.work).1)
      → R database_unavailable (after d d.work)
      → Ends Q R (call f d)
  unfolding call
  call-Ends f Q R d q r = elim (Bool-cases (d.outages d.calls)) [ inl e ↦ rw e r | inr e ↦ rw e q ]

pub commit_unit-Ends :
    (Q : Unit {0} → Database → Type 0) (R : PlatformError → Database → Type 0) (d : Database)
    → Q tt (record d { calls = d.calls + 1; store = d.work })
    → R database_unavailable (after d d.work)
    → Ends Q R (commit_unit d)
unfolding commit_unit
commit_unit-Ends Q R d q r = elim (Bool-cases (d.outages d.calls)) [
  | inl e ↦ rw e r
  | inr e ↦ rw e q
]

module _ {A : Type 0} where
  -- Closing a unit of work leaves what is committed.
  pub close_unit-store :
      (r : Result PlatformError A) (d : Database) → (close_unit r d).1.store ≡ d.store
  unfolding close_unit
  close_unit-store r d = ground arith

  close_unit-Ends :
      (Q : A → Store → Type 0) (R : Store → Type 0) (r : Result PlatformError A × Database)
      → Ends (λ a d. Q a d.store) (λ e d. R d.store) r
      → ((a : A) (s : Store) → Q a s → R s)
      → Ends (λ a d. Q a d.store) (λ e d. R d.store) (close_unit r.0 r.1)
  unfolding close_unit
  close_unit-Ends Q R (ok a, d) h k = elim (Bool-cases (d.outages d.calls)) [
    | inl e ↦ rw e (k a d.store h)
    | inr e ↦ rw e h
  ]
  close_unit-Ends Q R (raise x, d) h k = elim (Bool-cases (d.outages d.calls)) [
    | inl e ↦ rw e h
    | inr e ↦ rw e h
  ]

  -- What a unit of work leaves committed.
  pub in_unit-Ends :
      (Q : A → Store → Type 0) (R : Store → Type 0) (m : DatabaseAction A) (d : Database)
      → Ends (λ a d. Q a d.store) (λ e d. R d.store) (m (record d { work = d.store }))
      → ((a : A) (s : Store) → Q a s → R s)
      → Ends (λ a d. Q a d.store) (λ e d. R d.store) (in_unit m d)
  in_unit-Ends Q R m d h k = close_unit-Ends Q R (m (record d { work = d.store })) h k
