-- ===== src/Platform/Admin/Keeps.antt =====
-- apps/backend/app/platform/admin.py: what the steps of the administration keep of the users' rows,
-- those that are committed and those of the open unit of work.
use supersonic.Prelude.{
  Bool, true, false, List, Option, none, some, ok, raise, Result, Exec, ◌≡◌, sym, subst, throw_if,
  ◌>>=◌,
}
use supersonic.Prelude.Triples.{Ends, Triple, Triple-bind}
use supersonic.Platform.Models.{User}
use supersonic.Platform.Store.{Store}
use supersonic.Platform.Database.{
  Database, DatabaseAction, PlatformError, call, commit_unit, close_unit, with_value,
}
use supersonic.Platform.Database.Rules.{call-Ends, commit_unit-Ends, close_unit-store}
use supersonic.Platform.Admin.{
  AdminWorld, AdminAction, on_database, begin, in_admin_unit, in_committed_admin_unit,
  prefer_committed, translated,
}
use supersonic.Platform.Admin.Audit.{translating}

-- `I` holds afterwards, whatever is returned or raised.
abbrev pub Keeps : {S A : Type 0} → (S → Type 0) → Exec PlatformError S A → Type 0
Keeps I m = Triple I m (λ _. I) (λ _. I)

module _ {S A B : Type 0} where
  pub Keeps-bind :
      (I : S → Type 0) (m : Exec PlatformError S A) (f : A → Exec PlatformError S B)
      → Keeps I m
      → ((a : A) → Keeps I (f a))
      → Keeps I (m >>= f)
  Keeps-bind I m f h k = Triple-bind I m f (λ _. I) (λ _. I) (λ _. I) h k

module _ {S : Type 0} where
  pub throw_if-Keeps : (I : S → Type 0) (b : Bool) (e : PlatformError) → Keeps I (throw_if b e)
  throw_if-Keeps I true e s h = h
  throw_if-Keeps I false e s h = h

module _ {A : Type 0} where
  pub on_database-Ends :
      (Q : A → AdminWorld → Type 0) (R : PlatformError → AdminWorld → Type 0) (w : AdminWorld)
      (r : Result PlatformError A × Database)
      → Ends (λ a d. Q a (record w { database = d })) (λ e d. R e (record w { database = d })) r
      → Ends Q R (r.0, record w { database = r.1 })
  on_database-Ends Q R w (ok a, d) h = h
  on_database-Ends Q R w (raise e, d) h = h

  -- What does not read `H` may be any result.
  close-Keeps :
      (I : AdminWorld → Type 0) (r r' : Result PlatformError A) (w : AdminWorld)
      → Ends (λ _. I) (λ _. I) (r, w)
      → Ends (λ _. I) (λ _. I) (r', w)
  close-Keeps I (ok a) (ok b) w h = h
  close-Keeps I (ok a) (raise e) w h = h
  close-Keeps I (raise e) (ok b) w h = h
  close-Keeps I (raise e) (raise f) w h = h

module _ (H : List User → Type 0) where
  abbrev pub Both : Database → Type 0
  Both d = H d.store.users × H d.work.users

  abbrev pub During : AdminWorld → Type 0
  During w = Both w.database

  abbrev pub Committed : AdminWorld → Type 0
  Committed w = H w.database.store.users

  module _ {A : Type 0} where
    pub call-Keeps :
        (f : Store → A × Store) → ((s : Store) → (f s).1.users ≡ s.users) → Keeps Both (call f)
    call-Keeps f same d h =
        call-Ends f (λ _. Both) (λ _. Both) d (h.0, subst H (sym (same d.work)) h.1) h

    pub on_database-Keeps : (m : DatabaseAction A) → Keeps Both m → Keeps During (on_database m)
    on_database-Keeps m k w h =
        on_database-Ends (λ _. During) (λ _. During) w (m w.database) (k w.database h)

    pub with_value-Keeps :
        {B : Type 0} (o : Option B) (f : B → DatabaseAction A)
        → ((b : B) → Keeps Both (f b))
        → Keeps Both (with_value o f)
    with_value-Keeps none f k d h = h
    with_value-Keeps (some b) f k d h = k b d h

    closed-Committed :
        (r : Result PlatformError A × AdminWorld)
        → Ends (λ _. During) (λ _. During) r
        → Committed r.1
    closed-Committed (ok a, w) h = h.0
    closed-Committed (raise e, w) h = h.0

    ended :
        (r : Result PlatformError A) (w : AdminWorld)
        → Committed w
        → Ends (λ _. Committed) (λ _. Committed) (r, w)
    ended (ok a) w h = h
    ended (raise e) w h = h

    pub in_admin_unit-Keeps :
        (m : AdminAction A) → Keeps During m → Keeps Committed (in_admin_unit m)
    in_admin_unit-Keeps m k w h =
        let (r, w') = m (begin w) in
        ended (close_unit r w'.database).0 (record w' { database = (close_unit r w'.database).1 })
          (subst (λ s. H s.users) (sym (close_unit-store r w'.database))
            (closed-Committed (m (begin w)) (k (begin w) (h, h))))

    pub in_committed_admin_unit-Keeps :
        (m : AdminAction A) → Keeps During m → Keeps Committed (in_committed_admin_unit m)
    in_committed_admin_unit-Keeps m k w h =
        let (r, w') = m (begin w) in
        ended (prefer_committed r (close_unit r w'.database).0)
          (record w' { database = (close_unit r w'.database).1 })
          (subst (λ s. H s.users) (sym (close_unit-store r w'.database))
            (closed-Committed (m (begin w)) (k (begin w) (h, h))))

    pub translating-Keeps :
        (I : AdminWorld → Type 0) (m : AdminAction A) → Keeps I m → Keeps I (translating m)
    translating-Keeps I m k w h = close-Keeps I (m w).0 (translated (m w).0) (m w).1 (k w h)

  pub commit_unit-Keeps : Keeps Both commit_unit
  commit_unit-Keeps d h = commit_unit-Ends (λ _. Both) (λ _. Both) d (h.1, h.1) h
