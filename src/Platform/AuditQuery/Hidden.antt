-- ===== src/Platform/AuditQuery/Hidden.antt =====
-- apps/backend/app/platform/audit_query.py: what a role that is not an administrator may learn.
use supersonic.Prelude.{
  Bool, ◌≡◌, refl, ap, sym, ◌∙◌, ℕ, ◌+◌, Option, none, some, Bool-cases, inl, inr, ◌≢◌, Result, ok,
  raise, ◌>>=◌, pure, continue, take, subst, leb, ◌&&◌,
}
use supersonic.Platform.Models.{AuditEvent, Role}
use supersonic.Platform.Sanitization.{PythonTexts}
use supersonic.Platform.Store.{Store}
use supersonic.Platform.Database.{
  Database, DatabaseAction, PlatformError, call, query, with_value, close_unit, in_unit,
}
use supersonic.Platform.Rows.{select_where, order_by}
use supersonic.Platform.Rows.Select.{select_where_idem}
use supersonic.Platform.AuditQuery.{
  AuditCursor, AuditQuery, operational, in_scope, page_rows, page_of, audit_keyset_before,
  audit_query, newest_first, sanitize_events,
}
use supersonic.Platform.AuditQuery.Service.{list_page, list_for_role, sanitize_page}

-- The tables without the facts that are not operational.
abbrev pub hide_store : Store → Store
hide_store s = record s { audit_events = select_where (in_scope operational) s.audit_events }

abbrev pub hide : Database → Database
hide d = record d { store = hide_store d.store; work = hide_store d.work }

-- An action that takes no notice of what is hidden.
abbrev pub IsBlind : {A : Type 0} → DatabaseAction A → Type 0
IsBlind m = (d : Database) → m (hide d) ≡ ((m d).0, hide (m d).1)

module _ {A B : Type 0} where
  continue-blind :
      (r : Result PlatformError A) (f : A → DatabaseAction B) (d : Database)
      → ((a : A) → IsBlind (f a))
      → continue r f (hide d) ≡ ((continue r f d).0, hide (continue r f d).1)
  continue-blind (ok a) f d h = h a d
  continue-blind (raise e) f d h = refl

  bind-IsBlind :
      (m : DatabaseAction A) (f : A → DatabaseAction B)
      → IsBlind m
      → ((a : A) → IsBlind (f a))
      → IsBlind (m >>= f)
  bind-IsBlind m f h k d = ap (λ r. continue r.0 f r.1) (h d) ∙ continue-blind (m d).0 f (m d).1 k

  with_value-IsBlind :
      (o : Option A) (f : A → DatabaseAction B)
      → ((a : A) → IsBlind (f a))
      → IsBlind (with_value o f)
  with_value-IsBlind none f h d = refl
  with_value-IsBlind (some a) f h d = h a d

module _ {A : Type 0} where
  query-IsBlind : (f : Store → A) → ((s : Store) → f (hide_store s) ≡ f s) → IsBlind (query f)
  unfolding call
  query-IsBlind f h d = elim (Bool-cases (d.outages d.calls)) [
    | inl e ↦ rw e refl
    | inr e ↦ rw (e, h d.work) refl
  ]

  close_unit-IsBlind : (r : Result PlatformError A) → IsBlind (close_unit r)
  unfolding close_unit
  close_unit-IsBlind r d = elim (Bool-cases (d.outages d.calls)) [
    | inl e ↦ rw e refl
    | inr e ↦ rw e refl
  ]

  in_unit-IsBlind : (m : DatabaseAction A) → IsBlind m → IsBlind (in_unit m)
  in_unit-IsBlind m h d =
      let d' = record d { work = d.store } in
      ap (λ r. close_unit r.0 r.1) (h d') ∙ close_unit-IsBlind (m d').0 (m d').1

page_rows-hidden :
    (test : AuditEvent → Bool) (limit : ℕ) (s : Store)
    → page_rows operational test limit (hide_store s) ≡ page_rows operational test limit s
unfolding page_rows
page_rows-hidden test limit s =
    ap (λ v. take (limit + 1) (order_by newest_first (select_where test v)))
      (select_where_idem (in_scope operational) s.audit_events)

module _ (texts : PythonTexts) where
  list_page-IsBlind :
      (cursor : Option AuditCursor) (limit : ℕ)
      → IsBlind (list_page texts (record { scope = operational; cursor = cursor; limit = limit }))
  unfolding list_page
  list_page-IsBlind cursor limit = with_value-IsBlind (audit_keyset_before texts cursor) _ (λ test.
      bind-IsBlind (query (page_rows operational test limit)) _
        (query-IsBlind (page_rows operational test limit) (page_rows-hidden test limit))
        (λ rows. with_value-IsBlind (page_of texts limit rows) pure (λ page d. refl)))

  list_operational-IsBlind :
      (q : AuditQuery)
      → q.scope ≡ operational
      → IsBlind (call (λ s. (tt, s)) >>= λ _. in_unit (list_page texts q) >>= sanitize_page texts)
  list_operational-IsBlind q h =
      bind-IsBlind (query (λ s. tt)) _ (query-IsBlind (λ s. tt) (λ s. refl)) (λ _.
        bind-IsBlind (in_unit (list_page texts q)) _
          (in_unit-IsBlind (list_page texts q) (
            subst (λ c. IsBlind (list_page texts (record q { scope = c }))) (sym h)
              (list_page-IsBlind q.cursor q.limit)))
          (λ page. with_value-IsBlind (sanitize_events texts page.events) _ (λ es d. refl)))

  limited-IsBlind :
      (cursor : Option AuditCursor) (limit : ℕ)
      → IsBlind (
          with_value
            (audit_query operational cursor limit)
            (λ q. call (λ s. (tt, s)) >>= λ _. in_unit (list_page texts q) >>= sanitize_page texts))
  unfolding audit_query
  limited-IsBlind cursor limit d = elim (Bool-cases (leb 1 limit && leb limit 100)) [
    | inl b ↦ rw b (
        list_operational-IsBlind (record { scope = operational; cursor = cursor; limit = limit })
          refl d)
    | inr b ↦ rw b refl
  ]

  -- For a role other than administrator, list_for_role answers or fails in the same way on a
  -- database from which the facts that are not operational were taken out, whatever calls of the
  -- database fail.
  pub list_for_role-hide :
      (role : Role) (cursor : Option AuditCursor) (limit : ℕ) (d : Database)
      → role ≢ Role.admin
      → list_for_role texts role cursor limit (hide d) ≡ (
        (list_for_role texts role cursor limit d).0,
        hide (list_for_role texts role cursor limit d).1,
      )
  unfolding list_for_role
  list_for_role-hide Role.admin cursor limit d h = absurd (h refl)
  list_for_role-hide Role.operator cursor limit d h = limited-IsBlind cursor limit d
  list_for_role-hide Role.viewer cursor limit d h = limited-IsBlind cursor limit d
