-- ===== src/Platform/Database.antt =====
-- apps/backend/app/adapters/postgres/unit_of_work.py and the audit statements of repositories.py:
-- a unit of work of the services that record audit facts in its transaction.
pub mod Rules
use supersonic.Prelude.{
  Bool, true, false, not, List, [], ◌∷◌, String, ℕ, ◌+◌, Option, none, some, Exec, Result, ok,
  raise, pure, throw, throw_if, ◌>>=◌, ◌>>◌, if◌then◌else◌,
}
use supersonic.Platform.Models.{AuditEvent}
use supersonic.Platform.Store.{Store, find_row, append_event}
use supersonic.Platform.Sanitization.{PythonTexts}
use supersonic.Platform.AuditIdentity.{canonicalize, audit_events_equivalent}

-- The exceptions of the services: those of `AdminServiceError` come first, and the last one is any
-- other, such as a `ValueError`.
pub data PlatformError : Type 0 where
  admin_forbidden user_not_found session_not_found : PlatformError
  self_management_forbidden last_admin_protected admin_mutation_failed : PlatformError
  audit_event_conflict : String → PlatformError
  audit_unavailable database_unavailable other_error : PlatformError

-- `store` is what is committed and `work` what the open unit of work sees; `outages` tells which
-- calls of the database fail.
pub record Database : Type 0 where
  pub store : Store
  pub work : Store
  pub outages : ℕ → Bool
  pub calls : ℕ

abbrev pub DatabaseAction : Type 0 → Type 0
DatabaseAction = Exec PlatformError Database

-- A call that reaches the database.
unfoldable pub call : {A : Type 0} → (Store → A × Store) → DatabaseAction A
call f d =
    let d' = record d { calls = d.calls + 1 } in
    if d.outages d.calls
    then (raise database_unavailable, d')
    else (let (a, s) = f d.work in (ok a, record d' { work = s }))

abbrev pub query : {A : Type 0} → (Store → A) → DatabaseAction A
query f = call (λ s. (f s, s))

-- `commit`
unfoldable pub commit_unit : DatabaseAction (Unit {0})
commit_unit d =
    if d.outages d.calls
    then (raise database_unavailable, record d { calls = d.calls + 1 })
    else (ok tt, record d { calls = d.calls + 1; store = d.work })

-- `__aexit__`: what was not committed is rolled back, and closing the session may fail.
unfoldable pub close_unit : {A : Type 0} → Result PlatformError A → DatabaseAction A
close_unit r d =
    let d' = record d { calls = d.calls + 1; work = d.store } in
    if d.outages d.calls then (raise database_unavailable, d') else (r, d')

-- `async with self._uow_factory() as uow`
abbrev pub in_unit : {A : Type 0} → DatabaseAction A → DatabaseAction A
in_unit m d = let (r, d') = m (record d { work = d.store }) in close_unit r d'

-- The same, where `try … except Exception` returns the result of a body that ended after its commit.
abbrev pub in_committed_unit : {A : Type 0} → DatabaseAction A → DatabaseAction A
in_committed_unit m d =
    let (r, d') = m (record d { work = d.store }) in
    let (closed, d'') = close_unit r d' in elim r [ ok a ↦ (ok a, d'') | raise e ↦ (closed, d'') ]

-- An action that may raise another exception before it reaches the database.
abbrev pub with_value : {A B : Type 0} → Option A → (A → DatabaseAction B) → DatabaseAction B
with_value none f = throw other_error
with_value (some a) f = f a

module _ (texts : PythonTexts) where
  -- `SqlAlchemyAuditEventRepository.append`
  unfoldable pub append_audit_event : AuditEvent → DatabaseAction Bool
  append_audit_event event = with_value (canonicalize texts event) (λ row. call (append_event row))

  -- `SqlAlchemyAuditEventRepository.get_by_id`
  unfoldable pub get_audit_event : String → DatabaseAction (Option AuditEvent)
  get_audit_event event_id =
      with_value (texts.uuid event_id) (λ id. query (λ s. find_row (λ e. e.id) id s.audit_events))

  -- `require_matching_duplicate`
  unfoldable pub require_matching_duplicate :
      Option AuditEvent → AuditEvent → DatabaseAction (Unit {0})
  require_matching_duplicate none incoming = throw (audit_event_conflict incoming.id)
  require_matching_duplicate (some existing) incoming =
      with_value (audit_events_equivalent texts existing incoming)
        (λ same. throw_if (not same) (audit_event_conflict incoming.id))

  -- Where a fact was not inserted, its id has one that is equivalent.
  abbrev pub match_unless : Bool → AuditEvent → DatabaseAction Bool
  match_unless true event = pure true
  match_unless false event = do
    existing ← get_audit_event event.id
    require_matching_duplicate existing event
    pure false

  -- Whether a fact was inserted, as `_append_audit` and `reconcile` do it.
  unfoldable pub append_or_match : AuditEvent → DatabaseAction Bool
  append_or_match event = do inserted ← append_audit_event event; match_unless inserted event
