-- ===== src/Platform/Sessions.antt =====
-- apps/backend/app/platform/sessions.py: `SessionService`. The digest, the password hasher and
-- `casefold` are parameters; a unit of work is a copy of the store that `commit` puts in its place.
pub mod Revoke
pub mod Login
pub mod Atomic
pub mod LogoutWork
pub mod Logout
pub mod LoggedOut
pub mod LoggedIn
mod Examples
use supersonic.Prelude.{
  modify, throw, throw_if, pure, true, false, none, some, ok, raise, ◌>>=◌, ◌>>◌, string_eq, ℕ,
  Bool, Exec, String, Option, ◌+◌, pure, List, is_none, throw, throw_if, if◌then◌else◌, ◌&&◌, not,
  ltb, [], ◌∷◌, strip, ◌==◌, leb, ◌||◌, nat_eq, text_length, Result, length,
}
use supersonic.Platform.Models.{
  role_eq, Principal, Role, PlatformSession, User, AuditEvent, AuditResult, AuditDelivery,
}
use supersonic.Platform.Store.{
  Store, revoke_session, append_event, get_session_by_token_digest, get_user_by_id,
  get_session_by_id, update_password_hash, add_session, get_user_by_username_norm,
}
use supersonic.Contract.{Time}
use supersonic.Platform.LoginThrottle.{
  Entries, Limits, ThrottleDecision, record_failure, record_success, check,
}

-- The exceptions of the service, of the database, and any that the hook `on_revoke` raises.
pub data SessionError : Type 0 where
  invalid_credentials : SessionError
  login_throttled : ℕ → SessionError
  credential_store_invalid : SessionError
  audit_persistence_failure : SessionError
  invalid_session : SessionError
  value_error : SessionError
  database_unavailable : SessionError
  revoke_hook_failed : SessionError

-- `PasswordVerification`
pub record PasswordVerification : Type 0 where
  pub verified : Bool
  pub updated_hash : Option String

-- The collaborators of the service and their state. `clock` gives no time where it is naive;
-- `outages` tells which calls meet a database that fails; `monotonic` is the throttle's clock;
-- `on_revoke`, where there is a hook, tells which calls of it raise, and `revoke_calls` are the ids
-- that it was called with, last first.
pub record SessionWorld : Type 0 where
  pub store : Store
  pub work : Store
  pub throttle : Entries
  pub clock : ℕ → Option Time
  pub readings : ℕ
  pub monotonic : ℕ → ℕ
  pub ticks : ℕ
  pub ids : ℕ → String
  pub issued : ℕ
  pub tokens : ℕ → String
  pub tokens_issued : ℕ
  pub outages : ℕ → Bool
  pub statements : ℕ
  pub on_revoke : Option (ℕ → Bool)
  pub revoke_calls : List String

abbrev pub SessionAction : Type 0 → Type 0
SessionAction = Exec SessionError SessionWorld

pub record IssuedSession : Type 0 where
  pub token : String
  pub platform_session_id : String
  pub user_id : String
  pub display_name : String
  pub role : Role
  pub expires_at : Time

pub record SessionIdentity : Type 0 where
  pub principal : Principal
  pub display_name : String
  pub expires_at : Time

-- A call that reaches the database.
unfoldable pub at_database : {A : Type 0} → (Store → A × Store) → SessionAction A
at_database f w =
    let w' = record w { statements = w.statements + 1 } in
    if w.outages w.statements
    then (raise database_unavailable, w')
    else (let (a, s) = f w.work in (ok a, record w' { work = s }))

abbrev pub reads : {A : Type 0} → (Store → A) → Store → A × Store
reads f s = (f s, s)

-- `self._readiness.check()`
unfoldable pub check_readiness : SessionAction (Unit {0})
unfolding at_database
check_readiness = at_database (λ s. (tt, s))

-- `uow.commit()`
unfoldable pub commit_work : SessionAction (Unit {0})
unfolding at_database
commit_work w =
    let (r, w') = at_database (λ s. (tt, s)) w in
    elim r [ ok _ ↦ (ok tt, record w' { store = w'.work }) | raise e ↦ (raise e, w') ]

-- `__aexit__`: what was not committed is rolled back. When the rollback or the close of the session
-- fails, that is raised in place of what the body returned or raised.
unfoldable pub close_work : {A : Type 0} → Result SessionError A → SessionAction A
close_work r w =
    let w' = record w { work = w.store; statements = w.statements + 1 } in
    if w.outages w.statements then (raise database_unavailable, w') else (r, w')

-- `async with self._uow_factory() as uow`
abbrev pub in_unit_of_work : {A : Type 0} → SessionAction A → SessionAction A
in_unit_of_work m w = let (r, w') = m (record w { work = w.store }) in close_work r w'

-- `_now`
unfoldable pub now_utc : SessionAction Time
now_utc w =
    let w' = record w { readings = w.readings + 1 } in
    elim (w.clock w.readings) [ none ↦ (raise value_error, w') | some now ↦ (ok now, w') ]

unfoldable pub next_uuid : SessionAction String
next_uuid w = (ok (w.ids w.issued), record w { issued = w.issued + 1 })

-- The test of `_resolve_current_user` on the session.
abbrev pub is_current : Time → PlatformSession → Bool
is_current now p = is_none p.revoked_at && ltb now p.expires_at

-- `_resolve_current_user`, with the session that it was called with.
unfoldable pub resolve_current_user :
    Option PlatformSession → Time → SessionAction (PlatformSession × User)
unfolding at_database
resolve_current_user none now = throw invalid_session
resolve_current_user (some p) now = do
  throw_if (not (is_current now p)) invalid_session
  user ← at_database (reads (get_user_by_id p.user_id))
  elim user [
    | none ↦ throw invalid_session
    | some u ↦ if is_none u.disabled_at then pure (p, u) else throw invalid_session
  ]

-- The events that the service appends.
abbrev pub session_event : String → Time → String → User → String → AuditEvent
session_event id now action user platform_session_id = record {
  id = id;
  occurred_at = now;
  action = action;
  result = AuditResult.succeeded;
  delivery = AuditDelivery.primary;
  actor_user_id = some user.id;
  actor_platform_session_id = some platform_session_id;
  actor_role = some user.role;
  endpoint = none;
  cockpit_session_id = none;
  command_name = none;
  correlation_id = none;
  target_type = none;
  target_id = none;
  parameters = [];
  error_code = none;
  source_type = "local_hmi";
}

-- `_append_logout_audit` and `_append_revoke_audit`, which differ in the action.
unfoldable pub append_session_audit : String → Time → User → String → SessionAction (Unit {0})
unfolding next_uuid at_database
append_session_audit action now user platform_session_id = do
  id ← next_uuid
  inserted ← at_database (append_event (session_event id now action user platform_session_id))
  throw_if (not inserted) audit_persistence_failure

-- `if self._on_revoke is not None: await self._on_revoke(…)`
unfoldable pub call_on_revoke : String → SessionAction (Unit {0})
call_on_revoke platform_session_id w = elim w.on_revoke [
  | none ↦ (ok tt, w)
  | some raises ↦
      let w' = record w { revoke_calls = platform_session_id ∷ w.revoke_calls } in
      if raises (length w.revoke_calls) then (raise revoke_hook_failed, w') else (ok tt, w')
]

-- The unit of work of `logout`, once the session and its user were found.
unfoldable pub log_out_found : PlatformSession → User → Time → SessionAction String
unfolding at_database append_session_audit commit_work
log_out_found p u now = do
  revoked ← at_database (revoke_session p.id now "logout")
  throw_if (not revoked) invalid_session
  append_session_audit "auth.logout" now u p.id
  commit_work
  pure p.id

module _ (digest : String → String) where
  abbrev pub find_current : String → Time → SessionAction (PlatformSession × User)
  find_current raw_secret now = do
    found ← at_database (reads (get_session_by_token_digest (digest raw_secret)))
    resolve_current_user found now

  -- `resolve`
  unfoldable pub resolve : String → SessionAction SessionIdentity
  unfolding check_readiness now_utc at_database resolve_current_user close_work
  resolve raw_secret = do
    check_readiness
    now ← now_utc
    in_unit_of_work (do
      (p, u) ← find_current raw_secret now
      pure (record {
        principal = record { user_id = u.id; role = u.role; session_id = p.id };
        display_name = u.display_name;
        expires_at = p.expires_at;
      }))

  -- The body of the unit of work in `logout`.
  unfoldable pub log_out : String → Time → SessionAction String
  unfolding at_database resolve_current_user log_out_found
  log_out raw_secret now = do (p, u) ← find_current raw_secret now; log_out_found p u now

  -- `logout`
  unfoldable pub logout : String → SessionAction Bool
  unfolding check_readiness now_utc log_out call_on_revoke close_work
  logout raw_secret = do
    check_readiness
    now ← now_utc
    platform_session_id ← in_unit_of_work (log_out raw_secret now)
    call_on_revoke platform_session_id
    pure true
