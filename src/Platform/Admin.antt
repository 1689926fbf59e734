-- ===== src/Platform/Admin.antt =====
-- apps/backend/app/platform/admin.py: `UserAdminService`.
pub mod Statements
pub mod Audit
pub mod Users
pub mod Sessions
pub mod Lists
pub mod Enabled
pub mod Keeps
pub mod Steps
pub mod LastAdmin
pub mod Remaining
pub mod Operations
pub mod Revoking
pub mod Administrators
mod Examples
use supersonic.Prelude.{
  Bool, true, false, not, ◌&&◌, ◌||◌, List, [], ◌∷◌, ◌++◌, String, ℕ, ◌+◌, Option, none, some,
  is_none, if◌then◌else◌, ◌==◌, ◌!=◌, string_eq, bool_eq, leb, ltb, nat_eq, map, length, contains,
  Exec, Result, ok, raise, pure, throw, throw_if, modify, ◌>>=◌, ◌>>◌, strip, text_length,
}
use supersonic.Prelude.Dict.{Dict}
use supersonic.Contract.{Time, JsonValue}
use supersonic.Platform.Models.{
  User, PlatformSession, Role, role_eq, AuditEvent, AuditResult, AuditDelivery, Principal,
}
use supersonic.Platform.Store.{
  Store, get_user_by_id, get_session_by_id, revoke_session as revoke_row,
}
use supersonic.Platform.Sanitization.{PythonTexts}
use supersonic.Platform.Database.{
  Database, DatabaseAction, PlatformError, call, close_unit, admin_forbidden, user_not_found,
  session_not_found, self_management_forbidden, last_admin_protected, admin_mutation_failed,
  audit_event_conflict, audit_unavailable, database_unavailable, other_error,
}

-- The service's collaborators and their state. `clock` gives no time where it is naive; `has_hook`
-- tells whether there is an `on_revoke`, `revoke_fails` which of its calls raise, and `revoke_calls`
-- the ids that it was called with, last first.
pub record AdminWorld : Type 0 where
  pub database : Database
  pub clock : ℕ → Option Time
  pub readings : ℕ
  pub ids : ℕ → String
  pub issued : ℕ
  pub has_hook : Bool
  pub revoke_fails : ℕ → Bool
  pub revoke_calls : List String

abbrev pub AdminAction : Type 0 → Type 0
AdminAction = Exec PlatformError AdminWorld

-- `UserSummary`
pub record UserSummary : Type 0 where
  pub id : String
  pub username_norm : String
  pub display_name : String
  pub role : Role
  pub disabled_at : Option Time
  pub created_at : Time
  pub updated_at : Time

-- `SessionSummary`
pub record SessionSummary : Type 0 where
  pub id : String
  pub user_id : String
  pub created_at : Time
  pub expires_at : Time
  pub last_seen_at : Option Time
  pub revoked_at : Option Time
  pub revoke_reason : Option String

-- `AdminMutationResult`
pub record AdminMutationResult : Type 0 where
  pub changed : Bool
  pub revoked_session_ids : List String
  pub revoke_propagation_failed_ids : List String

abbrev pub mutation_result : Bool → List String → AdminMutationResult
mutation_result changed ids = record {
  changed = changed;
  revoked_session_ids = ids;
  revoke_propagation_failed_ids = [];
}

-- `_ManagementAttempt`
pub record ManagementAttempt : Type 0 where
  pub correlation_id : String
  pub action : String
  pub target_type : String
  pub target_id : String
  pub parameters : Dict String JsonValue

-- `_user_summary`
abbrev pub user_summary : User → UserSummary
user_summary u = record {
  id = u.id;
  username_norm = u.username_norm;
  display_name = u.display_name;
  role = u.role;
  disabled_at = u.disabled_at;
  created_at = u.created_at;
  updated_at = u.updated_at;
}

-- `_session_summary`
abbrev pub session_summary : PlatformSession → SessionSummary
session_summary p = record {
  id = p.id;
  user_id = p.user_id;
  created_at = p.created_at;
  expires_at = p.expires_at;
  last_seen_at = p.last_seen_at;
  revoked_at = p.revoked_at;
  revoke_reason = p.revoke_reason;
}

abbrev pub on_database : {A : Type 0} → DatabaseAction A → AdminAction A
on_database m w = let (r, d) = m w.database in (r, record w { database = d })

-- `self._readiness.check()`
unfoldable pub check_ready : AdminAction (Unit {0})
check_ready = on_database (call (λ s. (tt, s)))

abbrev pub begin : AdminWorld → AdminWorld
begin w = record w { database = record w.database { work = w.database.store } }

-- `async with self._uow_factory() as uow`
abbrev pub in_admin_unit : {A : Type 0} → AdminAction A → AdminAction A
in_admin_unit m w = let (r, w') = m (begin w) in on_database (close_unit r) w'

-- The outcome of a unit of work whose body returned only after its commit.
abbrev pub prefer_committed :
    {A : Type 0} → Result PlatformError A → Result PlatformError A → Result PlatformError A
prefer_committed (ok a) closed = ok a
prefer_committed (raise e) closed = closed

-- The same with `except Exception: if committed_result is not None: return committed_result`.
abbrev pub in_committed_admin_unit : {A : Type 0} → AdminAction A → AdminAction A
in_committed_admin_unit m w =
    let (r, w') = m (begin w) in
    let (closed, w'') = on_database (close_unit r) w' in (prefer_committed r closed, w'')

-- `_now`
unfoldable pub admin_now : AdminAction Time
admin_now w =
    let w' = record w { readings = w.readings + 1 } in
    elim (w.clock w.readings) [ none ↦ (raise other_error, w') | some now ↦ (ok now, w') ]

-- `self._uuid_factory()`
unfoldable pub new_uuid : AdminAction String
new_uuid w = (ok (w.ids w.issued), record w { issued = w.issued + 1 })

-- `_require_admin`
abbrev pub require_admin : Principal → AdminAction (Unit {0})
require_admin actor = throw_if (actor.role != Role.admin) admin_forbidden

-- `_validate_limit`
abbrev pub validate_limit : ℕ → AdminAction (Unit {0})
validate_limit limit = throw_if (not (leb 1 limit && leb limit 100)) other_error

-- `_validate_reason`
abbrev pub validate_reason : String → AdminAction (Unit {0})
validate_reason reason =
    throw_if (reason == "" || strip reason == "" || ltb 64 (text_length reason)) other_error

-- `_audit_failure`
abbrev pub audit_failure : PlatformError → AuditResult × String
audit_failure admin_forbidden = (AuditResult.rejected, "admin_forbidden")
audit_failure user_not_found = (AuditResult.rejected, "user_not_found")
audit_failure session_not_found = (AuditResult.rejected, "session_not_found")
audit_failure self_management_forbidden = (AuditResult.rejected, "self_management_forbidden")
audit_failure last_admin_protected = (AuditResult.rejected, "last_admin_protected")
audit_failure admin_mutation_failed = (AuditResult.error, "admin_mutation_failed")
audit_failure (audit_event_conflict _) = (AuditResult.error, "audit_conflict")
audit_failure database_unavailable = (AuditResult.error, "database_unavailable")
audit_failure audit_unavailable = (AuditResult.error, "audit_unavailable")
audit_failure other_error = (AuditResult.error, "internal_error")

-- What the two commits of audit facts make of an exception.
abbrev pub audit_error : PlatformError → PlatformError
audit_error (audit_event_conflict id) = audit_event_conflict id
audit_error _ = audit_unavailable

abbrev pub translated : {A : Type 0} → Result PlatformError A → Result PlatformError A
translated (ok a) = ok a
translated (raise e) = raise (audit_error e)

-- `_audit_event`
abbrev pub management_event :
    Principal
    → ManagementAttempt
    → String
    → Time
    → AuditResult
    → Dict String JsonValue
    → Option String
    → AuditEvent
management_event actor attempt event_id now result parameters error_code = record {
  id = event_id;
  occurred_at = now;
  action = attempt.action;
  result = result;
  delivery = AuditDelivery.primary;
  actor_user_id = some actor.user_id;
  actor_platform_session_id = some actor.session_id;
  actor_role = some actor.role;
  endpoint = none;
  cockpit_session_id = none;
  command_name = none;
  correlation_id = some attempt.correlation_id;
  target_type = some attempt.target_type;
  target_id = some attempt.target_id;
  parameters = parameters;
  error_code = error_code;
  source_type = "local_hmi";
}
