-- ===== src/Platform/Admin/Audit.antt =====
-- apps/backend/app/platform/admin.py: the audit facts of the administration, before and after a
-- mutation, and the calls of `on_revoke`.
use supersonic.Prelude.{
  Bool, true, false, List, [], ◌∷◌, String, Option, none, some, if◌then◌else◌, ok, raise, pure,
  Result, ◌>>=◌, ◌>>◌, length,
}
use supersonic.Prelude.Dict.{Dict}
use supersonic.Contract.{Time, JsonValue}
use supersonic.Platform.Models.{Principal, AuditResult}
use supersonic.Platform.Sanitization.{PythonTexts}
use supersonic.Platform.Database.{PlatformError, append_or_match, commit_unit}
use supersonic.Platform.Admin.{
  AdminAction, ManagementAttempt, AdminMutationResult, on_database, in_admin_unit,
  in_committed_admin_unit, admin_now, new_uuid, audit_failure, translated, management_event,
}

abbrev pub translating : {A : Type 0} → AdminAction A → AdminAction A
translating m w = let (r, w') = m w in (translated r, w')

-- `failed_ids.append(session_id)` where the call of `on_revoke` raised
abbrev pub collect : Bool → String → List String → List String
collect failed id ids = if failed then id ∷ ids else ids

-- The loop of `_propagate_revokes`
unfoldable pub propagate_each : List String → AdminAction (List String)
propagate_each [] w = (ok [], w)
propagate_each (id ∷ ids) w =
    let failed = w.revoke_fails (length w.revoke_calls) in
    (do rest ← propagate_each ids; pure (collect failed id rest))
      (record w { revoke_calls = id ∷ w.revoke_calls })

-- `if self._on_revoke is None: return ()`
unfoldable pub propagate_if : Bool → List String → AdminAction (List String)
propagate_if false ids = pure []
propagate_if true ids = propagate_each ids

-- `_propagate_revokes`
unfoldable pub propagate_revokes : List String → AdminAction (List String)
propagate_revokes ids w = propagate_if w.has_hook ids w

module _ (texts : PythonTexts) where
  -- `_append_outcome`
  unfoldable pub append_outcome :
      Principal
      → ManagementAttempt
      → AuditResult
      → Time
      → Dict String JsonValue
      → Option String
      → AdminAction (Unit {0})
  append_outcome actor attempt result now parameters error_code = do
    id ← new_uuid
    _ ←
        on_database (
          append_or_match texts
            (management_event actor attempt id now result parameters error_code))
    pure tt

  -- The unit of work of `_commit_attempted`
  unfoldable pub append_attempted : Principal → ManagementAttempt → Time → AdminAction (Unit {0})
  append_attempted actor attempt now = do
    _ ← on_database (
        append_or_match texts (
          management_event actor attempt attempt.correlation_id now AuditResult.attempted
            attempt.parameters none))
    on_database commit_unit

  -- `_commit_attempted`
  unfoldable pub commit_attempted :
      Principal → String → String → String → Dict String JsonValue → AdminAction ManagementAttempt
  commit_attempted actor action target_type target_id parameters = do
    correlation_id ← new_uuid
    let attempt : ManagementAttempt = record {
      correlation_id = correlation_id;
      action = action;
      target_type = target_type;
      target_id = target_id;
      parameters = parameters;
    } in
        (do
          now ← admin_now
          translating (in_admin_unit (append_attempted actor attempt now))
          pure attempt)

  -- The unit of work of `_record_failed_outcome`
  unfoldable pub append_failed :
      Principal → ManagementAttempt → PlatformError → AdminAction (Unit {0})
  append_failed actor attempt error = do
    now ← admin_now
    append_outcome actor attempt (audit_failure error).0 now attempt.parameters
        (some (audit_failure error).1)
    on_database commit_unit

  -- `_record_failed_outcome`
  unfoldable pub record_failed_outcome :
      Principal → ManagementAttempt → PlatformError → AdminAction (Unit {0})
  record_failed_outcome actor attempt error =
      translating (in_committed_admin_unit (append_failed actor attempt error))

  -- `except Exception as error: await self._record_failed_outcome(…); raise`
  abbrev pub audit_result_of :
      Principal
      → ManagementAttempt
      → Result PlatformError AdminMutationResult
      → AdminAction AdminMutationResult
  audit_result_of actor attempt (ok result) = pure result
  audit_result_of actor attempt (raise error) = do
    record_failed_outcome actor attempt error
    λ w. (raise error, w)

  -- What each mutation does after its attempted fact.
  unfoldable pub finish_mutation :
      Principal
      → ManagementAttempt
      → AdminAction AdminMutationResult
      → AdminAction AdminMutationResult
  finish_mutation actor attempt mutation = do
    result ← (λ w. let (r, w') = mutation w in audit_result_of actor attempt r w')
    failed_ids ← propagate_revokes result.revoked_session_ids
    pure (record result { revoke_propagation_failed_ids = failed_ids })
