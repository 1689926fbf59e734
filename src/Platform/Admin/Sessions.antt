-- ===== src/Platform/Admin/Sessions.antt =====
-- apps/backend/app/platform/admin.py: `revoke_session`.
use supersonic.Prelude.{
  Bool, true, false, not, [], ◌∷◌, String, Option, none, some, is_none, if◌then◌else◌, pure, throw,
  ◌>>=◌, ◌>>◌,
}
use supersonic.Prelude.Dict.{Dict}
use supersonic.Contract.{Time, JsonValue}
use supersonic.Platform.Models.{PlatformSession, Principal}
use supersonic.Platform.Store.{get_session_by_id, revoke_session as revoke_row}
use supersonic.Platform.Sanitization.{PythonTexts}
use supersonic.Platform.Database.{call, query, with_value, session_not_found, admin_mutation_failed}
use supersonic.Platform.Admin.{
  AdminAction, ManagementAttempt, AdminMutationResult, mutation_result, on_database, check_ready,
  in_admin_unit, in_committed_admin_unit, admin_now, require_admin, validate_reason,
}
use supersonic.Platform.Admin.Audit.{commit_attempted, finish_mutation}
use supersonic.Platform.Admin.Users.{conclude}

abbrev pub revoke_parameters : PlatformSession → String → Dict String JsonValue
revoke_parameters p reason =
    ("targetUserId", JsonValue.string p.user_id) ∷ ("reason", JsonValue.string reason) ∷ []

module _ (texts : PythonTexts) where
  -- `uow.platform_sessions.get_by_id`
  unfoldable pub find_session : String → AdminAction (Option PlatformSession)
  find_session session_id =
      on_database (with_value (texts.uuid session_id) (λ id. query (get_session_by_id id)))

  abbrev pub require_session : Option PlatformSession → AdminAction PlatformSession
  require_session none = throw session_not_found
  require_session (some p) = pure p

  -- The session after an update that changed no row.
  abbrev pub require_revoked : Option PlatformSession → AdminAction Bool
  require_revoked none = throw session_not_found
  require_revoked (some current) =
      if is_none current.revoked_at then throw admin_mutation_failed else pure false

  unfoldable pub settle_revoked : Bool → PlatformSession → AdminAction Bool
  settle_revoked true p = pure true
  settle_revoked false p = do current ← find_session p.id; require_revoked current

  unfoldable pub revoke_target : PlatformSession → Time → String → AdminAction Bool
  revoke_target p now reason =
      if not (is_none p.revoked_at)
      then pure false
      else (do updated ← on_database (call (revoke_row p.id now reason)); settle_revoked updated p)

  -- The unit of work of `_revoke_session_after_attempt`
  unfoldable pub revoke_session_work :
      Principal → ManagementAttempt → Time → String → String → AdminAction AdminMutationResult
  revoke_session_work actor attempt now session_id reason = do
    found ← find_session session_id
    p ← require_session found
    changed ← revoke_target p now reason
    conclude texts actor attempt now (revoke_parameters p reason) changed
        (if changed then p.id ∷ [] else [])

  -- `_revoke_session_after_attempt`
  unfoldable pub revoke_session_after_attempt :
      Principal → String → String → ManagementAttempt → AdminAction AdminMutationResult
  revoke_session_after_attempt actor session_id reason attempt = do
    now ← admin_now
    in_committed_admin_unit (revoke_session_work actor attempt now session_id reason)

  -- `revoke_session`, once its candidate was read
  unfoldable pub revoke_session_of :
      Principal → PlatformSession → String → AdminAction AdminMutationResult
  revoke_session_of actor p reason =
      if not (is_none p.revoked_at) then pure (mutation_result false []) else (do
        attempt ←
            commit_attempted texts actor "session.revoke" "platform_session" p.id
              (revoke_parameters p reason)
        finish_mutation texts actor attempt
            (revoke_session_after_attempt actor p.id reason attempt))

  -- The unit of work that reads the candidate
  unfoldable pub read_session : String → AdminAction PlatformSession
  read_session session_id = do found ← find_session session_id; require_session found

  -- `UserAdminService.revoke_session`
  unfoldable pub revoke_platform_session :
      Principal → String → String → AdminAction AdminMutationResult
  revoke_platform_session actor session_id reason = do
    require_admin actor
    validate_reason reason
    check_ready
    p ← in_admin_unit (read_session session_id)
    revoke_session_of actor p reason
