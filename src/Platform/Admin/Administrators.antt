-- ===== src/Platform/Admin/Administrators.antt =====
-- apps/backend/app/platform/admin.py: the administrators after any operations.
use supersonic.Prelude.{
  Bool, false, not, ◌&&◌, List, [], ◌∷◌, String, Option, none, some, ok, raise, Result, pure,
  throw_if, ◌>>=◌, ◌>>◌, is_none, if◌then◌else◌, ◌==◌, ◌!=◌, bool_eq, ◌||◌, strip, ltb, text_length,
  string_eq,
}
use supersonic.Prelude.Triples.{Ends, Triple-if}
use supersonic.Platform.Models.{User, Principal, Role, role_eq, PlatformSession}
use supersonic.Contract.{Time, JsonValue}
use supersonic.Platform.Sanitization.{PythonTexts}
use supersonic.Platform.Admin.{
  AdminWorld, AdminAction, AdminMutationResult, ManagementAttempt, in_admin_unit,
  in_committed_admin_unit, check_ready, admin_now, mutation_result,
}
use supersonic.Platform.Admin.Audit.{commit_attempted, finish_mutation}
use supersonic.Platform.Admin.Users.{
  find_user, require_user, read_user, change_role_after_attempt, change_role_of, change_role,
  set_disabled_after_attempt, set_disabled_of, set_disabled, disable_action, role_parameters,
  change_role_work, set_disabled_work, same_identifier,
}
use supersonic.Platform.Admin.Sessions.{
  revoke_session_work, revoke_session_after_attempt, revoke_session_of, read_session,
  revoke_platform_session, revoke_parameters,
}
use supersonic.Platform.Admin.Keeps.{
  Keeps, Keeps-bind, Committed, throw_if-Keeps, in_admin_unit-Keeps, in_committed_admin_unit-Keeps,
}
use supersonic.Platform.Admin.Steps.{
  check_ready-Keeps, admin_now-Keeps, commit_attempted-Keeps, finish_mutation-Keeps,
}
use supersonic.Platform.Admin.LastAdmin.{IsManaged, Managed}
use supersonic.Platform.Admin.Remaining.{
  find_user-Keeps, change_role_work-Keeps, set_disabled_work-Keeps,
}
use supersonic.Platform.Admin.Operations.{
  AdminOperation, perform, perform_all, request_role, request_disabled, request_revoke,
}
use supersonic.Prelude.Dict.{Dict}
use supersonic.Platform.Database.{
  admin_forbidden, self_management_forbidden, other_error, PlatformError,
}
use supersonic.Platform.Admin.Revoking.{revoke_work-Keeps, read_session-Keeps}

-- The committed users are managed.
abbrev pub HasManagers : AdminWorld → Type 0
HasManagers = Committed IsManaged

module _ (texts : PythonTexts) where
  require_user-Keeps : (o : Option User) → Keeps Managed (require_user texts o)
  require_user-Keeps none = λ w h. h
  require_user-Keeps (some u) = λ w h. h

  module _ (actor : Principal) where
    read_user-Keeps : (user_id : String) → Keeps Managed (read_user texts user_id)
    unfolding read_user
    read_user-Keeps user_id =
        Keeps-bind Managed (find_user texts user_id) _ (find_user-Keeps texts user_id)
          require_user-Keeps

    -- A mutation at the time of the clock.
    timed-Keeps :
        (work : Time → AdminAction AdminMutationResult)
        → ((now : Time) → Keeps Managed (work now))
        → Keeps HasManagers (admin_now >>= λ now. in_committed_admin_unit (work now))
    timed-Keeps work k =
        Keeps-bind HasManagers admin_now _ (admin_now-Keeps (λ d. IsManaged d.store.users))
          λ now. in_committed_admin_unit-Keeps IsManaged (work now) (k now)

    audited-Keeps :
        (action type id : String) (parameters : Dict String JsonValue)
        (mutation : ManagementAttempt → AdminAction AdminMutationResult)
        → ((attempt : ManagementAttempt) → Keeps HasManagers (mutation attempt))
        → Keeps HasManagers (
            commit_attempted texts actor action type id parameters >>= λ attempt.
            finish_mutation texts actor attempt (mutation attempt))
    audited-Keeps action type id parameters mutation k =
        Keeps-bind HasManagers (commit_attempted texts actor action type id parameters) _
          (commit_attempted-Keeps IsManaged texts actor action type id parameters)
          λ attempt.
            finish_mutation-Keeps IsManaged texts actor attempt (mutation attempt) (k attempt)

    guarded-Keeps :
        (b : Bool) (e : PlatformError) (m : AdminAction AdminMutationResult)
        → Keeps HasManagers m
        → Keeps HasManagers (throw_if b e >> m)
    guarded-Keeps b e m k =
        Keeps-bind HasManagers (throw_if b e) (λ _. m) (throw_if-Keeps HasManagers b e) λ _. k

    unless-Keeps :
        (b : Bool) (result : AdminMutationResult) (m : AdminAction AdminMutationResult)
        → Keeps HasManagers m
        → Keeps HasManagers (if b then pure result else m)
    unless-Keeps b result m k =
        Triple-if HasManagers b (pure result) m (λ _. HasManagers) (λ _. HasManagers) (λ w h. h) k

    change_of-Keeps :
        (u : User) (new_role : Role) → Keeps HasManagers (change_role_of texts actor u new_role)
    unfolding change_role_of change_role_after_attempt
    change_of-Keeps u new_role = unless-Keeps (u.role == new_role) (mutation_result false []) _ (
        audited-Keeps "user.role_change" "user" u.id (role_parameters u.role new_role)
          (change_role_after_attempt texts actor u.id new_role)
          λ attempt.
            timed-Keeps (λ now. change_role_work texts actor attempt now u.id new_role)
              λ now. change_role_work-Keeps texts actor attempt now u.id new_role)

    change_role-Keeps :
        (user_id : String) (new_role : Role)
        → Keeps HasManagers (change_role texts actor user_id new_role)
    unfolding change_role
    change_role-Keeps user_id new_role =
        guarded-Keeps (actor.role != Role.admin) admin_forbidden _ (
          guarded-Keeps (same_identifier texts user_id actor.user_id) self_management_forbidden _ (
            Keeps-bind HasManagers check_ready _ (check_ready-Keeps IsManaged) λ _.
              Keeps-bind HasManagers (in_admin_unit (read_user texts user_id))
                (λ u. change_role_of texts actor u new_role)
                (in_admin_unit-Keeps IsManaged (read_user texts user_id) (read_user-Keeps user_id))
                λ u. change_of-Keeps u new_role))

    disable_of-Keeps :
        (u : User) (disabled : Bool) → Keeps HasManagers (set_disabled_of texts actor u disabled)
    unfolding set_disabled_of set_disabled_after_attempt
    disable_of-Keeps u disabled =
        unless-Keeps (not (is_none u.disabled_at) == disabled) (mutation_result false []) _ (
          audited-Keeps (disable_action texts actor disabled) "user" u.id []
            (set_disabled_after_attempt texts actor u.id disabled)
            λ attempt.
              timed-Keeps (λ now. set_disabled_work texts actor attempt now u.id disabled)
                λ now. set_disabled_work-Keeps texts actor attempt now u.id disabled)

    set_disabled-Keeps :
        (user_id : String) (disabled : Bool)
        → Keeps HasManagers (set_disabled texts actor user_id disabled)
    unfolding set_disabled
    set_disabled-Keeps user_id disabled =
        guarded-Keeps (actor.role != Role.admin) admin_forbidden _ (
          guarded-Keeps (disabled && same_identifier texts user_id actor.user_id)
            self_management_forbidden _
            (Keeps-bind HasManagers check_ready _ (check_ready-Keeps IsManaged) λ _.
              Keeps-bind HasManagers (in_admin_unit (read_user texts user_id))
                (λ u. set_disabled_of texts actor u disabled)
                (in_admin_unit-Keeps IsManaged (read_user texts user_id) (read_user-Keeps user_id))
                λ u. disable_of-Keeps u disabled))

    revoke_of-Keeps :
        (p : PlatformSession) (reason : String)
        → Keeps HasManagers (revoke_session_of texts actor p reason)
    unfolding revoke_session_of revoke_session_after_attempt
    revoke_of-Keeps p reason =
        unless-Keeps (not (is_none p.revoked_at)) (mutation_result false []) _ (
          audited-Keeps "session.revoke" "platform_session" p.id (revoke_parameters p reason)
            (revoke_session_after_attempt texts actor p.id reason)
            λ attempt.
              timed-Keeps (λ now. revoke_session_work texts actor attempt now p.id reason)
                λ now. revoke_work-Keeps texts actor attempt now p.id reason)

    revoke-Keeps :
        (session_id reason : String)
        → Keeps HasManagers (revoke_platform_session texts actor session_id reason)
    unfolding revoke_platform_session
    revoke-Keeps session_id reason = guarded-Keeps (actor.role != Role.admin) admin_forbidden _ (
        guarded-Keeps (reason == "" || strip reason == "" || ltb 64 (text_length reason))
          other_error _
          (Keeps-bind HasManagers check_ready _ (check_ready-Keeps IsManaged) λ _.
            Keeps-bind HasManagers (in_admin_unit (read_session texts session_id))
              (λ p. revoke_session_of texts actor p reason)
              (in_admin_unit-Keeps IsManaged (read_session texts session_id)
                (read_session-Keeps texts actor session_id))
              λ p. revoke_of-Keeps p reason))

  perform-Keeps : (operation : AdminOperation) → Keeps HasManagers (perform texts operation)
  perform-Keeps (request_role actor user_id new_role) = change_role-Keeps actor user_id new_role
  perform-Keeps (request_disabled actor user_id disabled) =
      set_disabled-Keeps actor user_id disabled
  perform-Keeps (request_revoke actor session_id reason) = revoke-Keeps actor session_id reason

  left :
      {A : Type 0} (r : Result PlatformError A × AdminWorld)
      → Ends (λ _. HasManagers) (λ _. HasManagers) r
      → HasManagers r.1
  left (ok a, w) h = h
  left (raise e, w) h = h

  -- If the ids of the committed users differ and an administrator is enabled, then after any
  -- sequence of role changes, disablings, enablings and session revocations, by any actors,
  -- whatever each one returned or raised and whichever calls of the database failed, the ids of the
  -- committed users differ and an administrator is enabled.
  pub perform_all-HasManagers :
      (operations : List AdminOperation) (w : AdminWorld)
      → HasManagers w
      → HasManagers (perform_all texts operations w)
  unfolding perform_all
  perform_all-HasManagers [] w h = h
  perform_all-HasManagers (operation ∷ operations) w h =
      perform_all-HasManagers operations (perform texts operation w).1
        (left (perform texts operation w) (perform-Keeps operation w h))
