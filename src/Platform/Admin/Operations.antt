-- ===== src/Platform/Admin/Operations.antt =====
-- apps/backend/app/platform/admin.py: the calls that `UserAdminService` takes, one after another.
use supersonic.Prelude.{Bool, List, [], ◌∷◌, String}
use supersonic.Platform.Models.{Principal, Role}
use supersonic.Platform.Sanitization.{PythonTexts}
use supersonic.Platform.Admin.{AdminWorld, AdminAction, AdminMutationResult}
use supersonic.Platform.Admin.Users.{change_role, set_disabled}
use supersonic.Platform.Admin.Sessions.{revoke_platform_session}

pub data AdminOperation : Type 0 where
  request_role : Principal → String → Role → AdminOperation
  request_disabled : Principal → String → Bool → AdminOperation
  request_revoke : Principal → String → String → AdminOperation

module _ (texts : PythonTexts) where
  abbrev pub perform : AdminOperation → AdminAction AdminMutationResult
  perform (request_role actor user_id new_role) = change_role texts actor user_id new_role
  perform (request_disabled actor user_id disabled) = set_disabled texts actor user_id disabled
  perform (request_revoke actor session_id reason) =
      revoke_platform_session texts actor session_id reason

  -- The world after all of them, whatever each one returned or raised.
  unfoldable pub perform_all : List AdminOperation → AdminWorld → AdminWorld
  perform_all [] w = w
  perform_all (operation ∷ operations) w = perform_all operations (perform operation w).1
