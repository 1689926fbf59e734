-- ===== src/Platform/Admin/Examples.antt =====
-- Two administrators, one of whom is made a viewer.
use supersonic.Prelude.{
  refl, true, false, none, some, ok, ◌∷◌, [], ◌≡◌, String, Option, ℕ, zero, suc,
}
use supersonic.Platform.Models.{User, PlatformSession, Role, Principal}
use supersonic.Platform.Store.{Store}
use supersonic.Platform.Sanitization.Examples.{plain_texts, first_id, second_id}
use supersonic.Platform.Admin.{AdminWorld}
use supersonic.Platform.Admin.Operations.{perform_all, request_role}
use supersonic.Platform.Admin.Administrators.{perform_all-HasManagers, HasManagers}

abbrev person : String → Role → User
person id role = record {
  id = id;
  username_norm = "name";
  display_name = "Name";
  password_hash = "hash";
  role = role;
  disabled_at = none;
  created_at = 1;
  updated_at = 1;
}

abbrev open_session : String → String → PlatformSession
open_session id user_id = record {
  id = id;
  user_id = user_id;
  token_digest = "digest";
  created_at = 1;
  expires_at = 9;
  last_seen_at = none;
  revoked_at = none;
  revoke_reason = none;
}

abbrev two_admins : Store
two_admins = record {
  users = person first_id Role.admin ∷ person second_id Role.admin ∷ [];
  platform_sessions = open_session first_id second_id ∷ [];
  audit_events = [];
}

-- The ids that are issued differ in their last characters.
abbrev issued_id : ℕ → String
issued_id zero = "00000000-0000-4000-8000-000000000000"
issued_id (suc zero) = "00000000-0000-4000-8000-000000000001"
issued_id _ = "00000000-0000-4000-8000-000000000002"

abbrev office : AdminWorld
office = record {
  database = record { store = two_admins; work = two_admins; outages = λ _. false; calls = 0 };
  clock = λ _. some 5;
  readings = 0;
  ids = issued_id;
  issued = 0;
  has_hook = true;
  revoke_fails = λ _. false;
  revoke_calls = [];
}

abbrev first_admin : Principal
first_admin = record { user_id = first_id; role = Role.admin; session_id = first_id }

office-HasManagers : HasManagers office
unfolding supersonic.Prelude.contains supersonic.Prelude.String-discrete
    supersonic.Platform.Admin.Statements.any_match supersonic.Platform.Models.Role-discrete
office-HasManagers = ((refl, (refl, tt)), refl)

perform_all-HasManagers_example :
    HasManagers
      (perform_all plain_texts (request_role first_admin second_id Role.viewer ∷ []) office)
perform_all-HasManagers_example =
    perform_all-HasManagers plain_texts (request_role first_admin second_id Role.viewer ∷ []) office
      office-HasManagers
