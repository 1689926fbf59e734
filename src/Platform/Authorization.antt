-- ===== src/Platform/Authorization.antt =====
-- apps/backend/app/platform/authorization.py: `RoleCommandPolicy`.
use supersonic.Prelude.{
  refl, arith, Result, ok, raise, List, contains, ◌∷◌, ◌≢◌, ◌≡◌, if◌then◌else◌, [], ◌==◌, true,
  false, ◌↔◌, ◌&&◌,
}
use supersonic.Platform.Models.{PlatformAccessError, Principal, Role, role_forbidden, role_eq}
use supersonic.Contract.{CommandName, CommandName-discrete, command_name_eq}

unfoldable pub operator_commands : List CommandName
operator_commands =
    CommandName.set_theme ∷ CommandName.set_system_mode ∷ CommandName.select_destination
    ∷ CommandName.confirm_route ∷ CommandName.acknowledge_risk ∷ CommandName.resolve_risk
    ∷ CommandName.set_media_state ∷ CommandName.submit_trip_suggestion
    ∷ CommandName.set_cabin_control ∷ []

abbrev pub viewer_forbidden : PlatformAccessError
viewer_forbidden = role_forbidden "Viewer sessions are read-only."

abbrev pub command_forbidden_to_role : PlatformAccessError
command_forbidden_to_role = role_forbidden "The current role cannot issue this command."

unfoldable pub authorize : Principal → CommandName → Result PlatformAccessError (Unit {0})
unfolding operator_commands
authorize principal command_name =
    if principal.role == Role.admin
    then ok tt
    else (if principal.role == Role.operator && contains command_name operator_commands
        then ok tt
        else (if principal.role == Role.viewer
            then raise viewer_forbidden
            else raise command_forbidden_to_role))

-- Who may issue which command.
abbrev pub MayIssue : Role → CommandName → Type 0
MayIssue Role.admin name = Unit {0}
MayIssue Role.operator name = name ≢ CommandName.reset_session
MayIssue Role.viewer name = ⊥

operator_lem :
    (name : CommandName) → name ≢ CommandName.reset_session → contains name operator_commands ≡ true
unfolding operator_commands contains CommandName-discrete
operator_lem CommandName.reset_session n = absurd (n refl)
operator_lem _ n = refl

reset-operator : contains CommandName.reset_session operator_commands ≡ false
unfolding operator_commands contains CommandName-discrete
reset-operator = refl

authorize_by :
    (role : Role) (name : CommandName) (principal : Principal)
    → principal.role ≡ role
    → (authorize principal name ≡ ok tt) ↔ MayIssue role name
unfolding authorize
authorize_by Role.admin name principal e = (λ h. ground arith, λ h. ground arith)
authorize_by Role.operator name principal e =
    (λ h n. ground (arith, reset-operator), λ h. ground (arith, operator_lem name h))
authorize_by Role.viewer name principal e = (λ h. ground arith, λ h. ground arith)

-- The role policy admits a command exactly for an administrator, or for an operator when it is not
-- RESET_SESSION.
pub authorize_iff :
    (principal : Principal) (name : CommandName)
    → (authorize principal name ≡ ok tt) ↔ MayIssue principal.role name
authorize_iff principal name = authorize_by principal.role name principal refl

pub authorize-raise :
    (principal : Principal) (name : CommandName) (e : PlatformAccessError)
    → authorize principal name ≡ raise e
    → (e.code ≡ "role_forbidden") × (e.status_code ≡ 403)
unfolding authorize
authorize-raise principal name e h = ground arith
