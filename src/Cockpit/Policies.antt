-- ===== src/Cockpit/Policies.antt =====
-- apps/backend/app/cockpit/policies.py: `CommandPolicy`.
pub mod Access
use supersonic.Prelude.{
  Option, none, some, List, [], ◌∷◌, Result, ok, raise, if◌then◌else◌, ◌!=◌, not, ◌||◌, string_eq,
  contains, concat,
}
use supersonic.Contract.{
  EndpointId, endpoint_id_value, endpoint_id_eq, CommandName, command_name_value, command_name_eq,
  CommandEnvelopeV1, endpoint_command_permissions,
}
use supersonic.Cockpit.Errors.{CommandRejected, rejected_with}

unfoldable pub implemented_commands : List CommandName
implemented_commands =
    CommandName.set_theme ∷ CommandName.set_system_mode ∷ CommandName.select_destination
    ∷ CommandName.confirm_route ∷ CommandName.acknowledge_risk ∷ CommandName.resolve_risk
    ∷ CommandName.set_media_state ∷ CommandName.submit_trip_suggestion
    ∷ CommandName.set_cabin_control ∷ CommandName.reset_session ∷ []

-- `server_endpoint or command.payload.endpoint`: a member's text is never empty.
abbrev pub effective_endpoint : Option EndpointId → EndpointId → EndpointId
effective_endpoint none declared = declared
effective_endpoint (some server) declared = server

abbrev pub endpoint_mismatch : CommandRejected
endpoint_mismatch =
    rejected_with 403 "endpoint_mismatch"
      "Declared endpoint must match the server-owned endpoint context."

abbrev pub source_mismatch : CommandRejected
source_mismatch =
    rejected_with 403 "source_mismatch" "Command source must match the server-owned endpoint."

abbrev pub command_forbidden : EndpointId → CommandName → CommandRejected
command_forbidden endpoint name = rejected_with 403 "command_forbidden" (
    concat (
      "Endpoint "
      ∷ endpoint_id_value endpoint
      ∷ " cannot issue "
      ∷ command_name_value name
      ∷ "."
      ∷ []))

abbrev pub command_not_implemented : CommandName → CommandRejected
command_not_implemented name =
    rejected_with 501 "command_not_implemented"
      (concat ("Command " ∷ command_name_value name ∷ " is reserved but not implemented." ∷ []))

-- The tests of `validate`, at the endpoint that it settles on.
validate_at : EndpointId → CommandEnvelopeV1 → Result CommandRejected (Unit {0})
unfolding implemented_commands
validate_at endpoint command =
    let payload = command.payload in
    let source = command.source in
    if payload.endpoint != endpoint
    then raise endpoint_mismatch
    else (if source.kind != "endpoint" || source.id != endpoint_id_value endpoint
        then raise source_mismatch
        else (if not (contains payload.name (endpoint_command_permissions endpoint))
            then raise (command_forbidden endpoint payload.name)
            else (if not (contains payload.name implemented_commands)
                then raise (command_not_implemented payload.name)
                else ok tt)))

-- `CommandPolicy.validate`
unfoldable pub validate : CommandEnvelopeV1 → Option EndpointId → Result CommandRejected (Unit {0})
unfolding validate_at
validate command server_endpoint =
    validate_at (effective_endpoint server_endpoint command.payload.endpoint) command
