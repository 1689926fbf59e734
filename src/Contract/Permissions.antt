-- ===== src/Contract/Permissions.antt =====
-- apps/backend/app/contracts/v1.py: ENDPOINT_COMMAND_PERMISSIONS.
use supersonic.Prelude.{List, [], ◌∷◌}
use supersonic.Contract.Names.{EndpointId, CommandName, command_name_enum}

unfoldable pub endpoint_command_permissions : EndpointId → List CommandName
endpoint_command_permissions EndpointId.cluster = CommandName.acknowledge_risk ∷ []
endpoint_command_permissions EndpointId.hud = []
endpoint_command_permissions EndpointId.center =
    CommandName.select_destination ∷ CommandName.confirm_route ∷ CommandName.acknowledge_risk
    ∷ CommandName.resolve_risk ∷ CommandName.set_media_state ∷ CommandName.set_cabin_control ∷ []
endpoint_command_permissions EndpointId.passenger =
    CommandName.set_media_state ∷ CommandName.submit_trip_suggestion ∷ CommandName.set_cabin_control
    ∷ []
endpoint_command_permissions EndpointId.overview = []
endpoint_command_permissions EndpointId.control = command_name_enum.members
