-- ===== src/Contract/Names.antt =====
-- apps/backend/app/contracts/v1.py: the enumerations of the gp05.v1 contract.
use supersonic.Prelude.{String, [], ◌∷◌, Eq}
use supersonic.Contract.Enum.{StrEnum}

pub data EndpointId : Type 0 where
  cluster hud center passenger overview control : EndpointId

unfoldable pub EndpointId-discrete : Discrete EndpointId
EndpointId-discrete = hlevel

instance abbrev pub endpoint_id_eq : Eq EndpointId
endpoint_id_eq = record { discrete = EndpointId-discrete }

abbrev pub endpoint_id_value : EndpointId → String
endpoint_id_value EndpointId.cluster = "cluster"
endpoint_id_value EndpointId.hud = "hud"
endpoint_id_value EndpointId.center = "center"
endpoint_id_value EndpointId.passenger = "passenger"
endpoint_id_value EndpointId.overview = "overview"
endpoint_id_value EndpointId.control = "control"

abbrev pub endpoint_id_enum : StrEnum EndpointId
endpoint_id_enum = record {
  value = endpoint_id_value;
  members =
      EndpointId.cluster ∷ EndpointId.hud ∷ EndpointId.center ∷ EndpointId.passenger
      ∷ EndpointId.overview ∷ EndpointId.control ∷ [];
}

pub data ThemeMode : Type 0 where
  day night : ThemeMode

unfoldable pub ThemeMode-discrete : Discrete ThemeMode
ThemeMode-discrete = hlevel

instance abbrev pub theme_mode_eq : Eq ThemeMode
theme_mode_eq = record { discrete = ThemeMode-discrete }

abbrev pub theme_mode_value : ThemeMode → String
theme_mode_value ThemeMode.day = "day"
theme_mode_value ThemeMode.night = "night"

abbrev pub theme_mode_enum : StrEnum ThemeMode
theme_mode_enum = record {
  value = theme_mode_value;
  members = ThemeMode.day ∷ ThemeMode.night ∷ [];
}

pub data SystemMode : Type 0 where
  normal warning takeover stale offline recovery : SystemMode

unfoldable pub SystemMode-discrete : Discrete SystemMode
SystemMode-discrete = hlevel

instance abbrev pub system_mode_eq : Eq SystemMode
system_mode_eq = record { discrete = SystemMode-discrete }

abbrev pub system_mode_value : SystemMode → String
system_mode_value SystemMode.normal = "normal"
system_mode_value SystemMode.warning = "warning"
system_mode_value SystemMode.takeover = "takeover"
system_mode_value SystemMode.stale = "stale"
system_mode_value SystemMode.offline = "offline"
system_mode_value SystemMode.recovery = "recovery"

abbrev pub system_mode_enum : StrEnum SystemMode
system_mode_enum = record {
  value = system_mode_value;
  members =
      SystemMode.normal ∷ SystemMode.warning ∷ SystemMode.takeover ∷ SystemMode.stale
      ∷ SystemMode.offline ∷ SystemMode.recovery ∷ [];
}

pub data FlowId : Type 0 where
  navigation_handoff risk_takeover passenger_collaboration : FlowId

unfoldable pub FlowId-discrete : Discrete FlowId
FlowId-discrete = hlevel

instance abbrev pub flow_id_eq : Eq FlowId
flow_id_eq = record { discrete = FlowId-discrete }

pub data DataFreshness : Type 0 where
  fresh stale offline : DataFreshness

unfoldable pub DataFreshness-discrete : Discrete DataFreshness
DataFreshness-discrete = hlevel

instance abbrev pub data_freshness_eq : Eq DataFreshness
data_freshness_eq = record { discrete = DataFreshness-discrete }

pub data RiskLifecycle : Type 0 where
  candidate active acknowledged resolved : RiskLifecycle

unfoldable pub RiskLifecycle-discrete : Discrete RiskLifecycle
RiskLifecycle-discrete = hlevel

instance abbrev pub risk_lifecycle_eq : Eq RiskLifecycle
risk_lifecycle_eq = record { discrete = RiskLifecycle-discrete }

pub data RiskSeverity : Type 0 where
  info warning critical : RiskSeverity

unfoldable pub RiskSeverity-discrete : Discrete RiskSeverity
RiskSeverity-discrete = hlevel

instance abbrev pub risk_severity_eq : Eq RiskSeverity
risk_severity_eq = record { discrete = RiskSeverity-discrete }

pub data RiskSource : Type 0 where
  live_camera video_inference simulated_event : RiskSource

unfoldable pub RiskSource-discrete : Discrete RiskSource
RiskSource-discrete = hlevel

instance abbrev pub risk_source_eq : Eq RiskSource
risk_source_eq = record { discrete = RiskSource-discrete }

pub data RiskType : Type 0 where
  driver_fatigue driver_distraction parking_guard_motion occupant_phone_use occupant_out_of_zone :
      RiskType

unfoldable pub RiskType-discrete : Discrete RiskType
RiskType-discrete = hlevel

instance abbrev pub risk_type_eq : Eq RiskType
risk_type_eq = record { discrete = RiskType-discrete }

pub data RouteProvider : Type 0 where
  amap local_fallback none : RouteProvider

unfoldable pub RouteProvider-discrete : Discrete RouteProvider
RouteProvider-discrete = hlevel

instance abbrev pub route_provider_eq : Eq RouteProvider
route_provider_eq = record { discrete = RouteProvider-discrete }

pub data MapServiceStatus : Type 0 where
  live degraded unavailable : MapServiceStatus

unfoldable pub MapServiceStatus-discrete : Discrete MapServiceStatus
MapServiceStatus-discrete = hlevel

instance abbrev pub map_service_status_eq : Eq MapServiceStatus
map_service_status_eq = record { discrete = MapServiceStatus-discrete }

pub data RouteStatus : Type 0 where
  idle planning preview active arrived unavailable : RouteStatus

unfoldable pub RouteStatus-discrete : Discrete RouteStatus
RouteStatus-discrete = hlevel

instance abbrev pub route_status_eq : Eq RouteStatus
route_status_eq = record { discrete = RouteStatus-discrete }

pub data CommandName : Type 0 where
  set_theme set_system_mode select_destination confirm_route acknowledge_risk resolve_risk
        set_media_state submit_trip_suggestion set_cabin_control reset_session :
      CommandName

unfoldable pub CommandName-discrete : Discrete CommandName
CommandName-discrete = hlevel

instance abbrev pub command_name_eq : Eq CommandName
command_name_eq = record { discrete = CommandName-discrete }

abbrev pub command_name_value : CommandName → String
command_name_value CommandName.set_theme = "set_theme"
command_name_value CommandName.set_system_mode = "set_system_mode"
command_name_value CommandName.select_destination = "select_destination"
command_name_value CommandName.confirm_route = "confirm_route"
command_name_value CommandName.acknowledge_risk = "acknowledge_risk"
command_name_value CommandName.resolve_risk = "resolve_risk"
command_name_value CommandName.set_media_state = "set_media_state"
command_name_value CommandName.submit_trip_suggestion = "submit_trip_suggestion"
command_name_value CommandName.set_cabin_control = "set_cabin_control"
command_name_value CommandName.reset_session = "reset_session"

abbrev pub command_name_enum : StrEnum CommandName
command_name_enum = record {
  value = command_name_value;
  members =
      CommandName.set_theme ∷ CommandName.set_system_mode ∷ CommandName.select_destination
      ∷ CommandName.confirm_route ∷ CommandName.acknowledge_risk ∷ CommandName.resolve_risk
      ∷ CommandName.set_media_state ∷ CommandName.submit_trip_suggestion
      ∷ CommandName.set_cabin_control ∷ CommandName.reset_session ∷ [];
}
