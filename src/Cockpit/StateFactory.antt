-- ===== src/Cockpit/StateFactory.antt =====
-- apps/backend/app/cockpit/state_factory.py.
use supersonic.Prelude.{
  ℕ, String, true, none, [], ◌∷◌, map, if◌then◌else◌, ◌==◌, ◌||◌, ◌&&◌, Exec, pure, ◌>>=◌,
}
use supersonic.Contract.{
  CockpitSnapshotV1, CommandName, command_name_value, DataFreshness, EndpointConnection,
  endpoint_id_enum, FlowId, MapServiceStatus, map_service_status_eq, NavigationStateV1,
  PassengerStateV1, RouteProvider, route_provider_eq, RouteStatus, route_status_eq, SystemMode,
  ThemeMode, VehicleStateV1, decimal, Time,
}
use supersonic.Cockpit.World.{World, read_clock, new_id}

unfoldable pub navigation_data_freshness : NavigationStateV1 → DataFreshness
navigation_data_freshness navigation =
    if navigation.provider == RouteProvider.none
      || navigation.service_status == MapServiceStatus.unavailable
      || navigation.status == RouteStatus.idle
      || navigation.status == RouteStatus.unavailable
    then DataFreshness.offline
    else (if navigation.provider == RouteProvider.amap
          && navigation.service_status == MapServiceStatus.live
        then DataFreshness.fresh
        else DataFreshness.stale)

-- The defaults of `NavigationStateV1`, and the fields that `create_default` gives.
abbrev pub idle_navigation : Time → NavigationStateV1
idle_navigation now = record {
  provider = RouteProvider.none;
  service_status = MapServiceStatus.unavailable;
  status = RouteStatus.idle;
  destination_name = none;
  remaining_distance_meters = 0;
  eta_seconds = 0;
  current_step = none;
  steps = [];
  polyline = [];
  updated_at = now;
}

abbrev pub default_vehicle : VehicleStateV1
default_vehicle = record {
  speed_kph = 0;
  gear = "P";
  battery_percent = decimal 82;
  range_km = decimal 436;
  drive_mode = "comfort";
  seatbelt_fastened = true;
}

-- `PassengerStateV1()`
abbrev pub default_passenger : PassengerStateV1
default_passenger = record { media_state = "paused"; privacy_enabled = true; trip_suggestions = [] }

abbrev pub offline_at : Time → EndpointConnection
offline_at now = record { status = DataFreshness.offline; last_seen_at = now }

unfoldable pub default_snapshot : ℕ → Time → String → CockpitSnapshotV1
unfolding navigation_data_freshness
default_snapshot revision now session_id =
    let navigation = idle_navigation now in
    record {
      session_id = session_id;
      revision = revision;
      timestamp = now;
      theme = ThemeMode.night;
      system_mode = SystemMode.normal;
      active_flow = FlowId.navigation_handoff;
      data_health =
          ("vehicle", record { status = DataFreshness.fresh; updated_at = now })
          ∷ (
            "navigation",
            record {
              status = navigation_data_freshness navigation;
              updated_at = navigation.updated_at;
            },
          )
          ∷ ("vision", record { status = DataFreshness.offline; updated_at = now })
          ∷ [];
      vehicle = default_vehicle;
      navigation = navigation;
      risks = [];
      passenger = default_passenger;
      endpoint_connectivity = map (λ endpoint. (endpoint, offline_at now)) endpoint_id_enum.members;
      capabilities =
          command_name_value CommandName.set_theme
          ∷ command_name_value CommandName.set_system_mode
          ∷ command_name_value CommandName.reset_session
          ∷ [];
    }

-- `CockpitStateFactory.create_default`
unfoldable pub create_default : {E : Type 0} → ℕ → Exec E World CockpitSnapshotV1
unfolding read_clock new_id
create_default revision = do
  now ← read_clock
  session_id ← new_id
  pure (default_snapshot revision now session_id)
