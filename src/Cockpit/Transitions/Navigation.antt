-- ===== src/Cockpit/Transitions/Navigation.antt =====
-- apps/backend/app/cockpit/transitions.py: SELECT_DESTINATION and CONFIRM_ROUTE.
use supersonic.Prelude.{
  ℕ, String, none, some, [], ◌∷◌, ◌!=◌, bool_eq, string_eq, lift, pure, throw_if, ◌>>=◌, ◌>>◌,
}
use supersonic.Contract.{
  CockpitSnapshotV1, FlowId, flow_id_eq, MapServiceStatus, NavigationStateV1, risk_lifecycle_eq,
  risk_source_eq, RouteProvider, RouteStatus, route_status_eq, system_mode_eq, theme_mode_eq, Time,
  decimal,
}
use supersonic.Cockpit.Errors.{rejected}
use supersonic.Cockpit.Parameters.{require_exact, text}
use supersonic.Cockpit.World.{read_clock}
use supersonic.Cockpit.Transitions.Candidate.{
  Branch, candidate, Step, Raw, synchronize_navigation_health,
}

abbrev pub destination_name_max_length : ℕ
destination_name_max_length = 160

abbrev pub preview_navigation : String → Time → NavigationStateV1
preview_navigation destination now = record {
  provider = RouteProvider.local_fallback;
  service_status = MapServiceStatus.degraded;
  status = RouteStatus.preview;
  destination_name = some destination;
  remaining_distance_meters = decimal 8400;
  eta_seconds = 960;
  current_step = some (record {
    index = 0;
    instruction = "前方 300 米右转";
    road_name = "滨河大道";
    distance_meters = decimal 300;
    maneuver = "turn_right";
  });
  steps = [];
  polyline = [];
  updated_at = now;
}

unfoldable pub select_destination : CockpitSnapshotV1 → Raw → Step Branch
unfolding read_clock
select_destination s params = do
  lift (require_exact params ("destinationName" ∷ []))
  destination ← lift (text params "destinationName" destination_name_max_length none)
  now ← read_clock
  pure (
      candidate
        (synchronize_navigation_health (record s {
          active_flow = FlowId.navigation_handoff;
          navigation = preview_navigation destination now;
        }))
        none)

unfoldable pub confirm_route : CockpitSnapshotV1 → Raw → Step Branch
unfolding read_clock
confirm_route s params = do
  lift (require_exact params [])
  throw_if (s.navigation.status != RouteStatus.preview)
      (rejected "invalid_transition" "A route preview is required before confirmation.")
  now ← read_clock
  pure (
      candidate
        (synchronize_navigation_health (record s {
          navigation = record s.navigation { status = RouteStatus.active; updated_at = now };
        }))
        none)
