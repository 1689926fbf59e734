-- ===== src/Cockpit/Transitions.antt =====
-- apps/backend/app/cockpit/transitions.py: `CockpitTransitions.apply`. Its branches are in the modules
-- below.
pub mod Risks
pub mod Candidate
pub mod Scenario
pub mod Navigation
pub mod RiskCommands
pub mod Passenger
pub mod Acceptance
use supersonic.Prelude.{
  ℕ, String, Bool, true, false, Option, none, some, List, [], ◌∷◌, ◌++◌, if◌then◌else◌, ◌==◌, ◌!=◌,
  ◌||◌, ◌&&◌, not, bool_eq, string_eq, take, contains, concat, Exec, lift, pure, throw, throw_if,
  ◌>>=◌, ◌>>◌,
}
use supersonic.Prelude.Dict.{Dict, insert}
use supersonic.Contract.{
  CockpitSnapshotV1, CommandEnvelopeV1, CommandName, DataFreshness, FlowId, flow_id_eq, JsonValue,
  MapServiceStatus, NavigationStateV1, NavigationStep, PassengerStateV1, RiskEventV1, RiskLifecycle,
  risk_lifecycle_eq, RiskSeverity, RiskSource, risk_source_eq, RiskType, RouteProvider, RouteStatus,
  route_status_eq, SystemMode, system_mode_eq, system_mode_enum, theme_mode_eq, theme_mode_enum,
  Time, decimal,
}
use supersonic.Cockpit.Errors.{CommandRejected, rejected, rejected_with}
use supersonic.Cockpit.Parameters.{require_exact, text, boolean, enum}
use supersonic.Cockpit.StateFactory.{navigation_data_freshness, create_default}
use supersonic.Cockpit.World.{World, read_clock, new_id}
use Risks.{has_unresolved_critical_risk}
use Candidate.{Branch, unchanged, candidate, fresh, Step, Raw, with_health, with_media}
use Scenario.{set_theme, set_system_mode, reset_session}
use Navigation.{select_destination, confirm_route}
use RiskCommands.{acknowledge_risk, resolve_risk}
use Passenger.{set_media_state, submit_trip_suggestion, set_cabin_control}

pub record TransitionResult : Type 0 where
  pub snapshot : CockpitSnapshotV1
  pub changed : Bool
  pub reset : Bool
  pub resolved_risk : Option RiskEventV1

-- The chain of tests on the command's name. Its `else` is for names that do not exist.
unfoldable pub dispatch : CommandName → CockpitSnapshotV1 → Raw → Step Branch
dispatch CommandName.set_theme = set_theme
dispatch CommandName.set_system_mode = set_system_mode
dispatch CommandName.select_destination = select_destination
dispatch CommandName.confirm_route = confirm_route
dispatch CommandName.acknowledge_risk = acknowledge_risk
dispatch CommandName.resolve_risk = resolve_risk
dispatch CommandName.set_media_state = set_media_state
dispatch CommandName.submit_trip_suggestion = submit_trip_suggestion
dispatch CommandName.set_cabin_control = set_cabin_control
dispatch CommandName.reset_session = reset_session

-- The body of `synchronize_risk_dependent_state` under its first test, and below it.
abbrev pub take_over : CockpitSnapshotV1 → CockpitSnapshotV1
take_over s =
    with_media "suppressed"
      (record s { system_mode = SystemMode.takeover; active_flow = FlowId.risk_takeover })

abbrev pub end_takeover : CockpitSnapshotV1 → CockpitSnapshotV1
end_takeover s =
    let s' = if s.passenger.media_state == "suppressed" then with_media "paused" s else s in
    if s'.active_flow == FlowId.risk_takeover
    then record s' { active_flow = FlowId.navigation_handoff }
    else s'

-- `resolved_risk is not None and resolved_risk.source is RiskSource.SIMULATED_EVENT`
abbrev pub is_simulated : Option RiskEventV1 → Bool
is_simulated none = false
is_simulated (some risk) = risk.source == RiskSource.simulated_event

unfoldable pub synchronize_risk_dependent_state :
    CockpitSnapshotV1 → Option RiskEventV1 → Step CockpitSnapshotV1
unfolding read_clock
synchronize_risk_dependent_state s resolved_risk =
    if has_unresolved_critical_risk s.risks
    then pure (take_over s)
    else (if is_simulated resolved_risk
        then (do
          now ← read_clock
          pure (with_health "vision" DataFreshness.offline now (end_takeover s)))
        else pure (end_takeover s))

-- What `apply` returns after each end of a branch.
unfoldable pub finish : CockpitSnapshotV1 → Branch → Step TransitionResult
unfolding synchronize_risk_dependent_state
finish current unchanged =
    pure (record { snapshot = current; changed = false; reset = false; resolved_risk = none })
finish current (fresh s) =
    pure (record { snapshot = s; changed = true; reset = true; resolved_risk = none })
finish current (candidate s resolved_risk) = do
  s' ← synchronize_risk_dependent_state s resolved_risk
  pure (record { snapshot = s'; changed = true; reset = false; resolved_risk = resolved_risk })

-- `CockpitTransitions.apply`
unfoldable pub apply : CockpitSnapshotV1 → CommandEnvelopeV1 → Step TransitionResult
unfolding dispatch finish
apply current command = do
  branch ← dispatch command.payload.name current command.payload.parameters
  finish current branch
