-- ===== src/Cockpit/Transitions/Scenario.antt =====
-- apps/backend/app/cockpit/transitions.py: SET_THEME, SET_SYSTEM_MODE with its takeover, and
-- RESET_SESSION.
use supersonic.Prelude.{
  String, none, [], ◌∷◌, ◌++◌, if◌then◌else◌, ◌==◌, ◌!=◌, ◌&&◌, bool_eq, string_eq, concat, lift,
  pure, throw_if, ◌>>=◌, ◌>>◌,
}
use supersonic.Contract.{
  CockpitSnapshotV1, DataFreshness, flow_id_eq, JsonValue, RiskEventV1, RiskLifecycle,
  risk_lifecycle_eq, RiskSeverity, RiskSource, risk_source_eq, RiskType, route_status_eq,
  SystemMode, system_mode_eq, system_mode_enum, theme_mode_eq, theme_mode_enum, Time, decimal,
}
use supersonic.Cockpit.Errors.{rejected_with}
use supersonic.Cockpit.Parameters.{require_exact, enum}
use supersonic.Cockpit.StateFactory.{create_default}
use supersonic.Cockpit.World.{read_clock, new_id}
use supersonic.Cockpit.Transitions.Risks.{has_unresolved_critical_risk}
use supersonic.Cockpit.Transitions.Candidate.{
  Branch, unchanged, candidate, fresh, Step, Raw, with_health,
}

unfoldable pub set_theme : CockpitSnapshotV1 → Raw → Step Branch
set_theme s params = do
  lift (require_exact params ("theme" ∷ []))
  value ← lift (enum params "theme" theme_mode_enum "theme must be day or night.")
  pure (if value == s.theme then unchanged else candidate (record s { theme = value }) none)

unfoldable pub simulated_takeover_risk : CockpitSnapshotV1 → Time → String → RiskEventV1
simulated_takeover_risk s now id = record {
  event_id = concat ("simulated-takeover-" ∷ id ∷ []);
  session_id = s.session_id;
  risk_type = RiskType.driver_distraction;
  lifecycle = RiskLifecycle.active;
  severity = RiskSeverity.critical;
  source = RiskSource.simulated_event;
  confidence = decimal 1;
  occurred_at = now;
  updated_at = now;
  message = "演示场景：驾驶员注意力风险，立即接管";
  evidence = "control_scenario:simulated_takeover" ∷ [];
  metadata = ("scenario", JsonValue.string "simulated_takeover") ∷ [];
}

unfoldable pub activate_simulated_takeover : CockpitSnapshotV1 → Step CockpitSnapshotV1
unfolding simulated_takeover_risk read_clock new_id
activate_simulated_takeover s = if has_unresolved_critical_risk s.risks then pure s else (do
  now ← read_clock
  id ← new_id
  pure (
      with_health "vision" DataFreshness.fresh now
        (record s { risks = s.risks ++ simulated_takeover_risk s now id ∷ [] })))

-- The end of SET_SYSTEM_MODE: a mode that is new is entered.
unfoldable pub enter_mode : CockpitSnapshotV1 → SystemMode → Step Branch
unfolding activate_simulated_takeover
enter_mode s value =
    let entered = record s { system_mode = value } in
    if value == s.system_mode
    then pure unchanged
    else (if value == SystemMode.takeover
        then (do s' ← activate_simulated_takeover entered; pure (candidate s' none))
        else pure (candidate entered none))

unfoldable pub set_system_mode : CockpitSnapshotV1 → Raw → Step Branch
unfolding enter_mode
set_system_mode s params = do
  lift (require_exact params ("mode" ∷ []))
  value ← lift (enum params "mode" system_mode_enum "mode is not a valid system mode.")
  throw_if (value != SystemMode.takeover && has_unresolved_critical_risk s.risks) (
      rejected_with 409 "invalid_transition"
        "Resolve all critical risks before leaving takeover mode.")
  enter_mode s value

unfoldable pub reset_session : CockpitSnapshotV1 → Raw → Step Branch
unfolding create_default
reset_session s params = do
  lift (require_exact params [])
  s' ← create_default s.revision
  pure (fresh s')
