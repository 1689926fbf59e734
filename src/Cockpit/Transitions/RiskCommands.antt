-- ===== src/Cockpit/Transitions/RiskCommands.antt =====
-- apps/backend/app/cockpit/transitions.py: ACKNOWLEDGE_RISK and RESOLVE_RISK.
use supersonic.Prelude.{
  String, none, some, [], ◌∷◌, ◌!=◌, bool_eq, string_eq, lift, pure, throw, throw_if, ◌>>=◌, ◌>>◌,
}
use supersonic.Contract.{
  CockpitSnapshotV1, flow_id_eq, RiskEventV1, RiskLifecycle, risk_lifecycle_eq, risk_source_eq,
  route_status_eq, SystemMode, system_mode_eq, theme_mode_eq,
}
use supersonic.Cockpit.Errors.{CommandRejected, rejected, rejected_with}
use supersonic.Cockpit.Parameters.{require_exact, text}
use supersonic.Cockpit.World.{read_clock}
use supersonic.Cockpit.Transitions.Risks.{find_risk, replace_risk}
use supersonic.Cockpit.Transitions.Candidate.{Branch, candidate, Step, Raw}

risk_not_found : CommandRejected
risk_not_found = rejected_with 404 "risk_not_found" "The risk event is not active in this snapshot."

-- `text("eventId", …)` and the search of both risk commands.
unfoldable pub command_risk : CockpitSnapshotV1 → Raw → Step (String × RiskEventV1)
unfolding risk_not_found
command_risk s params = do
  lift (require_exact params ("eventId" ∷ []))
  event_id ← lift (text params "eventId" 256 none)
  elim (find_risk event_id s.risks) [
    | none ↦ throw risk_not_found
    | some risk ↦ pure (event_id, risk)
  ]

unfoldable pub acknowledge_risk : CockpitSnapshotV1 → Raw → Step Branch
unfolding read_clock
acknowledge_risk s params = do
  (event_id, risk) ← command_risk s params
  throw_if (risk.lifecycle != RiskLifecycle.active)
      (rejected "invalid_transition" "Only active risks can be acknowledged.")
  now ← read_clock
  let risk' = record risk { lifecycle = RiskLifecycle.acknowledged; updated_at = now }
  pure (candidate (record s { risks = replace_risk event_id risk' s.risks }) none)

unfoldable pub resolve_risk : CockpitSnapshotV1 → Raw → Step Branch
unfolding read_clock
resolve_risk s params = do
  (event_id, risk) ← command_risk s params
  throw_if (risk.lifecycle != RiskLifecycle.acknowledged)
      (rejected "invalid_transition" "Only acknowledged risks can be resolved.")
  now ← read_clock
  let risk' = record risk { lifecycle = RiskLifecycle.resolved; updated_at = now }
  pure (
      candidate
        (record s {
          risks = replace_risk event_id risk' s.risks;
          system_mode = SystemMode.recovery;
        })
        (some risk'))
