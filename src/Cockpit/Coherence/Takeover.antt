-- ===== src/Cockpit/Coherence/Takeover.antt =====
-- apps/backend/app/cockpit/transitions.py: how a takeover goes on and how it ends.
use supersonic.Prelude.{◌≡◌, ◌≢◌, refl, true, false, arith, string_eq}
use supersonic.Contract.{CockpitSnapshotV1, CommandName, CommandEnvelopeV1, SystemMode, FlowId}
use supersonic.Cockpit.World.{World}
use supersonic.Cockpit.Transitions.{dispatch, finish, apply, synchronize_risk_dependent_state}
use supersonic.Cockpit.Transitions.Candidate.{
  Branch, unchanged, candidate, fresh, Raw, synchronize_navigation_health,
}
use supersonic.Cockpit.Transitions.Scenario.{set_theme, set_system_mode}
use supersonic.Cockpit.Transitions.Navigation.{select_destination, confirm_route}
use supersonic.Cockpit.Transitions.RiskCommands.{resolve_risk}
use supersonic.Cockpit.Transitions.Passenger.{
  set_media_state, submit_trip_suggestion, set_cabin_control,
}
use supersonic.Cockpit.Transitions.Risks.{has_unresolved_critical_risk}
use supersonic.Cockpit.Coherence.Health.{paused-ne-suppressed}
use supersonic.Cockpit.Coherence.Ends.{
  Acknowledges, acknowledge_risk-Acknowledges, Resolves, resolve_risk-Resolves,
}
use supersonic.Cockpit.Coherence.Candidates.{acknowledged-test, resolved-test}
use supersonic.Prelude.{◌∙◌}
use supersonic.Cockpit.Coherence.{Returns, Returns-bind, Returns-map, IsCoherent}

-- A takeover goes on in what a branch leaves.
abbrev BranchIsTakeover : Branch → Type 0
BranchIsTakeover unchanged = Unit {0}
BranchIsTakeover (candidate s' resolved) = has_unresolved_critical_risk s'.risks ≡ true
BranchIsTakeover (fresh s') = ⊥

module _ (s : CockpitSnapshotV1) (h : IsCoherent s)
    (takeover : has_unresolved_critical_risk s.risks ≡ true) (params : Raw) (w : World) where
  dispatch-IsTakeover :
      (name : CommandName)
      → name ≢ CommandName.resolve_risk
      → name ≢ CommandName.reset_session
      → Returns BranchIsTakeover (dispatch name s params w)
  unfolding dispatch set_theme set_system_mode select_destination confirm_route set_media_state
      submit_trip_suggestion set_cabin_control synchronize_navigation_health
  dispatch-IsTakeover CommandName.acknowledge_risk n m =
      Returns-map (Acknowledges s) BranchIsTakeover _
        (λ b (id, risk, now, found, active, e).
          rw e (acknowledged-test s h id risk now found active ∙ takeover))
        (acknowledge_risk-Acknowledges s params w)
  dispatch-IsTakeover CommandName.resolve_risk n m = absurd (n refl)
  dispatch-IsTakeover CommandName.reset_session n m = absurd (m refl)
  dispatch-IsTakeover _ n m = ground arith

-- The state of a takeover.
pub record IsTakeover (s : CockpitSnapshotV1) : Type 0 where
  pub unresolved : has_unresolved_critical_risk s.risks ≡ true
  pub mode : s.system_mode ≡ SystemMode.takeover
  pub flow : s.active_flow ≡ FlowId.risk_takeover
  pub media : s.passenger.media_state ≡ "suppressed"

pub coherent-IsTakeover :
    (s : CockpitSnapshotV1)
    → IsCoherent s
    → has_unresolved_critical_risk s.risks ≡ true
    → IsTakeover s
coherent-IsTakeover s h e = record {
  unresolved = e;
  mode = ground (arith, h.mode);
  flow = ground (arith, h.flow);
  media = ground (arith, h.media);
}

-- The state after the last critical risk was resolved.
pub record IsRecovered (s : CockpitSnapshotV1) : Type 0 where
  pub resolved : has_unresolved_critical_risk s.risks ≡ false
  pub mode : s.system_mode ≡ SystemMode.recovery
  pub flow : s.active_flow ≢ FlowId.risk_takeover
  pub media : s.passenger.media_state ≢ "suppressed"

abbrev BranchIsRecovered : Branch → Type 0
BranchIsRecovered unchanged = ⊥
BranchIsRecovered (candidate s' resolved) =
    (has_unresolved_critical_risk s'.risks ≡ false) × (s'.system_mode ≡ SystemMode.recovery)
BranchIsRecovered (fresh s') = ⊥

module _ (s : CockpitSnapshotV1) (command : CommandEnvelopeV1) (w : World) (h : IsCoherent s) where
  finish-IsTakeover :
      has_unresolved_critical_risk s.risks ≡ true
      → (b : Branch) (w' : World) → BranchIsTakeover b
      → Returns (λ r. IsTakeover r.snapshot) (finish s b w')
  unfolding finish synchronize_risk_dependent_state
  finish-IsTakeover e unchanged w' k = coherent-IsTakeover s h e
  finish-IsTakeover e (candidate s' resolved) w' k = ground arith
  finish-IsTakeover e (fresh s') w' k = absurd k

  -- While a critical risk is unresolved, the takeover holds after every command that is accepted,
  -- other than RESOLVE_RISK and RESET_SESSION.
  pub apply-IsTakeover :
      has_unresolved_critical_risk s.risks ≡ true
      → command.payload.name ≢ CommandName.resolve_risk
      → command.payload.name ≢ CommandName.reset_session
      → Returns (λ r. IsTakeover r.snapshot) (apply s command w)
  unfolding apply
  apply-IsTakeover e n m =
      let params = command.payload.parameters in
      Returns-bind BranchIsTakeover (λ r. IsTakeover r.snapshot)
        (dispatch command.payload.name s params w) (finish s)
        (dispatch-IsTakeover s h e params w command.payload.name n m) (finish-IsTakeover e)

  finish-IsRecovered :
      (b : Branch) (w' : World)
      → BranchIsRecovered b
      → Returns (λ r. IsRecovered r.snapshot) (finish s b w')
  unfolding finish synchronize_risk_dependent_state
  finish-IsRecovered unchanged w' k = absurd k
  finish-IsRecovered (candidate s' resolved) w' k = ground (arith, paused-ne-suppressed)
  finish-IsRecovered (fresh s') w' k = absurd k

  -- RESOLVE_RISK, if it is accepted, ends the takeover: there is never a second risk to hold it.
  pub resolve-IsRecovered :
      command.payload.name ≡ CommandName.resolve_risk
      → Returns (λ r. IsRecovered r.snapshot) (apply s command w)
  unfolding apply dispatch
  resolve-IsRecovered n =
      let params = command.payload.parameters in
      rw n (
        Returns-bind BranchIsRecovered (λ r. IsRecovered r.snapshot) (resolve_risk s params w)
          (finish s)
          (Returns-map (Resolves s) BranchIsRecovered _
            (λ b (id, risk, now, found, acknowledged, e).
              rw e (resolved-test s h id risk now found acknowledged, refl))
            (resolve_risk-Resolves s params w))
          finish-IsRecovered)
