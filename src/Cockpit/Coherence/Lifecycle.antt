-- ===== src/Cockpit/Coherence/Lifecycle.antt =====
-- apps/backend/app/cockpit/transitions.py: how a command changes the list of the risks.
use supersonic.Prelude.{
  ◌≡◌, refl, ◌∷◌, [], List, ◌++◌, true, false, Option, some, arith, String, string_eq,
}
use supersonic.Contract.{
  CockpitSnapshotV1, CommandName, CommandEnvelopeV1, RiskEventV1, RiskLifecycle, RiskSeverity, Time,
}
use supersonic.Cockpit.World.{World}
use supersonic.Cockpit.Transitions.{
  TransitionResult, dispatch, finish, apply, synchronize_risk_dependent_state,
}
use supersonic.Cockpit.Transitions.Candidate.{
  Branch, unchanged, candidate, fresh, Raw, synchronize_navigation_health,
}
use supersonic.Cockpit.Transitions.Scenario.{
  set_theme, set_system_mode, reset_session, simulated_takeover_risk,
}
use supersonic.Cockpit.Transitions.Navigation.{select_destination, confirm_route}
use supersonic.Cockpit.Transitions.Passenger.{
  set_media_state, submit_trip_suggestion, set_cabin_control,
}
use supersonic.Cockpit.Transitions.Risks.{find_risk, replace_risk}
use supersonic.Cockpit.StateFactory.{default_snapshot}
use supersonic.Cockpit.Coherence.Ends.{
  Acknowledges, acknowledge_risk-Acknowledges, Resolves, resolve_risk-Resolves,
}
use supersonic.Cockpit.Coherence.{Returns, Returns-bind, Returns-map, SystemMode}

-- A risk stays, or takes the next step from active over acknowledged to resolved, with the time of
-- the step; nothing else of it changes.
pub data Advances (risk risk' : RiskEventV1) : Type 0 where
  stays : risk' ≡ risk → Advances risk risk'
  acknowledged :
      (now : Time)
      → risk.lifecycle ≡ RiskLifecycle.active
      → risk' ≡ record risk { lifecycle = RiskLifecycle.acknowledged; updated_at = now }
      → Advances risk risk'
  resolved :
      (now : Time)
      → risk.lifecycle ≡ RiskLifecycle.acknowledged
      → risk' ≡ record risk { lifecycle = RiskLifecycle.resolved; updated_at = now }
      → Advances risk risk'

-- Each risk has become one in its place, and at most one new risk, active and critical, follows.
abbrev Pointwise :
    (RiskEventV1 → RiskEventV1 → Type 0) → List RiskEventV1 → List RiskEventV1 → Type 0
Pointwise R [] [] = Unit {0}
Pointwise R [] (risk ∷ []) =
    (risk.lifecycle ≡ RiskLifecycle.active) × (risk.severity ≡ RiskSeverity.critical)
Pointwise R [] (_ ∷ _ ∷ _) = ⊥
Pointwise R (risk ∷ risks) [] = ⊥
Pointwise R (risk ∷ risks) (risk' ∷ risks') = R risk risk' × Pointwise R risks risks'

abbrev pub Evolves : List RiskEventV1 → List RiskEventV1 → Type 0
Evolves = Pointwise Advances

module _ (R : RiskEventV1 → RiskEventV1 → Type 0) (same : (risk : RiskEventV1) → R risk risk) where
  Pointwise-refl : (risks : List RiskEventV1) → Pointwise R risks risks
  Pointwise-refl [] = tt
  Pointwise-refl (risk ∷ risks) = (same risk, Pointwise-refl risks)

  Pointwise-append :
      (risks : List RiskEventV1) (risk : RiskEventV1)
      → risk.lifecycle ≡ RiskLifecycle.active
      → risk.severity ≡ RiskSeverity.critical
      → Pointwise R risks (risks ++ risk ∷ [])
  Pointwise-append [] risk a c = (a, c)
  Pointwise-append (r ∷ risks) risk a c = (same r, Pointwise-append risks risk a c)

  Pointwise-replace :
      (id : String) (risk risk' : RiskEventV1) (risks : List RiskEventV1)
      → find_risk id risks ≡ some risk
      → R risk risk'
      → Pointwise R risks (replace_risk id risk' risks)
  unfolding find_risk replace_risk
  Pointwise-replace id risk risk' [] f a = absurd (ground arith)
  Pointwise-replace id risk risk' (r ∷ risks) f a =
      ground (arith, a, same r, Pointwise-refl risks, Pointwise-replace id risk risk' risks)

Advances-refl : (risk : RiskEventV1) → Advances risk risk
Advances-refl risk = stays refl

abbrev BranchEvolves : CockpitSnapshotV1 → Branch → Type 0
BranchEvolves s unchanged = Unit {0}
BranchEvolves s (candidate s' ended) = Evolves s.risks s'.risks
BranchEvolves s (fresh s') = s'.risks ≡ []

module _ (s : CockpitSnapshotV1) (params : Raw) (w : World) where
  dispatch-Evolves : (name : CommandName) → Returns (BranchEvolves s) (dispatch name s params w)
  unfolding dispatch set_theme set_system_mode reset_session select_destination confirm_route
      set_media_state submit_trip_suggestion set_cabin_control synchronize_navigation_health
      default_snapshot
  dispatch-Evolves CommandName.acknowledge_risk =
      Returns-map (Acknowledges s) (BranchEvolves s) _
        (λ b (id, risk, now, found, active, e). rw e (
          Pointwise-replace Advances Advances-refl id risk _ s.risks found
            (acknowledged now active refl)))
        (acknowledge_risk-Acknowledges s params w)
  dispatch-Evolves CommandName.resolve_risk =
      Returns-map (Resolves s) (BranchEvolves s) _
        (λ b (id, risk, now, found, done, e). rw e (
          Pointwise-replace Advances Advances-refl id risk _ s.risks found
            (resolved now done refl)))
        (resolve_risk-Resolves s params w)
  dispatch-Evolves CommandName.set_system_mode = ground (
    arith,
    Pointwise-refl Advances Advances-refl s.risks,
    Pointwise-append Advances Advances-refl s.risks (
        simulated_takeover_risk (record s { system_mode = SystemMode.takeover })
          (w.clock w.readings) (w.ids w.issued)),
  )
  dispatch-Evolves CommandName.reset_session = ground arith
  dispatch-Evolves _ = ground (arith, Pointwise-refl Advances Advances-refl s.risks)

synchronize-keeps :
    (s : CockpitSnapshotV1) (ended : Option RiskEventV1) (w : World)
    → Returns (λ t. t.risks ≡ s.risks) (synchronize_risk_dependent_state s ended w)
unfolding synchronize_risk_dependent_state
synchronize-keeps s ended w = ground arith

-- The risks of a result: evolved, or none after a reset.
abbrev pub ResultEvolves : CockpitSnapshotV1 → TransitionResult → Type 0
ResultEvolves s r =
    (r.reset ≡ false → Evolves s.risks r.snapshot.risks) × (r.reset ≡ true → r.snapshot.risks ≡ [])

finish-Evolves :
    (s : CockpitSnapshotV1) (b : Branch) (w : World)
    → BranchEvolves s b
    → Returns (ResultEvolves s) (finish s b w)
unfolding finish
finish-Evolves s unchanged w h = (λ _. Pointwise-refl Advances Advances-refl s.risks, λ e. cc)
finish-Evolves s (fresh s') w h = (λ e. cc, λ _. h)
finish-Evolves s (candidate s' ended) w h =
    Returns-bind (λ t. t.risks ≡ s'.risks) (ResultEvolves s)
      (synchronize_risk_dependent_state s' ended w) _ (synchronize-keeps s' ended w)
      (λ t _ k. (λ _. rw k h, λ e. cc))

pub apply-Evolves :
    (s : CockpitSnapshotV1) (command : CommandEnvelopeV1) (w : World)
    → Returns (ResultEvolves s) (apply s command w)
unfolding apply
apply-Evolves s command w =
    let name = command.payload.name in
    let params = command.payload.parameters in
    Returns-bind (BranchEvolves s) (ResultEvolves s) (dispatch name s params w) (finish s)
      (dispatch-Evolves s params w name) (finish-Evolves s)

pub Evolves-refl : (risks : List RiskEventV1) → Evolves risks risks
Evolves-refl = Pointwise-refl Advances Advances-refl
