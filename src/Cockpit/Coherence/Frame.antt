-- ===== src/Cockpit/Coherence/Frame.antt =====
-- apps/backend/app/cockpit/transitions.py: what the commands leave as it was.
use supersonic.Prelude.{◌≡◌, refl, false, Option, arith}
use supersonic.Contract.{CockpitSnapshotV1, CommandName, CommandEnvelopeV1, RiskEventV1}
use supersonic.Cockpit.World.{World}
use supersonic.Cockpit.Transitions.{
  TransitionResult, dispatch, finish, apply, synchronize_risk_dependent_state,
}
use supersonic.Cockpit.Transitions.Candidate.{
  Branch, unchanged, candidate, fresh, Raw, synchronize_navigation_health,
}
use supersonic.Cockpit.Transitions.Scenario.{set_theme, set_system_mode, reset_session}
use supersonic.Cockpit.Transitions.Navigation.{select_destination, confirm_route}
use supersonic.Cockpit.Transitions.RiskCommands.{acknowledge_risk, resolve_risk, command_risk}
use supersonic.Cockpit.Transitions.Passenger.{
  set_media_state, submit_trip_suggestion, set_cabin_control,
}
use supersonic.Cockpit.StateFactory.{default_snapshot}
use supersonic.Cockpit.Coherence.{Returns, Returns-bind}

pub record IsSameSession (s s' : CockpitSnapshotV1) : Type 0 where
  pub session_id : s'.session_id ≡ s.session_id
  pub revision : s'.revision ≡ s.revision
  pub timestamp : s'.timestamp ≡ s.timestamp
  pub vehicle : s'.vehicle ≡ s.vehicle
  pub connectivity : s'.endpoint_connectivity ≡ s.endpoint_connectivity
  pub capabilities : s'.capabilities ≡ s.capabilities

abbrev BranchIsSameSession : CockpitSnapshotV1 → Branch → Type 0
BranchIsSameSession s unchanged = Unit {0}
BranchIsSameSession s (candidate s' resolved) = IsSameSession s s'
BranchIsSameSession s (fresh s') = s'.revision ≡ s.revision

abbrev pub ResultIsSameSession : CockpitSnapshotV1 → TransitionResult → Type 0
ResultIsSameSession s r =
    (r.snapshot.revision ≡ s.revision) × (r.reset ≡ false → IsSameSession s r.snapshot)

module _ (s : CockpitSnapshotV1) (params : Raw) (w : World) where
  dispatch-IsSameSession :
      (name : CommandName) → Returns (BranchIsSameSession s) (dispatch name s params w)
  unfolding dispatch set_theme set_system_mode reset_session select_destination confirm_route
      acknowledge_risk resolve_risk command_risk set_media_state submit_trip_suggestion
      set_cabin_control synchronize_navigation_health default_snapshot
  dispatch-IsSameSession CommandName.set_theme = ground arith
  dispatch-IsSameSession _ = ground arith

synchronize-IsSameSession :
    (s : CockpitSnapshotV1) (resolved : Option RiskEventV1) (w : World)
    → Returns (IsSameSession s) (synchronize_risk_dependent_state s resolved w)
unfolding synchronize_risk_dependent_state
synchronize-IsSameSession s resolved w = ground arith

finish-IsSameSession :
    (s : CockpitSnapshotV1) (b : Branch) (w : World)
    → BranchIsSameSession s b
    → Returns (ResultIsSameSession s) (finish s b w)
unfolding finish
finish-IsSameSession s unchanged w h = (refl, λ _. ground arith)
finish-IsSameSession s (fresh s') w h = (h, λ e. cc)
finish-IsSameSession s (candidate s' resolved) w h =
    Returns-bind (IsSameSession s') (ResultIsSameSession s)
      (synchronize_risk_dependent_state s' resolved w) _ (synchronize-IsSameSession s' resolved w)
      (λ t _ k. ground (arith, h, k))

pub apply-IsSameSession :
    (s : CockpitSnapshotV1) (command : CommandEnvelopeV1) (w : World)
    → Returns (ResultIsSameSession s) (apply s command w)
unfolding apply
apply-IsSameSession s command w =
    let name = command.payload.name in
    let params = command.payload.parameters in
    Returns-bind (BranchIsSameSession s) (ResultIsSameSession s) (dispatch name s params w)
      (finish s) (dispatch-IsSameSession s params w name) (finish-IsSameSession s)

-- A result that says that nothing changed has the snapshot as it was.
abbrev pub IsKept : CockpitSnapshotV1 → TransitionResult → Type 0
IsKept s r = r.changed ≡ false → r.snapshot ≡ s

finish-IsKept : (s : CockpitSnapshotV1) (b : Branch) (w : World) → Returns (IsKept s) (finish s b w)
unfolding finish synchronize_risk_dependent_state
finish-IsKept s unchanged w = λ _. refl
finish-IsKept s (fresh s') w = λ e. cc
finish-IsKept s (candidate s' resolved) w = ground arith

pub apply-IsKept :
    (s : CockpitSnapshotV1) (command : CommandEnvelopeV1) (w : World)
    → Returns (IsKept s) (apply s command w)
unfolding apply
apply-IsKept s command w =
    Returns-bind (λ _. Unit {0}) (IsKept s)
      (dispatch command.payload.name s command.payload.parameters w) (finish s) (ground arith)
      (λ b w' _. finish-IsKept s b w')
