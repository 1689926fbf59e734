-- ===== src/Cockpit/Coherence/Branches.antt =====
-- apps/backend/app/cockpit/transitions.py: each command's branch from a coherent snapshot.
use supersonic.Prelude.{string_eq, arith}
use supersonic.Contract.{
  CockpitSnapshotV1, SystemMode, system_mode_eq, CommandEnvelopeV1, CommandName,
}
use supersonic.Cockpit.World.{World}
use supersonic.Cockpit.Transitions.Candidate.{Branch, unchanged, candidate, fresh, Raw}
use supersonic.Cockpit.Transitions.Scenario.{set_theme, set_system_mode}
use supersonic.Cockpit.Transitions.Passenger.{
  set_media_state, submit_trip_suggestion, set_cabin_control,
}
use supersonic.Cockpit.Coherence.{IsCoherent, IsCandidate, Returns, Returns-bind, Returns-map}
use supersonic.Cockpit.Coherence.Candidates.{
  stay, activated, activated-IsCandidate, navigate-IsCandidate, acknowledged-IsCandidate,
  resolved-IsCandidate, default_snapshot-IsCoherent,
}
use supersonic.Cockpit.Coherence.Ends.{
  Navigates, Resets, Acknowledges, Resolves, select_destination-Navigates, confirm_route-Navigates,
  reset_session-Resets, acknowledge_risk-Acknowledges, resolve_risk-Resolves,
}
use supersonic.Cockpit.Coherence.Synchronize.{synchronize-IsCoherent}
use supersonic.Cockpit.Transitions.{dispatch, finish, apply}

abbrev pub BranchIsCoherent : Branch → Type 0
BranchIsCoherent unchanged = Unit {0}
BranchIsCoherent (candidate s resolved) = IsCandidate s resolved
BranchIsCoherent (fresh s) = IsCoherent s

module _ (s : CockpitSnapshotV1) (h : IsCoherent s) (params : Raw) (w : World) where
  set_theme-BranchIsCoherent : Returns BranchIsCoherent (set_theme s params w)
  unfolding set_theme
  set_theme-BranchIsCoherent = ground (arith, stay s h)

  set_cabin_control-BranchIsCoherent : Returns BranchIsCoherent (set_cabin_control s params w)
  unfolding set_cabin_control
  set_cabin_control-BranchIsCoherent = ground (arith, stay s h)

  submit_trip_suggestion-BranchIsCoherent :
      Returns BranchIsCoherent (submit_trip_suggestion s params w)
  unfolding submit_trip_suggestion
  submit_trip_suggestion-BranchIsCoherent = ground (arith, stay s h)

  set_media_state-BranchIsCoherent : Returns BranchIsCoherent (set_media_state s params w)
  unfolding set_media_state
  set_media_state-BranchIsCoherent = ground (arith, stay s h)

  set_system_mode-BranchIsCoherent : Returns BranchIsCoherent (set_system_mode s params w)
  unfolding set_system_mode activated
  set_system_mode-BranchIsCoherent = ground (
    arith,
    stay s h,
    activated-IsCandidate s h SystemMode.takeover (w.clock w.readings) (w.ids w.issued),
  )

  navigates : (b : Branch) → Navigates s b → BranchIsCoherent b
  navigates b (flow, navigation, e) = rw e (navigate-IsCandidate s h flow navigation)

  dispatch-BranchIsCoherent :
      (name : CommandName) → Returns BranchIsCoherent (dispatch name s params w)
  unfolding dispatch
  dispatch-BranchIsCoherent CommandName.set_theme = set_theme-BranchIsCoherent
  dispatch-BranchIsCoherent CommandName.set_system_mode = set_system_mode-BranchIsCoherent
  dispatch-BranchIsCoherent CommandName.select_destination =
      Returns-map (Navigates s) BranchIsCoherent _ navigates
        (select_destination-Navigates s params w)
  dispatch-BranchIsCoherent CommandName.confirm_route =
      Returns-map (Navigates s) BranchIsCoherent _ navigates (confirm_route-Navigates s params w)
  dispatch-BranchIsCoherent CommandName.acknowledge_risk =
      Returns-map (Acknowledges s) BranchIsCoherent _
        (λ b (id, risk, now, found, active, e).
          rw e (acknowledged-IsCandidate s h id risk now found active))
        (acknowledge_risk-Acknowledges s params w)
  dispatch-BranchIsCoherent CommandName.resolve_risk =
      Returns-map (Resolves s) BranchIsCoherent _
        (λ b (id, risk, now, found, acknowledged, e).
          rw e (resolved-IsCandidate s h id risk now found acknowledged))
        (resolve_risk-Resolves s params w)
  dispatch-BranchIsCoherent CommandName.set_media_state = set_media_state-BranchIsCoherent
  dispatch-BranchIsCoherent CommandName.submit_trip_suggestion =
      submit_trip_suggestion-BranchIsCoherent
  dispatch-BranchIsCoherent CommandName.set_cabin_control = set_cabin_control-BranchIsCoherent
  dispatch-BranchIsCoherent CommandName.reset_session =
      Returns-map (Resets s) BranchIsCoherent _
        (λ b (now, id, e). rw e (default_snapshot-IsCoherent s.revision now id))
        (reset_session-Resets s params w)

  finish-IsCoherent :
      (b : Branch) (w' : World)
      → BranchIsCoherent b
      → Returns (λ r. IsCoherent r.snapshot) (finish s b w')
  unfolding finish
  finish-IsCoherent unchanged w' c = h
  finish-IsCoherent (fresh s') w' c = c
  finish-IsCoherent (candidate s' resolved) w' c = ground (arith, synchronize-IsCoherent c w')

-- From a coherent snapshot, whatever `apply` returns is coherent.
pub apply-IsCoherent :
    (s : CockpitSnapshotV1) (command : CommandEnvelopeV1) (w : World)
    → IsCoherent s
    → Returns (λ r. IsCoherent r.snapshot) (apply s command w)
unfolding apply
apply-IsCoherent s command w h =
    let name = command.payload.name in
    let params = command.payload.parameters in
    Returns-bind BranchIsCoherent (λ r. IsCoherent r.snapshot) (dispatch name s params w) (finish s)
      (dispatch-BranchIsCoherent s h params w name) (finish-IsCoherent s h params w)
