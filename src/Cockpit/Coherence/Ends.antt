-- ===== src/Cockpit/Coherence/Ends.antt =====
-- What the branches of `dispatch` that change navigation, risks or the session end in.
use supersonic.Prelude.{String, string_eq, ◌≡◌, some, none, arith}
use supersonic.Contract.{
  CockpitSnapshotV1, RiskEventV1, Time, RiskLifecycle, SystemMode, system_mode_eq,
  NavigationStateV1,
}
use supersonic.Cockpit.StateFactory.{default_snapshot}
use supersonic.Cockpit.World.{World}
use supersonic.Cockpit.Transitions.Candidate.{
  Branch, candidate, fresh, Raw, synchronize_navigation_health,
}
use supersonic.Cockpit.Transitions.Scenario.{reset_session}
use supersonic.Cockpit.Transitions.Navigation.{select_destination, confirm_route}
use supersonic.Cockpit.Transitions.RiskCommands.{command_risk, acknowledge_risk, resolve_risk}
use supersonic.Cockpit.Transitions.Risks.{find_risk, replace_risk}
use supersonic.Cockpit.Coherence.{Returns, FlowId}

module _ (s : CockpitSnapshotV1) where
  -- A reset keeps nothing but the revision.
  abbrev pub Resets : Branch → Type 0
  Resets b = (now : Time) × (id : String) × (b ≡ fresh (default_snapshot s.revision now id))

  -- A risk command finds its risk at the stage before, and puts the next stage in its place.
  abbrev pub Acknowledges : Branch → Type 0
  Acknowledges b =
      (id : String) × (risk : RiskEventV1) × (now : Time) × (find_risk id s.risks ≡ some risk)
      × (risk.lifecycle ≡ RiskLifecycle.active)
      × (b
          ≡ candidate
              (record s {
                risks =
                    replace_risk id
                      (record risk { lifecycle = RiskLifecycle.acknowledged; updated_at = now })
                      s.risks;
              })
              none)

  abbrev pub Resolves : Branch → Type 0
  Resolves b =
      (id : String) × (risk : RiskEventV1) × (now : Time) × (find_risk id s.risks ≡ some risk)
      × (risk.lifecycle ≡ RiskLifecycle.acknowledged)
      × (b
          ≡ candidate
              (record s {
                risks =
                    replace_risk id
                      (record risk { lifecycle = RiskLifecycle.resolved; updated_at = now })
                      s.risks;
                system_mode = SystemMode.recovery;
              })
              (some (record risk { lifecycle = RiskLifecycle.resolved; updated_at = now })))

  abbrev pub Navigates : Branch → Type 0
  Navigates b =
      (flow : FlowId) × (navigation : NavigationStateV1) × (b
        ≡ candidate
            (synchronize_navigation_health
              (record s { active_flow = flow; navigation = navigation }))
            none)

  module _ (params : Raw) (w : World) where
    -- The navigation branches end in a candidate with a new navigation and its health.
    pub select_destination-Navigates : Returns Navigates (select_destination s params w)
    unfolding select_destination
    select_destination-Navigates = ground arith

    pub confirm_route-Navigates : Returns Navigates (confirm_route s params w)
    unfolding confirm_route
    confirm_route-Navigates = ground arith

    pub reset_session-Resets : Returns Resets (reset_session s params w)
    unfolding reset_session
    reset_session-Resets = ground arith

    pub acknowledge_risk-Acknowledges : Returns Acknowledges (acknowledge_risk s params w)
    unfolding acknowledge_risk command_risk
    acknowledge_risk-Acknowledges = ground arith

    pub resolve_risk-Resolves : Returns Resolves (resolve_risk s params w)
    unfolding resolve_risk command_risk
    resolve_risk-Resolves = ground arith
