-- ===== src/Cockpit/Coherence/Candidates.antt =====
-- apps/backend/app/cockpit/transitions.py: the changes that the commands make to a coherent
-- snapshot.
use supersonic.Prelude.{
  String, String-discrete, string_eq, [], ◌∷◌, ◌≡◌, ◌≢◌, some, none, true, false, arith, refl, inl,
  inr, ℕ, ◌++◌, ◌+◌, All-append,
}
use supersonic.Prelude.Dict.{lookup}
use supersonic.Contract.{
  CockpitSnapshotV1, RiskEventV1, DataFreshness, DataHealth, Time, RiskLifecycle, SystemMode,
  system_mode_eq, SystemMode-discrete, FlowId-discrete, NavigationStateV1,
}
use supersonic.Cockpit.StateFactory.{navigation_data_freshness, default_snapshot}
use supersonic.Cockpit.Transitions.Candidate.{synchronize_navigation_health, with_health}
use supersonic.Cockpit.Transitions.Scenario.{simulated_takeover_risk}
use supersonic.Cockpit.Transitions.Risks.{has_unresolved_critical_risk, find_risk, replace_risk}
use supersonic.Cockpit.Transitions.Risks.Unresolved.{
  has-unresolved, unresolved, unresolved-replace, unresolved-append_active, All-find, All-replace,
  weight,
}
use supersonic.Cockpit.Coherence.{IsCoherent, IsCandidate, IsTakeoverRisk, FlowId, All}
use supersonic.Cockpit.Coherence.Health.{
  lookup-insert_self, lookup-insert_ne, navigation-ne-vision, navigation-ne-vehicle,
  vision-ne-vehicle, vision-ne-navigation,
}

-- A fresh snapshot is coherent.
pub default_snapshot-IsCoherent :
    (revision : ℕ) (now : Time) (id : String) → IsCoherent (default_snapshot revision now id)
unfolding default_snapshot lookup has_unresolved_critical_risk unresolved SystemMode-discrete
    FlowId-discrete String-discrete
default_snapshot-IsCoherent revision now id = record {
  mode = refl;
  flow = refl;
  media = refl;
  single = omega arith;
  risks = tt;
  vehicle = λ e. cc;
  navigation = refl;
  vision = (record { status = DataFreshness.offline; updated_at = now }, refl, refl);
}

module _ (s : CockpitSnapshotV1) (h : IsCoherent s) where
  pub stay : IsCandidate s none
  stay = record {
    mode = ground arith;
    single = h.single;
    risks = h.risks;
    vehicle = h.vehicle;
    navigation = h.navigation;
    vision = (h.vision.0, h.vision.1, inl h.vision.2);
  }

  pub navigate-IsCandidate :
      (flow : FlowId) (navigation : NavigationStateV1)
      → IsCandidate
          (synchronize_navigation_health (record s { active_flow = flow; navigation = navigation }))
          none
  unfolding synchronize_navigation_health
  navigate-IsCandidate flow navigation =
      let v : DataHealth = record {
        status = navigation_data_freshness navigation;
        updated_at = navigation.updated_at;
      } in
      record {
        mode = stay.mode;
        single = h.single;
        risks = h.risks;
        vehicle =
            rw (lookup-insert_ne s.data_health v "navigation" "vehicle" navigation-ne-vehicle)
              h.vehicle;
        navigation = lookup-insert_self s.data_health v "navigation";
        vision = (
          h.vision.0,
          rw (lookup-insert_ne s.data_health v "navigation" "vision" navigation-ne-vision)
              h.vision.1,
          inl h.vision.2,
        );
      }

  unfoldable pub activated : SystemMode → Time → String → CockpitSnapshotV1
  activated mode now id =
      let entered = record s { system_mode = mode } in
      with_health "vision" DataFreshness.fresh now
        (record entered { risks = s.risks ++ simulated_takeover_risk entered now id ∷ [] })

  pub activated-IsCandidate :
      (mode : SystemMode) (now : Time) (id : String)
      → has_unresolved_critical_risk s.risks ≡ false
      → IsCandidate (activated mode now id) none
  unfolding activated simulated_takeover_risk
  activated-IsCandidate mode now id e =
      let risks = (activated mode now id).risks in
      let on : DataHealth = record { status = DataFreshness.fresh; updated_at = now } in
      let count : unresolved risks ≡ unresolved s.risks + 1 =
        unresolved-append_active s.risks _ refl refl in
      let now_unresolved : has_unresolved_critical_risk risks ≡ true =
        ground (arith, count, has-unresolved risks) in
      record {
        mode = inl now_unresolved;
        single = ground (arith, count, has-unresolved s.risks);
        risks = All-append IsTakeoverRisk s.risks _ h.risks (ground arith, tt);
        vehicle =
            rw (lookup-insert_ne s.data_health on "vision" "vehicle" vision-ne-vehicle) h.vehicle;
        navigation =
            rw (lookup-insert_ne s.data_health on "vision" "navigation" vision-ne-navigation)
              h.navigation;
        vision = (on, lookup-insert_self s.data_health on "vision", inl (rw now_unresolved));
      }

  module _ (id : String) (risk : RiskEventV1) (now : Time)
      (found : find_risk id s.risks ≡ some risk) where
    abbrev pub moved : RiskLifecycle → RiskEventV1
    moved stage = record risk { lifecycle = stage; updated_at = now }

    moved-risks :
        (stage : RiskLifecycle)
        → stage ≢ RiskLifecycle.candidate
        → All IsTakeoverRisk (replace_risk id (moved stage) s.risks)
    moved-risks stage confirmed =
        let old = All-find IsTakeoverRisk id risk s.risks found h.risks in
        All-replace IsTakeoverRisk id _ s.risks
          (record { critical = old.critical; simulated = old.simulated; confirmed = confirmed })
          h.risks

    moved-unresolved :
        (stage : RiskLifecycle)
        → unresolved (replace_risk id (moved stage) s.risks) + weight risk
          ≡ unresolved s.risks + weight (moved stage)
    moved-unresolved stage = unresolved-replace id risk (moved stage) s.risks found

    -- To acknowledge a risk leaves as many unresolved; to resolve a critical one, one less.
    acknowledged-unresolved :
        risk.lifecycle ≡ RiskLifecycle.active
        → unresolved (replace_risk id (moved RiskLifecycle.acknowledged) s.risks)
          ≡ unresolved s.risks
    acknowledged-unresolved active = ground (arith, moved-unresolved RiskLifecycle.acknowledged)

    pub acknowledged-test :
        risk.lifecycle ≡ RiskLifecycle.active
        → has_unresolved_critical_risk (replace_risk id (moved RiskLifecycle.acknowledged) s.risks)
          ≡ has_unresolved_critical_risk s.risks
    acknowledged-test active = rw (
      has-unresolved (replace_risk id (moved RiskLifecycle.acknowledged) s.risks),
      has-unresolved s.risks,
      acknowledged-unresolved active,
    )

    pub resolved-test :
        risk.lifecycle ≡ RiskLifecycle.acknowledged
        → has_unresolved_critical_risk (replace_risk id (moved RiskLifecycle.resolved) s.risks)
          ≡ false
    resolved-test acknowledged =
        let risks = replace_risk id (moved RiskLifecycle.resolved) s.risks in
        let old = All-find IsTakeoverRisk id risk s.risks found h.risks in
        ground (
          arith,
          moved-unresolved RiskLifecycle.resolved,
          old.critical,
          has-unresolved risks,
          h.single,
        )

    pub acknowledged-IsCandidate :
        risk.lifecycle ≡ RiskLifecycle.active
        → IsCandidate
            (record s { risks = replace_risk id (moved RiskLifecycle.acknowledged) s.risks })
            none
    acknowledged-IsCandidate active = record {
      mode = ground (arith, acknowledged-test active);
      single = omega (arith, acknowledged-unresolved active, h.single);
      risks = moved-risks RiskLifecycle.acknowledged (λ e. cc);
      vehicle = h.vehicle;
      navigation = h.navigation;
      vision = (h.vision.0, h.vision.1, inl (rw (acknowledged-test active) h.vision.2));
    }

    pub resolved-IsCandidate :
        risk.lifecycle ≡ RiskLifecycle.acknowledged
        → IsCandidate
            (record s {
              risks = replace_risk id (moved RiskLifecycle.resolved) s.risks;
              system_mode = SystemMode.recovery;
            })
            (some (moved RiskLifecycle.resolved))
    resolved-IsCandidate acknowledged =
        let old = All-find IsTakeoverRisk id risk s.risks found h.risks in
        let fewer = moved-unresolved RiskLifecycle.resolved in
        record {
          mode = inr (λ e. cc);
          single = ground (arith, fewer, old.critical, h.single);
          risks = moved-risks RiskLifecycle.resolved (λ e. cc);
          vehicle = h.vehicle;
          navigation = h.navigation;
          vision = (
            h.vision.0,
            h.vision.1,
            inr (resolved-test acknowledged, ground (arith, old.simulated)),
          );
        }
