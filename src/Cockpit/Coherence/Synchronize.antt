-- ===== src/Cockpit/Coherence/Synchronize.antt =====
-- apps/backend/app/cockpit/transitions.py: what `synchronize_risk_dependent_state` makes of a
-- candidate.
use supersonic.Prelude.{◌≡◌, Option, true, false, arith, Bool-cases, inl, inr}
use supersonic.Contract.{CockpitSnapshotV1, RiskEventV1, DataFreshness, DataHealth, Time}
use supersonic.Cockpit.World.{World}
use supersonic.Cockpit.Transitions.{
  synchronize_risk_dependent_state, is_simulated, take_over, end_takeover,
}
use supersonic.Cockpit.Transitions.Candidate.{with_health}
use supersonic.Cockpit.Transitions.Risks.{has_unresolved_critical_risk}
use supersonic.Cockpit.Coherence.{IsCoherent, IsCandidate, Returns}
use supersonic.Cockpit.Coherence.Health.{
  lookup-insert_self, lookup-insert_ne, paused-ne-suppressed, vision-ne-vehicle,
  vision-ne-navigation,
}

module _ {s : CockpitSnapshotV1} {r : Option RiskEventV1} (h : IsCandidate s r) where
  take_over-IsCoherent : has_unresolved_critical_risk s.risks ≡ true → IsCoherent (take_over s)
  take_over-IsCoherent e = record {
    mode = ground arith;
    flow = ground arith;
    media = ground arith;
    single = h.single;
    risks = h.risks;
    vehicle = h.vehicle;
    navigation = h.navigation;
    vision = (h.vision.0, h.vision.1, ground arith);
  }

  end_takeover-IsCoherent :
      has_unresolved_critical_risk s.risks ≡ false
      → is_simulated r ≡ false
      → IsCoherent (end_takeover s)
  end_takeover-IsCoherent e f = record {
    mode = ground arith;
    flow = ground (arith, paused-ne-suppressed);
    media = ground (arith, paused-ne-suppressed);
    single = ground arith;
    risks = ground arith;
    vehicle = ground arith;
    navigation = ground arith;
    vision = (h.vision.0, ground arith, ground arith);
  }

  vision_off-IsCoherent :
      (now : Time)
      → has_unresolved_critical_risk s.risks ≡ false
      → IsCoherent (with_health "vision" DataFreshness.offline now (end_takeover s))
  vision_off-IsCoherent now e =
      let health = (end_takeover s).data_health in
      let off : DataHealth = record { status = DataFreshness.offline; updated_at = now } in
      record {
        mode = ground arith;
        flow = ground (arith, paused-ne-suppressed);
        media = ground (arith, paused-ne-suppressed);
        single = ground arith;
        risks = ground arith;
        vehicle = ground (arith, lookup-insert_ne health off "vision" "vehicle" vision-ne-vehicle);
        navigation =
            ground (arith, lookup-insert_ne health off "vision" "navigation" vision-ne-navigation);
        vision = (off, lookup-insert_self health off "vision", ground arith);
      }

  pub synchronize-IsCoherent :
      (w : World) → Returns IsCoherent (synchronize_risk_dependent_state s r w)
  unfolding synchronize_risk_dependent_state
  synchronize-IsCoherent w = elim (Bool-cases (has_unresolved_critical_risk s.risks)) [
    | inl e ↦ rw (e, synchronize_risk_dependent_state) (take_over-IsCoherent e)
    | inr e ↦ elim (Bool-cases (is_simulated r)) [
      | inl f ↦ rw (e, f, synchronize_risk_dependent_state) (vision_off-IsCoherent _ e)
      | inr f ↦ rw (e, f, synchronize_risk_dependent_state) (end_takeover-IsCoherent e f)
    ]
  ]
