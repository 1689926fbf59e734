-- ===== src/Cockpit/Coherence.antt =====
-- apps/backend/app/cockpit/transitions.py: the state that the transitions keep coherent: what follows
-- from an unresolved critical risk, and the health of the data domains.
pub mod Health
pub mod Synchronize
pub mod Ends
pub mod Candidates
pub mod Branches
pub mod Frame
pub mod Takeover
pub mod Lifecycle
use supersonic.Prelude.{
  ℕ, ◌≤◌, Bool, true, false, Option, some, ◌≡◌, ◌≢◌, ◌⊎◌, ◌==◌, string_eq, String, All,
  if◌then◌else◌, Exec, Result, ok, raise, List, continue,
}
use supersonic.Prelude.Dict.{lookup}
use supersonic.Contract.{
  CockpitSnapshotV1, DataFreshness, DataHealth, FlowId, flow_id_eq, RiskEventV1, RiskLifecycle,
  RiskSeverity, RiskSource, SystemMode, system_mode_eq,
}
use supersonic.Cockpit.StateFactory.{navigation_data_freshness}
use supersonic.Cockpit.Transitions.{is_simulated}
use supersonic.Cockpit.Transitions.Risks.{has_unresolved_critical_risk}
use supersonic.Cockpit.Transitions.Risks.Unresolved.{unresolved}

-- The risks that the cockpit itself creates.
pub record IsTakeoverRisk (risk : RiskEventV1) : Type 0 where
  pub critical : risk.severity ≡ RiskSeverity.critical
  pub simulated : risk.source ≡ RiskSource.simulated_event
  pub confirmed : risk.lifecycle ≢ RiskLifecycle.candidate

abbrev pub navigation_health : CockpitSnapshotV1 → DataHealth
navigation_health s = record {
  status = navigation_data_freshness s.navigation;
  updated_at = s.navigation.updated_at;
}

abbrev pub vision_status : List RiskEventV1 → DataFreshness
vision_status risks =
    if has_unresolved_critical_risk risks then DataFreshness.fresh else DataFreshness.offline

-- Takeover mode, the takeover flow and suppressed media each hold exactly while a critical risk is
-- unresolved, and the three domains report their health.
pub record IsCoherent (s : CockpitSnapshotV1) : Type 0 where
  pub mode : (s.system_mode == SystemMode.takeover) ≡ has_unresolved_critical_risk s.risks
  pub flow : (s.active_flow == FlowId.risk_takeover) ≡ has_unresolved_critical_risk s.risks
  pub media : (s.passenger.media_state == "suppressed") ≡ has_unresolved_critical_risk s.risks
  pub single : unresolved s.risks ≤ 1
  pub risks : All IsTakeoverRisk s.risks
  pub vehicle : lookup "vehicle" s.data_health ≢ Option.none
  pub navigation : lookup "navigation" s.data_health ≡ some (navigation_health s)
  pub vision :
      (v : DataHealth) × (lookup "vision" s.data_health ≡ some v)
      × (v.status ≡ vision_status s.risks)

-- What a branch owes `synchronize_risk_dependent_state`.
pub record IsCandidate (s : CockpitSnapshotV1) (resolved : Option RiskEventV1) : Type 0 where
  pub mode : (has_unresolved_critical_risk s.risks ≡ true) ⊎ (s.system_mode ≢ SystemMode.takeover)
  pub single : unresolved s.risks ≤ 1
  pub risks : All IsTakeoverRisk s.risks
  pub vehicle : lookup "vehicle" s.data_health ≢ Option.none
  pub navigation : lookup "navigation" s.data_health ≡ some (navigation_health s)
  pub vision :
      (v : DataHealth) × (lookup "vision" s.data_health ≡ some v)
      × ((v.status ≡ vision_status s.risks)
          ⊎ ((has_unresolved_critical_risk s.risks ≡ false) × (is_simulated resolved ≡ true)))

-- Of what an action returns, if it returns.
abbrev pub Returns {ℓ} : {E S A : Type 0} → (A → Type ℓ) → Result E A × S → Type ℓ
Returns P (ok a, _) = P a
Returns P (raise _, _) = Unit

pub Returns-map {ℓ κ} :
    {E S A : Type 0} (P : A → Type ℓ) (Q : A → Type κ) (r : Result E A × S)
    → ((a : A) → P a → Q a)
    → Returns P r
    → Returns Q r
Returns-map P Q (ok a, _) f h = f a h
Returns-map P Q (raise _, _) f h = tt

pub Returns-bind :
    {E S A B : Type 0} (P : A → Type 0) (Q : B → Type 0) (m : Result E A × S) (f : A → Exec E S B)
    → Returns P m
    → ((a : A) (s : S) → P a → Returns Q (f a s))
    → Returns Q (continue m.0 f m.1)
Returns-bind P Q (ok a, s) f h k = k a s h
Returns-bind P Q (raise _, s) f h k = tt
