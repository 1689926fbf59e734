-- ===== src/Cockpit/Transitions/Risks.antt =====
-- apps/backend/app/cockpit/transitions.py: the risks of a snapshot.
pub mod Unresolved
use supersonic.Prelude.{
  String, Bool, false, Option, none, some, List, [], ◌∷◌, if◌then◌else◌, ◌==◌, ◌&&◌, ◌||◌,
  string_eq,
}
use supersonic.Contract.{
  RiskEventV1, RiskLifecycle, risk_lifecycle_eq, RiskSeverity, risk_severity_eq,
}

-- The test under `any` in `has_unresolved_critical_risk`.
abbrev pub is_unresolved_critical : RiskEventV1 → Bool
is_unresolved_critical risk =
    risk.severity == RiskSeverity.critical
    && (risk.lifecycle == RiskLifecycle.active || risk.lifecycle == RiskLifecycle.acknowledged)

unfoldable pub has_unresolved_critical_risk : List RiskEventV1 → Bool
has_unresolved_critical_risk [] = false
has_unresolved_critical_risk (risk ∷ risks) =
    is_unresolved_critical risk || has_unresolved_critical_risk risks

-- `next((item for item in candidate.risks if item.event_id == event_id), None)`
unfoldable pub find_risk : String → List RiskEventV1 → Option RiskEventV1
find_risk event_id [] = none
find_risk event_id (risk ∷ risks) =
    if risk.event_id == event_id then some risk else find_risk event_id risks

-- The list after the object that `find_risk` returns was changed into `risk`.
unfoldable pub replace_risk : String → RiskEventV1 → List RiskEventV1 → List RiskEventV1
replace_risk event_id risk [] = []
replace_risk event_id risk (r ∷ risks) =
    if r.event_id == event_id then risk ∷ risks else r ∷ replace_risk event_id risk risks
