-- ===== src/Cockpit/Transitions/Risks/Unresolved.antt =====
-- How many risks are critical and unresolved, as risks are added and replaced.
use supersonic.Prelude.{
  ℕ, ◌+◌, String, some, List, [], ◌∷◌, ◌++◌, ◌≡◌, refl, if◌then◌else◌, ltb, All, arith,
}
use supersonic.Contract.{RiskEventV1}
use supersonic.Cockpit.Transitions.Risks.{
  is_unresolved_critical, has_unresolved_critical_risk, find_risk, replace_risk, RiskSeverity,
  RiskLifecycle,
}

abbrev pub weight : RiskEventV1 → ℕ
weight risk = if is_unresolved_critical risk then 1 else 0

unfoldable pub unresolved : List RiskEventV1 → ℕ
unresolved [] = 0
unresolved (risk ∷ risks) = weight risk + unresolved risks

pub has-unresolved :
    (risks : List RiskEventV1) → has_unresolved_critical_risk risks ≡ ltb 0 (unresolved risks)
unfolding has_unresolved_critical_risk unresolved
has-unresolved [] = refl
has-unresolved (risk ∷ risks) = ground (arith, has-unresolved risks)

pub unresolved-append_active :
    (risks : List RiskEventV1) (risk : RiskEventV1)
    → risk.severity ≡ RiskSeverity.critical
    → risk.lifecycle ≡ RiskLifecycle.active
    → unresolved (risks ++ risk ∷ []) ≡ unresolved risks + 1
unfolding unresolved
unresolved-append_active [] risk c a = ground arith
unresolved-append_active (r ∷ risks) risk c a =
    ground (arith, unresolved-append_active risks risk c a)

pub unresolved-replace :
    (id : String) (risk risk' : RiskEventV1) (risks : List RiskEventV1)
    → find_risk id risks ≡ some risk
    → unresolved (replace_risk id risk' risks) + weight risk ≡ unresolved risks + weight risk'
unfolding unresolved find_risk replace_risk
unresolved-replace id risk risk' [] h = absurd (ground arith)
unresolved-replace id risk risk' (r ∷ risks) h =
    ground (arith, unresolved-replace id risk risk' risks)

pub All-find :
    (P : RiskEventV1 → Type 0) (id : String) (risk : RiskEventV1) (risks : List RiskEventV1)
    → find_risk id risks ≡ some risk
    → All P risks
    → P risk
unfolding find_risk
All-find P id risk [] h a = absurd (ground arith)
All-find P id risk (r ∷ risks) h a = ground (arith, All-find P id risk risks)

pub All-replace :
    (P : RiskEventV1 → Type 0) (id : String) (risk : RiskEventV1) (risks : List RiskEventV1)
    → P risk
    → All P risks
    → All P (replace_risk id risk risks)
unfolding replace_risk
All-replace P id risk [] h a = tt
All-replace P id risk (r ∷ risks) h a = ground (arith, All-replace P id risk risks h)
