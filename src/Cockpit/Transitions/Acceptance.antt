-- ===== src/Cockpit/Transitions/Acceptance.antt =====
-- apps/backend/app/cockpit/transitions.py: when the media command and the risk commands are
-- accepted.
use supersonic.Prelude.{
  String, Result, ℕ, ◌≡◌, ◌∷◌, contains, ok, [], some, ◌↔◌, ◌⊎◌, arith, none, false, raise,
}
use supersonic.Cockpit.Transitions.Candidate.{Raw, Branch}
use supersonic.Contract.{CockpitSnapshotV1, RiskLifecycle, RiskEventV1}
use supersonic.Cockpit.Errors.{CommandRejected}
use supersonic.Cockpit.World.{World}
use supersonic.Cockpit.Parameters.{require_exact, text}
use supersonic.Cockpit.Transitions.Passenger.{set_media_state}
use supersonic.Cockpit.Transitions.RiskCommands.{acknowledge_risk, resolve_risk, command_risk}
use supersonic.Cockpit.Transitions.Risks.{find_risk, has_unresolved_critical_risk}

abbrev pub Accepts : Result CommandRejected Branch × World → Type 0
Accepts (ok _, _) = Unit {0}
Accepts (raise _, _) = ⊥

-- The parameters name exactly this text.
abbrev pub Names : Raw → String → ℕ → String → Type 0
Names params key limit value =
    (require_exact params (key ∷ []) ≡ ok tt) × (text params key limit none ≡ ok value)

-- The parameters name a risk of the snapshot that is at this stage.
abbrev pub NamesRisk : CockpitSnapshotV1 → Raw → RiskLifecycle → Type 0
NamesRisk s params stage =
    (id : String) × (risk : RiskEventV1) × Names params "eventId" 256 id
    × (find_risk id s.risks ≡ some risk)
    × (risk.lifecycle ≡ stage)

module _ (s : CockpitSnapshotV1) (params : Raw) (w : World) where
  -- SET_MEDIA_STATE is accepted exactly when its one parameter is a text that reads playing or
  -- paused and no critical risk is unresolved.
  pub set_media_state_iff : Accepts (set_media_state s params w) ↔ (
      (value : String) × Names params "state" 16 value
      × ((value ≡ "playing") ⊎ (value ≡ "paused"))
      × (has_unresolved_critical_risk s.risks ≡ false))
  unfolding set_media_state contains
  set_media_state_iff = (λ h. ground arith, λ h. ground arith)

  -- ACKNOWLEDGE_RISK is accepted exactly when its one parameter is a text of at most 256 characters
  -- that names a risk of the snapshot, and the first such risk is active.
  pub acknowledge_risk_iff :
      Accepts (acknowledge_risk s params w) ↔ NamesRisk s params RiskLifecycle.active
  unfolding acknowledge_risk command_risk
  acknowledge_risk_iff = (λ h. ground arith, λ h. ground arith)

  -- RESOLVE_RISK is accepted exactly when its one parameter is a text of at most 256 characters
  -- that names a risk of the snapshot, and the first such risk is acknowledged.
  pub resolve_risk_iff :
      Accepts (resolve_risk s params w) ↔ NamesRisk s params RiskLifecycle.acknowledged
  unfolding resolve_risk command_risk
  resolve_risk_iff = (λ h. ground arith, λ h. ground arith)
