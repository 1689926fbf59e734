-- ===== src/Platform/Reconciliation.antt =====
-- apps/backend/app/platform/audit_reconciliation.py: `AuditReconciler.reconcile`.
pub mod Known
pub mod Again
pub mod Prepared
pub mod Repeated
mod Examples
use supersonic.Prelude.{
  Bool, true, false, not, List, [], ◌∷◌, ◌++◌, String, ℕ, ◌+◌, Option, none, some, Exec, Result, ok,
  raise, pure, throw, throw_if, ◌>>=◌, ◌>>◌, if◌then◌else◌, length, ◌==◌, ◌!=◌, ◌&&◌, string_eq,
}
use supersonic.Prelude.Partial
use supersonic.Prelude.Dict.{Dict, lookup, insert}
use supersonic.Platform.Models.{
  AuditEvent, AuditResult, AuditDelivery, audit_result_eq, audit_delivery_eq,
}
use supersonic.Platform.Sanitization.{PythonTexts, sanitize_audit_event}
use supersonic.Platform.AuditIdentity.{canonical_ids, audit_events_equivalent}
use supersonic.Platform.Database.{
  DatabaseAction, with_value, append_or_match, commit_unit, in_unit, require_matching_duplicate,
}

-- `AuditReconciliationReport`
pub record AuditReconciliationReport : Type 0 where
  pub validated : ℕ
  pub imported : ℕ
  pub duplicates : ℕ
  pub dry_run : Bool

-- The tests of `_prepare_event` that do not convert anything.
abbrev pub is_importable : AuditEvent → Bool
is_importable event =
    event.delivery == AuditDelivery.fallback
    && event.result != AuditResult.degraded
    && event.action != ""
    && event.source_type != ""

-- A fact is counted as imported or as a duplicate.
abbrev pub counted : Bool → ℕ × ℕ → ℕ × ℕ
counted inserted (imported, duplicates) =
    if inserted then (imported + 1, duplicates) else (imported, duplicates + 1)

-- The report of a run that is not dry.
abbrev pub report_of : List AuditEvent → ℕ × ℕ → AuditReconciliationReport
report_of prepared (imported, duplicates) = record {
  validated = length prepared;
  imported = imported;
  duplicates = duplicates;
  dry_run = false;
}

module _ (texts : PythonTexts) where
  -- `_prepare_event`
  unfoldable pub prepare_event : AuditEvent → Option AuditEvent
  prepare_event event =
      if is_importable event
      then Partial.◌>>=◌ (sanitize_audit_event texts event) (canonical_ids texts)
      else none

  unfoldable pub prepare_events : List AuditEvent → Option (List AuditEvent)
  prepare_events [] = some []
  prepare_events (event ∷ events) =
      Partial.◌>>=◌ (prepare_event event)
        (λ prepared. Partial.◌>>=◌ (prepare_events events) (λ rest. some (prepared ∷ rest)))

  -- One turn of the loop of `_validate_batch_identity`.
  abbrev pub require_same : Option AuditEvent → AuditEvent → DatabaseAction (Unit {0})
  require_same none event = pure tt
  require_same (some existing) event =
      with_value (audit_events_equivalent texts existing event)
        (λ same. if same then pure tt else require_matching_duplicate texts (some existing) event)

  abbrev pub remember :
      Option AuditEvent → AuditEvent → Dict String AuditEvent → Dict String AuditEvent
  remember none event by_id = insert event.id event by_id
  remember (some _) event by_id = by_id

  -- The loop of `_validate_batch_identity`
  unfoldable pub validate_batch_identity :
      Dict String AuditEvent → List AuditEvent → DatabaseAction (Unit {0})
  validate_batch_identity by_id [] = pure tt
  validate_batch_identity by_id (event ∷ events) = do
    require_same (lookup event.id by_id) event
    validate_batch_identity (remember (lookup event.id by_id) event by_id) events

  -- The loop of `reconcile`
  unfoldable pub import_events : List AuditEvent → ℕ × ℕ → DatabaseAction (ℕ × ℕ)
  import_events [] counts = pure counts
  import_events (event ∷ events) counts = do
    inserted ← append_or_match texts event
    import_events events (counted inserted counts)

  -- The unit of work of `reconcile`
  unfoldable pub import_batch : List AuditEvent → DatabaseAction (ℕ × ℕ)
  import_batch prepared = do counts ← import_events prepared (0, 0); commit_unit; pure counts

  -- `reconcile` after its checks
  unfoldable pub reconcile_prepared :
      List AuditEvent → Bool → DatabaseAction AuditReconciliationReport
  reconcile_prepared prepared true =
      pure (record { validated = length prepared; imported = 0; duplicates = 0; dry_run = true })
  reconcile_prepared prepared false = do
    counts ← in_unit (import_batch prepared)
    pure (report_of prepared counts)

  -- `reconcile`
  unfoldable pub reconcile : List AuditEvent → Bool → DatabaseAction AuditReconciliationReport
  reconcile events dry_run =
      with_value (prepare_events events)
        (λ prepared. do validate_batch_identity [] prepared; reconcile_prepared prepared dry_run)
