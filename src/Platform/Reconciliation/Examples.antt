-- ===== src/Platform/Reconciliation/Examples.antt =====
-- A batch of one fact that is reconciled twice.
use supersonic.Prelude.{refl, true, false, none, some, ok, ◌∷◌, [], ◌≡◌, ap, sym}
use supersonic.Platform.Models.{AuditDelivery}
use supersonic.Platform.Store.{Store}
use supersonic.Platform.Sanitization.Examples.{
  plain_texts, plain_texts-IsPythonTexts, revoke_event, sanitized_revoke,
}
use supersonic.Platform.Database.{Database}
use supersonic.Platform.Reconciliation.{reconcile, AuditReconciliationReport}
use supersonic.Platform.Reconciliation.Repeated.{reconcile-again}

abbrev empty_store : Store
empty_store = record { users = []; platform_sessions = []; audit_events = [] }

abbrev filled_store : Store
filled_store = record empty_store { audit_events = sanitized_revoke AuditDelivery.fallback ∷ [] }

abbrev opened : Store → Database
opened s = record { store = s; work = s; outages = λ _. false; calls = 0 }

abbrev first_report : AuditReconciliationReport
first_report = record { validated = 1; imported = 1; duplicates = 0; dry_run = false }

first_run :
    reconcile plain_texts (revoke_event AuditDelivery.fallback ∷ []) false (opened empty_store)
    ≡ (ok first_report, record (opened filled_store) { calls = 3 })
unfolding reconcile supersonic.Platform.Reconciliation.reconcile_prepared
    supersonic.Platform.Reconciliation.prepare_events
    supersonic.Platform.Reconciliation.prepare_event
    supersonic.Platform.Reconciliation.validate_batch_identity
    supersonic.Platform.Reconciliation.import_batch supersonic.Platform.Reconciliation.import_events
    supersonic.Platform.Database.append_or_match supersonic.Platform.Database.append_audit_event
    supersonic.Platform.Database.call supersonic.Platform.Database.commit_unit
    supersonic.Platform.Database.close_unit supersonic.Platform.AuditIdentity.canonicalize
    supersonic.Platform.AuditIdentity.canonical_ids
    supersonic.Platform.Sanitization.sanitize_audit_event
    supersonic.Platform.Sanitization.sanitize_uuid_metadata
    supersonic.Platform.Sanitization.sanitize_target_id
    supersonic.Platform.Sanitization.sanitize_audit_parameters
    supersonic.Platform.Sanitization.sanitize_text_value
    supersonic.Platform.Sanitization.sanitize_required_enum_metadata
    supersonic.Platform.Sanitization.sanitize_enum_metadata supersonic.Platform.Store.append_event
    supersonic.Platform.Store.find_row supersonic.Prelude.String-discrete
    supersonic.Prelude.ℕ_discrete supersonic.Platform.Models.AuditDelivery-discrete
    supersonic.Platform.Models.AuditResult-discrete plain_texts
first_run = refl

reconcile-again_example :
    ((reconcile plain_texts
        (revoke_event AuditDelivery.fallback ∷ [])
        false
        (opened filled_store)).0
      ≡ ok (record first_report { imported = 0; duplicates = 1 }))
    × ((reconcile plain_texts
          (revoke_event AuditDelivery.fallback ∷ [])
          false
          (opened filled_store)).1.store
        ≡ filled_store)
reconcile-again_example =
    reconcile-again plain_texts plain_texts-IsPythonTexts (revoke_event AuditDelivery.fallback ∷ [])
      first_report (opened empty_store) (opened filled_store) (ap (λ r. r.0) first_run)
      (sym (ap (λ r. r.1.store) first_run)) (λ n. refl)
