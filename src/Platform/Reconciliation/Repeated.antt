-- ===== src/Platform/Reconciliation/Repeated.antt =====
-- apps/backend/app/platform/audit_reconciliation.py: a reconciliation that is run again.
use supersonic.Prelude.{
  Bool, false, List, [], ℕ, some, ok, raise, ◌≡◌, refl, All, ap, sym, ◌∙◌, Option-cases, inl, inr,
  Result, continue, pure, Result-cases,
}
use mathlib.Core.Path.{subst}
use supersonic.Prelude.Triples.{Ends, Ends-ok, Ends-weaken, Triple-bind, ok_injective}
use supersonic.Platform.Models.{AuditEvent}
use supersonic.Platform.Sanitization.{PythonTexts}
use supersonic.Platform.Sanitization.Plain.{IsPythonTexts}
use supersonic.Platform.Database.{Database, in_unit, commit_unit, PlatformError}
use supersonic.Platform.Database.Rules.{in_unit-Ends, commit_unit-Ends}
use supersonic.Platform.Reconciliation.{
  reconcile, reconcile_prepared, prepare_events, validate_batch_identity, import_batch,
  import_events, AuditReconciliationReport, report_of,
}
use supersonic.Platform.Reconciliation.Known.{
  IsCanonical, Known, Anything, import_events-Known, Learned,
}
use supersonic.Platform.Reconciliation.Again.{Answers, import_batch-matched}
use supersonic.Platform.Reconciliation.Prepared.{prepare_events-IsCanonical, validate-IsPure}

module _ (texts : PythonTexts) (laws : IsPythonTexts texts) where
  import_batch-Known :
      (prepared : List AuditEvent) (d : Database)
      → All (IsCanonical texts) prepared
      → Ends
          (λ _ e. All (Known texts e.store) prepared)
          (λ _ _. Unit {0})
          (in_unit (import_batch texts prepared) d)
  unfolding import_batch
  import_batch-Known prepared d c =
      in_unit-Ends (λ _ s. All (Known texts s) prepared) (λ _. Unit {0})
        (import_batch texts prepared) d
        (Triple-bind (λ e. Unit {0}) (import_events texts prepared (0, 0)) _
          (λ _ e. All (Known texts e.work) prepared) (λ _ e. All (Known texts e.store) prepared)
          Anything
          (λ e _.
            Ends-weaken (Learned texts [] prepared) (λ _ e. All (Known texts e.work) prepared)
              Anything Anything _ (import_events-Known texts prepared (0, 0) [] c e tt)
              (λ _ _ q. q.1) (λ _ _ r. r))
          (λ counts.
            Triple-bind (λ e. All (Known texts e.work) prepared) commit_unit _
              (λ _ e. All (Known texts e.store) prepared)
              (λ _ e. All (Known texts e.store) prepared) Anything
              (λ e h. commit_unit-Ends (λ _ e. All (Known texts e.store) prepared) Anything e h tt)
              (λ _ e h. h))
          (record d { work = d.store }) tt)
        (λ _ _ _. tt)

  -- A reconciliation whose checks pass.
  reconcile-checked :
      (events prepared : List AuditEvent) (d d' : Database) (dry_run : Bool)
      → prepare_events texts events ≡ some prepared
      → (validate_batch_identity texts [] prepared d').0 ≡ ok tt
      → reconcile texts events dry_run d ≡ reconcile_prepared texts prepared dry_run d
  unfolding reconcile
  reconcile-checked events prepared d d' dry_run p v =
      rw (p, validate-IsPure texts [] prepared d d', v)

  report-state :
      (prepared : List AuditEvent) (r : Result PlatformError (ℕ × ℕ) × Database)
      → (continue r.0 (λ c. pure (report_of prepared c)) r.1).1 ≡ r.1
  report-state prepared (ok c, d) = refl
  report-state prepared (raise e, d) = refl

  -- What a reconciliation that returned was given, and what it committed.
  prepared-report :
      (prepared : List AuditEvent) (r : Result PlatformError (ℕ × ℕ) × Database)
      (report : AuditReconciliationReport)
      → (continue r.0 (λ c. pure (report_of prepared c)) r.1).0 ≡ ok report
      → (c : ℕ × ℕ) × (r.0 ≡ ok c)
        × (report_of prepared c ≡ report)
        × ((continue r.0 (λ c. pure (report_of prepared c)) r.1).1 ≡ r.1)
  prepared-report prepared (ok c, d) report h = (c, refl, ok_injective h, refl)
  prepared-report prepared (raise e, d) report h = cc

  reconcile_prepared-matched :
      (prepared : List AuditEvent) (report : AuditReconciliationReport) (d d' : Database)
      → All (IsCanonical texts) prepared
      → (reconcile_prepared texts prepared false d).0 ≡ ok report
      → d'.store ≡ (reconcile_prepared texts prepared false d).1.store
      → Answers d'
      → ((reconcile_prepared texts prepared false d').0
          ≡ ok (record report { imported = 0; duplicates = report.validated }))
        × ((reconcile_prepared texts prepared false d').1.store ≡ d'.store)
  unfolding reconcile_prepared
  reconcile_prepared-matched prepared report d d' c h same answers =
      let (counts, ran, made, left) =
        prepared-report prepared (in_unit (import_batch texts prepared) d) report h in
      let known =
        Ends-ok (λ _ e. All (Known texts e.store) prepared) (λ _ _. Unit {0})
          (in_unit (import_batch texts prepared) d) counts (import_batch-Known prepared d c) ran in
      let known' =
        subst (λ s. All (Known texts s) prepared) (ap (λ e. e.store) (sym left) ∙ sym same) known in
      let (result, kept) = import_batch-matched texts prepared d' c known' answers in
      (
        rw result (
            ap
              (λ (r : AuditReconciliationReport).
                ok (record r { imported = 0; duplicates = r.validated }))
              made),
        ap (λ e. e.store) (report-state prepared (in_unit (import_batch texts prepared) d')) ∙ kept,
      )

  checks-cases :
      (events : List AuditEvent) (d : Database) (report : AuditReconciliationReport)
      → (reconcile texts events false d).0 ≡ ok report
      → (prepared : List AuditEvent) × (prepare_events texts events ≡ some prepared)
        × ((validate_batch_identity texts [] prepared d).0 ≡ ok tt)
  unfolding reconcile
  checks-cases events d report h = elim (Option-cases (prepare_events texts events)) [
    | inl n ↦ cc (rw n at h)
    | inr (prepared, p) ↦ elim (Result-cases (validate_batch_identity texts [] prepared d).0) [
      | inl (u, v) ↦ (prepared, p, v)
      | inr (e, v) ↦ cc (rw (p, v) at h)
    ]
  ]

  -- If a reconciliation that is not dry returned a report, the same events reconciled again on a
  -- database that answers and whose committed store is the one that the first run left return the
  -- same report with nothing imported and every event a duplicate, and leave the store as it was.
  -- The texts' functions are assumed to keep lower-case texts and canonical UUIDs.
  pub reconcile-again :
      (events : List AuditEvent) (report : AuditReconciliationReport) (d d' : Database)
      → (reconcile texts events false d).0 ≡ ok report
      → d'.store ≡ (reconcile texts events false d).1.store
      → Answers d'
      → ((reconcile texts events false d').0
          ≡ ok (record report { imported = 0; duplicates = report.validated }))
        × ((reconcile texts events false d').1.store ≡ d'.store)
  reconcile-again events report d d' h same answers =
      let (prepared, p, v) = checks-cases events d report h in
      let run = reconcile-checked events prepared d d false p v in
      let run' = reconcile-checked events prepared d' d false p v in
      let (result, kept) =
        reconcile_prepared-matched prepared report d d'
          (prepare_events-IsCanonical texts laws events prepared p) (ap (λ r. r.0) (sym run) ∙ h)
          (same ∙ ap (λ r. r.1.store) run) answers in
      (ap (λ r. r.0) run' ∙ result, ap (λ r. r.1.store) run' ∙ kept)
