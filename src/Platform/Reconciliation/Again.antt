-- ===== src/Platform/Reconciliation/Again.antt =====
-- apps/backend/app/platform/audit_reconciliation.py: `reconcile` of a batch that was imported before.
use supersonic.Prelude.{
  false, List, [], ◌∷◌, ℕ, ◌+◌, ok, ◌≡◌, refl, arith, All, ap, string_eq, length, ◌∙◌,
}
use supersonic.Platform.Models.{AuditEvent}
use supersonic.Platform.Store.{append_event}
use supersonic.Platform.Sanitization.{PythonTexts}
use supersonic.Platform.Database.{
  Database, call, append_audit_event, get_audit_event, require_matching_duplicate, append_or_match,
  commit_unit, close_unit, in_unit,
}
use supersonic.Platform.Database.Rules.{after}
use supersonic.Platform.Reconciliation.{import_events, import_batch}
use supersonic.Platform.Reconciliation.Known.{IsCanonical, Known, append_event-old}

-- A database that answers.
abbrev pub Answers : Database → Type 0
Answers d = (n : ℕ) → d.outages n ≡ false

module _ (texts : PythonTexts) where
  -- A known fact is matched, and nothing is written.
  append_or_match-matched :
      (event : AuditEvent) (d : Database)
      → IsCanonical texts event
      → Known texts d.work event
      → Answers d
      → append_or_match texts event d ≡ (ok false, after (after d d.work) d.work)
  unfolding append_or_match append_audit_event get_audit_event require_matching_duplicate call
      append_event
  append_or_match-matched event d c (row, f, e) answers = rw (
    c.canonical,
    answers d.calls,
    append_event-old d.work event row f,
    c.identified,
    answers (d.calls + 1),
    f,
    e,
  )

  import_events-matched :
      (events : List AuditEvent) (imported duplicates : ℕ) (d : Database)
      → All (IsCanonical texts) events
      → All (Known texts d.work) events
      → Answers d
      → (n : ℕ) × (import_events texts events (imported, duplicates) d
          ≡ (ok (imported, duplicates + length events), record d { calls = n }))
  unfolding import_events
  import_events-matched [] imported duplicates d c k answers =
      (d.calls, ap (λ k. (ok (imported, k), d)) (omega arith))
  import_events-matched (event ∷ events) imported duplicates d c k answers =
      let (n, e) =
        import_events-matched events imported (duplicates + 1) (after (after d d.work) d.work) c.1
          k.1 answers in
      (
        n,
        rw (append_or_match-matched event d c.0 k.0 answers)
            (e ∙ ap (λ k. (ok (imported, k), record d { calls = n })) (omega arith)),
      )

  -- The unit of work of a batch that is known.
  pub import_batch-matched :
      (prepared : List AuditEvent) (d : Database)
      → All (IsCanonical texts) prepared
      → All (Known texts d.store) prepared
      → Answers d
      → ((in_unit (import_batch texts prepared) d).0 ≡ ok (0, length prepared))
        × ((in_unit (import_batch texts prepared) d).1.store ≡ d.store)
  unfolding import_batch commit_unit close_unit
  import_batch-matched prepared d c k answers =
      let (n, e) = import_events-matched prepared 0 0 (record d { work = d.store }) c k answers in
      rw (e, answers n, answers (n + 1)) (ap (λ k. ok (0, k)) (omega arith), refl)
