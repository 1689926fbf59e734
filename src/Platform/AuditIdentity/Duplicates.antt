-- ===== src/Platform/AuditIdentity/Duplicates.antt =====
-- apps/backend/app/platform/audit_identity.py: a fact compared with its canonical form.
use supersonic.Prelude.{some, ◌≡◌, Bool-cases, inl, inr, true, ap, ◌∙◌, All}
use mathlib.Core.Path.{subst}
use supersonic.Prelude.Partial.{bind-some}
use supersonic.Platform.Models.{AuditEvent}
use supersonic.Platform.Sanitization.{PythonTexts, sanitize_audit_event, sanitize_audit_parameters}
use supersonic.Platform.Sanitization.Plain.{IsPythonTexts}
use supersonic.Platform.Sanitization.Tables.{audit_parameter_key_order}
use supersonic.Platform.Sanitization.Events.{sanitize_audit_event-some}
use supersonic.Platform.AuditIdentity.{
  canonicalize, canonical_ids, is_persistable, audit_events_equivalent,
}
use supersonic.Platform.AuditIdentity.Canonical.{canonical_ids-some, canonicalize_idem}
use supersonic.Platform.AuditIdentity.Same.{IsSelf, same_event_refl}
use supersonic.Platform.AuditIdentity.SelfEqual.{keys-IsSelf}

module _ (texts : PythonTexts) (laws : IsPythonTexts texts) where
  canonical-IsSelf :
      (event canonical : AuditEvent)
      → canonicalize texts event ≡ some canonical
      → All (λ f. IsSelf f.1) canonical.parameters
  unfolding canonicalize sanitize_audit_parameters
  canonical-IsSelf event canonical h = elim (Bool-cases (is_persistable event)) [
    | inr e ↦ cc (rw e at h)
    | inl e ↦
        let (s, hs, h1) =
          bind-some (sanitize_audit_event texts event) (canonical_ids texts) canonical
            (rw e at h) in
        let (id, actor, session, hi, ha, hp, same) = canonical_ids-some texts laws s canonical h1 in
        let (c, r, t, p, hc, hr, ht, hk, from) = sanitize_audit_event-some texts laws event s hs in
        let parameters = ap (λ v. v.parameters) from ∙ ap (λ v. v.parameters) same in
        subst (All (λ f. IsSelf f.1)) parameters
          (keys-IsSelf texts audit_parameter_key_order event.parameters p hk)
  ]

  -- An audit fact is equivalent to its canonical form.
  pub canonical-equivalent :
      (event canonical : AuditEvent)
      → canonicalize texts event ≡ some canonical
      → audit_events_equivalent texts canonical event ≡ some true
  unfolding audit_events_equivalent
  canonical-equivalent event canonical h =
      rw (canonicalize_idem texts laws event canonical h, h)
        (ap some (same_event_refl canonical (canonical-IsSelf event canonical h)))
