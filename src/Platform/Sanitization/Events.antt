-- ===== src/Platform/Sanitization/Events.antt =====
-- apps/backend/app/platform/sanitization.py: `sanitize_audit_event` on a fact that it returned.
use supersonic.Prelude.{Option, some, ◌≡◌, refl, All, ap, String}
use supersonic.Prelude.Partial.{bind-some, some_injective}
use mathlib.Core.Path.{subst}
use supersonic.Platform.Models.{AuditEvent}
use supersonic.Platform.Sanitization.{
  PythonTexts, sanitize_audit_event, sanitize_audit_parameters, sanitize_item, marked, as_string,
  sanitize_text_value, sanitize_uuid_metadata, sanitize_target_id, with_metadata,
}
use supersonic.Platform.Sanitization.Plain.{IsPythonTexts}
use supersonic.Platform.Sanitization.Tables.{audit_parameter_key_order}
use supersonic.Platform.Sanitization.Parameters.{KeepsMark}
use supersonic.Platform.Sanitization.Idempotent.{
  canonical-redacted, sanitize_enum_metadata_idem, sanitize_required_enum_metadata_idem,
  sanitize_uuid_metadata_idem, sanitize_target_id_idem,
}
use supersonic.Prelude.Dict.{Dict}
use supersonic.Contract.{JsonValue}
use supersonic.Platform.Sanitization.Keys.{sanitize_keys_idem}

infixr 60 ◌and◌
abbrev ◌and◌ : {A B : Type 0} → A → B → A × B
x and y = (x, y)

module _ (texts : PythonTexts) (laws : IsPythonTexts texts) where
  order-KeepsMark : All (KeepsMark texts) audit_parameter_key_order
  unfolding sanitize_item supersonic.Prelude.String-discrete sanitize_text_value
  order-KeepsMark =
      let identifier = ap (λ o. marked (as_string o)) (canonical-redacted texts laws) in
      refl and refl and refl and identifier and refl and refl and refl and refl and refl
      and identifier and refl and refl and refl and refl and refl and refl and refl and refl
      and refl and refl and refl and refl and refl and tt

  -- What the four fields came from.
  pub sanitize_audit_event-some :
      (event sanitized : AuditEvent)
      → sanitize_audit_event texts event ≡ some sanitized
      → (c : Option String) × (r : Option String) × (t : Option String) × (p : Dict String
          JsonValue)
        × (sanitize_uuid_metadata texts event.cockpit_session_id ≡ some c)
        × (sanitize_uuid_metadata texts event.correlation_id ≡ some r)
        × (sanitize_target_id texts event.target_id ≡ some t)
        × (sanitize_audit_parameters texts event.parameters ≡ some p)
        × (with_metadata event c r t p ≡ sanitized)
  unfolding sanitize_audit_event
  sanitize_audit_event-some event sanitized h =
      let (c, hc, h1) =
        bind-some (sanitize_uuid_metadata texts event.cockpit_session_id) _ sanitized h in
      let (r, hr, h2) =
        bind-some (sanitize_uuid_metadata texts event.correlation_id) _ sanitized h1 in
      let (t, ht, h3) = bind-some (sanitize_target_id texts event.target_id) _ sanitized h2 in
      let (p, hp, h4) =
        bind-some (sanitize_audit_parameters texts event.parameters) _ sanitized h3 in
      (c, r, t, p, hc, hr, ht, hp, some_injective h4)

  with_metadata_again :
      (event : AuditEvent) (c r t : Option String) (p : Dict String JsonValue)
      → sanitize_uuid_metadata texts c ≡ some c
      → sanitize_uuid_metadata texts r ≡ some r
      → sanitize_target_id texts t ≡ some t
      → sanitize_audit_parameters texts p ≡ some p
      → sanitize_audit_event texts (with_metadata event c r t p)
        ≡ some (with_metadata event c r t p)
  unfolding sanitize_audit_event
  with_metadata_again event c r t p hc hr ht hp =
      rw (hc, hr, ht, hp) (simp (sanitize_enum_metadata_idem, sanitize_required_enum_metadata_idem))

  -- An audit fact that sanitize_audit_event returned is left as it is when it is sanitized again,
  -- if lower keeps lower-case texts and the UUID parser keeps canonical UUIDs and returns no
  -- others.
  pub sanitize_audit_event_idem :
      (event sanitized : AuditEvent)
      → sanitize_audit_event texts event ≡ some sanitized
      → sanitize_audit_event texts sanitized ≡ some sanitized
  unfolding sanitize_audit_parameters
  sanitize_audit_event_idem event sanitized h =
      let (c, r, t, p, hc, hr, ht, hp, e) = sanitize_audit_event-some event sanitized h in
      subst (λ s. sanitize_audit_event texts s ≡ some s) e
        (with_metadata_again event c r t p
          (sanitize_uuid_metadata_idem texts laws event.cockpit_session_id c hc)
          (sanitize_uuid_metadata_idem texts laws event.correlation_id r hr)
          (sanitize_target_id_idem texts laws event.target_id t ht)
          (sanitize_keys_idem texts laws audit_parameter_key_order event.parameters p
            order-KeepsMark hp))
