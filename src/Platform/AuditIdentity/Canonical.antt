-- ===== src/Platform/AuditIdentity/Canonical.antt =====
-- apps/backend/app/platform/audit_identity.py: the canonical form of a canonical fact, and a fact
-- compared with itself.
use supersonic.Prelude.{
  Option, none, some, ◌≡◌, arith, true, Bool-cases, inl, inr, String, ap, ◌∙◌, sym,
}
use mathlib.Core.Path.{subst}
use supersonic.Prelude.Partial.{bind-some, some_injective}
use supersonic.Platform.Models.{AuditEvent}
use supersonic.Platform.Sanitization.{PythonTexts, sanitize_audit_event}
use supersonic.Platform.Sanitization.Plain.{IsPythonTexts}
use supersonic.Platform.Sanitization.Events.{sanitize_audit_event_idem, sanitize_audit_event-some}
use supersonic.Platform.AuditIdentity.{
  canonicalize, canonical_ids, canonical_optional_uuid, is_persistable, with_ids,
}

module _ (texts : PythonTexts) (laws : IsPythonTexts texts) where
  optional_uuid_idem :
      (value result : Option String)
      → canonical_optional_uuid texts value ≡ some result
      → canonical_optional_uuid texts result ≡ some result
  optional_uuid_idem none result h = ground (arith, h)
  optional_uuid_idem (some v) none h = ground (arith, h)
  optional_uuid_idem (some v) (some t) h =
      ground (arith, h, laws.uuid_canonical v t, laws.uuid_fixed t)

  -- The ids of a fact are not sanitized.
  sanitize-with_ids :
      (event : AuditEvent) (id : String) (actor session : Option String)
      → sanitize_audit_event texts event ≡ some event
      → sanitize_audit_event texts (with_ids event id actor session)
        ≡ some (with_ids event id actor session)
  unfolding sanitize_audit_event
  sanitize-with_ids event id actor session clean =
      let (c, r, t, p, hc, hr, ht, hp, e) =
        sanitize_audit_event-some texts laws event event clean in
      rw (hc, hr, ht, hp) (ap (λ v. some (with_ids v id actor session)) e)

  pub canonical_ids-some :
      (event result : AuditEvent)
      → canonical_ids texts event ≡ some result
      → (id : String) × (actor : Option String) × (session : Option String) × (texts.uuid event.id
          ≡ some id)
        × (canonical_optional_uuid texts event.actor_user_id ≡ some actor)
        × (canonical_optional_uuid texts event.actor_platform_session_id ≡ some session)
        × (with_ids event id actor session ≡ result)
  unfolding canonical_ids
  canonical_ids-some event result h =
      let (id, hi, h1) = bind-some (texts.uuid event.id) _ result h in
      let (actor, ha, h2) =
        bind-some (canonical_optional_uuid texts event.actor_user_id) _ result h1 in
      let (session, hs, h3) =
        bind-some (canonical_optional_uuid texts event.actor_platform_session_id) _ result h2 in
      (id, actor, session, hi, ha, hs, some_injective h3)

  with_ids_again :
      (event : AuditEvent) (id : String) (actor session : Option String)
      → is_persistable event ≡ true
      → sanitize_audit_event texts event ≡ some event
      → texts.uuid id ≡ some id
      → canonical_optional_uuid texts actor ≡ some actor
      → canonical_optional_uuid texts session ≡ some session
      → canonicalize texts (with_ids event id actor session)
        ≡ some (with_ids event id actor session)
  unfolding canonicalize canonical_ids
  with_ids_again event id actor session persistable clean hi ha hs =
      rw (persistable, sanitize-with_ids event id actor session clean, hi, ha, hs)

  sanitize-is_persistable :
      (event s : AuditEvent)
      → sanitize_audit_event texts event ≡ some s
      → is_persistable s ≡ is_persistable event
  sanitize-is_persistable event s h =
      let (c, r, t, p, hc, hr, ht, hp, e) = sanitize_audit_event-some texts laws event s h in
      sym (ap is_persistable e)

  -- The canonical form of a canonical fact is that fact.
  pub canonicalize_idem :
      (event result : AuditEvent)
      → canonicalize texts event ≡ some result
      → canonicalize texts result ≡ some result
  unfolding canonicalize
  canonicalize_idem event result h = elim (Bool-cases (is_persistable event)) [
    | inr e ↦ cc (rw e at h)
    | inl e ↦
        let (s, hs, h1) =
          bind-some (sanitize_audit_event texts event) (canonical_ids texts) result (rw e at h) in
        let (id, actor, session, hi, ha, hp, same) = canonical_ids-some s result h1 in
        subst (λ r. canonicalize texts r ≡ some r) same
          (with_ids_again s id actor session (sanitize-is_persistable event s hs ∙ e)
            (sanitize_audit_event_idem texts laws event s hs)
            (laws.uuid_fixed id (laws.uuid_canonical s.id id hi))
            (optional_uuid_idem s.actor_user_id actor ha)
            (optional_uuid_idem s.actor_platform_session_id session hp))
  ]

  -- The id of a canonical fact is a canonical UUID.
  pub canonicalize-identified :
      (event result : AuditEvent)
      → canonicalize texts event ≡ some result
      → texts.uuid result.id ≡ some result.id
  unfolding canonicalize
  canonicalize-identified event result h = elim (Bool-cases (is_persistable event)) [
    | inr e ↦ cc (rw e at h)
    | inl e ↦
        let (s, hs, h1) =
          bind-some (sanitize_audit_event texts event) (canonical_ids texts) result (rw e at h) in
        let (id, actor, session, hi, ha, hp, same) = canonical_ids-some s result h1 in
        subst (λ r. texts.uuid r.id ≡ some r.id) same
          (laws.uuid_fixed id (laws.uuid_canonical s.id id hi))
  ]
