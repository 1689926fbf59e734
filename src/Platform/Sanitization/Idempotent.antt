-- ===== src/Platform/Sanitization/Idempotent.antt =====
-- apps/backend/app/platform/sanitization.py: a fact that was sanitized before.
use supersonic.Prelude.{
  String, List, Option, none, some, ◌≡◌, refl, arith, true, false, [], ◌∷◌, ◌==◌, string_eq,
  contains, Bool-cases, Option-cases, inl, inr, ◌⊎◌,
}
use supersonic.Platform.Sanitization.{
  PythonTexts, redacted, canonical_audit_identifier, sanitize_enum_metadata,
  sanitize_required_enum_metadata, sanitize_uuid_metadata, sanitize_target_id, map_target,
}
use supersonic.Platform.Sanitization.Patterns.{fullmatch, simulated_pattern, is_uuid_text}
use supersonic.Platform.Sanitization.Plain.{
  IsPythonTexts, is_plain_text, is_plain, uuid_text-plain, simulated_text-plain,
}

pub sanitize_enum_metadata_idem :
    (allowed : List String) (value : Option String)
    → sanitize_enum_metadata allowed (sanitize_enum_metadata allowed value)
      ≡ sanitize_enum_metadata allowed value
unfolding sanitize_enum_metadata
sanitize_enum_metadata_idem allowed none = refl
sanitize_enum_metadata_idem allowed (some value) = ground arith

pub sanitize_required_enum_metadata_idem :
    (allowed : List String) (value : String)
    → sanitize_required_enum_metadata allowed (sanitize_required_enum_metadata allowed value)
      ≡ sanitize_required_enum_metadata allowed value
unfolding sanitize_required_enum_metadata
sanitize_required_enum_metadata_idem allowed value = ground arith

-- No identifier.
redacted-refused : (is_uuid_text redacted ≡ false) × (fullmatch simulated_pattern redacted ≡ false)
unfolding is_uuid_text fullmatch simulated_pattern supersonic.Prelude.ℕ_discrete
redacted-refused = (refl, refl)

redacted-plain : is_plain_text redacted ≡ true
unfolding is_plain_text is_plain
redacted-plain = refl

map_target-cases :
    (o : Option (Option String)) (result : Option String)
    → map_target o ≡ some result
    → (result ≡ none)
      ⊎ ((result ≡ some redacted)
          ⊎ ((t : String) × (result ≡ some t) × ((t == "") ≡ false) × (o ≡ some (some t))))
map_target-cases none result h = cc
map_target-cases (some none) result h = inr (inl (ground (arith, h)))
map_target-cases (some (some t)) result h = elim (Bool-cases (t == "")) [
  | inl e ↦ inr (inl (ground (arith, h, e)))
  | inr e ↦ inr (inr (t, ground (arith, h, e), e, refl))
]

module _ (texts : PythonTexts) (laws : IsPythonTexts texts) where
  lower-redacted : texts.lower redacted ≡ redacted
  lower-redacted = laws.lower_plain redacted redacted-plain

  lower-uuid : (t : String) → is_uuid_text t ≡ true → texts.lower t ≡ t
  lower-uuid t h = laws.lower_plain t (uuid_text-plain t h)

  pub canonical-redacted : canonical_audit_identifier texts redacted ≡ some none
  unfolding canonical_audit_identifier
  canonical-redacted = rw (lower-redacted, redacted-refused.0, redacted-refused.1)

  pub canonical_idem :
      (value t : String)
      → canonical_audit_identifier texts value ≡ some (some t)
      → canonical_audit_identifier texts t ≡ some (some t)
  unfolding canonical_audit_identifier
  canonical_idem value t h = ground (
    arith,
    h,
    lower-uuid t,
    laws.uuid_canonical value t,
    laws.uuid_fixed t,
    laws.lower_plain t,
    simulated_text-plain t,
  )

  pub sanitize_uuid_metadata_idem :
      (value result : Option String)
      → sanitize_uuid_metadata texts value ≡ some result
      → sanitize_uuid_metadata texts result ≡ some result
  unfolding sanitize_uuid_metadata
  sanitize_uuid_metadata_idem none result h = ground (arith, h)
  sanitize_uuid_metadata_idem (some value) none h = ground (arith, h)
  sanitize_uuid_metadata_idem (some value) (some t) h = ground (
    arith,
    h,
    lower-uuid t,
    laws.uuid_canonical value t,
    laws.uuid_fixed t,
    lower-redacted,
    redacted-refused,
  )

  pub sanitize_target_id_idem :
      (value result : Option String)
      → sanitize_target_id texts value ≡ some result
      → sanitize_target_id texts result ≡ some result
  unfolding sanitize_target_id
  sanitize_target_id_idem none result h = ground (arith, h)
  sanitize_target_id_idem (some value) result h =
      elim (map_target-cases (canonical_audit_identifier texts value) result h) [
        | inl e ↦ rw (e, sanitize_target_id)
        | inr (inl e) ↦ rw (e, sanitize_target_id, canonical-redacted)
        | inr (inr (t, e, filled, same)) ↦
            rw (e, sanitize_target_id, canonical_idem value t same, filled)
      ]
