-- ===== src/Platform/Sanitization/Parameters.antt =====
-- apps/backend/app/platform/sanitization.py: the parameters of a fact that was sanitized before.
use supersonic.Prelude.{
  String, List, Option, none, some, ◌≡◌, refl, arith, true, false, [], ◌∷◌, ◌==◌, string_eq,
  contains, Bool-cases, inl, inr, Bool, sym, ◌||◌, ap, ◌∙◌,
}
use supersonic.Contract.{JsonValue}
use supersonic.Prelude.Dict.{Dict, lookup}
use supersonic.Platform.Sanitization.{
  PythonTexts, redacted, canonical_audit_identifier, sanitize_audit_parameter_value,
  sanitize_text_value, sanitize_temperature, sanitize_item, checked, as_string, sanitize_count,
  sanitize_flag, one_of, sanitize_text, marked,
}
use supersonic.Platform.Sanitization.Plain.{IsPythonTexts}
use supersonic.Platform.Sanitization.Idempotent.{canonical_idem}
use supersonic.Platform.Sanitization.Tables.{
  audit_redacted_parameter_keys, audit_safe_parameter_keys,
}

checked-same : (b : Bool) (v w : JsonValue) → checked b v ≡ some (some w) → v ≡ w
checked-same true v w h = ground (arith, h)
checked-same false v w h = cc

sanitize_temperature_idem :
    (v w : JsonValue)
    → sanitize_temperature v ≡ some (some w)
    → sanitize_temperature w ≡ some (some w)
unfolding sanitize_temperature
sanitize_temperature_idem (JsonValue.integer s n) w h = ground (arith, h)
sanitize_temperature_idem (JsonValue.float bits) w h = ground (arith, h)
sanitize_temperature_idem _ w h = cc

sanitize_count_idem :
    (v w : JsonValue) → sanitize_count v ≡ some (some w) → sanitize_count w ≡ some (some w)
unfolding sanitize_count
sanitize_count_idem (JsonValue.integer s n) w h = ground (arith, h)
sanitize_count_idem _ w h = cc

sanitize_flag_idem :
    (v w : JsonValue) → sanitize_flag v ≡ some (some w) → sanitize_flag w ≡ some (some w)
sanitize_flag_idem (JsonValue.boolean b) w h = ground (arith, h)
sanitize_flag_idem _ w h = cc

module _ (texts : PythonTexts) where
  -- The mark under a key is sanitized as the mark.
  abbrev pub KeepsMark : String → Type 0
  KeepsMark key =
      sanitize_item texts key (JsonValue.string redacted) ≡ some (some (JsonValue.string redacted))

module _ (texts : PythonTexts) (laws : IsPythonTexts texts) where
  as_string_idem :
      (value : String) (w : JsonValue) (o : Option (Option String))
      → canonical_audit_identifier texts value ≡ o
      → as_string o ≡ some (some w)
      → (t : String) × (w ≡ JsonValue.string t)
        × (canonical_audit_identifier texts t ≡ some (some t))
  as_string_idem value w none e h = cc
  as_string_idem value w (some none) e h = cc
  as_string_idem value w (some (some t)) e h =
      (t, ground (arith, h), canonical_idem texts laws value t e)

  one_of_idem :
      (value : String) (w : JsonValue) (o : Option (List String))
      → one_of o value ≡ some (some w)
      → w ≡ JsonValue.string value
  one_of_idem value w none h = cc
  one_of_idem value w (some allowed) h = sym (checked-same _ _ w h)

  module _ (commands : List String) (enums : Dict String (List String)) where
    sanitize_text_value_idem :
        (key value : String) (w : JsonValue)
        → sanitize_text_value texts commands enums key value ≡ some (some w)
        → (t : String) × (w ≡ JsonValue.string t)
          × (sanitize_text_value texts commands enums key t ≡ some (some w))
    unfolding sanitize_text_value
    sanitize_text_value_idem key value w h = elim (Bool-cases (key == "command")) [
      | inl e ↦ (value, sym (checked-same (contains value commands) _ w (ground (arith, h, e))), h)
      | inr e ↦ elim (Bool-cases (key == "eventId" || key == "targetUserId")) [
        | inl i ↦
            let (t, same, canonical) =
              as_string_idem value w (canonical_audit_identifier texts value) refl
                (rw (e, i) at h) in
            (t, same, rw (e, i, canonical, same))
        | inr n ↦ (value, one_of_idem value w (lookup key enums) (rw (e, n) at h), h)
      ]
    ]

  sanitize_text_idem :
      (key : String) (v w : JsonValue)
      → sanitize_text texts key v ≡ some (some w)
      → sanitize_text texts key w ≡ some (some w)
  sanitize_text_idem key (JsonValue.string s) w h =
      let (t, same, again) = sanitize_text_value_idem _ _ key s w h in
      ap (sanitize_text texts key) same ∙ again
  sanitize_text_idem key _ w h = cc

  value_idem :
      (key : String) (v w : JsonValue)
      → sanitize_audit_parameter_value texts key v ≡ some (some w)
      → sanitize_audit_parameter_value texts key w ≡ some (some w)
  unfolding sanitize_audit_parameter_value
  value_idem key v w h = elim (Bool-cases (key == "privacyEnabled")) [
    | inl e ↦ rw e (sanitize_flag_idem v w (rw e at h))
    | inr e ↦ elim (Bool-cases (contains key ("attempt" ∷ "count" ∷ "revokedSessionCount" ∷ []))) [
      | inl i ↦ rw (e, i) (sanitize_count_idem v w (rw (e, i) at h))
      | inr n ↦ elim (Bool-cases (key == "temperatureC")) [
        | inl t ↦ rw (e, n, t) (sanitize_temperature_idem v w (rw (e, n, t) at h))
        | inr f ↦ rw (e, n, f) (sanitize_text_idem key v w (rw (e, n, f) at h))
      ]
    ]
  ]

  marked_idem :
      (key : String) (v w : JsonValue) (o : Option (Option JsonValue))
      → sanitize_audit_parameter_value texts key v ≡ o
      → marked (sanitize_audit_parameter_value texts key (JsonValue.string redacted))
        ≡ some (some (JsonValue.string redacted))
      → marked o ≡ some (some w)
      → marked (sanitize_audit_parameter_value texts key w) ≡ some (some w)
  marked_idem key v w none e mark h = cc
  marked_idem key v w (some none) e mark h =
      let same : JsonValue.string redacted ≡ w = ground (arith, h) in
      ap (λ u. marked (sanitize_audit_parameter_value texts key u)) (sym same)
      ∙ mark
      ∙ ap (λ u. some (some u)) same
  marked_idem key v w (some (some x)) e mark h = ap marked (value_idem key v w (e ∙ h))

  pub item_idem :
      (key : String) (v w : JsonValue)
      → KeepsMark texts key
      → sanitize_item texts key v ≡ some (some w)
      → sanitize_item texts key w ≡ some (some w)
  unfolding sanitize_item
  item_idem key v w mark h = elim (Bool-cases (contains key audit_redacted_parameter_keys)) [
    | inl e ↦ rw e (rw e at h)
    | inr e ↦ elim (Bool-cases (contains key audit_safe_parameter_keys)) [
      | inl i ↦
          rw (e, i)
            (marked_idem key v w (sanitize_audit_parameter_value texts key v) refl
              (rw (e, i) at mark) (rw (e, i) at h))
      | inr n ↦ cc (rw (e, n) at h)
    ]
  ]
