-- ===== src/Platform/AuditIdentity/SelfEqual.antt =====
-- apps/backend/app/platform/audit_identity.py: the values of a canonical fact, each compared with
-- itself.
use supersonic.Prelude.{
  Option, none, some, ◌≡◌, refl, Bool, true, false, Bool-cases, inl, inr, String, List, [], ◌∷◌,
  ◌∙◌, sym, All, contains, ◌==◌, string_eq, ◌||◌,
}
use supersonic.Prelude.Dict.{Dict, lookup}
use supersonic.Contract.{JsonValue}
use supersonic.Platform.Sanitization.{
  PythonTexts, sanitize_count, sanitize_flag, sanitize_temperature, sanitize_text,
  sanitize_text_value, sanitize_audit_parameter_value, sanitize_item, sanitize_keys, marked,
  checked, as_string, one_of, redacted, canonical_audit_identifier, float_overflows,
}
use supersonic.Platform.Sanitization.Keys.{entry-some}
use supersonic.Platform.AuditIdentity.Same.{
  IsSelf, boolean-IsSelf, integer-IsSelf, string-IsSelf, float-IsSelf,
}
use mathlib.Core.Path.{subst}
use supersonic.Prelude.Partial.{some_injective}
use supersonic.Platform.Sanitization.Tables.{
  audit_redacted_parameter_keys, audit_safe_parameter_keys,
}

checked-IsSelf :
    (b : Bool) (v w : JsonValue) → (b ≡ true → IsSelf v) → checked b v ≡ some (some w) → IsSelf w
checked-IsSelf true v w h e = subst IsSelf (some_injective (some_injective e)) (h refl)
checked-IsSelf false v w h e = cc

count-IsSelf : (v w : JsonValue) → sanitize_count v ≡ some (some w) → IsSelf w
unfolding sanitize_count
count-IsSelf (JsonValue.integer s n) w h = checked-IsSelf _ _ w (λ _. integer-IsSelf s n) h
count-IsSelf _ w h = cc

flag-IsSelf : (v w : JsonValue) → sanitize_flag v ≡ some (some w) → IsSelf w
flag-IsSelf (JsonValue.boolean b) w h =
    subst IsSelf (some_injective (some_injective h)) (boolean-IsSelf b)
flag-IsSelf _ w h = cc

temperature-IsSelf : (v w : JsonValue) → sanitize_temperature v ≡ some (some w) → IsSelf w
unfolding sanitize_temperature
temperature-IsSelf (JsonValue.integer s n) w h = elim (Bool-cases (float_overflows n)) [
  | inl e ↦ cc (rw e at h)
  | inr e ↦ checked-IsSelf _ _ w (λ _. integer-IsSelf s n) (rw e at h)
]
temperature-IsSelf (JsonValue.float bits) w h = checked-IsSelf _ _ w (float-IsSelf bits) h
temperature-IsSelf _ w h = cc

one_of-IsSelf :
    (o : Option (List String)) (s : String) (w : JsonValue) → one_of o s ≡ some (some w) → IsSelf w
one_of-IsSelf none s w h = cc
one_of-IsSelf (some allowed) s w h = checked-IsSelf _ _ w (λ _. string-IsSelf s) h

as_string-IsSelf :
    (o : Option (Option String)) (w : JsonValue) → as_string o ≡ some (some w) → IsSelf w
as_string-IsSelf none w h = cc
as_string-IsSelf (some none) w h = cc
as_string-IsSelf (some (some t)) w h =
    subst IsSelf (some_injective (some_injective h)) (string-IsSelf t)

module _ (texts : PythonTexts) where
  text-IsSelf :
      (commands : List String) (enums : Dict String (List String)) (key s : String) (w : JsonValue)
      → sanitize_text_value texts commands enums key s ≡ some (some w)
      → IsSelf w
  unfolding sanitize_text_value
  text-IsSelf commands enums key s w h = elim (Bool-cases (key == "command")) [
    | inl e ↦ checked-IsSelf (contains s commands) _ w (λ _. string-IsSelf s) (rw e at h)
    | inr e ↦ elim (Bool-cases (key == "eventId" || key == "targetUserId")) [
      | inl i ↦ as_string-IsSelf (canonical_audit_identifier texts s) w (rw (e, i) at h)
      | inr n ↦ one_of-IsSelf (lookup key enums) s w (rw (e, n) at h)
    ]
  ]

  json-IsSelf :
      (key : String) (v w : JsonValue) → sanitize_text texts key v ≡ some (some w) → IsSelf w
  json-IsSelf key (JsonValue.string s) w h = text-IsSelf _ _ key s w h
  json-IsSelf key _ w h = cc

  value-IsSelf :
      (key : String) (v w : JsonValue)
      → sanitize_audit_parameter_value texts key v ≡ some (some w)
      → IsSelf w
  unfolding sanitize_audit_parameter_value
  value-IsSelf key v w h = elim (Bool-cases (key == "privacyEnabled")) [
    | inl e ↦ flag-IsSelf v w (rw e at h)
    | inr e ↦ elim (Bool-cases (contains key ("attempt" ∷ "count" ∷ "revokedSessionCount" ∷ []))) [
      | inl i ↦ count-IsSelf v w (rw (e, i) at h)
      | inr n ↦ elim (Bool-cases (key == "temperatureC")) [
        | inl t ↦ temperature-IsSelf v w (rw (e, n, t) at h)
        | inr f ↦ json-IsSelf key v w (rw (e, n, f) at h)
      ]
    ]
  ]

  marked-IsSelf :
      (key : String) (v w : JsonValue) (o : Option (Option JsonValue))
      → sanitize_audit_parameter_value texts key v ≡ o
      → marked o ≡ some (some w)
      → IsSelf w
  marked-IsSelf key v w none e h = cc
  marked-IsSelf key v w (some none) e h =
      subst IsSelf (some_injective (some_injective h)) (string-IsSelf redacted)
  marked-IsSelf key v w (some (some x)) e h = value-IsSelf key v w (e ∙ h)

  item-IsSelf :
      (key : String) (v w : JsonValue) → sanitize_item texts key v ≡ some (some w) → IsSelf w
  unfolding sanitize_item
  item-IsSelf key v w h = elim (Bool-cases (contains key audit_redacted_parameter_keys)) [
    | inl e ↦ subst IsSelf (some_injective (some_injective (rw e at h))) (string-IsSelf redacted)
    | inr e ↦ elim (Bool-cases (contains key audit_safe_parameter_keys)) [
      | inl i ↦
          marked-IsSelf key v w (sanitize_audit_parameter_value texts key v) refl (rw (e, i) at h)
      | inr n ↦ cc (rw (e, n) at h)
    ]
  ]

  -- Each entry that the loop stores.
  pub keys-IsSelf :
      (order : List String) (items result : Dict String JsonValue)
      → sanitize_keys texts order items ≡ some result
      → All (λ f. IsSelf f.1) result
  unfolding sanitize_keys
  keys-IsSelf [] items result h = subst (All (λ f. IsSelf f.1)) (some_injective h) tt
  keys-IsSelf (key ∷ order) items result h =
      let (r, e, c) =
        entry-some texts key (lookup key items) (sanitize_keys texts order items) result h in
      let rest = keys-IsSelf order items r e in
      elim c [
        | inl (n, same) ↦ subst (All (λ f. IsSelf f.1)) (sym same) rest
        | inr (item, none, f, i, same) ↦ subst (All (λ f. IsSelf f.1)) (sym same) rest
        | inr (item, some v, f, i, same) ↦
            subst (All (λ f. IsSelf f.1)) (sym same) (item-IsSelf key item v i, rest)
      ]
