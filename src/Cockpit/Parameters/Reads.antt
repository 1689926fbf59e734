-- ===== src/Cockpit/Parameters/Reads.antt =====
-- apps/backend/app/cockpit/policies.py: what `Parameters.text` returns and when it raises.
use supersonic.Prelude.{
  refl, ℕ, ◌≤◌, String, string_eq, Option, some, ◌≡◌, ◌≢◌, ◌↔◌, ok, raise, strip, strip_idem,
  text_length, arith, concat, ◌∷◌, [], ◌⊎◌, ◌<◌, show, inl, inr, none, Bool-cases, ◌==◌,
}
use supersonic.Prelude.Dict.{Dict, lookup}
use supersonic.Contract.{JsonValue}
use supersonic.Cockpit.Errors.{CommandRejected}
use supersonic.Cockpit.Parameters.{text, label_or, str_of}

-- A parameter that is a string, or none.
str_of-cases :
    (o : Option JsonValue)
    → ((s : String) × (o ≡ some (JsonValue.string s)))
      ⊎ ((str_of o ≡ none) × ((s : String) → o ≢ some (JsonValue.string s)))
str_of-cases none = inr (refl, λ s e. cc e)
str_of-cases (some (JsonValue.string s)) = inl (s, refl)
str_of-cases (some JsonValue.null) = inr (refl, λ s e. cc e)
str_of-cases (some (JsonValue.boolean b)) = inr (refl, λ s e. cc e)
str_of-cases (some (JsonValue.integer b n)) = inr (refl, λ s e. cc e)
str_of-cases (some (JsonValue.float b)) = inr (refl, λ s e. cc e)
str_of-cases (some (JsonValue.array a)) = inr (refl, λ s e. cc e)
str_of-cases (some (JsonValue.object a)) = inr (refl, λ s e. cc e)

-- A text that `text` may return.
pub record IsText (max_length : ℕ) (value : String) : Type 0 where
  pub stripped : strip value ≡ value
  pub filled : value ≢ ""
  pub short : text_length value ≤ max_length

module _ (raw : Dict String JsonValue) (key : String) (n : ℕ) (label : Option String) where
  text-ok :
      (value : String)
      → text raw key n label ≡ ok value
      → (s : String) × (lookup key raw ≡ some (JsonValue.string s))
        × (value ≡ strip s)
        × (value ≢ "")
        × (text_length value ≤ n)
  unfolding text
  text-ok value h = ground arith

  text-accepts :
      (s : String)
      → lookup key raw ≡ some (JsonValue.string s)
      → strip s ≢ ""
      → text_length (strip s) ≤ n
      → text raw key n label ≡ ok (strip s)
  unfolding text
  text-accepts s found filled short = ground arith

  -- text returns a value exactly when the parameter is a string that, stripped, is that value, and
  -- the value is not empty and no longer than the limit.
  pub text_iff :
      (value : String)
      → (text raw key n label ≡ ok value) ↔ (
          (s : String) × (lookup key raw ≡ some (JsonValue.string s))
          × (value ≡ strip s)
          × (value ≢ "")
          × (text_length value ≤ n))
  text_iff value = (
    text-ok value,
    λ (s, found, e, filled, short). rw e (text-accepts s found (rw e at filled) (rw e at short)),
  )

  pub text-IsText : (value : String) → text raw key n label ≡ ok value → IsText n value
  text-IsText value h =
      let (s, _, e, filled, short) = text-ok value h in
      record { stripped = rw e (strip_idem s); filled = filled; short = short }

  abbrev field_name : String
  field_name = label_or label key

  -- The two refusals of text: nothing is left of the parameter once it is stripped, or it is no
  -- string; or what is left is too long.
  abbrev pub RefusesText : CommandRejected → Type 0
  RefusesText e =
      (((s : String) → lookup key raw ≡ some (JsonValue.string s) → strip s ≡ "")
        × (e ≡ record {
          code = "invalid_parameters";
          message = concat (field_name ∷ " must be a non-empty string." ∷ []);
          status_code = 400;
        }))
      ⊎ ((s : String) × (lookup key raw ≡ some (JsonValue.string s))
          × (strip s ≢ "")
          × (n < text_length (strip s))
          × (e ≡ record {
            code = "invalid_parameters";
            message = concat (field_name ∷ " must be at most " ∷ show n ∷ " characters." ∷ []);
            status_code = 400;
          }))

  text-refuses : (e : CommandRejected) → text raw key n label ≡ raise e → RefusesText e
  unfolding text
  text-refuses e h = elim (str_of-cases (lookup key raw)) [
    | inl (s, found) ↦ elim (Bool-cases (strip s == "")) [
      | inl b ↦ inl (λ t f. ground (arith, found, f, b), ground (arith, found, b, h))
      | inr b ↦
          inr
            (s, found, ground (arith, b), ground (arith, found, b, h), ground (arith, found, b, h))
    ]
    | inr (none_of, other) ↦ inl (λ t f. absurd (other t f), ground (arith, none_of, h))
  ]

  refuses-text : (e : CommandRejected) → RefusesText e → text raw key n label ≡ raise e
  unfolding text
  refuses-text e (inr (s, found, filled, long, is)) = ground (arith, found, filled, long, is)
  refuses-text e (inl (empty, is)) = elim (str_of-cases (lookup key raw)) [
    | inl (s, found) ↦ ground (arith, found, empty s found, is)
    | inr (none_of, other) ↦ ground (arith, none_of, is)
  ]

  -- text raises an error exactly in these cases, with exactly these errors of the code
  -- invalid_parameters and status 400: that the field must be a non-empty string, when the
  -- parameter is missing, is no string or is empty once it is stripped; and that it must be at most
  -- so many characters, when it is a string that is longer than the limit once it is stripped.
  pub text-raise_iff : (e : CommandRejected) → (text raw key n label ≡ raise e) ↔ RefusesText e
  text-raise_iff e = (text-refuses e, refuses-text e)
