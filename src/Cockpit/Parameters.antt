-- ===== src/Cockpit/Parameters.antt =====
-- apps/backend/app/cockpit/policies.py: `Parameters`, the reader of a command's raw parameters.
pub mod Reads
use supersonic.Prelude.{
  ℕ, String, Bool, Option, none, some, List, [], ◌∷◌, Result, ok, raise, if◌then◌else◌, ◌==◌, not,
  string_eq, ltb, concat, join, sorted, show, strip, text_length, same_set,
}
use supersonic.Prelude.Dict.{Dict, keys, lookup}
use supersonic.Contract.{JsonValue, StrEnum, parse_enum}
use supersonic.Cockpit.Errors.{CommandRejected, rejected}

-- `", ".join(sorted(expected)) or "no parameters"`
expected_text : List String → String
unfolding join sorted
expected_text expected =
    let text = join ", " (sorted expected) in if text == "" then "no parameters" else text

unfoldable pub require_exact :
    Dict String JsonValue → List String → Result CommandRejected (Unit {0})
unfolding expected_text
require_exact raw expected =
    if not (same_set (keys raw) expected)
    then raise (
        rejected "invalid_parameters"
          (concat ("Command requires exactly: " ∷ expected_text expected ∷ "." ∷ [])))
    else ok tt

-- `isinstance(value, str)`
abbrev pub str_of : Option JsonValue → Option String
str_of (some (JsonValue.string s)) = some s
str_of _ = none

-- `isinstance(value, bool)`
abbrev bool_of : Option JsonValue → Option Bool
bool_of (some (JsonValue.boolean b)) = some b
bool_of _ = none

abbrev pub label_or : Option String → String → String
label_or none key = key
label_or (some label) key = if label == "" then key else label

empty_text : String → CommandRejected
empty_text field_name =
    rejected "invalid_parameters" (concat (field_name ∷ " must be a non-empty string." ∷ []))

long_text : String → ℕ → CommandRejected
long_text field_name max_length =
    rejected "invalid_parameters"
      (concat (field_name ∷ " must be at most " ∷ show max_length ∷ " characters." ∷ []))

-- The tests of `text` on a value that is a string.
checked_text : String → ℕ → String → Result CommandRejected String
unfolding empty_text long_text
checked_text field_name max_length value =
    if strip value == ""
    then raise (empty_text field_name)
    else (if ltb max_length (text_length (strip value))
        then raise (long_text field_name max_length)
        else ok (strip value))

unfoldable pub text :
    Dict String JsonValue → String → ℕ → Option String → Result CommandRejected String
unfolding checked_text
text raw key max_length label = elim (str_of (lookup key raw)) [
  | none ↦ raise (empty_text (label_or label key))
  | some value ↦ checked_text (label_or label key) max_length value
]

-- `boolean`
unfoldable pub boolean :
    Dict String JsonValue → String → Option String → Result CommandRejected Bool
boolean raw key label = elim (bool_of (lookup key raw)) [
  | none ↦
      raise (rejected "invalid_parameters" (concat (label_or label key ∷ " must be boolean." ∷ [])))
  | some value ↦ ok value
]

abbrev or_raise {ℓ} : {A : Type ℓ} → Option A → CommandRejected → Result CommandRejected A
or_raise none e = raise e
or_raise (some a) e = ok a

abbrev parse_option : {A : Type 0} → StrEnum A → Option String → Option A
parse_option enum_type none = none
parse_option enum_type (some s) = parse_enum enum_type s

-- `enum`: the call of the class raises `ValueError` for every value that is no member's text.
unfoldable pub enum :
    {A : Type 0} → Dict String JsonValue → String → StrEnum A → String → Result CommandRejected A
enum raw key enum_type message =
    or_raise (parse_option enum_type (str_of (lookup key raw)))
      (rejected "invalid_parameters" message)
