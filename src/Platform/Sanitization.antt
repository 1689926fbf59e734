-- ===== src/Platform/Sanitization.antt =====
-- apps/backend/app/platform/sanitization.py: `sanitize_audit_event`. What it uses of Python's texts
-- is a record of functions; `none` in place of a result is an exception.
pub mod Tables
pub mod Patterns
pub mod Plain
pub mod Idempotent
pub mod Parameters
pub mod Keys
pub mod Events
pub mod Examples
use Prim.Native.Nat.{◌^◌}
use supersonic.Prelude.Partial.{◌>>=◌}
use supersonic.Prelude.{
  Bool, true, false, ◌&&◌, ◌||◌, not, List, [], ◌∷◌, String, ℕ, leb, ltb, ◌==◌, nat_eq, string_eq,
  Option, none, some, contains, if◌then◌else◌, ◌%◌, ◌-◌,
}
use supersonic.Prelude.Dict.{Dict, lookup}
use supersonic.Contract.{JsonValue}
use supersonic.Platform.Models.{AuditEvent}
use supersonic.Platform.Sanitization.Tables.{
  audit_safe_parameter_keys, audit_command_values, audit_redacted_parameter_keys,
  audit_parameter_key_order, audit_enum_values, audit_endpoints, audit_target_types,
  audit_error_codes, audit_actions,
}
use supersonic.Platform.Sanitization.Patterns.{is_uuid_text, fullmatch, simulated_pattern}

-- `str.lower`, and `str(UUID(text))`, which raises where the text is not a UUID.
pub record PythonTexts : Type 0 where
  pub lower : String → String
  pub uuid : String → Option String

abbrev pub redacted : String
redacted = "[redacted]"

-- `0 <= value <= 1_000_000`
unfoldable pub is_count : Bool → ℕ → Bool
is_count negative magnitude = (not negative || magnitude == 0) && leb magnitude 1000000

-- `-100 <= value <= 200`
unfoldable pub is_temperature : Bool → ℕ → Bool
is_temperature negative magnitude = leb magnitude (if negative then 100 else 200)

-- The same test on the 64 bits of a float, where it also excludes what is not finite: the bits of
-- magnitudes are ordered as the magnitudes, and those of 100.0 and 200.0 are below infinity's.
unfoldable pub is_float_temperature : ℕ → Bool
is_float_temperature bits =
    if ltb bits 0x8000000000000000
    then leb bits 0x4069000000000000
    else leb (bits % 0x8000000000000000) 0x4059000000000000

-- `math.isfinite` converts an integer to a float, which raises for these magnitudes.
unfoldable pub float_overflows : ℕ → Bool
float_overflows magnitude = leb (2 ^ 1024 - 2 ^ 970) magnitude

-- What `_sanitize_audit_parameter_value` returns: a value, or `None`.
abbrev pub checked : Bool → JsonValue → Option (Option JsonValue)
checked b value = some (if b then some value else none)

abbrev pub or_redacted : Option JsonValue → JsonValue
or_redacted none = JsonValue.string redacted
or_redacted (some value) = value

abbrev pub store_item : String → Option JsonValue → Dict String JsonValue → Dict String JsonValue
store_item key none rest = rest
store_item key (some value) rest = (key, value) ∷ rest

unfoldable pub sanitize_temperature : JsonValue → Option (Option JsonValue)
unfolding is_temperature is_float_temperature float_overflows
sanitize_temperature (JsonValue.integer negative n) =
    if float_overflows n
    then none
    else checked (is_temperature negative n) (JsonValue.integer negative n)
sanitize_temperature (JsonValue.float bits) =
    checked (is_float_temperature bits) (JsonValue.float bits)
sanitize_temperature _ = some none

-- `_sanitize_enum_metadata`
unfoldable pub sanitize_enum_metadata : List String → Option String → Option String
unfolding contains
sanitize_enum_metadata allowed none = none
sanitize_enum_metadata allowed (some value) =
    some (if contains value allowed then value else redacted)

-- `_sanitize_required_enum_metadata`
unfoldable pub sanitize_required_enum_metadata : List String → String → String
unfolding contains
sanitize_required_enum_metadata allowed value =
    let sanitized = if contains value allowed then value else redacted in
    if sanitized == "" then redacted else sanitized

abbrev pub as_string : Option (Option String) → Option (Option JsonValue)
as_string none = none
as_string (some none) = some none
as_string (some (some t)) = some (some (JsonValue.string t))

abbrev pub one_of : Option (List String) → String → Option (Option JsonValue)
one_of none value = none
one_of (some allowed) value = checked (contains value allowed) (JsonValue.string value)

-- `safe_value if safe_value is not None else "[redacted]"`
abbrev pub marked : Option (Option JsonValue) → Option (Option JsonValue)
marked none = none
marked (some value) = some (some (or_redacted value))

-- `value if type(value) is bool else None`
abbrev pub sanitize_flag : JsonValue → Option (Option JsonValue)
sanitize_flag (JsonValue.boolean b) = some (some (JsonValue.boolean b))
sanitize_flag _ = some none

unfoldable pub sanitize_count : JsonValue → Option (Option JsonValue)
unfolding is_count
sanitize_count (JsonValue.integer negative n) =
    checked (is_count negative n) (JsonValue.integer negative n)
sanitize_count _ = some none

-- `_canonical_audit_identifier(value) or "[redacted]"`
abbrev pub map_target : Option (Option String) → Option (Option String)
map_target none = none
map_target (some none) = some (some redacted)
map_target (some (some t)) = some (some (if t == "" then redacted else t))

-- The `replace` of `sanitize_audit_event`, with the four fields that may raise.
abbrev pub with_metadata :
    AuditEvent → Option String → Option String → Option String → Dict String JsonValue → AuditEvent
with_metadata event cockpit_session_id correlation_id target_id parameters = record event {
  endpoint = sanitize_enum_metadata audit_endpoints event.endpoint;
  cockpit_session_id = cockpit_session_id;
  command_name = sanitize_enum_metadata audit_command_values event.command_name;
  correlation_id = correlation_id;
  target_type = sanitize_enum_metadata audit_target_types event.target_type;
  target_id = target_id;
  parameters = parameters;
  error_code = sanitize_enum_metadata audit_error_codes event.error_code;
  source_type = sanitize_required_enum_metadata ("local_hmi" ∷ []) event.source_type;
  action = sanitize_required_enum_metadata audit_actions event.action;
}

module _ (texts : PythonTexts) where
  -- `_canonical_audit_identifier` of a text
  unfoldable pub canonical_audit_identifier : String → Option (Option String)
  unfolding is_uuid_text fullmatch simulated_pattern
  canonical_audit_identifier value =
      let normalized = texts.lower value in
      if is_uuid_text normalized
      then elim (texts.uuid value) [ none ↦ none | some t ↦ some (some t) ]
      else if fullmatch simulated_pattern normalized
      then some (some normalized)
      else some none

  -- `_sanitize_audit_parameter_value`, from the test of the value's type on, with its two tables.
  unfoldable pub sanitize_text_value :
      List String → Dict String (List String) → String → String → Option (Option JsonValue)
  unfolding canonical_audit_identifier contains lookup
  sanitize_text_value commands enums key value =
      if key == "command"
      then checked (contains value commands) (JsonValue.string value)
      else if key == "eventId" || key == "targetUserId"
      then as_string (canonical_audit_identifier value)
      else one_of (lookup key enums) value

  -- `value` where its type is `str`, and `None` for what is left.
  abbrev pub sanitize_text : String → JsonValue → Option (Option JsonValue)
  sanitize_text key (JsonValue.string s) =
      sanitize_text_value audit_command_values audit_enum_values key s
  sanitize_text key _ = some none

  -- `_sanitize_audit_parameter_value`
  unfoldable pub sanitize_audit_parameter_value : String → JsonValue → Option (Option JsonValue)
  unfolding sanitize_count sanitize_temperature contains
  sanitize_audit_parameter_value key value =
      if key == "privacyEnabled"
      then sanitize_flag value
      else if contains key ("attempt" ∷ "count" ∷ "revokedSessionCount" ∷ [])
      then sanitize_count value
      else if key == "temperatureC"
      then sanitize_temperature value
      else sanitize_text key value

  -- What the loop of `sanitize_audit_parameters` stores under a key, if anything.
  unfoldable pub sanitize_item : String → JsonValue → Option (Option JsonValue)
  unfolding sanitize_audit_parameter_value contains
  sanitize_item key item =
      if contains key audit_redacted_parameter_keys
      then some (some (JsonValue.string redacted))
      else if not (contains key audit_safe_parameter_keys)
      then some none
      else marked (sanitize_audit_parameter_value key item)

  -- One turn of the loop of `sanitize_audit_parameters`, before the entries of the turns that follow:
  -- the keys of the order differ, so each one is new.
  abbrev pub sanitize_entry :
      String → Option JsonValue → Option (Dict String JsonValue) → Option (Dict String JsonValue)
  sanitize_entry key none rest = rest
  sanitize_entry key (some item) rest = do
    kept ← sanitize_item key item
    sanitized ← rest
    some (store_item key kept sanitized)

  unfoldable pub sanitize_keys :
      List String → Dict String JsonValue → Option (Dict String JsonValue)
  unfolding sanitize_item lookup
  sanitize_keys [] items = some []
  sanitize_keys (key ∷ order) items =
      sanitize_entry key (lookup key items) (sanitize_keys order items)

  -- `sanitize_audit_parameters`
  unfoldable pub sanitize_audit_parameters : Dict String JsonValue → Option (Dict String JsonValue)
  unfolding sanitize_keys
  sanitize_audit_parameters items = sanitize_keys audit_parameter_key_order items

  -- `_sanitize_uuid_metadata`
  unfoldable pub sanitize_uuid_metadata : Option String → Option (Option String)
  unfolding is_uuid_text
  sanitize_uuid_metadata none = some none
  sanitize_uuid_metadata (some value) =
      if is_uuid_text (texts.lower value)
      then elim (texts.uuid value) [ none ↦ none | some t ↦ some (some t) ]
      else some (some redacted)

  -- `_sanitize_target_id`
  unfoldable pub sanitize_target_id : Option String → Option (Option String)
  unfolding canonical_audit_identifier
  sanitize_target_id none = some none
  sanitize_target_id (some value) = map_target (canonical_audit_identifier value)

  -- `sanitize_audit_event`
  unfoldable pub sanitize_audit_event : AuditEvent → Option AuditEvent
  sanitize_audit_event event = do
    cockpit_session_id ← sanitize_uuid_metadata event.cockpit_session_id
    correlation_id ← sanitize_uuid_metadata event.correlation_id
    target_id ← sanitize_target_id event.target_id
    parameters ← sanitize_audit_parameters event.parameters
    some (with_metadata event cockpit_session_id correlation_id target_id parameters)
