-- ===== src/Platform/AuditFallback/Decode.antt =====
-- apps/backend/app/platform/audit_fallback.py: `_decode_event`.
use supersonic.Prelude.{
  Bool, false, ◌&&◌, not, List, [], ◌∷◌, String, ◌==◌, string_eq, Option, none, some, if◌then◌else◌,
  same_set, nat_eq,
}
use supersonic.Prelude.Partial.{◌>>=◌}
use supersonic.Prelude.Dict.{Dict, lookup, keys}
use supersonic.Contract.{JsonValue, Time, StrEnum, parse_enum}
use supersonic.Platform.Models.{AuditEvent, AuditDelivery, audit_delivery_eq}
use supersonic.Platform.Sanitization.{PythonTexts, sanitize_audit_event, sanitize_audit_parameters}
use supersonic.Platform.AuditFallback.{
  LineTexts, allowed_keys, dict_of, is_fallback_event, audit_result_enum, audit_delivery_enum,
  role_enum,
}

-- `_nonempty_string`
abbrev pub nonempty_string : JsonValue → Option String
nonempty_string (JsonValue.string s) = if s == "" then none else some s
nonempty_string _ = none

-- `_optional_string`, of a value that may be `None`
abbrev pub optional_string : JsonValue → Option (Option String)
optional_string JsonValue.null = some none
optional_string value = do s ← nonempty_string value; some (some s)

-- `_enum_value`
abbrev pub enum_value : {A : Type 0} → StrEnum A → JsonValue → Option A
enum_value enum (JsonValue.string s) = parse_enum enum s
enum_value enum _ = none

-- `_optional_enum_value`
abbrev pub optional_enum_value : {A : Type 0} → StrEnum A → JsonValue → Option (Option A)
optional_enum_value enum JsonValue.null = some none
optional_enum_value enum value = do a ← enum_value enum value; some (some a)

-- `isinstance(parameters, dict)`
abbrev pub object_value : JsonValue → Option (Dict String JsonValue)
object_value (JsonValue.object fields) = some (dict_of fields)
object_value _ = none

-- `type(…) is not int or … != _SCHEMA_VERSION`
abbrev pub is_schema_version : JsonValue → Bool
is_schema_version (JsonValue.integer negative n) = not negative && n == 1
is_schema_version _ = false

-- `payload.get(…)`, of a key that may be missing
abbrev pub or_null : Option JsonValue → JsonValue
or_null none = JsonValue.null
or_null (some value) = value

module _ (texts : PythonTexts) (lines : LineTexts) where
  -- `_uuid_value`
  abbrev pub uuid_value : JsonValue → Option String
  uuid_value (JsonValue.string s) = texts.uuid s
  uuid_value _ = none

  -- `_optional_uuid_value`
  abbrev pub optional_uuid_value : JsonValue → Option (Option String)
  optional_uuid_value JsonValue.null = some none
  optional_uuid_value value = do t ← uuid_value value; some (some t)

  -- `_datetime_value`
  abbrev pub datetime_value : JsonValue → Option Time
  datetime_value (JsonValue.string s) = lines.fromisoformat s
  datetime_value _ = none

  -- The event of `_event_from_payload`, before its validation
  unfoldable pub read_event : Dict String JsonValue → Option AuditEvent
  unfolding lookup
  read_event payload = do
    id ← lookup "id" payload >>= uuid_value
    occurred_at ← lookup "occurredAt" payload >>= datetime_value
    action ← lookup "action" payload >>= nonempty_string
    result ← lookup "result" payload >>= enum_value audit_result_enum
    delivery ← lookup "delivery" payload >>= enum_value audit_delivery_enum
    raw_parameters ← lookup "parameters" payload >>= object_value
    actor_user_id ← optional_uuid_value (or_null (lookup "actorUserId" payload))
    actor_platform_session_id ←
        optional_uuid_value (or_null (lookup "actorPlatformSessionId" payload))
    actor_role ← optional_enum_value role_enum (or_null (lookup "actorRole" payload))
    endpoint ← optional_string (or_null (lookup "endpoint" payload))
    cockpit_session_id ← optional_string (or_null (lookup "cockpitSessionId" payload))
    command_name ← optional_string (or_null (lookup "commandName" payload))
    correlation_id ← optional_string (or_null (lookup "correlationId" payload))
    target_type ← optional_string (or_null (lookup "targetType" payload))
    target_id ← optional_string (or_null (lookup "targetId" payload))
    parameters ← sanitize_audit_parameters texts raw_parameters
    error_code ← optional_string (or_null (lookup "errorCode" payload))
    source_type ← lookup "sourceType" payload >>= nonempty_string
    some (record {
      id = id;
      occurred_at = occurred_at;
      action = action;
      result = result;
      delivery = delivery;
      actor_user_id = actor_user_id;
      actor_platform_session_id = actor_platform_session_id;
      actor_role = actor_role;
      endpoint = endpoint;
      cockpit_session_id = cockpit_session_id;
      command_name = command_name;
      correlation_id = correlation_id;
      target_type = target_type;
      target_id = target_id;
      parameters = parameters;
      error_code = error_code;
      source_type = source_type;
    })

  -- What `_event_from_payload` does with that event
  unfoldable pub accept_event : AuditEvent → Option AuditEvent
  accept_event event =
      if is_fallback_event texts event
      then (do
        sanitized ← sanitize_audit_event texts event
        if event.delivery == AuditDelivery.fallback then some sanitized else none)
      else none

  -- `_event_from_payload`
  unfoldable pub event_from_payload : Dict String JsonValue → Option AuditEvent
  event_from_payload payload = do event ← read_event payload; accept_event event

  -- `_decode_event`, of the payload of the object
  unfoldable pub decode_payload : Dict String JsonValue → Option AuditEvent
  unfolding lookup same_set
  decode_payload payload =
      if same_set (keys payload) allowed_keys
      then (do
        version ← lookup "schemaVersion" payload
        if is_schema_version version then event_from_payload payload else none)
      else none

  -- `_decode_event`
  unfoldable pub decode_event : String → Option AuditEvent
  unfolding dict_of
  decode_event line = do
    value ← lines.loads line
    payload ← object_value value
    decode_payload payload

  -- The loop of `load_events_with_fingerprint_locked`
  unfoldable pub decode_lines : List String → Option (List AuditEvent)
  decode_lines [] = some []
  decode_lines (line ∷ rest) =
      let events = decode_lines rest in
      if line == "" then none else (do event ← decode_event line; es ← events; some (event ∷ es))
