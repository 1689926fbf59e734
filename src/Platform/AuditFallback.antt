-- ===== src/Platform/AuditFallback.antt =====
-- apps/backend/app/platform/audit_fallback.py: the lines of the fallback file. `json` and the ISO
-- texts of a datetime are parameters; `none` in place of a result is an exception.
pub mod Decode
pub mod Fields
pub mod RoundTrip
pub mod File
mod Examples
use supersonic.Prelude.{
  Bool, true, false, ◌&&◌, ◌||◌, not, List, [], ◌∷◌, ◌++◌, String, ℕ, zero, suc, leb, ltb, ◌==◌,
  ◌!=◌, nat_eq, string_eq, Option, none, some, if◌then◌else◌, ◌/◌, ◌%◌, take, text_length, is_none,
  same_set, map, concat,
}
use supersonic.Prelude.Partial.{◌>>=◌}
use supersonic.Prelude.Dict.{Dict, lookup, keys}
use supersonic.Contract.{JsonValue, JsonItems, JsonFields, Time, StrEnum, parse_enum}
use supersonic.Platform.Models.{
  AuditEvent, AuditResult, AuditDelivery, Role, audit_result_eq, audit_delivery_eq,
}
use supersonic.Platform.Sanitization.{PythonTexts, sanitize_audit_event, sanitize_audit_parameters}
use supersonic.Platform.AuditIdentity.{is_persistable, canonical_optional_uuid}

-- `json.dumps` and `json.loads` as they are called here, `isoformat`, and `fromisoformat` with the
-- test of the zone and the conversion to UTC.
pub record LineTexts : Type 0 where
  pub dumps : JsonValue → Option String
  pub loads : String → Option JsonValue
  pub isoformat : Time → String
  pub fromisoformat : String → Option Time

abbrev pub audit_result_enum : StrEnum AuditResult
audit_result_enum = record {
  value = λ r. elim r [
    | AuditResult.attempted ↦ "attempted"
    | AuditResult.succeeded ↦ "succeeded"
    | AuditResult.rejected ↦ "rejected"
    | AuditResult.error ↦ "error"
    | AuditResult.degraded ↦ "degraded"
  ];
  members =
      AuditResult.attempted ∷ AuditResult.succeeded ∷ AuditResult.rejected ∷ AuditResult.error
      ∷ AuditResult.degraded ∷ [];
}

abbrev pub audit_delivery_enum : StrEnum AuditDelivery
audit_delivery_enum = record {
  value = λ d. elim d [
    | AuditDelivery.primary ↦ "primary"
    | AuditDelivery.fallback ↦ "fallback"
    | AuditDelivery.lost ↦ "lost"
  ];
  members = AuditDelivery.primary ∷ AuditDelivery.fallback ∷ AuditDelivery.lost ∷ [];
}

abbrev pub role_enum : StrEnum Role
role_enum = record {
  value =
      λ r. elim r [ Role.admin ↦ "admin" | Role.operator ↦ "operator" | Role.viewer ↦ "viewer" ];
  members = Role.admin ∷ Role.operator ∷ Role.viewer ∷ [];
}

abbrev pub allowed_keys : List String
allowed_keys =
    "schemaVersion" ∷ "id" ∷ "occurredAt" ∷ "action" ∷ "result" ∷ "delivery" ∷ "actorUserId"
    ∷ "actorPlatformSessionId" ∷ "actorRole" ∷ "endpoint" ∷ "cockpitSessionId" ∷ "commandName"
    ∷ "correlationId" ∷ "targetType" ∷ "targetId" ∷ "parameters" ∷ "errorCode" ∷ "sourceType" ∷ []

-- A dictionary as a JSON object, and back.
unfoldable pub fields_of : Dict String JsonValue → JsonFields
fields_of [] = JsonFields.end
fields_of ((k, v) ∷ d) = JsonFields.field k v (fields_of d)

unfoldable pub dict_of : JsonFields → Dict String JsonValue
dict_of JsonFields.end = []
dict_of (JsonFields.field k v fs) = (k, v) ∷ dict_of fs

unfoldable pub items_of : JsonItems → List JsonValue
items_of JsonItems.nil = []
items_of (JsonItems.cons v vs) = v ∷ items_of vs

abbrev pub json_text : Option String → JsonValue
json_text none = JsonValue.null
json_text (some s) = JsonValue.string s

abbrev pub json_role : Option Role → JsonValue
json_role none = JsonValue.null
json_role (some r) = JsonValue.string (role_enum.value r)

-- `math.isfinite`, on the 64 bits
unfoldable pub is_finite : ℕ → Bool
is_finite bits = bits / 0x10000000000000 % 2048 != 2047

unfoldable pub all_of : (JsonValue → Bool) → List JsonValue → Bool
all_of test [] = true
all_of test (v ∷ vs) = test v && all_of test vs

-- Whether `_reject_nonfinite_parameters` returns, with the depths that are left.
unfoldable pub are_finite : ℕ → JsonValue → Bool
unfolding all_of is_finite items_of dict_of
are_finite zero value = true
are_finite (suc depth) (JsonValue.float bits) = is_finite bits
are_finite (suc depth) (JsonValue.array items) = all_of (are_finite depth) (take 8 (items_of items))
are_finite (suc depth) (JsonValue.object fields) =
    all_of (are_finite depth) (take 8 (map (λ e. e.1) (dict_of fields)))
are_finite (suc depth) _ = true

-- `_validate_required_string`
abbrev pub is_required_text : ℕ → String → Bool
is_required_text maximum value = value != "" && leb (text_length value) maximum

-- `_validate_optional_string_length`
abbrev pub is_optional_text : ℕ → Option String → Bool
is_optional_text maximum none = true
is_optional_text maximum (some value) = is_required_text maximum value

module _ (texts : PythonTexts) where
  -- `_validate_optional_uuid`
  abbrev pub is_optional_uuid : Option String → Bool
  is_optional_uuid none = true
  is_optional_uuid (some value) = not (is_none (texts.uuid value))

  -- Whether `_validate_persistable_event` returns.
  unfoldable pub is_fallback_event : AuditEvent → Bool
  unfolding are_finite fields_of
  is_fallback_event event =
      not (is_none (texts.uuid event.id))
      && is_persistable event
      && is_required_text 128 event.action
      && is_required_text 32 event.source_type
      && is_optional_text 32 event.endpoint
      && is_optional_text 80 event.cockpit_session_id
      && is_optional_text 64 event.command_name
      && is_optional_text 64 event.correlation_id
      && is_optional_text 64 event.target_type
      && is_optional_text 128 event.target_id
      && is_optional_text 64 event.error_code
      && is_optional_uuid event.actor_user_id
      && is_optional_uuid event.actor_platform_session_id
      && are_finite 4 (JsonValue.object (fields_of event.parameters))

  -- `_fallback_event`
  unfoldable pub fallback_event : AuditEvent → Option AuditEvent
  fallback_event event =
      if is_fallback_event event
      then (do
        sanitized ← sanitize_audit_event texts event
        some (record sanitized { delivery = AuditDelivery.fallback }))
      else none

  module _ (lines : LineTexts) where
    -- The payload of `_encode_event`
    unfoldable pub encode_payload : AuditEvent → Dict String JsonValue
    encode_payload event =
        ("schemaVersion", JsonValue.integer false 1)
        ∷ ("id", JsonValue.string event.id)
        ∷ ("occurredAt", JsonValue.string (lines.isoformat event.occurred_at))
        ∷ ("action", JsonValue.string event.action)
        ∷ ("result", JsonValue.string (audit_result_enum.value event.result))
        ∷ ("delivery", JsonValue.string (audit_delivery_enum.value event.delivery))
        ∷ ("actorUserId", json_text event.actor_user_id)
        ∷ ("actorPlatformSessionId", json_text event.actor_platform_session_id)
        ∷ ("actorRole", json_role event.actor_role)
        ∷ ("endpoint", json_text event.endpoint)
        ∷ ("cockpitSessionId", json_text event.cockpit_session_id)
        ∷ ("commandName", json_text event.command_name)
        ∷ ("correlationId", json_text event.correlation_id)
        ∷ ("targetType", json_text event.target_type)
        ∷ ("targetId", json_text event.target_id)
        ∷ ("parameters", JsonValue.object (fields_of event.parameters))
        ∷ ("errorCode", json_text event.error_code)
        ∷ ("sourceType", JsonValue.string event.source_type)
        ∷ []

    -- `_encode_event`
    unfoldable pub encode_event : AuditEvent → Option String
    unfolding fields_of
    encode_event event = do
      line ← lines.dumps (JsonValue.object (fields_of (encode_payload event)))
      some (concat (line ∷ "\n" ∷ []))
