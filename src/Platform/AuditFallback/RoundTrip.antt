-- ===== src/Platform/AuditFallback/RoundTrip.antt =====
-- apps/backend/app/platform/audit_fallback.py: a line that is written and read.
use supersonic.Prelude.{
  Bool, true, false, ◌&&◌, not, List, [], ◌∷◌, String, ◌==◌, string_eq, Option, none, some, ◌≡◌,
  refl, arith, concat, leb, text_length, ap, sym, ◌∙◌, ℕ, same_set,
}
use supersonic.Prelude.Dict.{Dict, lookup, keys}
use supersonic.Contract.{JsonValue}
use supersonic.Platform.Models.{AuditEvent}
use supersonic.Platform.Sanitization.{PythonTexts}
use supersonic.Platform.Sanitization.Plain.{IsPythonTexts}
use supersonic.Platform.AuditIdentity.{canonical_optional_uuid}
use supersonic.Platform.AuditFallback.{
  LineTexts, fields_of, audit_result_enum, audit_delivery_enum, json_text, json_role,
  encode_payload, encode_event, allowed_keys,
}
use supersonic.Platform.AuditFallback.Decode.{
  optional_uuid_value, read_event, accept_event, event_from_payload, decode_payload, decode_event,
}
use supersonic.Platform.AuditFallback.Fields.{
  IsFileFact, valid-HasTexts, dict_of-fields_of, required-value, result-value, delivery-value,
  role-value, optional-value, clean-parameters,
}

module _ (texts : PythonTexts) (lines : LineTexts) where
  uuid-value :
      (o : Option String)
      → canonical_optional_uuid texts o ≡ some o
      → optional_uuid_value texts lines (json_text o) ≡ some o
  uuid-value none h = refl
  uuid-value (some s) h = h

  -- What the reader finds under the keys.
  abbrev Holds : AuditEvent → String → JsonValue → Type 0
  Holds event key value = lookup key (encode_payload texts lines event) ≡ some value

  record IsWritten (event : AuditEvent) : Type 0 where
    id : Holds event "id" (JsonValue.string event.id)
    occurred_at : Holds event "occurredAt" (JsonValue.string (lines.isoformat event.occurred_at))
    action : Holds event "action" (JsonValue.string event.action)
    result : Holds event "result" (JsonValue.string (audit_result_enum.value event.result))
    delivery : Holds event "delivery" (JsonValue.string (audit_delivery_enum.value event.delivery))
    parameters : Holds event "parameters" (JsonValue.object (fields_of event.parameters))
    actor : Holds event "actorUserId" (json_text event.actor_user_id)
    session : Holds event "actorPlatformSessionId" (json_text event.actor_platform_session_id)
    role : Holds event "actorRole" (json_role event.actor_role)
    endpoint : Holds event "endpoint" (json_text event.endpoint)
    cockpit : Holds event "cockpitSessionId" (json_text event.cockpit_session_id)
    command : Holds event "commandName" (json_text event.command_name)
    correlation : Holds event "correlationId" (json_text event.correlation_id)
    target_type : Holds event "targetType" (json_text event.target_type)
    target_id : Holds event "targetId" (json_text event.target_id)
    error : Holds event "errorCode" (json_text event.error_code)
    source : Holds event "sourceType" (JsonValue.string event.source_type)
    version : Holds event "schemaVersion" (JsonValue.integer false 1)

  encode-IsWritten : (event : AuditEvent) → IsWritten event
  unfolding encode_payload supersonic.Prelude.Dict.lookup supersonic.Prelude.String-discrete
  encode-IsWritten event = record {
    id = refl;
    occurred_at = refl;
    action = refl;
    result = refl;
    delivery = refl;
    parameters = refl;
    actor = refl;
    session = refl;
    role = refl;
    endpoint = refl;
    cockpit = refl;
    command = refl;
    correlation = refl;
    target_type = refl;
    target_id = refl;
    error = refl;
    source = refl;
    version = refl;
  }

  read-encode :
      (laws : IsPythonTexts texts) (event : AuditEvent)
      → IsFileFact texts event
      → lines.fromisoformat (lines.isoformat event.occurred_at) ≡ some event.occurred_at
      → read_event texts lines (encode_payload texts lines event) ≡ some event
  unfolding read_event
  read-encode laws event h time =
      let w = encode-IsWritten event in
      let t = valid-HasTexts texts event h.valid in
      rw (
        w.id,
        h.identified,
        w.occurred_at,
        time,
        w.action,
        required-value 128 event.action t.action,
        w.result,
        result-value event.result,
        w.delivery,
        delivery-value event.delivery,
        w.parameters,
        dict_of-fields_of event.parameters,
        w.actor,
        uuid-value event.actor_user_id h.actor,
        w.session,
        uuid-value event.actor_platform_session_id h.session,
        w.role,
        role-value event.actor_role,
        w.endpoint,
        optional-value 32 event.endpoint t.endpoint,
        w.cockpit,
        optional-value 80 event.cockpit_session_id t.cockpit_session_id,
        w.command,
        optional-value 64 event.command_name t.command_name,
        w.correlation,
        optional-value 64 event.correlation_id t.correlation_id,
        w.target_type,
        optional-value 64 event.target_type t.target_type,
        w.target_id,
        optional-value 128 event.target_id t.target_id,
        clean-parameters texts laws event h.clean,
        w.error,
        optional-value 64 event.error_code t.error_code,
        w.source,
        required-value 32 event.source_type t.source_type,
      )

  encode-keys :
      (event : AuditEvent) → same_set (keys (encode_payload texts lines event)) allowed_keys ≡ true
  unfolding encode_payload same_set supersonic.Prelude.String-discrete
  encode-keys event = refl

  accept-fact :
      (event : AuditEvent) → IsFileFact texts event → accept_event texts lines event ≡ some event
  unfolding accept_event
  accept-fact event h = rw (h.valid, h.clean, h.delivered) (ground arith)

  -- For a fact in the form that the fallback file holds (valid, sanitized, delivered as fallback,
  -- with canonical ids) whose time fromisoformat reads back, and a line that json wrote of its
  -- payload and reads back, encode_event returns the line with a line break and decode_event
  -- returns the fact from the line, if lower keeps lower-case texts and the UUID parser keeps
  -- canonical UUIDs.
  pub decode-encode :
      (laws : IsPythonTexts texts) (event : AuditEvent) (line : String)
      → IsFileFact texts event
      → lines.fromisoformat (lines.isoformat event.occurred_at) ≡ some event.occurred_at
      → lines.dumps (JsonValue.object (fields_of (encode_payload texts lines event))) ≡ some line
      → lines.loads line ≡ some (JsonValue.object (fields_of (encode_payload texts lines event)))
      → (encode_event texts lines event ≡ some (concat (line ∷ "\n" ∷ [])))
        × (decode_event texts lines line ≡ some event)
  unfolding encode_event decode_event event_from_payload decode_payload
      supersonic.Prelude.ℕ_discrete accept_event
  decode-encode laws event line h time written read = (
    rw written,
    rw
        (
          read,
          dict_of-fields_of (encode_payload texts lines event),
          encode-keys event,
          (encode-IsWritten event).version,
          read-encode laws event h time,
        )
        (accept-fact event h),
  )
