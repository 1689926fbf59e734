-- ===== src/Platform/Sanitization/Examples.antt =====
-- A fact of an administrator that is sanitized twice.
use supersonic.Prelude.{
  refl, true, false, none, some, String, ◌∷◌, [], ◌≡◌, Option, ◌==◌, string_eq, if◌then◌else◌, Bool,
  Bool-cases, inl, inr, subst, some_injective,
}
use supersonic.Contract.{JsonValue}
use supersonic.Platform.Models.{AuditEvent, AuditResult, AuditDelivery, Role}
use supersonic.Platform.Sanitization.{PythonTexts, sanitize_audit_event}
use supersonic.Platform.Sanitization.Patterns.{is_uuid_text}
use supersonic.Platform.Sanitization.Plain.{IsPythonTexts}
use supersonic.Platform.Sanitization.Events.{sanitize_audit_event_idem}

-- Texts in lower case, and no UUID but canonical ones.
unfoldable pub plain_texts : PythonTexts
unfolding is_uuid_text
plain_texts = record { lower = λ s. s; uuid = λ s. if is_uuid_text s then some s else none }

pub plain_texts-IsPythonTexts : IsPythonTexts plain_texts
unfolding plain_texts
plain_texts-IsPythonTexts = record {
  lower_plain = λ s h. refl;
  uuid_canonical = λ s t h. elim (Bool-cases (is_uuid_text s)) [
    | inl e ↦ subst (λ u. is_uuid_text u ≡ true) (some_injective (rw e at h)) e
    | inr e ↦ cc (rw e at h)
  ];
  uuid_fixed = λ t h. rw h;
}

abbrev pub first_id : String
first_id = "0f8fad5b-d9cb-469f-a165-70867728950e"

abbrev pub second_id : String
second_id = "7c9e6679-7425-40de-944b-e07fc1f90ae7"

-- A fact as the administration writes it, and one with a text of its own.
abbrev pub revoke_event : AuditDelivery → AuditEvent
revoke_event delivery = record {
  id = first_id;
  occurred_at = 1700000000;
  action = "session.revoke";
  result = AuditResult.succeeded;
  delivery = delivery;
  actor_user_id = some second_id;
  actor_platform_session_id = none;
  actor_role = some Role.admin;
  endpoint = none;
  cockpit_session_id = none;
  command_name = none;
  correlation_id = some first_id;
  target_type = some "platform_session";
  target_id = some "somebody's session";
  parameters =
      ("reason", JsonValue.string "a private reason")
      ∷ ("count", JsonValue.integer false 3)
      ∷ ("note", JsonValue.string "dropped")
      ∷ [];
  error_code = none;
  source_type = "local_hmi";
}

abbrev pub sanitized_revoke : AuditDelivery → AuditEvent
sanitized_revoke delivery = record (revoke_event delivery) {
  target_id = some "[redacted]";
  parameters =
      ("count", JsonValue.integer false 3) ∷ ("reason", JsonValue.string "[redacted]") ∷ [];
}

revoke-sanitized :
    sanitize_audit_event plain_texts (revoke_event AuditDelivery.primary)
    ≡ some (sanitized_revoke AuditDelivery.primary)
unfolding sanitize_audit_event plain_texts supersonic.Platform.Sanitization.sanitize_uuid_metadata
    supersonic.Prelude.ℕ_discrete supersonic.Platform.Sanitization.sanitize_target_id
    supersonic.Platform.Sanitization.sanitize_audit_parameters supersonic.Prelude.String-discrete
    supersonic.Platform.Sanitization.sanitize_text_value
    supersonic.Platform.Sanitization.sanitize_required_enum_metadata
    supersonic.Platform.Sanitization.sanitize_enum_metadata
revoke-sanitized = refl

sanitize_audit_event_idem_example :
    sanitize_audit_event plain_texts (sanitized_revoke AuditDelivery.primary)
    ≡ some (sanitized_revoke AuditDelivery.primary)
sanitize_audit_event_idem_example =
    sanitize_audit_event_idem plain_texts plain_texts-IsPythonTexts
      (revoke_event AuditDelivery.primary) (sanitized_revoke AuditDelivery.primary) revoke-sanitized
