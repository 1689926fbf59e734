-- ===== src/Platform/AuditFallback/Fields.antt =====
-- apps/backend/app/platform/audit_fallback.py: the fields of a fact that the file may hold.
use supersonic.Prelude.{
  Bool, true, false, ◌&&◌, not, List, [], ◌∷◌, String, ◌==◌, string_eq, Option, none, some, ◌≡◌,
  refl, arith, concat, leb, text_length, ap, sym, ◌∙◌, ℕ,
}
use supersonic.Prelude.Dict.{Dict}
use supersonic.Contract.{JsonValue, parse_enum}
use supersonic.Platform.Models.{AuditEvent, AuditResult, AuditDelivery, Role}
use supersonic.Platform.Sanitization.{PythonTexts, sanitize_audit_event, sanitize_audit_parameters}
use supersonic.Platform.Sanitization.Plain.{IsPythonTexts}
use supersonic.Platform.AuditIdentity.{canonical_optional_uuid}
use supersonic.Platform.AuditFallback.{
  fields_of, dict_of, is_fallback_event, is_required_text, is_optional_text, audit_result_enum,
  audit_delivery_enum, role_enum, json_text, json_role,
}
use supersonic.Platform.AuditFallback.Decode.{optional_string, nonempty_string, optional_enum_value}
use supersonic.Platform.Sanitization.Events.{sanitize_audit_event-some}

-- A fact in the form that the file holds: valid, sanitized, with canonical ids.
pub record IsFileFact (texts : PythonTexts) (event : AuditEvent) : Type 0 where
  pub valid : is_fallback_event texts event ≡ true
  pub clean : sanitize_audit_event texts event ≡ some event
  pub delivered : event.delivery ≡ AuditDelivery.fallback
  pub identified : texts.uuid event.id ≡ some event.id
  pub actor : canonical_optional_uuid texts event.actor_user_id ≡ some event.actor_user_id
  pub session :
      canonical_optional_uuid texts event.actor_platform_session_id
      ≡ some event.actor_platform_session_id

pub dict_of-fields_of : (d : Dict String JsonValue) → dict_of (fields_of d) ≡ d
unfolding dict_of fields_of
dict_of-fields_of [] = refl
dict_of-fields_of ((k, v) ∷ d) = ap (λ e. (k, v) ∷ e) (dict_of-fields_of d)

pub result-value :
    (r : AuditResult) → parse_enum audit_result_enum (audit_result_enum.value r) ≡ some r
unfolding parse_enum supersonic.Prelude.String-discrete
result-value AuditResult.attempted = refl
result-value AuditResult.succeeded = refl
result-value AuditResult.rejected = refl
result-value AuditResult.error = refl
result-value AuditResult.degraded = refl

pub delivery-value :
    (d : AuditDelivery) → parse_enum audit_delivery_enum (audit_delivery_enum.value d) ≡ some d
unfolding parse_enum supersonic.Prelude.String-discrete
delivery-value AuditDelivery.primary = refl
delivery-value AuditDelivery.fallback = refl
delivery-value AuditDelivery.lost = refl

pub role-value : (o : Option Role) → optional_enum_value role_enum (json_role o) ≡ some o
unfolding parse_enum supersonic.Prelude.String-discrete
role-value none = refl
role-value (some Role.admin) = refl
role-value (some Role.operator) = refl
role-value (some Role.viewer) = refl

pub required-value :
    (n : ℕ) (s : String)
    → is_required_text n s ≡ true
    → nonempty_string (JsonValue.string s) ≡ some s
required-value n s h = ground (arith, h)

pub optional-value :
    (n : ℕ) (o : Option String)
    → is_optional_text n o ≡ true
    → optional_string (json_text o) ≡ some o
optional-value n none h = refl
optional-value n (some s) h = ground (arith, h)

both-true : {a b : Bool} → (a && b) ≡ true → (a ≡ true) × (b ≡ true)
both-true h = ground (arith, h)

-- What the validation tells of the texts.
pub record HasTexts (event : AuditEvent) : Type 0 where
  pub action : is_required_text 128 event.action ≡ true
  pub source_type : is_required_text 32 event.source_type ≡ true
  pub endpoint : is_optional_text 32 event.endpoint ≡ true
  pub cockpit_session_id : is_optional_text 80 event.cockpit_session_id ≡ true
  pub command_name : is_optional_text 64 event.command_name ≡ true
  pub correlation_id : is_optional_text 64 event.correlation_id ≡ true
  pub target_type : is_optional_text 64 event.target_type ≡ true
  pub target_id : is_optional_text 128 event.target_id ≡ true
  pub error_code : is_optional_text 64 event.error_code ≡ true

pub valid-HasTexts :
    (texts : PythonTexts) (event : AuditEvent)
    → is_fallback_event texts event ≡ true
    → HasTexts event
unfolding is_fallback_event
valid-HasTexts texts event h =
    let (h1, _) = both-true h in
    let (h2, _) = both-true h1 in
    let (h3, _) = both-true h2 in
    let (h4, error_code) = both-true h3 in
    let (h5, target_id) = both-true h4 in
    let (h6, target_type) = both-true h5 in
    let (h7, correlation_id) = both-true h6 in
    let (h8, command_name) = both-true h7 in
    let (h9, cockpit_session_id) = both-true h8 in
    let (h10, endpoint) = both-true h9 in
    let (h11, source_type) = both-true h10 in
    let (h12, action) = both-true h11 in
    record {
      action = action;
      source_type = source_type;
      endpoint = endpoint;
      cockpit_session_id = cockpit_session_id;
      command_name = command_name;
      correlation_id = correlation_id;
      target_type = target_type;
      target_id = target_id;
      error_code = error_code;
    }

pub clean-parameters :
    (texts : PythonTexts) (laws : IsPythonTexts texts) (event : AuditEvent)
    → sanitize_audit_event texts event ≡ some event
    → sanitize_audit_parameters texts event.parameters ≡ some event.parameters
clean-parameters texts laws event h =
    let (c, r, t, p, hc, hr, ht, hp, e) = sanitize_audit_event-some texts laws event event h in
    hp ∙ ap (λ v. some v.parameters) e
