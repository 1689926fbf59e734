-- ===== src/Platform/AuditIdentity.antt =====
-- apps/backend/app/platform/audit_identity.py: the canonical form of an audit fact, and when two
-- facts are one. The types that audit_validation.py tests are those of the record here.
pub mod Canonical
pub mod Same
pub mod SelfEqual
pub mod Duplicates
use supersonic.Prelude.{
  Bool, true, false, ◌&&◌, ◌||◌, List, [], ◌∷◌, String, ℕ, ◌==◌, nat_eq, string_eq, Option, none,
  some, if◌then◌else◌, ◌%◌, ◌/◌, ◌*◌, ◌+◌, ltb, ◌!=◌,
}
use Prim.Native.Nat.{◌^◌}
use supersonic.Prelude.Partial.{◌>>=◌}
use supersonic.Prelude.Dict.{Dict}
use supersonic.Contract.{JsonValue}
use supersonic.Platform.Models.{
  AuditEvent, AuditResult, AuditDelivery, audit_delivery_eq, audit_result_eq, role_eq,
}
use supersonic.Platform.Sanitization.{PythonTexts, sanitize_audit_event}

-- The sign of a number and its magnitude times 2 ^ 1075: Python compares a bool, an int and a float
-- by value. A float that is not finite is not in a sanitized fact.
unfoldable pub scaled : JsonValue → Option (Bool × ℕ)
scaled (JsonValue.boolean b) = some (false, (if b then 1 else 0) * 2 ^ 1075)
scaled (JsonValue.integer negative n) = some (negative, n * 2 ^ 1075)
scaled (JsonValue.float bits) =
    let exponent = bits / 2 ^ 52 % 2048 in
    let fraction = bits % 2 ^ 52 in
    let negative = ltb (2 ^ 63) (bits + 1) in
    if exponent == 2047
    then none
    else if exponent == 0
    then some (negative, fraction * 2)
    else some (negative, (fraction + 2 ^ 52) * 2 ^ exponent)
scaled _ = none

abbrev pub same_number : Option (Bool × ℕ) → Option (Bool × ℕ) → Bool
same_number (some (s, m)) (some (t, n)) =
    m == n && (m == 0 || (if s then t else if t then false else true))
same_number _ _ = false

-- `==` of two sanitized values, which are never lists or dictionaries.
unfoldable pub same_value : JsonValue → JsonValue → Bool
unfolding scaled
same_value JsonValue.null JsonValue.null = true
same_value (JsonValue.string s) (JsonValue.string t) = s == t
same_value v w = same_number (scaled v) (scaled w)

-- `==` of two dictionaries of sanitized parameters, whose keys are in one order.
unfoldable pub same_parameters : Dict String JsonValue → Dict String JsonValue → Bool
unfolding same_value
same_parameters [] [] = true
same_parameters ((j, v) ∷ c) ((k, w) ∷ d) = j == k && same_value v w && same_parameters c d
same_parameters _ _ = false

abbrev pub same_option : {A : Type 0} → (A → A → Bool) → Option A → Option A → Bool
same_option eq none none = true
same_option eq (some a) (some b) = eq a b
same_option eq _ _ = false

abbrev pub same_text : Option String → Option String → Bool
same_text = same_option (λ s t. s == t)

-- `==` of two `AuditEvent`s
unfoldable pub same_event : AuditEvent → AuditEvent → Bool
unfolding same_parameters
same_event a b =
    a.id == b.id
    && a.occurred_at == b.occurred_at
    && a.action == b.action
    && a.result == b.result
    && a.delivery == b.delivery
    && same_text a.actor_user_id b.actor_user_id
    && same_text a.actor_platform_session_id b.actor_platform_session_id
    && same_option (λ r s. r == s) a.actor_role b.actor_role
    && same_text a.endpoint b.endpoint
    && same_text a.cockpit_session_id b.cockpit_session_id
    && same_text a.command_name b.command_name
    && same_text a.correlation_id b.correlation_id
    && same_text a.target_type b.target_type
    && same_text a.target_id b.target_id
    && same_parameters a.parameters b.parameters
    && same_text a.error_code b.error_code
    && a.source_type == b.source_type

-- The two states that have no row.
abbrev pub is_persistable : AuditEvent → Bool
is_persistable event = event.result != AuditResult.degraded && event.delivery != AuditDelivery.lost

-- The `replace` of `canonicalize_persistable_audit_event`.
abbrev pub with_ids : AuditEvent → String → Option String → Option String → AuditEvent
with_ids sanitized id actor_user_id actor_platform_session_id = record sanitized {
  id = id;
  actor_user_id = actor_user_id;
  actor_platform_session_id = actor_platform_session_id;
}

module _ (texts : PythonTexts) where
  -- `_canonical_optional_uuid`
  abbrev pub canonical_optional_uuid : Option String → Option (Option String)
  canonical_optional_uuid none = some none
  canonical_optional_uuid (some value) = do t ← texts.uuid value; some (some t)

  -- What `canonicalize_persistable_audit_event` makes of a sanitized event.
  unfoldable pub canonical_ids : AuditEvent → Option AuditEvent
  canonical_ids sanitized = do
    id ← texts.uuid sanitized.id
    actor_user_id ← canonical_optional_uuid sanitized.actor_user_id
    actor_platform_session_id ← canonical_optional_uuid sanitized.actor_platform_session_id
    some (with_ids sanitized id actor_user_id actor_platform_session_id)

  -- `canonicalize_persistable_audit_event`
  unfoldable pub canonicalize : AuditEvent → Option AuditEvent
  canonicalize event =
      if is_persistable event
      then (do sanitized ← sanitize_audit_event texts event; canonical_ids sanitized)
      else none

  -- `audit_events_equivalent`
  unfoldable pub audit_events_equivalent : AuditEvent → AuditEvent → Option Bool
  unfolding same_event
  audit_events_equivalent left right = do
    l ← canonicalize left
    r ← canonicalize right
    some (same_event l r)
