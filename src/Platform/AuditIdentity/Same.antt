-- ===== src/Platform/AuditIdentity/Same.antt =====
-- apps/backend/app/platform/audit_identity.py: a canonical fact compared with itself.
use supersonic.Prelude.{
  Option, none, some, ◌≡◌, refl, arith, Bool, true, false, Bool-cases, inl, inr, String, [], ◌∷◌, ℕ,
  All, ◌%◌, ◌≤◌, ◌/◌, ◌<◌, ◌==◌, ◌&&◌, Eq, nat_eq, string_eq, ltb, ◌+◌,
}
use supersonic.Prelude.Dict.{Dict}
use supersonic.Contract.{JsonValue}
use Prim.Native.Nat.{◌^◌}
use supersonic.Platform.Models.{audit_result_eq, audit_delivery_eq, role_eq, AuditEvent}
use supersonic.Platform.AuditIdentity.{
  scaled, same_number, same_value, same_parameters, same_event, same_text, same_option,
}
use supersonic.Platform.Sanitization.{is_float_temperature}

abbrev pub IsSelf : JsonValue → Type 0
IsSelf v = same_value v v ≡ true

same_number_refl : (s : Bool) (m : ℕ) → same_number (some (s, m)) (some (s, m)) ≡ true
same_number_refl true m = ground arith
same_number_refl false m = ground arith

pub boolean-IsSelf : (b : Bool) → IsSelf (JsonValue.boolean b)
unfolding same_value scaled
boolean-IsSelf b = same_number_refl false _

pub integer-IsSelf : (s : Bool) (n : ℕ) → IsSelf (JsonValue.integer s n)
unfolding same_value scaled
integer-IsSelf s n = same_number_refl s _

pub string-IsSelf : (s : String) → IsSelf (JsonValue.string s)
unfolding same_value
string-IsSelf s = ground arith

scaled_refl : (o : Option (Bool × ℕ)) (x : Bool × ℕ) → o ≡ some x → same_number o o ≡ true
scaled_refl none x h = cc
scaled_refl (some (s, m)) x h = same_number_refl s m

exponent-lt :
    (bits : ℕ)
    → bits % 0x8000000000000000 ≤ 0x4069000000000000
    → bits / 0x10000000000000 % 2048 < 2047
exponent-lt bits h = omega (arith, h)

temperature-le :
    (bits : ℕ) → is_float_temperature bits ≡ true → bits % 0x8000000000000000 ≤ 0x4069000000000000
unfolding is_float_temperature
temperature-le bits h = ground (arith, h)

ne_eq : {m n : ℕ} → m < n → (m == n) ≡ false
ne_eq h = ground (arith, h)

pub float-IsSelf : (bits : ℕ) → is_float_temperature bits ≡ true → IsSelf (JsonValue.float bits)
unfolding same_value scaled
float-IsSelf bits h =
    let small = exponent-lt bits (temperature-le bits h) in
    rw (ne_eq small) (elim (Bool-cases (bits / 0x10000000000000 % 2048 == 0)) [
      | inl z ↦ rw z (same_number_refl (ltb (2 ^ 63) (bits + 1)) _)
      | inr n ↦ rw n (same_number_refl (ltb (2 ^ 63) (bits + 1)) _)
    ])

same_parameters_refl :
    (d : Dict String JsonValue) → All (λ e. IsSelf e.1) d → same_parameters d d ≡ true
unfolding same_parameters
same_parameters_refl [] h = refl
same_parameters_refl ((k, v) ∷ d) h = ground (arith, h.0, same_parameters_refl d h.1)

option_refl :
    {A : Type 0} (eq : A → A → Bool) (o : Option A)
    → ((a : A) → eq a a ≡ true)
    → same_option eq o o ≡ true
option_refl eq none h = refl
option_refl eq (some a) h = h a

text_refl : (o : Option String) → same_text o o ≡ true
text_refl o = option_refl _ o (λ s. ground arith)

infixl 60 ◌both◌
◌both◌ : {a b : Bool} → a ≡ true → b ≡ true → (a && b) ≡ true
h both k = ground (arith, h, k)

eq_refl : {A : Type 0} ⦃e : Eq A⦄ (a : A) → (a == a) ≡ true
eq_refl a = ground arith

pub same_event_refl : (e : AuditEvent) → All (λ f. IsSelf f.1) e.parameters → same_event e e ≡ true
unfolding same_event
same_event_refl e h =
    eq_refl e.id
    both eq_refl e.occurred_at
    both eq_refl e.action
    both eq_refl e.result
    both eq_refl e.delivery
    both text_refl e.actor_user_id
    both text_refl e.actor_platform_session_id
    both option_refl (λ r q. r == q) e.actor_role eq_refl
    both text_refl e.endpoint
    both text_refl e.cockpit_session_id
    both text_refl e.command_name
    both text_refl e.correlation_id
    both text_refl e.target_type
    both text_refl e.target_id
    both same_parameters_refl e.parameters h
    both text_refl e.error_code
    both eq_refl e.source_type
