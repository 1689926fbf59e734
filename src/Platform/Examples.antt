-- ===== src/Platform/Examples.antt =====
-- The platform's parts at concrete inputs: an operator and a viewer at the gateway, a username that
-- is locked out, and a session that is revoked.
use supersonic.Platform.Models.{Role, Principal, AuditEvent}
use supersonic.Platform.LoginThrottle.{
  Limits, trim, check, discard_expired, record_failure, record_success, seconds_up,
}
use supersonic.Cockpit.Service.{apply_command as serve_command}
use supersonic.Platform.CommandGateway.{apply_command, Gateway, Append}
use supersonic.Platform.Authorization.{authorize, authorize_iff, MayIssue}
use supersonic.Contract.{CommandEnvelopeV1, CommandName, EndpointId, JsonValue}
use supersonic.Prelude.{
  refl, Option, length, none, List, Bool, some, ◌∷◌, ◌≡◌, String, [], true, ok, ◌+◌, ◌≤◌, false,
  ◌↔◌, show, inr, arith, ℕ, string_eq,
}
use supersonic.Platform.CommandGateway.Outcomes.{Serves, apply_command-Serves}
use supersonic.Platform.CommandGateway.Outages.{Answers, apply_command-Answers}
use supersonic.Platform.WebSocketRegistry.Revocation.{
  take_steps, registers, begins_send, ends_send, close_all-members, IsSilent, revoked-IsSilent,
}
use supersonic.Platform.WebSocketRegistry.{
  Registry, close_all, cancel_sends, connection_count, block, empty_registry, may_send, register,
}
use supersonic.Platform.LoginThrottle.Capacity.{answer_calls, fails, checks, answer_calls-capacity}
use supersonic.Prelude.Dict.{lookup}
use supersonic.Cockpit.Runs.{started}
use supersonic.Platform.LoginThrottle.Lockouts.{
  record_success-allows, window_failures, record_failure-locks,
}

abbrev operator : Principal
operator = record { user_id = "u-1"; role = Role.operator; session_id = "s-1" }

authorize_iff_example :
    (authorize operator CommandName.reset_session ≡ ok tt)
    ↔ MayIssue Role.operator CommandName.reset_session
authorize_iff_example = authorize_iff operator CommandName.reset_session

abbrev theme_command : CommandEnvelopeV1
theme_command = record {
  message_id = "m-1";
  correlation_id = "c-1";
  timestamp = 990;
  source = record { kind = "endpoint"; id = "control" };
  target = none;
  payload = record {
    name = CommandName.set_theme;
    endpoint = EndpointId.control;
    parameters = ("theme", JsonValue.string "day") ∷ [];
  };
}

-- A primary port that keeps the ids of its events, and no fallback.
abbrev keep_ids : AuditEvent → List String → Append × List String
keep_ids event ids = (Append.appended, event.id ∷ ids)

abbrev no_fallback : Option (AuditEvent → Unit {0} → Bool × Unit {0})
no_fallback = none

abbrev gateway : Gateway (List String) (Unit {0})
gateway = record {
  authority = started (record { clock = λ n. 1000 + n; readings = 0; ids = show; issued = 0 });
  audit = [];
  spare = tt;
  clock = λ n. some (2000 + n);
  readings = 0;
  ids = show;
  issued = 0;
}

apply_command-Serves_example :
    Serves keep_ids no_fallback operator theme_command EndpointId.control gateway
      (apply_command keep_ids no_fallback operator theme_command EndpointId.control gateway).1
apply_command-Serves_example =
    apply_command-Serves keep_ids no_fallback operator theme_command EndpointId.control gateway

operator_admitted : authorize operator CommandName.set_theme ≡ ok tt
operator_admitted = (authorize_iff operator CommandName.set_theme).1 (λ e. cc)

apply_command-Answers_example :
    Answers
      (serve_command theme_command (some EndpointId.control) gateway.authority).0
      (apply_command keep_ids no_fallback operator theme_command EndpointId.control gateway).0
apply_command-Answers_example =
    apply_command-Answers keep_ids no_fallback operator theme_command EndpointId.control
      (λ event ids e. cc) gateway (λ n. (2000 + n, refl)) operator_admitted (inr (2000, refl, refl))

abbrev strict_limits : Limits
strict_limits = record {
  max_failures = 1;
  failure_window = 60;
  lockout = 30;
  max_entries = 2;
  ticks_per_second = 1;
}

one_failure : 1 ≤ length (window_failures (λ s. s) strict_limits "eve" "10.0.0.7" 100 [])
unfolding trim discard_expired lookup
one_failure = omega arith

record_failure-locks_example :
    (check
      (λ s. s)
      strict_limits
      120
      "eve"
      "10.0.0.7"
      (record_failure (λ s. s) strict_limits 100 "eve" "10.0.0.7" [])).0
    ≡ record { allowed = false; retry_after = some (seconds_up 1 10) }
record_failure-locks_example =
    record_failure-locks (λ s. s) strict_limits "eve" "10.0.0.7" 100 120 [] refl one_failure
      (omega arith)

record_success-allows_example :
    (check
      (λ s. s)
      strict_limits
      120
      "eve"
      "10.0.0.7"
      (record_success (λ s. s) strict_limits "eve" "10.0.0.7" [])).0
    ≡ record { allowed = true; retry_after = none }
record_success-allows_example = record_success-allows (λ s. s) strict_limits "eve" "10.0.0.7" 120 []

answer_calls-capacity_example :
    length (
      answer_calls
        (λ s. s)
        strict_limits
        (fails 1 "a" "x" ∷ fails 2 "b" "x" ∷ fails 3 "c" "x" ∷ checks 4 "b" "x" ∷ [])
        [])
    ≤ 2
answer_calls-capacity_example =
    answer_calls-capacity (λ s. s) strict_limits
      (fails 1 "a" "x" ∷ fails 2 "b" "x" ∷ fails 3 "c" "x" ∷ checks 4 "b" "x" ∷ []) [] (omega arith)

revoked-IsSilent_example :
    let r = take_steps (registers "s-1" 8 ∷ begins_send "s-1" 7 2 ∷ []) (
      cancel_sends "s-1" (
        take_steps (ends_send "s-1" 1 ∷ []) (
          block "s-1"
            (take_steps (registers "s-1" 7 ∷ begins_send "s-1" 7 1 ∷ []) empty_registry)))) in
    IsSilent "s-1" r
    × ((connection : ℕ)
        → (may_send "s-1" connection r ≡ false) × ((register "s-1" connection r).0 ≡ false))
revoked-IsSilent_example =
    revoked-IsSilent "s-1" (registers "s-1" 7 ∷ begins_send "s-1" 7 1 ∷ []) (ends_send "s-1" 1 ∷ [])
      (registers "s-1" 8 ∷ begins_send "s-1" 7 2 ∷ [])

abbrev two_connections : Registry
two_connections = record {
  connections = ("s-1", 7 ∷ 8 ∷ []) ∷ ("s-2", 9 ∷ []) ∷ [];
  blocked_sessions = [];
  send_tasks = [];
}

close_all-members_example :
    (r : Registry) × (close_all (λ _. true) "s-1" two_connections ≡ (true, r))
    × (connection_count "s-1" r ≡ 0)
close_all-members_example = close_all-members "s-1" (λ _. true) two_connections (λ _. refl)
