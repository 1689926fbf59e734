-- ===== src/Platform/CommandGateway.antt =====
-- apps/backend/app/platform/command_gateway.py: `PlatformCommandGateway`. The two audit ports are
-- parameters: what they answer, and their state afterwards. An `await` is a call that returns; the
-- model orders the calls of one command as the code does.
pub mod Outcomes
pub mod Outages
use supersonic.Platform.Models.{audit_delivery_eq}
use supersonic.Prelude.{
  if◌then◌else◌, true, false, ◌>>=◌, ◌>>◌, Result, ok, raise, List, Bool, ℕ, false, Option, ◌!=◌,
  ◌==◌, ◌∷◌, Exec, String, pure, [], ◌+◌, throw, some, none, if◌then◌else◌, contains,
}
use supersonic.Cockpit.Service.{
  apply_command as serve_command, Cockpit, CockpitError, command_rejected, queue_full,
}
use supersonic.Platform.Models.{
  PlatformAccessError, Principal, AuditDelivery, AuditEvent, AuditResult,
}
use supersonic.Contract.{
  SnapshotEnvelopeV1, CommandName, CommandEnvelopeV1, Time, EndpointId, endpoint_id_value,
  command_name_value, command_name_eq,
}
use supersonic.Cockpit.Errors.{CommandRejected}
use supersonic.Platform.Authorization.{authorize}

unfoldable pub management_commands : List CommandName
management_commands =
    CommandName.set_theme ∷ CommandName.set_system_mode ∷ CommandName.reset_session ∷ []

-- What `AuditEventAppendPort.append` does: it returns, or raises one of the exceptions that the
-- gateway tells apart.
pub data Append : Type 0 where
  appended audit_event_conflict audit_unavailable database_unavailable append_failed : Append

-- The exceptions that leave the gateway.
pub data GatewayError : Type 0 where
  forbidden : PlatformAccessError → GatewayError
  refused_command : CommandRejected → GatewayError
  internal_error : CockpitError → GatewayError
  unaudited : Append → GatewayError
  naive_clock : GatewayError

-- An exception, and whether `add_note` told it that the outcome was lost.
pub record Raised : Type 0 where
  pub error : GatewayError
  pub noted : Bool

-- `clock` gives no time where the source's clock returns a naive datetime.
pub record Gateway (A F : Type 0) : Type 0 where
  pub authority : Cockpit
  pub audit : A
  pub spare : F
  pub clock : ℕ → Option Time
  pub readings : ℕ
  pub ids : ℕ → String
  pub issued : ℕ

pub record GatewayResult : Type 0 where
  pub envelope : SnapshotEnvelopeV1
  pub audit_delivery : AuditDelivery

abbrev pub audit_degraded : GatewayResult → Bool
audit_degraded result = result.audit_delivery != AuditDelivery.primary

abbrev pub audit_recorded : GatewayResult → Bool
audit_recorded result = result.audit_delivery != AuditDelivery.lost

-- The event that `_record` builds.
abbrev pub command_event :
    Principal
    → CommandEnvelopeV1
    → EndpointId
    → AuditResult
    → Option String
    → Time
    → String
    → AuditEvent
command_event principal command endpoint result error_code now id = record {
  id = id;
  occurred_at = now;
  action = "cockpit.command";
  result = result;
  delivery = AuditDelivery.primary;
  actor_user_id = some principal.user_id;
  actor_platform_session_id = some principal.session_id;
  actor_role = some principal.role;
  endpoint = some (endpoint_id_value endpoint);
  cockpit_session_id = none;
  command_name = some (command_name_value command.payload.name);
  correlation_id = some command.correlation_id;
  target_type = none;
  target_id = none;
  parameters = command.payload.parameters;
  error_code = error_code;
  source_type = "local_hmi";
}

abbrev pub plain : GatewayError → Raised
plain e = record { error = e; noted = false }

-- The exception that leaves `_record` when the fallback is not allowed.
abbrev pub strict_error : Append → Append
strict_error Append.append_failed = Append.audit_unavailable
strict_error answer = answer

-- `_note_lost_delivery`
abbrev pub note_lost_delivery : GatewayError → AuditDelivery → Raised
note_lost_delivery e delivery = record { error = e; noted = delivery == AuditDelivery.lost }

module _ {A F : Type 0} (append : AuditEvent → A → Append × A)
    (fallback : Option (AuditEvent → F → Bool × F)) where
  abbrev pub Recording : Type 0 → Type 0
  Recording = Exec Raised (Gateway A F)

  -- `self._clock()` and its test.
  unfoldable pub read_now : Recording Time
  read_now g = elim (g.clock g.readings) [
    | none ↦ (raise (plain naive_clock), record g { readings = g.readings + 1 })
    | some now ↦ (ok now, record g { readings = g.readings + 1 })
  ]

  unfoldable pub next_id : Recording String
  next_id g = (ok (g.ids g.issued), record g { issued = g.issued + 1 })

  -- `_append_fallback`
  unfoldable pub append_fallback : AuditEvent → Recording AuditDelivery
  append_fallback event g = elim fallback [
    | none ↦ (ok AuditDelivery.lost, g)
    | some write ↦
        let (written, spare) = write event g.spare in
        (
          ok (if written then AuditDelivery.fallback else AuditDelivery.lost),
          record g { spare = spare },
        )
  ]

  -- The `except` clauses of `_record`.
  unfoldable pub deliver : Append → Bool → AuditEvent → Recording AuditDelivery
  unfolding append_fallback
  deliver Append.appended allow_fallback event = pure AuditDelivery.primary
  deliver Append.audit_event_conflict allow_fallback event =
      throw (plain (unaudited Append.audit_event_conflict))
  deliver answer true event = append_fallback event
  deliver answer false event = throw (plain (unaudited (strict_error answer)))

  -- `_record`
  unfoldable pub record_event :
      Principal
      → CommandEnvelopeV1
      → EndpointId
      → AuditResult
      → Option String
      → Bool
      → Recording AuditDelivery
  unfolding read_now next_id deliver
  record_event principal command endpoint result error_code allow_fallback = do
    now ← read_now
    id ← next_id
    let event = command_event principal command endpoint result error_code now id
    answer ←
        (λ g. let (answer, audit) = append event g.audit in (ok answer, record g { audit = audit }))
    deliver answer allow_fallback event

  -- The body of the `except` clauses of `apply_command`: record the outcome, note a lost one, and
  -- raise again.
  unfoldable pub record_and_raise :
      {B : Type 0}
      → Principal
      → CommandEnvelopeV1
      → EndpointId
      → AuditResult
      → String
      → GatewayError
      → Recording B
  unfolding record_event
  record_and_raise principal command endpoint result code e = do
    delivery ← record_event principal command endpoint result (some code) true
    throw (note_lost_delivery e delivery)

  -- The last `try` of `apply_command`, and what follows it, by the authority's answer.
  unfoldable pub settle_command :
      Principal
      → CommandEnvelopeV1
      → EndpointId
      → Result CockpitError SnapshotEnvelopeV1
      → Recording GatewayResult
  unfolding record_and_raise record_event
  settle_command principal command endpoint (ok envelope) = do
    delivery ← record_event principal command endpoint AuditResult.succeeded none true
    pure (record { envelope = envelope; audit_delivery = delivery })
  settle_command principal command endpoint (raise (command_rejected e)) =
      record_and_raise principal command endpoint AuditResult.rejected e.code (refused_command e)
  settle_command principal command endpoint (raise queue_full) =
      record_and_raise principal command endpoint AuditResult.error "internal_error"
        (internal_error queue_full)

  -- `self._authority.apply_command(…)`
  unfoldable pub ask_authority :
      CommandEnvelopeV1 → EndpointId → Recording (Result CockpitError SnapshotEnvelopeV1)
  ask_authority command endpoint g =
      let (answer, c) = serve_command command (some endpoint) g.authority in
      (ok answer, record g { authority = c })

  -- The `attempted` fact of a management command.
  unfoldable pub record_attempt : Principal → CommandEnvelopeV1 → EndpointId → Recording (Unit {0})
  unfolding record_event
  record_attempt principal command endpoint =
      if contains command.payload.name management_commands
      then (do record_event principal command endpoint AuditResult.attempted none false; pure tt)
      else pure tt

  -- What `apply_command` does once the role was checked.
  unfoldable pub proceed :
      Principal
      → CommandEnvelopeV1
      → EndpointId
      → Result PlatformAccessError (Unit {0})
      → Recording GatewayResult
  unfolding record_attempt ask_authority settle_command record_and_raise
  proceed principal command endpoint (raise e) =
      record_and_raise principal command endpoint AuditResult.rejected "role_forbidden"
        (forbidden e)
  proceed principal command endpoint (ok _) = do
    record_attempt principal command endpoint
    answer ← ask_authority command endpoint
    settle_command principal command endpoint answer

  -- `PlatformCommandGateway.apply_command`
  unfoldable pub apply_command :
      Principal → CommandEnvelopeV1 → EndpointId → Recording GatewayResult
  unfolding proceed
  apply_command principal command endpoint =
      proceed principal command endpoint (authorize principal command.payload.name)
