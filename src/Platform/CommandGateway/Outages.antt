-- ===== src/Platform/CommandGateway/Outages.antt =====
-- apps/backend/app/platform/command_gateway.py: the gateway's answer when the audit ports fail.
use supersonic.Prelude.{
  arith, refl, ok, raise, true, Result, Option, Bool, ◌≢◌, ◌≡◌, ℕ, some, none, inl, String, inr,
  Result-cases, ◌+◌, Bool-cases, contains,
}
use supersonic.Platform.CommandGateway.{
  apply_command, refused_command, internal_error, Append, Raised, GatewayResult, Gateway,
  record_event, settle_command, record_attempt, proceed, read_now, record_and_raise, ask_authority,
  next_id, deliver, append_fallback, command_event, management_commands,
}
use supersonic.Cockpit.Service.{
  apply_command as serve_command, queue_full, command_rejected, CockpitError,
}
use supersonic.Platform.Models.{AuditEvent, Principal, AuditResult, AuditDelivery}
use supersonic.Contract.{SnapshotEnvelopeV1, CommandEnvelopeV1, Time, EndpointId, command_name_eq}
use supersonic.Platform.Authorization.{authorize}
use supersonic.Platform.CommandGateway.Outcomes.{IsAttempted}

-- The gateway's answer is the authority's.
abbrev pub Answers : Result CockpitError SnapshotEnvelopeV1 → Result Raised GatewayResult → Type 0
Answers (ok envelope) (ok result) = result.envelope ≡ envelope
Answers (ok _) (raise _) = ⊥
Answers (raise (command_rejected e)) (raise raised) = raised.error ≡ refused_command e
Answers (raise queue_full) (raise raised) = raised.error ≡ internal_error queue_full
Answers (raise _) (ok _) = ⊥

module _ {A F : Type 0} (append : AuditEvent → A → Append × A)
    (fallback : Option (AuditEvent → F → Bool × F)) where
  abbrev pub IsAware : Gateway A F → Type 0
  IsAware g = (n : ℕ) → (now : Time) × (g.clock n ≡ some now)

  -- No id is used twice with different contents.
  abbrev pub HasNoConflict : Type 0
  HasNoConflict = (event : AuditEvent) (a : A) → (append event a).0 ≢ Append.audit_event_conflict

  module _ (principal : Principal) (command : CommandEnvelopeV1) (endpoint : EndpointId)
      (fine : HasNoConflict) where
    record_event-returns :
        (result : AuditResult) (code : Option String) (g : Gateway A F)
        → IsAware g
        → (delivery : AuditDelivery) × ((record_event append fallback principal command endpoint
              result code true g).0
            ≡ ok delivery)
    unfolding record_event read_now next_id deliver append_fallback
    record_event-returns result code g aware =
        let (now, e) = aware g.readings in
        let n =
          fine (command_event principal command endpoint result code now (g.ids g.issued))
            g.audit in
        elim (Result-cases
          (record_event append fallback principal command endpoint result code true g).0) [
            | inl done ↦ done
            | inr (x, raised) ↦ absurd (ground (arith, n, raised))
          ]

    settle_command-Answers :
        (answer : Result CockpitError SnapshotEnvelopeV1) (g : Gateway A F)
        → IsAware g
        → Answers answer (settle_command append fallback principal command endpoint answer g).0
    unfolding settle_command record_and_raise
    settle_command-Answers (ok envelope) g aware =
        let (delivery, e) = record_event-returns AuditResult.succeeded none g aware in ground arith
    settle_command-Answers (raise (command_rejected x)) g aware =
        let (delivery, e) = record_event-returns AuditResult.rejected (some x.code) g aware in
        ground arith
    settle_command-Answers (raise queue_full) g aware =
        let (delivery, e) =
          record_event-returns AuditResult.error (some "internal_error") g aware in
        ground arith

    record_attempt-returns :
        (g : Gateway A F)
        → IsAttempted append fallback principal command endpoint g
        → (g' : Gateway A F) × (record_attempt append fallback principal command endpoint g
            ≡ (ok tt, g'))
          × (g'.clock ≡ g.clock)
          × (g'.authority ≡ g.authority)
    unfolding record_attempt record_event read_now next_id deliver
    record_attempt-returns g (inl unmanaged) = (g, ground arith, refl, refl)
    record_attempt-returns g (inr (now, e, answered)) =
        let event =
          command_event principal command endpoint AuditResult.attempted none now
            (g.ids g.issued) in
        let g' = record g {
          audit = (append event g.audit).1;
          readings = g.readings + 1;
          issued = g.issued + 1;
        } in
        elim (Bool-cases (contains command.payload.name management_commands)) [
          | inr unmanaged ↦ (g, ground arith, refl, refl)
          | inl managed ↦ (g', ground arith, refl, refl)
        ]

    -- If the primary port never finds a conflict, the clock is aware, the role policy admits the
    -- command and a management command's attempted fact is appended, then, however else the audit
    -- ports fail, the gateway returns the authority's envelope when the authority returns one, and
    -- raises the authority's rejection or error when it raises.
    pub apply_command-Answers :
        (g : Gateway A F)
        → IsAware g
        → authorize principal command.payload.name ≡ ok tt
        → IsAttempted append fallback principal command endpoint g
        → Answers
            (serve_command command (some endpoint) g.authority).0
            (apply_command append fallback principal command endpoint g).0
    unfolding apply_command proceed ask_authority
    apply_command-Answers g aware a begun =
        let (g', e, clocks, same) = record_attempt-returns g begun in
        let (answer, c) = serve_command command (some endpoint) g.authority in
        rw (a, e, same)
          (settle_command-Answers answer (record g' { authority = c }) (rw clocks aware))
