-- ===== src/Platform/CommandGateway/Outcomes.antt =====
-- apps/backend/app/platform/command_gateway.py: what becomes of the authority, for any audit ports.
use supersonic.Prelude.{
  arith, refl, ok, raise, true, false, Option, Bool, contains, ◌≡◌, Result, ◌⊎◌, none, String, some,
  Bool-cases, inr, inl, Option-cases, continue, ap, ◌∙◌,
}
use supersonic.Platform.CommandGateway.{
  apply_command, Append, record_event, Gateway, record_attempt, settle_command, read_now,
  record_and_raise, next_id, management_commands, deliver, append_fallback, command_event, proceed,
  ask_authority, Raised,
}
use supersonic.Prelude.{sym, ◌>>=◌}
use supersonic.Cockpit.Service.{
  queue_full, apply_command as serve_command, CockpitError, command_rejected,
}
use supersonic.Platform.Models.{AuditEvent, Principal, AuditResult, PlatformAccessError}
use supersonic.Contract.{CommandEnvelopeV1, EndpointId, Time, SnapshotEnvelopeV1, command_name_eq}
use supersonic.Platform.Authorization.{authorize}

module _ {A F : Type 0} (append : AuditEvent → A → Append × A)
    (fallback : Option (AuditEvent → F → Bool × F)) where
  module _ (principal : Principal) (command : CommandEnvelopeV1) (endpoint : EndpointId) where
    record_event-authority :
        (result : AuditResult) (code : Option String) (allow : Bool) (g : Gateway A F)
        → (record_event append fallback principal command endpoint result code allow g).1.authority
          ≡ g.authority
    unfolding record_event read_now next_id deliver append_fallback
    record_event-authority result code allow g = ground arith

    -- The attempted fact of a management command was appended by the primary port.
    abbrev pub IsAttempted : Gateway A F → Type 0
    IsAttempted g =
        (contains command.payload.name management_commands ≡ false)
        ⊎ ((now : Time) × (g.clock g.readings ≡ some now)
            × ((append
                  (command_event principal command endpoint AuditResult.attempted none now
                    (g.ids g.issued))
                  g.audit).0
                ≡ Append.appended))

    record_attempt-authority :
        (g : Gateway A F)
        → (record_attempt append fallback principal command endpoint g).1.authority ≡ g.authority
    unfolding record_attempt
    record_attempt-authority g =
        ground (arith, record_event-authority AuditResult.attempted none false g)

    record_attempt-IsAttempted :
        (g g' : Gateway A F)
        → record_attempt append fallback principal command endpoint g ≡ (ok tt, g')
        → IsAttempted g
    unfolding record_attempt record_event read_now next_id deliver
    record_attempt-IsAttempted g g' h =
        elim (Bool-cases (contains command.payload.name management_commands)) [
          | inr unmanaged ↦ inl unmanaged
          | inl yes_managed ↦ elim (Option-cases (g.clock g.readings)) [
            | inl naive ↦ absurd (ground (arith, h))
            | inr (now, e) ↦ inr (now, e, ground (arith, h))
          ]
        ]

    settle_command-authority :
        (answer : Result CockpitError SnapshotEnvelopeV1) (g : Gateway A F)
        → (settle_command append fallback principal command endpoint answer g).1.authority
          ≡ g.authority
    unfolding settle_command record_and_raise
    settle_command-authority (ok envelope) g =
        ground (arith, record_event-authority AuditResult.succeeded none true g)
    settle_command-authority (raise (command_rejected e)) g =
        ground (arith, record_event-authority AuditResult.rejected (some e.code) true g)
    settle_command-authority (raise queue_full) g =
        ground (arith, record_event-authority AuditResult.error (some "internal_error") true g)

    -- Nothing happens to the authority, or it serves the command once, after the role and the
    -- attempted fact were settled.
    abbrev pub Serves : Gateway A F → Gateway A F → Type 0
    Serves g g' =
        (g'.authority ≡ g.authority)
        ⊎ ((authorize principal command.payload.name ≡ ok tt)
            × IsAttempted g
            × (g'.authority ≡ (serve_command command (some endpoint) g.authority).1))

    served-Serves :
        (g : Gateway A F) (r : Result Raised (Unit {0}) × Gateway A F)
        → authorize principal command.payload.name ≡ ok tt
        → record_attempt append fallback principal command endpoint g ≡ r
        → Serves g
            (continue r.0
              (λ _.
                ask_authority append fallback command endpoint
                >>= settle_command append fallback principal command endpoint)
              r.1).1
    unfolding ask_authority
    served-Serves g (raise e, g') a q =
        inl (ap (λ r. r.1.authority) (sym q) ∙ record_attempt-authority g)
    served-Serves g (ok _, g') a q =
        let same : g'.authority ≡ g.authority =
          ap (λ r. r.1.authority) (sym q) ∙ record_attempt-authority g in
        let (answer, c) = serve_command command (some endpoint) g'.authority in
        inr (
          a,
          record_attempt-IsAttempted g g' q,
          settle_command-authority answer (record g' { authority = c })
              ∙ ap (λ c. (serve_command command (some endpoint) c).1) same,
        )

    proceed-Serves :
        (g : Gateway A F) (r : Result PlatformAccessError (Unit {0}))
        → authorize principal command.payload.name ≡ r
        → Serves g (proceed append fallback principal command endpoint r g).1
    unfolding proceed record_and_raise
    proceed-Serves g (raise e) a =
        inl (
          ground
            (arith, record_event-authority AuditResult.rejected (some "role_forbidden") true g))
    proceed-Serves g (ok _) a =
        served-Serves g (record_attempt append fallback principal command endpoint g) a refl

    -- For any audit ports, a command at the gateway either leaves the authority as it was, or the
    -- role policy admitted it, its attempted fact was appended by the primary port if it is a
    -- management command, and the authority served it exactly once.
    pub apply_command-Serves :
        (g : Gateway A F) → Serves g (apply_command append fallback principal command endpoint g).1
    unfolding apply_command
    apply_command-Serves g = proceed-Serves g _ refl
