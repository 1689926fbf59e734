-- ===== src/Cockpit/Service/Commands.antt =====
-- apps/backend/app/cockpit/service.py: `apply_command` on every branch.
use supersonic.Prelude.{
  ◌+◌, Bool, true, false, Option, ◌≡◌, refl, ok, raise, ◌⊎◌, inl, inr, arith, Result, ap, continue,
  Bool-cases,
}
use supersonic.Contract.{
  SnapshotEnvelopeV1, CockpitSnapshotV1, EndpointId, CommandEnvelopeV1, Uuid, RiskEventV1,
}
use supersonic.Cockpit.Broker.Delivery.{IsBounded, IsDelivered}
use supersonic.Cockpit.Errors.{CommandRejected}
use supersonic.Cockpit.World.{World}
use supersonic.Cockpit.Transitions.{TransitionResult, apply}
use supersonic.Cockpit.Service.{
  Cockpit, CockpitError, command_rejected, commit, apply_command, validate, Action, when,
  as_rejection,
}
use supersonic.Cockpit.Service.Effects.{
  HasConnection, with_connectivity, rebuild_connectivity_lem, publish_snapshot_lem, envelope_of,
  after_envelope,
}
use supersonic.Prelude.{◌>>◌, continue, ap, ◌∙◌, Result-cases}
use supersonic.Cockpit.Policies.{validate}
use supersonic.Cockpit.Service.{Action, when, as_rejection, make_envelope}

-- `s` as `touch` and, after a reset, the connectivity leave it.
pub record IsTouched (s s' : CockpitSnapshotV1) : Type 0 where
  pub session_id : s'.session_id ≡ s.session_id
  pub revision : s'.revision ≡ s.revision + 1
  pub theme : s'.theme ≡ s.theme
  pub system_mode : s'.system_mode ≡ s.system_mode
  pub active_flow : s'.active_flow ≡ s.active_flow
  pub data_health : s'.data_health ≡ s.data_health
  pub vehicle : s'.vehicle ≡ s.vehicle
  pub navigation : s'.navigation ≡ s.navigation
  pub risks : s'.risks ≡ s.risks
  pub passenger : s'.passenger ≡ s.passenger
  pub capabilities : s'.capabilities ≡ s.capabilities

-- The state after a change was committed: the result's snapshot with the next revision, delivered
-- to every subscriber under the command's correlation id.
pub record IsCommitted (correlation_id : Uuid) (result : TransitionResult) (c c' : Cockpit)
    : Type 0 where
  pub touched : IsTouched result.snapshot c'.snapshot
  pub connectivity :
      ((result.reset ≡ false)
        × (c'.snapshot.endpoint_connectivity ≡ result.snapshot.endpoint_connectivity))
      ⊎ ((result.reset ≡ true)
          × ((e : EndpointId)
              → HasConnection c'.snapshot.endpoint_connectivity e (c.broker.connection_counts e)))
  pub envelope : SnapshotEnvelopeV1
  pub payload : envelope.payload ≡ c'.snapshot
  pub correlation : envelope.correlation_id ≡ correlation_id
  pub delivered : IsDelivered c.broker.subscribers envelope c.broker c'.broker

-- The state after `touch`.
abbrev pub touched : Cockpit → Cockpit
touched c = record c {
  snapshot = record c.snapshot {
    revision = c.snapshot.revision + 1;
    timestamp = c.world.clock c.world.readings;
  };
  world = record c.world { readings = c.world.readings + 1 };
}

module _ (s : CockpitSnapshotV1) (changed : Bool) (resolved : Option RiskEventV1) where
  abbrev ending : Bool → TransitionResult
  ending reset = record { snapshot = s; changed = changed; reset = reset; resolved_risk = resolved }

  commit-IsCommitted :
      (reset : Bool) (correlation_id : Uuid) (c : Cockpit)
      → IsBounded c.broker
      → (c' : Cockpit) × (commit (ending reset) correlation_id c ≡ (ok tt, c'))
        × IsCommitted correlation_id (ending reset) c c'
  unfolding commit
  commit-IsCommitted false correlation_id c h =
      let (c', e, p) =
        publish_snapshot_lem correlation_id (touched (record c { snapshot = s })) h in
      (
        c',
        e,
        record {
          touched = ground arith;
          connectivity = inl (refl, ground arith);
          envelope = p.envelope;
          payload = ground arith;
          correlation = p.correlation;
          delivered = p.delivered;
        },
      )
  commit-IsCommitted true correlation_id c h =
      let (d, w, r, k) = rebuild_connectivity_lem (record c { snapshot = s }) in
      let (c', e, p) =
        publish_snapshot_lem correlation_id
          (touched (with_connectivity d w (record c { snapshot = s }))) h in
      (
        c',
        rw r e,
        record {
          touched = ground arith;
          connectivity =
              inr
                (refl, λ endpoint. rw (ap (λ t. t.endpoint_connectivity) p.snapshot) (k endpoint));
          envelope = p.envelope;
          payload = ground arith;
          correlation = p.correlation;
          delivered = p.delivered;
        },
      )

-- `apply_command` from the result of the transitions on.
abbrev settle :
    CommandEnvelopeV1 → Result CommandRejected TransitionResult × World → Action SnapshotEnvelopeV1
settle command (raise e, w) c = (raise (command_rejected e), record c { world = w })
settle command (ok result, w) c =
    (when result.changed (commit result command.correlation_id)
        >> make_envelope command.correlation_id)
      (record c { world = w })

settle_lem :
    (command : CommandEnvelopeV1) (r : Result CommandRejected TransitionResult × World)
    (c : Cockpit)
    → continue
        (as_rejection r.0)
        (λ result.
          when result.changed (commit result command.correlation_id)
          >> make_envelope command.correlation_id)
        (record c { world = r.1 })
      ≡ settle command r c
settle_lem command (ok result, w) c = refl
settle_lem command (raise e, w) c = refl

apply_command-settle :
    (command : CommandEnvelopeV1) (server : Option EndpointId) (c : Cockpit)
    → validate command server ≡ ok tt
    → apply_command command server c ≡ settle command (apply c.snapshot command c.world) c
unfolding apply_command
apply_command-settle command server c e =
    rw (e, apply_command) (settle_lem command (apply c.snapshot command c.world) c)

when-true :
    (b : Bool) (m : Action (Unit {0})) (k : Action SnapshotEnvelopeV1) (c : Cockpit)
    → b ≡ true
    → (when b m >> k) c ≡ (m >> k) c
when-true true m k c e = refl
when-true false m k c e = cc

-- The three ways in which `apply_command` ends.
pub data Ending (command : CommandEnvelopeV1) (server : Option EndpointId) (c : Cockpit)
    (r : Result CockpitError SnapshotEnvelopeV1 × Cockpit) : Type 0 where
  refused :
      (e : CommandRejected) (w : World)
      → (validate command server ≡ raise e) ⊎ (apply c.snapshot command c.world ≡ (raise e, w))
      → r ≡ (raise (command_rejected e), record c { world = w })
      → Ending command server c r
  without_effect :
      (result : TransitionResult) (w : World)
      → validate command server ≡ ok tt
      → apply c.snapshot command c.world ≡ (ok result, w)
      → result.changed ≡ false
      → r ≡ (
        ok (envelope_of command.correlation_id (record c { world = w })),
        record c { world = after_envelope w },
      )
      → Ending command server c r
  committed :
      (result : TransitionResult) (w : World) (c' : Cockpit)
      → validate command server ≡ ok tt
      → apply c.snapshot command c.world ≡ (ok result, w)
      → result.changed ≡ true
      → IsCommitted command.correlation_id result (record c { world = w }) c'
      → r ≡ (
        ok (envelope_of command.correlation_id c'),
        record c' { world = after_envelope c'.world },
      )
      → Ending command server c r

module _ (command : CommandEnvelopeV1) (server : Option EndpointId) (c : Cockpit)
    (h : IsBounded c.broker) where
  settle-Ending :
      (r : Result CommandRejected TransitionResult × World)
      → validate command server ≡ ok tt
      → apply c.snapshot command c.world ≡ r
      → Ending command server c (settle command r c)
  unfolding make_envelope
  settle-Ending (raise e, w) v a = refused e w (inr a) refl
  settle-Ending (ok result, w) v a = elim (Bool-cases result.changed) [
    | inl changed ↦
        let (c', e, p) =
          commit-IsCommitted result.snapshot result.changed result.resolved_risk result.reset
            command.correlation_id (record c { world = w }) h in
        committed result w c' v a changed p (
          when-true result.changed (commit result command.correlation_id)
            (make_envelope command.correlation_id) (record c { world = w }) changed
          ∙ rw e)
    | inr same ↦ without_effect result w v a same (rw same)
  ]

  -- With queues that keep their bound, apply_command ends in one of three ways: it raises what the
  -- policy or the transitions raise and changes only what it took from the clock and the id
  -- factory; it returns the snapshot as it was, when the transitions changed nothing; or it stores
  -- the transitions' result with the next revision, makes the connectivity agree with the
  -- connection counts after a reset and keeps it otherwise, delivers the stored snapshot under the
  -- command's correlation id to every subscriber, and returns it.
  pub apply_command-Ending : Ending command server c (apply_command command server c)
  apply_command-Ending = elim (Result-cases (validate command server)) [
    | inl (_, v) ↦
        rw (apply_command-settle command server c v)
          (settle-Ending (apply c.snapshot command c.world) v refl)
    | inr (e, v) ↦ refused e c.world (inl v) (unfold apply_command in rw (v, apply_command))
  ]
