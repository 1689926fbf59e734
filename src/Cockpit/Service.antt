-- ===== src/Cockpit/Service.antt =====
-- apps/backend/app/cockpit/service.py: `CockpitService`. Every method holds the lock from its first
-- statement to its last and waits for nothing else, so a method is one step of the state.
pub mod Effects
pub mod Commands
pub mod Connections
pub mod Disconnections
use supersonic.Prelude.{
  ℕ, ◌+◌, ltb, Bool, true, false, Option, none, some, List, [], ◌∷◌, if◌then◌else◌, Result, ok,
  raise, Exec, lift, pure, gets, modify, ◌>>=◌, ◌>>◌,
}
use supersonic.Prelude.Dict.{insert}
use supersonic.Contract.{
  CockpitSnapshotV1, CommandEnvelopeV1, DataFreshness, EndpointId, endpoint_id_eq, endpoint_id_enum,
  MessageSource, SnapshotEnvelopeV1, Uuid,
}
use supersonic.Cockpit.Broker.{SnapshotBroker, subscribe, unsubscribe, publish}
use supersonic.Cockpit.Errors.{CommandRejected}
use supersonic.Cockpit.Policies.{validate}
use supersonic.Cockpit.StateFactory.{create_default}
use supersonic.Cockpit.Transitions.{TransitionResult, apply}
use supersonic.Cockpit.Transitions.Candidate.{Step}
use supersonic.Cockpit.World.{World, read_clock, new_id}

pub record Cockpit : Type 0 where
  pub snapshot : CockpitSnapshotV1
  pub broker : SnapshotBroker
  pub world : World

pub data CockpitError : Type 0 where
  command_rejected : CommandRejected → CockpitError
  queue_full : CockpitError

abbrev pub Action : Type 0 → Type 0
Action = Exec CockpitError Cockpit

abbrev pub as_rejection {ℓ} : {A : Type ℓ} → Result CommandRejected A → Result CockpitError A
as_rejection (ok a) = ok a
as_rejection (raise e) = raise (command_rejected e)

-- A call of the clock, of the id factory or of the transitions.
abbrev pub in_world : {A : Type 0} → Step A → Action A
in_world m c = let (r, w) = m c.world in (as_rejection r, record c { world = w })

abbrev pub when : Bool → Action (Unit {0}) → Action (Unit {0})
when true m c = m c
when false m c = (ok tt, c)

-- `CockpitService.__init__`
unfoldable pub init : World → Result CommandRejected CockpitSnapshotV1 × World
unfolding create_default
init w = create_default 0 w

unfoldable pub get_snapshot : Action CockpitSnapshotV1
get_snapshot = gets (λ c. c.snapshot)

unfoldable pub set_connection : EndpointId → DataFreshness → Action (Unit {0})
unfolding read_clock
set_connection endpoint status = do
  now ← in_world read_clock
  modify (λ c. record c {
    snapshot = record c.snapshot {
      endpoint_connectivity =
          insert endpoint (record { status = status; last_seen_at = now })
            c.snapshot.endpoint_connectivity;
    };
  })

abbrev pub status_of_count : ℕ → DataFreshness
status_of_count n = if ltb 0 n then DataFreshness.fresh else DataFreshness.offline

-- The loop of `_rebuild_connectivity_locked` over the endpoints that are left.
unfoldable pub rebuild_from : List EndpointId → Action (Unit {0})
unfolding set_connection
rebuild_from [] = pure tt
rebuild_from (endpoint ∷ rest) = do
  count ← gets (λ c. c.broker.connection_counts endpoint)
  set_connection endpoint (status_of_count count)
  rebuild_from rest

unfoldable pub rebuild_connectivity : Action (Unit {0})
unfolding rebuild_from
rebuild_connectivity = rebuild_from endpoint_id_enum.members

unfoldable pub touch : Action (Unit {0})
unfolding read_clock
touch = do
  modify (λ c. record c { snapshot = record c.snapshot { revision = c.snapshot.revision + 1 } })
  now ← in_world read_clock
  modify (λ c. record c { snapshot = record c.snapshot { timestamp = now } })

abbrev pub service_source : MessageSource
service_source = record { kind = "service"; id = "cockpit-state-authority" }

unfoldable pub make_envelope : Uuid → Action SnapshotEnvelopeV1
unfolding read_clock new_id
make_envelope correlation_id = do
  message_id ← in_world new_id
  now ← in_world read_clock
  gets (λ c. record {
    message_id = message_id;
    correlation_id = correlation_id;
    timestamp = now;
    source = service_source;
    target = none;
    payload = c.snapshot;
  })

abbrev pub broadcast : SnapshotEnvelopeV1 → Action (Unit {0})
broadcast envelope c = elim (publish envelope c.broker) [
  | none ↦ (raise queue_full, c)
  | some b ↦ (ok tt, record c { broker = b })
]

-- `_publish_locked`
unfoldable pub publish_snapshot : Uuid → Action (Unit {0})
unfolding make_envelope
publish_snapshot correlation_id = do envelope ← make_envelope correlation_id; broadcast envelope

-- The body of `if result.changed` in `apply_command`.
unfoldable pub commit : TransitionResult → Uuid → Action (Unit {0})
unfolding touch
commit result correlation_id = do
  modify (λ c. record c { snapshot = result.snapshot })
  when result.reset rebuild_connectivity
  touch
  publish_snapshot correlation_id

unfoldable pub apply_command : CommandEnvelopeV1 → Option EndpointId → Action SnapshotEnvelopeV1
unfolding make_envelope
apply_command command server_endpoint = do
  lift (as_rejection (validate command server_endpoint))
  snapshot ← gets (λ c. c.snapshot)
  result ← in_world (apply snapshot command)
  when result.changed (commit result command.correlation_id)
  make_envelope command.correlation_id

-- `connect_endpoint`, below the broker's answer.
unfoldable pub announce : EndpointId → DataFreshness → Bool → Action (Unit {0})
unfolding set_connection touch
announce endpoint status first = when first (do set_connection endpoint status; touch)

abbrev pub with_broker : SnapshotBroker → Cockpit → Cockpit
with_broker b c = record c { broker = b }

unfoldable pub connect_endpoint : EndpointId → Action ℕ
unfolding new_id
connect_endpoint endpoint = do
  (queue, first_connection, b) ← gets (λ c. subscribe endpoint c.broker)
  modify (with_broker b)
  announce endpoint DataFreshness.fresh first_connection
  correlation_id ← in_world new_id
  publish_snapshot correlation_id
  pure queue

unfoldable pub disconnect_endpoint : EndpointId → ℕ → Action (Unit {0})
unfolding new_id
disconnect_endpoint endpoint queue = do
  (last_connection, b) ← gets (λ c. unsubscribe endpoint queue c.broker)
  modify (with_broker b)
  when last_connection (do
    announce endpoint DataFreshness.offline true
    correlation_id ← in_world new_id
    publish_snapshot correlation_id)
