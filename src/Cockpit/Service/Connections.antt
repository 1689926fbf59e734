-- ===== src/Cockpit/Service/Connections.antt =====
-- apps/backend/app/cockpit/service.py: `connect_endpoint`.
use supersonic.Prelude.{
  ℕ, ◌+◌, Bool, true, false, List, [], ◌∷◌, ◌++◌, ◌≡◌, refl, ok, arith, ◌==◌, nat_eq, contains,
  if◌then◌else◌, ◌≢◌, ◌∙◌, ite, if_pos, if_neg, ◌⊎◌, inl, inr,
}
use supersonic.Contract.{
  SnapshotEnvelopeV1, CockpitSnapshotV1, EndpointId, EndpointId-discrete, EndpointConnection,
  DataFreshness, Uuid, endpoint_id_eq,
}
use supersonic.Cockpit.Broker.{subscribe}
use supersonic.Cockpit.Broker.Delivery.{IsBounded, IsDelivered-IsBounded}
use supersonic.Cockpit.Service.{Cockpit, connect_endpoint, announce, insert, status_of_count}
use supersonic.Cockpit.Service.Commands.{touched, IsTouched}
use supersonic.Cockpit.Service.Effects.{
  HasConnection, with_connectivity, publish_snapshot_lem, IsPublished, HasConnection-insert,
}

abbrev pub IsConnectivityRight : Cockpit → Type 0
IsConnectivityRight c =
    (e : EndpointId)
    → HasConnection c.snapshot.endpoint_connectivity e (c.broker.connection_counts e)

-- `touch` after the entry of one endpoint was written.
abbrev pub announced : EndpointId → DataFreshness → Cockpit → Cockpit
announced endpoint status c =
    let v : EndpointConnection = record {
      status = status;
      last_seen_at = c.world.clock c.world.readings;
    } in
    touched (
      with_connectivity (insert endpoint v c.snapshot.endpoint_connectivity)
        (record c.world { readings = c.world.readings + 1 }) c)

pub announce_lem :
    (endpoint : EndpointId) (status : DataFreshness) (c : Cockpit)
    → announce endpoint status true c ≡ (ok tt, announced endpoint status c)
unfolding announce
announce_lem endpoint status c = refl

pub silent_lem :
    (endpoint : EndpointId) (status : DataFreshness) (c : Cockpit)
    → announce endpoint status false c ≡ (ok tt, c)
unfolding announce
silent_lem endpoint status c = refl

-- The snapshot is announced at one connection count, and kept at any other.
abbrev pub AnnouncedAt : ℕ → ℕ → CockpitSnapshotV1 → CockpitSnapshotV1 → Type 0
AnnouncedAt n count s s' = ((count ≡ n) × IsTouched s s') ⊎ ((count ≢ n) × (s' ≡ s))

-- The state after `connect_endpoint`: one more subscriber, and one more connection of the endpoint.
pub record IsConnected (endpoint : EndpointId) (c c' : Cockpit) : Type 0 where
  pub subscribers : c'.broker.subscribers ≡ c.broker.subscribers ++ c.broker.next_queue ∷ []
  pub next_queue : c'.broker.next_queue ≡ c.broker.next_queue + 1
  pub counts :
      (e : EndpointId)
      → c'.broker.connection_counts e ≡ (
          if endpoint == e
          then c.broker.connection_counts endpoint + 1
          else c.broker.connection_counts e)
  pub snapshot : AnnouncedAt 0 (c.broker.connection_counts endpoint) c.snapshot c'.snapshot
  pub connectivity : IsConnectivityRight c'
  pub bounded : IsBounded c'.broker
  pub envelope : SnapshotEnvelopeV1
  pub payload : envelope.payload ≡ c'.snapshot
  pub queue : c'.broker.queues c.broker.next_queue ≡ envelope ∷ []

abbrev subscribed : EndpointId → Cockpit → Cockpit
subscribed endpoint c = record c { broker = unfold subscribe in (subscribe endpoint c.broker).2 }

abbrev pub identified : Cockpit → Cockpit
identified c = record c { world = record c.world { issued = c.world.issued + 1 } }

pub Right-published :
    {correlation_id : Uuid} {c c' : Cockpit}
    → IsPublished correlation_id c c'
    → IsConnectivityRight c
    → IsConnectivityRight c'
Right-published p right e = rw (p.snapshot, p.delivered.counts) (right e)

pub announced-Right :
    (endpoint : EndpointId) (status : DataFreshness) (c : Cockpit)
    → status ≡ status_of_count (c.broker.connection_counts endpoint)
    → ((e : EndpointId)
        → endpoint ≢ e
        → HasConnection c.snapshot.endpoint_connectivity e (c.broker.connection_counts e))
    → IsConnectivityRight (announced endpoint status c)
announced-Right endpoint status c right others e =
    HasConnection-insert endpoint e
      (record { status = status; last_seen_at = c.world.clock c.world.readings })
      c.snapshot.endpoint_connectivity (c.broker.connection_counts e) (λ p. rw (← p) right)
      (others e)

-- The counts after one of them changed, and the entry of another endpoint.
other_count :
    (endpoint e : EndpointId) (n : ℕ) (counts : EndpointId → ℕ)
    → endpoint ≢ e
    → ite (EndpointId-discrete endpoint e) n (counts e) ≡ counts e
other_count endpoint e n counts h = if_neg (EndpointId-discrete endpoint e) h n (counts e)

own_count :
    (endpoint : EndpointId) (n : ℕ) (counts : EndpointId → ℕ)
    → ite (EndpointId-discrete endpoint endpoint) n (counts endpoint) ≡ n
own_count endpoint n counts =
    if_pos (EndpointId-discrete endpoint endpoint) refl n (counts endpoint)

contains-snoc : (queue : ℕ) (queues : List ℕ) → contains queue (queues ++ queue ∷ []) ≡ true
unfolding contains
contains-snoc queue [] = ground arith
contains-snoc queue (q ∷ queues) = ground (arith, contains-snoc queue queues)

connect_by :
    (endpoint : EndpointId) (first : Bool) (c : Cockpit)
    → (c.broker.connection_counts endpoint + 1 == 1) ≡ first
    → IsBounded c.broker
    → IsConnectivityRight c
    → (c' : Cockpit) × (connect_endpoint endpoint c ≡ (ok c.broker.next_queue, c'))
      × IsConnected endpoint c c'
unfolding connect_endpoint subscribe
connect_by endpoint true c first h right =
    let c₁ = announced endpoint DataFreshness.fresh (subscribed endpoint c) in
    let bounded : IsBounded c₁.broker = λ q. ground (arith, h q) in
    let (c', e, p) = publish_snapshot_lem (c.world.ids c.world.issued) (identified c₁) bounded in
    (
      c',
      rw (first, announce_lem endpoint DataFreshness.fresh (subscribed endpoint c), e),
      record {
        subscribers = p.delivered.subscribers;
        next_queue = p.delivered.next_queue;
        counts = λ x. rw p.delivered.counts (ground arith);
        snapshot = inl (ground arith, ground arith);
        connectivity = Right-published p (
            announced-Right endpoint DataFreshness.fresh (subscribed endpoint c)
              (rw
                (own_count endpoint (c.broker.connection_counts endpoint + 1)
                  c.broker.connection_counts)
                (ground arith))
              (λ x n. rw (other_count endpoint x _ c.broker.connection_counts n) (right x)));
        bounded = IsDelivered-IsBounded bounded p.delivered;
        envelope = p.envelope;
        payload = ground arith;
        queue =
            p.delivered.queues c.broker.next_queue
            ∙ rw (contains-snoc c.broker.next_queue c.broker.subscribers);
      },
    )
connect_by endpoint false c first h right =
    let c₁ = subscribed endpoint c in
    let bounded : IsBounded c₁.broker = λ q. ground (arith, h q) in
    let (c', e, p) = publish_snapshot_lem (c.world.ids c.world.issued) (identified c₁) bounded in
    (
      c',
      rw (first, silent_lem endpoint DataFreshness.fresh (subscribed endpoint c), e),
      record {
        subscribers = p.delivered.subscribers;
        next_queue = p.delivered.next_queue;
        counts = λ x. rw p.delivered.counts (ground arith);
        snapshot = inr (λ e. absurd (ground arith), p.snapshot);
        connectivity =
            Right-published p (λ x. let (v, found, status) = right x in (v, found, ground arith));
        bounded = IsDelivered-IsBounded bounded p.delivered;
        envelope = p.envelope;
        payload = ground arith;
        queue =
            p.delivered.queues c.broker.next_queue
            ∙ rw (contains-snoc c.broker.next_queue c.broker.subscribers);
      },
    )

-- With queues that keep their bound and a connectivity that agrees with the counts,
-- connect_endpoint always returns a new queue that holds the current snapshot alone, subscribes it,
-- counts one more connection of that endpoint and of no other, and announces the endpoint with a
-- new revision exactly at its first connection; both premises hold again afterwards.
pub connect_lem :
    (endpoint : EndpointId) (c : Cockpit)
    → IsBounded c.broker
    → IsConnectivityRight c
    → (c' : Cockpit) × (connect_endpoint endpoint c ≡ (ok c.broker.next_queue, c'))
      × IsConnected endpoint c c'
connect_lem endpoint c = connect_by endpoint _ c refl
