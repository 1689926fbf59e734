-- ===== src/Cockpit/Service/Disconnections.antt =====
-- apps/backend/app/cockpit/service.py: `disconnect_endpoint`.
use supersonic.Prelude.{
  ℕ, ◌-◌, Bool, true, false, ◌≡◌, refl, ok, arith, ◌==◌, nat_eq, ◌≢◌, ◌∙◌, inl, inr, discard,
}
use supersonic.Contract.{EndpointId, EndpointId-discrete, DataFreshness}
use supersonic.Cockpit.Broker.{SnapshotBroker, unsubscribe}
use supersonic.Cockpit.Broker.Delivery.{IsBounded, IsDelivered-IsBounded}
use supersonic.Cockpit.Service.{Cockpit, disconnect_endpoint}
use supersonic.Cockpit.Service.Connections.{
  IsConnectivityRight, announced, identified, Right-published, announced-Right, announce_lem,
  AnnouncedAt,
}
use supersonic.Cockpit.Service.Effects.{publish_snapshot_lem}

-- One connection less for the endpoint, if it has any.
pub record IsUnsubscribed (endpoint : EndpointId) (queue : ℕ) (b b' : SnapshotBroker) : Type 0 where
  pub subscribers : b'.subscribers ≡ discard queue b.subscribers
  pub next_queue : b'.next_queue ≡ b.next_queue
  pub own : b'.connection_counts endpoint ≡ b.connection_counts endpoint - 1
  pub others : (e : EndpointId) → endpoint ≢ e → b'.connection_counts e ≡ b.connection_counts e

unsubscribe_lem :
    (endpoint : EndpointId) (queue : ℕ) (b : SnapshotBroker)
    → ((unsubscribe endpoint queue b).0 ≡ (b.connection_counts endpoint == 1))
      × IsUnsubscribed endpoint queue b (unsubscribe endpoint queue b).1
      × ((unsubscribe endpoint queue b).1.queues ≡ b.queues)
unfolding unsubscribe
unsubscribe_lem endpoint queue b = (
  ground arith,
  record {
    subscribers = ground arith;
    next_queue = ground arith;
    own = ground arith;
    others = λ e n. ground arith;
  },
  ground arith,
)

-- The state after `disconnect_endpoint`.
pub record IsDisconnected (endpoint : EndpointId) (queue : ℕ) (c c' : Cockpit) : Type 0 where
  pub unsubscribed : IsUnsubscribed endpoint queue c.broker c'.broker
  pub snapshot : AnnouncedAt 1 (c.broker.connection_counts endpoint) c.snapshot c'.snapshot
  pub connectivity : IsConnectivityRight c'
  pub bounded : IsBounded c'.broker

-- A disconnection that is not the last one leaves every entry right.
kept-Right :
    (endpoint : EndpointId) (queue : ℕ) (c : Cockpit)
    → (c.broker.connection_counts endpoint == 1) ≡ false
    → {b : SnapshotBroker} → IsUnsubscribed endpoint queue c.broker b
    → IsConnectivityRight c
    → IsConnectivityRight (record c { broker = b })
kept-Right endpoint queue c e u right x = elim (EndpointId-discrete endpoint x) [
  | yes p ↦ rw (← p) (let (v, found, status) = right endpoint in (v, found, ground (arith, u.own)))
  | no n ↦ rw (u.others x n) (right x)
]

disconnect_by :
    (endpoint : EndpointId) (queue : ℕ) (last : Bool) (c : Cockpit)
    → (c.broker.connection_counts endpoint == 1) ≡ last
    → IsBounded c.broker
    → IsConnectivityRight c
    → (c' : Cockpit) × (disconnect_endpoint endpoint queue c ≡ (ok tt, c'))
      × IsDisconnected endpoint queue c c'
unfolding disconnect_endpoint
disconnect_by endpoint queue true c e h right =
    let (l, u, q) = unsubscribe_lem endpoint queue c.broker in
    let c₀ = record c { broker = (unsubscribe endpoint queue c.broker).1 } in
    let c₁ = announced endpoint DataFreshness.offline c₀ in
    let bounded : IsBounded c₁.broker = λ x. rw q (h x) in
    let (c', e', p) = publish_snapshot_lem (c.world.ids c.world.issued) (identified c₁) bounded in
    (
      c',
      rw (l ∙ e, announce_lem endpoint DataFreshness.offline c₀, e'),
      record {
        unsubscribed = record {
          subscribers = p.delivered.subscribers ∙ u.subscribers;
          next_queue = p.delivered.next_queue ∙ u.next_queue;
          own = rw p.delivered.counts u.own;
          others = λ x n. rw p.delivered.counts (u.others x n);
        };
        snapshot = inl (ground arith, ground arith);
        connectivity = Right-published p (
            announced-Right endpoint DataFreshness.offline c₀ (ground (arith, u.own))
              (λ x n. rw (u.others x n) (right x)));
        bounded = IsDelivered-IsBounded bounded p.delivered;
      },
    )
disconnect_by endpoint queue false c e h right =
    let (l, u, q) = unsubscribe_lem endpoint queue c.broker in
    let c' = record c { broker = (unsubscribe endpoint queue c.broker).1 } in
    (
      c',
      rw (l ∙ e),
      record {
        unsubscribed = u;
        snapshot = inr (λ p. absurd (ground arith), refl);
        connectivity = kept-Right endpoint queue c e u right;
        bounded = λ x. rw q (h x);
      },
    )

-- With queues that keep their bound and a connectivity that agrees with the counts,
-- disconnect_endpoint always returns, drops the queue from the subscribers, counts one connection
-- less of that endpoint, if it has any, and of no other, and announces the endpoint with a new
-- revision exactly at its last connection; both premises hold again afterwards.
pub disconnect_lem :
    (endpoint : EndpointId) (queue : ℕ) (c : Cockpit)
    → IsBounded c.broker
    → IsConnectivityRight c
    → (c' : Cockpit) × (disconnect_endpoint endpoint queue c ≡ (ok tt, c'))
      × IsDisconnected endpoint queue c c'
disconnect_lem endpoint queue c = disconnect_by endpoint queue _ c refl
