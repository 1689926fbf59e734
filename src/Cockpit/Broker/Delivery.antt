-- ===== src/Cockpit/Broker/Delivery.antt =====
-- apps/backend/app/cockpit/broker.py: what `publish` does to the queues.
use supersonic.Prelude.{
  ℕ, ◌≤◌, some, List, [], ◌∷◌, ◌≡◌, refl, if◌then◌else◌, length, contains, nat_eq, arith,
}
use supersonic.Contract.{SnapshotEnvelopeV1}
use supersonic.Cockpit.Broker.{SnapshotBroker, with_queue, offer, publish_to, publish}

-- No queue holds more than its `maxsize`.
abbrev pub IsBounded : SnapshotBroker → Type 0
IsBounded b = (queue : ℕ) → length (b.queues queue) ≤ 1

-- `b'` is `b` after every queue of `targets` was made to hold the envelope alone.
pub record IsDelivered (targets : List ℕ) (envelope : SnapshotEnvelopeV1) (b b' : SnapshotBroker)
    : Type 0 where
  pub subscribers : b'.subscribers ≡ b.subscribers
  pub counts : b'.connection_counts ≡ b.connection_counts
  pub next_queue : b'.next_queue ≡ b.next_queue
  pub queues :
      (queue : ℕ)
      → b'.queues queue ≡ (if contains queue targets then envelope ∷ [] else b.queues queue)

-- A queue that keeps its bound always takes the new envelope, and drops an older one for it.
offer_lem :
    (envelope : SnapshotEnvelopeV1) (items : List SnapshotEnvelopeV1)
    → length items ≤ 1
    → offer envelope items ≡ some (envelope ∷ [])
unfolding offer
offer_lem envelope [] h = refl
offer_lem envelope (old ∷ []) h = refl
offer_lem envelope (old ∷ older ∷ items) h = absurd (omega arith)

publish_to_lem :
    (targets : List ℕ) (envelope : SnapshotEnvelopeV1) (b : SnapshotBroker)
    → IsBounded b
    → (b' : SnapshotBroker) × (publish_to targets envelope b ≡ some b')
      × IsDelivered targets envelope b b'
unfolding publish_to contains
publish_to_lem [] envelope b h =
    (b, refl, record { subscribers = refl; counts = refl; next_queue = refl; queues = λ q. refl })
publish_to_lem (queue ∷ targets) envelope b h =
    let put = with_queue queue (envelope ∷ []) b in
    let (b', e, d) = publish_to_lem targets envelope put (λ q. ground (arith, h q)) in
    (
      b',
      rw (offer_lem envelope (b.queues queue) (h queue)) e,
      record {
        subscribers = d.subscribers;
        counts = d.counts;
        next_queue = d.next_queue;
        queues = λ q. ground (arith, d.queues q);
      },
    )

-- With queues that keep their bound, publish never finds a queue full: it leaves every subscriber's
-- queue with the new envelope alone, every other queue as it was, and the subscribers and counts
-- unchanged.
pub publish_lem :
    (envelope : SnapshotEnvelopeV1) (b : SnapshotBroker)
    → IsBounded b
    → (b' : SnapshotBroker) × (publish envelope b ≡ some b')
      × IsDelivered b.subscribers envelope b b'
unfolding publish
publish_lem envelope b h = publish_to_lem b.subscribers envelope b h

pub IsDelivered-IsBounded :
    {targets : List ℕ} {envelope : SnapshotEnvelopeV1} {b b' : SnapshotBroker}
    → IsBounded b
    → IsDelivered targets envelope b b'
    → IsBounded b'
IsDelivered-IsBounded h d queue = ground (arith, d.queues queue, h queue)
