-- ===== src/Cockpit/Broker.antt =====
-- apps/backend/app/cockpit/broker.py: `SnapshotBroker`. A queue is an object, known by a number;
-- `queues` holds the contents of every queue, oldest first, and `next_queue` is the first number
-- that names none yet.
pub mod Delivery
use supersonic.Prelude.{
  ℕ, ◌+◌, ◌-◌, Bool, false, Option, none, some, List, [], ◌∷◌, ◌++◌, if◌then◌else◌, ◌==◌, nat_eq,
  leb, length, ite, ℕ_discrete, discard,
}
use supersonic.Contract.{EndpointId, EndpointId-discrete, SnapshotEnvelopeV1}

pub record SnapshotBroker : Type 0 where
  pub subscribers : List ℕ
  pub connection_counts : EndpointId → ℕ
  pub queues : ℕ → List SnapshotEnvelopeV1
  pub next_queue : ℕ

-- `SnapshotBroker.__init__`
abbrev pub empty_broker : SnapshotBroker
empty_broker = record {
  subscribers = [];
  connection_counts = λ endpoint. 0;
  queues = λ queue. [];
  next_queue = 0;
}

abbrev pub with_count : EndpointId → ℕ → SnapshotBroker → SnapshotBroker
with_count endpoint n b = record b {
  connection_counts = λ e. ite (EndpointId-discrete endpoint e) n (b.connection_counts e);
}

abbrev pub with_queue : ℕ → List SnapshotEnvelopeV1 → SnapshotBroker → SnapshotBroker
with_queue queue items b = record b { queues = λ q. ite (ℕ_discrete queue q) items (b.queues q) }

-- The queue, whether this is the endpoint's first connection, and the broker afterwards.
unfoldable pub subscribe : EndpointId → SnapshotBroker → ℕ × Bool × SnapshotBroker
subscribe endpoint b =
    let queue = b.next_queue in
    let count = b.connection_counts endpoint + 1 in
    let opened = with_queue queue [] b in
    let added = record opened {
      subscribers = b.subscribers ++ queue ∷ [];
      next_queue = queue + 1;
    } in
    (queue, count == 1, with_count endpoint count added)

-- Whether this was the endpoint's last connection, and the broker afterwards.
unfoldable pub unsubscribe : EndpointId → ℕ → SnapshotBroker → Bool × SnapshotBroker
unfolding discard
unsubscribe endpoint queue b =
    let dropped = record b { subscribers = discard queue b.subscribers } in
    let count = b.connection_counts endpoint in
    if count == 0
    then (false, dropped)
    else (count - 1 == 0, with_count endpoint (count - 1) dropped)

-- A queue with `maxsize=1`: `full`, `get_nowait` on a queue that is full, and `put_nowait`, which
-- raises `QueueFull`.
abbrev full : List SnapshotEnvelopeV1 → Bool
full items = leb 1 (length items)

abbrev pub without_first : List SnapshotEnvelopeV1 → List SnapshotEnvelopeV1
without_first [] = []
without_first (_ ∷ items) = items

abbrev put_nowait : SnapshotEnvelopeV1 → List SnapshotEnvelopeV1 → Option (List SnapshotEnvelopeV1)
put_nowait envelope items = if full items then none else some (items ++ envelope ∷ [])

-- The body of the loop in `publish`; `none` stands for `QueueFull`.
unfoldable pub offer :
    SnapshotEnvelopeV1 → List SnapshotEnvelopeV1 → Option (List SnapshotEnvelopeV1)
offer envelope items = put_nowait envelope (if full items then without_first items else items)

abbrev or_stay : Option (List SnapshotEnvelopeV1) → ℕ → SnapshotBroker → Option SnapshotBroker
or_stay none queue b = none
or_stay (some items) queue b = some (with_queue queue items b)

abbrev and_then :
    Option SnapshotBroker → (SnapshotBroker → Option SnapshotBroker) → Option SnapshotBroker
and_then none f = none
and_then (some b) f = f b

-- The loop of `publish` over the subscribers that are left.
unfoldable pub publish_to : List ℕ → SnapshotEnvelopeV1 → SnapshotBroker → Option SnapshotBroker
publish_to [] envelope b = some b
publish_to (queue ∷ qs) envelope b =
    and_then (or_stay (offer envelope (b.queues queue)) queue b) (publish_to qs envelope)

-- `publish`
unfoldable pub publish : SnapshotEnvelopeV1 → SnapshotBroker → Option SnapshotBroker
unfolding publish_to offer
publish envelope b = publish_to b.subscribers envelope b
