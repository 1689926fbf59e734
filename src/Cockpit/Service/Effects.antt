-- ===== src/Cockpit/Service/Effects.antt =====
-- apps/backend/app/cockpit/service.py: what the private methods do to the state.
use supersonic.Prelude.{
  ℕ, ◌+◌, true, some, none, List, [], ◌∷◌, ◌≡◌, refl, contains, arith, ok, ◌⊎◌, inl, inr, ◌≢◌,
  if_pos, if_neg, ◌∙◌,
}
use supersonic.Prelude.Dict.{Dict, lookup, insert, lookup-insert}
use supersonic.Contract.{
  SnapshotEnvelopeV1, EndpointId, EndpointId-discrete, endpoint_id_eq, endpoint_id_enum,
  EndpointConnection, Uuid,
}
use supersonic.Cockpit.Broker.Delivery.{IsBounded, IsDelivered, publish_lem}
use supersonic.Cockpit.World.{World}
use supersonic.Cockpit.Service.{
  Cockpit, status_of_count, rebuild_from, rebuild_connectivity, publish_snapshot, service_source,
}

-- The endpoint's entry says whether it has `n` connections or none.
abbrev pub HasConnection : Dict EndpointId EndpointConnection → EndpointId → ℕ → Type 0
HasConnection d endpoint n =
    (v : EndpointConnection) × (lookup endpoint d ≡ some v) × (v.status ≡ status_of_count n)

-- Only the connectivity and the world differ.
abbrev pub with_connectivity : Dict EndpointId EndpointConnection → World → Cockpit → Cockpit
with_connectivity d w c = record c {
  snapshot = record c.snapshot { endpoint_connectivity = d };
  world = w;
}

pub record IsPublished (correlation_id : Uuid) (c c' : Cockpit) : Type 0 where
  pub envelope : SnapshotEnvelopeV1
  pub payload : envelope.payload ≡ c.snapshot
  pub correlation : envelope.correlation_id ≡ correlation_id
  pub snapshot : c'.snapshot ≡ c.snapshot
  pub delivered : IsDelivered c.broker.subscribers envelope c.broker c'.broker

-- The envelope that `make_envelope` builds, and the world after it.
abbrev pub envelope_of : Uuid → Cockpit → SnapshotEnvelopeV1
envelope_of correlation_id c = record {
  message_id = c.world.ids c.world.issued;
  correlation_id = correlation_id;
  timestamp = c.world.clock c.world.readings;
  source = service_source;
  target = none;
  payload = c.snapshot;
}

abbrev pub after_envelope : World → World
after_envelope w = record w { issued = w.issued + 1; readings = w.readings + 1 }

pub publish_snapshot_lem :
    (correlation_id : Uuid) (c : Cockpit)
    → IsBounded c.broker
    → (c' : Cockpit) × (publish_snapshot correlation_id c ≡ (ok tt, c'))
      × IsPublished correlation_id c c'
unfolding publish_snapshot
publish_snapshot_lem correlation_id c h =
    let (b, e, d) = publish_lem (envelope_of correlation_id c) c.broker h in
    (
      record { snapshot = c.snapshot; broker = b; world = after_envelope c.world },
      ground arith,
      record {
        envelope = envelope_of correlation_id c;
        payload = refl;
        correlation = refl;
        snapshot = refl;
        delivered = d;
      },
    )

pub HasConnection-insert :
    (endpoint e : EndpointId) (v : EndpointConnection) (d : Dict EndpointId EndpointConnection)
    (n : ℕ)
    → (endpoint ≡ e → v.status ≡ status_of_count n)
    → (endpoint ≢ e → HasConnection d e n)
    → HasConnection (insert endpoint v d) e n
HasConnection-insert endpoint e v d n same other = elim (EndpointId-discrete endpoint e) [
  | yes p ↦ (
    v,
    rw lookup-insert (if_pos (EndpointId-discrete endpoint e) p (some v) (lookup e d)),
    same p,
  )
  | no p ↦
      let (u, found, status) = other p in
      (
        u,
        rw lookup-insert (if_neg (EndpointId-discrete endpoint e) p (some v) (lookup e d) ∙ found),
        status,
      )
]

-- The endpoints that are left to do, or were right before.
abbrev Due : List EndpointId → Cockpit → EndpointId → Type 0
Due endpoints c e =
    (contains e endpoints ≡ true)
    ⊎ HasConnection c.snapshot.endpoint_connectivity e (c.broker.connection_counts e)

-- What remains to do once the first endpoint is done.
Due-step :
    (endpoint : EndpointId) (endpoints : List EndpointId) (c : Cockpit) (v : EndpointConnection)
    (w : World)
    → v.status ≡ status_of_count (c.broker.connection_counts endpoint)
    → (e : EndpointId) → Due (endpoint ∷ endpoints) c e
    → Due endpoints (with_connectivity (insert endpoint v c.snapshot.endpoint_connectivity) w c) e
unfolding contains
Due-step endpoint endpoints c v w right e (inr before) = inr (
    HasConnection-insert endpoint e v c.snapshot.endpoint_connectivity _ (λ p. rw (← p) right)
      (λ _. before))
Due-step endpoint endpoints c v w right e (inl due) = elim (EndpointId-discrete endpoint e) [
  | yes p ↦ inr (
      HasConnection-insert endpoint e v c.snapshot.endpoint_connectivity _ (λ q. rw (← q) right)
        (λ n. absurd (n p)))
  | no p ↦ inl (ground arith)
]

rebuild_from_lem :
    (endpoints : List EndpointId) (c : Cockpit)
    → (d : Dict EndpointId EndpointConnection) × (w : World) × (rebuild_from endpoints c
        ≡ (ok tt, with_connectivity d w c))
      × ((e : EndpointId) → Due endpoints c e → HasConnection d e (c.broker.connection_counts e))
unfolding rebuild_from contains
rebuild_from_lem [] c = (c.snapshot.endpoint_connectivity, c.world, refl, λ e h. ground arith)
rebuild_from_lem (endpoint ∷ endpoints) c =
    let v : EndpointConnection = record {
      status = status_of_count (c.broker.connection_counts endpoint);
      last_seen_at = c.world.clock c.world.readings;
    } in
    let old = c.snapshot.endpoint_connectivity in
    let c' =
      with_connectivity (insert endpoint v old) (record c.world { readings = c.world.readings + 1 })
        c in
    let (d, w, e, k) = rebuild_from_lem endpoints c' in
    (d, w, e, λ e h. k e (Due-step endpoint endpoints c v c'.world refl e h))

every_endpoint : (e : EndpointId) → contains e endpoint_id_enum.members ≡ true
unfolding contains EndpointId-discrete
every_endpoint EndpointId.cluster = refl
every_endpoint _ = refl

-- Rebuilding the connectivity always returns, changes nothing but the connectivity and the readings
-- of the clock, and makes the entry of every endpoint agree with its connection count.
pub rebuild_connectivity_lem :
    (c : Cockpit)
    → (d : Dict EndpointId EndpointConnection) × (w : World) × (rebuild_connectivity c
        ≡ (ok tt, with_connectivity d w c))
      × ((e : EndpointId) → HasConnection d e (c.broker.connection_counts e))
unfolding rebuild_connectivity
rebuild_connectivity_lem c =
    let (d, w, e, k) = rebuild_from_lem endpoint_id_enum.members c in
    (d, w, e, λ endpoint. k endpoint (inl (every_endpoint endpoint)))
