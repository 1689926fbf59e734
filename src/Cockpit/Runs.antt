-- ===== src/Cockpit/Runs.antt =====
-- apps/backend/app/cockpit/service.py: a cockpit in use: the calls of its methods in any order, and
-- the reads of its queues by the connections (`queue.get()` in api/cockpit_router.py).
pub mod Changes
pub mod Steps
use supersonic.Prelude.{
  ℕ, ◌+◌, ◌≤◌, Bool, true, false, Option, some, none, List, [], ◌∷◌, ◌≡◌, refl, ok, raise, arith,
  ◌⊎◌, inl, inr, Result, ◌≢◌, Bool-cases, ℕ_discrete,
}
use supersonic.Contract.{CockpitSnapshotV1, EndpointId, CommandEnvelopeV1, SnapshotEnvelopeV1}
use supersonic.Cockpit.Broker.{SnapshotBroker, with_queue, without_first}
use supersonic.Cockpit.Broker.Delivery.{IsBounded, IsDelivered-IsBounded}
use supersonic.Cockpit.Coherence.{IsCoherent, Returns}
use supersonic.Cockpit.Coherence.Branches.{apply-IsCoherent}
use supersonic.Cockpit.Coherence.Candidates.{default_snapshot-IsCoherent}
use supersonic.Cockpit.Coherence.Frame.{apply-IsSameSession, ResultIsSameSession}
use supersonic.Cockpit.Service.{
  Cockpit, CockpitError, apply_command, connect_endpoint, disconnect_endpoint, init,
  command_rejected,
}
use supersonic.Cockpit.Service.Commands.{
  Ending, refused, without_effect, committed, IsTouched, IsCommitted, apply_command-Ending,
}
use supersonic.Cockpit.Service.Connections.{IsConnectivityRight, connect_lem, AnnouncedAt}
use supersonic.Cockpit.Service.Disconnections.{disconnect_lem}
use supersonic.Cockpit.Transitions.{TransitionResult, apply}
use supersonic.Cockpit.Errors.{CommandRejected}
use supersonic.Prelude.Dict.{lookup}
use supersonic.Cockpit.StateFactory.{default_snapshot, offline_at}
use supersonic.Cockpit.Broker.{empty_broker}
use supersonic.Contract.{EndpointId-discrete}
use supersonic.Cockpit.World.{World}

pub data Request : Type 0 where
  commands : CommandEnvelopeV1 → Option EndpointId → Request
  connects : EndpointId → Request
  disconnects : EndpointId → ℕ → Request
  reads : ℕ → Request

-- The state after a call, whether it returned or raised.
unfoldable pub serve : Request → Cockpit → Cockpit
serve (commands command server) c = (apply_command command server c).1
serve (connects endpoint) c = (connect_endpoint endpoint c).1
serve (disconnects endpoint queue) c = (disconnect_endpoint endpoint queue c).1
serve (reads queue) c = record c {
  broker = with_queue queue (without_first (c.broker.queues queue)) c.broker;
}

unfoldable pub serve_all : List Request → Cockpit → Cockpit
unfolding serve
serve_all [] c = c
serve_all (request ∷ requests) c = serve_all requests (serve request c)

-- The invariant of the service.
pub record IsRunning (c : Cockpit) : Type 0 where
  pub coherent : IsCoherent c.snapshot
  pub connectivity : IsConnectivityRight c
  pub bounded : IsBounded c.broker

touched-IsCoherent : {s s' : CockpitSnapshotV1} → IsTouched s s' → IsCoherent s → IsCoherent s'
touched-IsCoherent t h = record {
  mode = rw (t.system_mode, t.risks) h.mode;
  flow = rw (t.active_flow, t.risks) h.flow;
  media = rw (t.passenger, t.risks) h.media;
  single = rw t.risks h.single;
  risks = rw t.risks h.risks;
  vehicle = rw t.data_health h.vehicle;
  navigation = rw (t.data_health, t.navigation) h.navigation;
  vision = rw (t.data_health, t.risks) h.vision;
}

-- What an action returned has the property that holds of whatever it returns.
pub returned :
    {A : Type 0} (P : A → Type 0) (r : Result CommandRejected A × World) (a : A) (w : World)
    → r ≡ (ok a, w)
    → Returns P r
    → P a
returned P r a w e h = rw e at h

announced-IsCoherent :
    (n count : ℕ) {s s' : CockpitSnapshotV1}
    → AnnouncedAt n count s s'
    → IsCoherent s
    → IsCoherent s'
announced-IsCoherent n count (inl (_, t)) h = touched-IsCoherent t h
announced-IsCoherent n count (inr (_, e)) h = rw e h

module _ (command : CommandEnvelopeV1) (server : Option EndpointId) (c : Cockpit)
    (h : IsRunning c) where
  Ending-IsRunning :
      {r : Result CockpitError SnapshotEnvelopeV1 × Cockpit}
      → Ending command server c r
      → IsRunning r.1
  Ending-IsRunning (refused e w _ q) =
      rw q (record { coherent = h.coherent; connectivity = h.connectivity; bounded = h.bounded })
  Ending-IsRunning (without_effect result w _ _ _ q) =
      rw q (record { coherent = h.coherent; connectivity = h.connectivity; bounded = h.bounded })
  Ending-IsRunning (committed result w c' _ a _ d q) =
      let coherent =
        returned (λ t. IsCoherent t.snapshot) _ result w a
          (apply-IsCoherent c.snapshot command c.world h.coherent) in
      let same =
        returned (ResultIsSameSession c.snapshot) _ result w a
          (apply-IsSameSession c.snapshot command c.world) in
      rw q (record {
        coherent = touched-IsCoherent d.touched coherent;
        connectivity = λ e. elim d.connectivity [
          | inr (_, rebuilt) ↦ rw d.delivered.counts (rebuilt e)
          | inl (no_reset, k) ↦
              rw (k, d.delivered.counts, (same.1 no_reset).connectivity) (h.connectivity e)
        ];
        bounded = IsDelivered-IsBounded h.bounded d.delivered;
      })

pub serve-IsRunning : (request : Request) {c : Cockpit} → IsRunning c → IsRunning (serve request c)
unfolding serve
serve-IsRunning (commands command server) {c} h =
    Ending-IsRunning command server c h (apply_command-Ending command server c h.bounded)
serve-IsRunning (connects endpoint) {c} h =
    let (c', e, k) = connect_lem endpoint c h.bounded h.connectivity in
    rw (e, serve)
      (record {
        coherent = announced-IsCoherent _ _ k.snapshot h.coherent;
        connectivity = k.connectivity;
        bounded = k.bounded;
      })
serve-IsRunning (disconnects endpoint queue) {c} h =
    let (c', e, k) = disconnect_lem endpoint queue c h.bounded h.connectivity in
    rw (e, serve)
      (record {
        coherent = announced-IsCoherent _ _ k.snapshot h.coherent;
        connectivity = k.connectivity;
        bounded = k.bounded;
      })
serve-IsRunning (reads queue) {c} h = record {
  coherent = h.coherent;
  connectivity = h.connectivity;
  bounded = λ q. ground (arith, h.bounded q, h.bounded queue);
}

pub serve_all-IsRunning :
    (requests : List Request) {c : Cockpit} → IsRunning c → IsRunning (serve_all requests c)
unfolding serve_all
serve_all-IsRunning [] h = h
serve_all-IsRunning (request ∷ requests) h =
    serve_all-IsRunning requests (serve-IsRunning request h)

-- `CockpitService()` with this clock and id factory.
unfoldable pub started : World → Cockpit
unfolding default_snapshot
started w = record {
  snapshot = default_snapshot 0 (w.clock w.readings) (w.ids w.issued);
  broker = empty_broker;
  world = record w { readings = w.readings + 1; issued = w.issued + 1 };
}

pub init_lem : (w : World) → init w ≡ (ok (started w).snapshot, (started w).world)
unfolding init started
init_lem w = refl

started-Right : (w : World) → IsConnectivityRight (started w)
unfolding started lookup EndpointId-discrete
started-Right w EndpointId.cluster = (offline_at (w.clock w.readings), refl, refl)
started-Right w _ = (offline_at (w.clock w.readings), refl, refl)

pub started-IsRunning : (w : World) → IsRunning (started w)
started-IsRunning w = record {
  coherent = unfold started in default_snapshot-IsCoherent 0 (w.clock w.readings) (w.ids w.issued);
  connectivity = started-Right w;
  bounded = unfold started in (λ q. omega arith);
}

-- After any sequence of commands, connections, disconnections and reads of queues, a cockpit that
-- was started fresh is running: takeover mode, the takeover flow and suppressed media each hold
-- exactly while a critical risk is unresolved, at most one is, every risk is a simulated critical
-- one past the candidate stage, the vehicle domain has a health, the health of the navigation and
-- the status of the vision agree with the state, each endpoint's entry says whether it has
-- connections, and no queue holds more than one snapshot.
pub cockpit_safe :
    (w : World) (requests : List Request) → IsRunning (serve_all requests (started w))
cockpit_safe w requests = serve_all-IsRunning requests (started-IsRunning w)
