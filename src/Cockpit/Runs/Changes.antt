-- ===== src/Cockpit/Runs/Changes.antt =====
-- apps/backend/app/cockpit/service.py: what one request does to the snapshot.
use supersonic.Cockpit.Service.{Cockpit, CockpitError}
use supersonic.Contract.{CommandEnvelopeV1, EndpointId, SnapshotEnvelopeV1}
use supersonic.Cockpit.Runs.{
  Request, serve, ◌≡◌, Option, ℕ, IsTouched, EndpointId, commands, TransitionResult, Result,
  apply_command-Ending, World, CockpitError, connects, apply, SnapshotEnvelopeV1, connect_lem, ok,
  Ending, disconnects, refused, disconnect_lem, without_effect, reads, committed, IsRunning, inl,
  inr,
}
use supersonic.Prelude.{refl, Option, ℕ, Result, ok}
use supersonic.Cockpit.Service.Commands.{IsTouched, apply_command-Ending, Ending}
use supersonic.Cockpit.Transitions.{TransitionResult, apply}
use supersonic.Cockpit.World.{World}
use supersonic.Cockpit.Service.Connections.{connect_lem, AnnouncedAt}
use supersonic.Cockpit.Service.Disconnections.{disconnect_lem}

pub data Change (c c' : Cockpit) : Request → Type 0 where
  kept : {request : Request} → c'.snapshot ≡ c.snapshot → Change c c' request
  announced_connection :
      {request : Request} → IsTouched c.snapshot c'.snapshot → Change c c' request
  commanded :
      (command : CommandEnvelopeV1) (server : Option EndpointId) (result : TransitionResult)
      (w : World)
      → apply c.snapshot command c.world ≡ (ok result, w)
      → IsTouched result.snapshot c'.snapshot
      → Change c c' (commands command server)

Ending-Change :
    (command : CommandEnvelopeV1) (server : Option EndpointId) (c : Cockpit)
    {r : Result CockpitError SnapshotEnvelopeV1 × Cockpit}
    → Ending command server c r
    → Change c r.1 (commands command server)
Ending-Change command server c (refused e w _ q) = kept (rw q)
Ending-Change command server c (without_effect result w _ _ _ q) = kept (rw q)
Ending-Change command server c (committed result w c' _ a _ d q) =
    commanded command server result w a (rw q d.touched)

announced-Change :
    {request : Request} {c c' : Cockpit} (n count : ℕ)
    → AnnouncedAt n count c.snapshot c'.snapshot
    → Change c c' request
announced-Change n count (inl (_, t)) = announced_connection t
announced-Change n count (inr (_, e)) = kept e

pub serve-Change :
    (request : Request) (c : Cockpit) → IsRunning c → Change c (serve request c) request
unfolding serve
serve-Change (commands command server) c h =
    Ending-Change command server c (apply_command-Ending command server c h.bounded)
serve-Change (connects endpoint) c h =
    let (c', e, k) = connect_lem endpoint c h.bounded h.connectivity in
    rw (e, serve) (announced-Change _ _ k.snapshot)
serve-Change (disconnects endpoint queue) c h =
    let (c', e, k) = disconnect_lem endpoint queue c h.bounded h.connectivity in
    rw (e, serve) (announced-Change _ _ k.snapshot)
serve-Change (reads queue) c h = kept refl
