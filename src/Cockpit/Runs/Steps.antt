-- ===== src/Cockpit/Runs/Steps.antt =====
-- apps/backend/app/cockpit/service.py: the revision, the risks and a takeover under one request.
use supersonic.Cockpit.Runs.{
  Request, serve_all, IsRunning, commands, IsTouched, List, serve, ◌∷◌, [], serve-IsRunning, inl,
  returned, inr, ResultIsSameSession, Bool-cases, refused, without_effect, committed,
}
use supersonic.Contract.{
  CockpitSnapshotV1, CommandName, CommandEnvelopeV1, EndpointId, SnapshotEnvelopeV1,
}
use supersonic.Cockpit.Service.{Cockpit, CockpitError, apply_command}
use supersonic.Cockpit.Service.Commands.{IsTouched, Ending, apply_command-Ending}
use supersonic.Prelude.{
  List, ◌≢◌, ◌≡◌, All, ◌⊎◌, ◌+◌, ◌∷◌, [], inl, inr, Bool-cases, ◌∙◌, Option, Result, ok, arith,
}
use supersonic.Cockpit.Runs.Changes.{Change, serve-Change, kept, announced_connection, commanded}
use supersonic.Cockpit.Coherence.Takeover.{
  IsTakeover, apply-IsTakeover, IsRecovered, resolve-IsRecovered,
}
use supersonic.Cockpit.Coherence.Lifecycle.{Evolves, Evolves-refl, ResultEvolves, apply-Evolves}
use supersonic.Cockpit.Coherence.Frame.{
  ResultIsSameSession, apply-IsSameSession, IsKept, apply-IsKept,
}

-- One request of a running cockpit leaves the snapshot as it was or raises its revision by exactly
-- one.
pub serve-revision :
    (request : Request) (c : Cockpit)
    → IsRunning c
    → ((serve request c).snapshot ≡ c.snapshot)
      ⊎ ((serve request c).snapshot.revision ≡ c.snapshot.revision + 1)
serve-revision request c h = by_change (serve-Change request c h)
  where
    by_change :
        {request : Request} {c' : Cockpit}
        → Change c c' request
        → (c'.snapshot ≡ c.snapshot) ⊎ (c'.snapshot.revision ≡ c.snapshot.revision + 1)
    by_change (kept e) = inl e
    by_change (announced_connection t) = inr t.revision
    by_change (commanded command server result w a t) =
        let same =
          returned (ResultIsSameSession c.snapshot) _ result w a
            (apply-IsSameSession c.snapshot command c.world) in
        inr (rw (t.revision, same.0))

-- A request that keeps a takeover on.
abbrev pub KeepsTakeover : Request → Type 0
KeepsTakeover (commands command _) =
    (command.payload.name ≢ CommandName.resolve_risk)
    × (command.payload.name ≢ CommandName.reset_session)
KeepsTakeover _ = Unit

touched-IsTakeover : {s s' : CockpitSnapshotV1} → IsTouched s s' → IsTakeover s → IsTakeover s'
touched-IsTakeover t h = record {
  unresolved = rw t.risks h.unresolved;
  mode = rw t.system_mode h.mode;
  flow = rw t.active_flow h.flow;
  media = rw t.passenger h.media;
}

Change-IsTakeover :
    (c : Cockpit) {c' : Cockpit} {request : Request}
    → IsRunning c
    → IsTakeover c.snapshot
    → KeepsTakeover request
    → Change c c' request
    → IsTakeover c'.snapshot
Change-IsTakeover c h i k (kept e) = rw e i
Change-IsTakeover c h i k (announced_connection t) = touched-IsTakeover t i
Change-IsTakeover c h i k (commanded command server result w a t) = touched-IsTakeover t (
    returned (λ r. IsTakeover r.snapshot) _ result w a
      (apply-IsTakeover c.snapshot command c.world h.coherent i.unresolved k.0 k.1))

pub serve-IsTakeover :
    (request : Request) (c : Cockpit)
    → IsRunning c
    → IsTakeover c.snapshot
    → KeepsTakeover request
    → IsTakeover (serve request c).snapshot
serve-IsTakeover request c h i k = Change-IsTakeover c h i k (serve-Change request c h)

-- In a running cockpit, a takeover stays in force over any sequence of requests with no
-- RESOLVE_RISK and no RESET_SESSION command: a critical risk is unresolved, the mode is takeover,
-- the flow is the takeover flow and media are suppressed.
pub serve_all-IsTakeover :
    (requests : List Request) (c : Cockpit)
    → IsRunning c
    → IsTakeover c.snapshot
    → All KeepsTakeover requests
    → IsTakeover (serve_all requests c).snapshot
unfolding serve_all
serve_all-IsTakeover [] c h i k = i
serve_all-IsTakeover (request ∷ requests) c h i (k, ks) =
    serve_all-IsTakeover requests (serve request c) (serve-IsRunning request h)
      (serve-IsTakeover request c h i k) ks

Change-Evolves :
    (c : Cockpit) {c' : Cockpit} {request : Request}
    → Change c c' request
    → Evolves c.snapshot.risks c'.snapshot.risks ⊎ (c'.snapshot.risks ≡ [])
Change-Evolves c (kept e) = inl (rw e (Evolves-refl c.snapshot.risks))
Change-Evolves c (announced_connection t) = inl (rw t.risks (Evolves-refl c.snapshot.risks))
Change-Evolves c (commanded command server result w a t) =
    let (evolves, gone) =
      returned (ResultEvolves c.snapshot) _ result w a (apply-Evolves c.snapshot command c.world) in
    elim (Bool-cases result.reset) [
      | inl yes_reset ↦ inr (t.risks ∙ gone yes_reset)
      | inr no_reset ↦ inl (rw t.risks (evolves no_reset))
    ]

-- One request of a running cockpit either leaves no risk at all, or leaves every risk in its place,
-- as it was or at the next stage from active over acknowledged to resolved, with nothing else of it
-- changed but the time of its update, and adds at most one risk, which is active and critical.
pub serve-Evolves :
    (request : Request) (c : Cockpit)
    → IsRunning c
    → Evolves c.snapshot.risks (serve request c).snapshot.risks
      ⊎ ((serve request c).snapshot.risks ≡ [])
serve-Evolves request c h = Change-Evolves c (serve-Change request c h)

touched-IsRecovered : {s s' : CockpitSnapshotV1} → IsTouched s s' → IsRecovered s → IsRecovered s'
touched-IsRecovered t h = record {
  resolved = rw t.risks h.resolved;
  mode = rw t.system_mode h.mode;
  flow = rw t.active_flow h.flow;
  media = rw t.passenger h.media;
}

module _ (command : CommandEnvelopeV1) (server : Option EndpointId) (c : Cockpit) (h : IsRunning c)
    (n : command.payload.name ≡ CommandName.resolve_risk) where
  Ending-IsRecovered :
      {r : Result CockpitError SnapshotEnvelopeV1 × Cockpit} (envelope : SnapshotEnvelopeV1)
      → r.0 ≡ ok envelope
      → Ending command server c r
      → IsRecovered r.1.snapshot × (envelope.payload ≡ r.1.snapshot)
  Ending-IsRecovered envelope e (refused x w _ q) = absurd (ground (arith, e, q))
  Ending-IsRecovered envelope e (without_effect result w _ a u q) =
      let found =
        returned (λ r. IsRecovered r.snapshot) _ result w a
          (resolve-IsRecovered c.snapshot command c.world h.coherent n) in
      let same =
        returned (IsKept c.snapshot) _ result w a (apply-IsKept c.snapshot command c.world) in
      rw q (rw (same u) at found, ground (arith, e, q))
  Ending-IsRecovered envelope e (committed result w c' _ a _ d q) =
      let found =
        returned (λ r. IsRecovered r.snapshot) _ result w a
          (resolve-IsRecovered c.snapshot command c.world h.coherent n) in
      rw q (touched-IsRecovered d.touched found, ground (arith, e, q))

  -- In a running cockpit, when a RESOLVE_RISK command is answered with an envelope, no critical
  -- risk is left unresolved, the mode is recovery, the flow is not the takeover flow, media are not
  -- suppressed, and the envelope carries the snapshot that is stored.
  pub resolve_risk-IsRecovered :
      (envelope : SnapshotEnvelopeV1)
      → (apply_command command server c).0 ≡ ok envelope
      → IsRecovered (apply_command command server c).1.snapshot
        × (envelope.payload ≡ (apply_command command server c).1.snapshot)
  resolve_risk-IsRecovered envelope e =
      Ending-IsRecovered envelope e (apply_command-Ending command server c h.bounded)
