-- ===== src/Platform/WebSocketRegistry/Revocation.antt =====
-- apps/backend/app/platform/websocket_registry.py: the steps of all tasks, and a session that is
-- revoked among them.
use supersonic.Prelude.{
  refl, arith, true, false, string_eq, String, List, ℕ, ◌∷◌, Bool, ◌≡◌, [], contains,
  String-discrete, ◌∙◌, ◌≢◌, discard, Bool-cases, inl, inr, nat_eq,
}
use supersonic.Platform.WebSocketRegistry.{
  Registry, register, is_blocked, disconnect, begin_send, members_of, end_send, block, cancel_sends,
  close_one, may_send, empty_registry, close_each, close_all, connection_count,
}
use supersonic.Platform.WebSocketRegistry.Members.{
  members_of-drop_self, members_of-drop_ne, members_of-erase_self, members_of-erase_ne,
  members_of-add_ne,
}

-- The stretches that the methods of all tasks are made of, in the order in which they happen.
pub data RegistryStep : Type 0 where
  registers : String → ℕ → RegistryStep
  disconnects : String → ℕ → RegistryStep
  begins_send : String → ℕ → ℕ → RegistryStep
  ends_send : String → ℕ → RegistryStep
  blocks : String → RegistryStep
  cancels : String → RegistryStep
  closes : (ℕ → Bool) → String → ℕ → RegistryStep

unfoldable pub take_step : RegistryStep → Registry → Registry
take_step (registers session_id connection) r = (register session_id connection r).1
take_step (disconnects session_id connection) r = disconnect session_id connection r
take_step (begins_send session_id connection task) r = (begin_send session_id connection task r).1
take_step (ends_send session_id task) r = end_send session_id task r
take_step (blocks session_id) r = block session_id r
take_step (cancels session_id) r = cancel_sends session_id r
take_step (closes hook session_id connection) r = (close_one hook session_id connection r).1

unfoldable pub take_steps : List RegistryStep → Registry → Registry
unfolding take_step
take_steps [] r = r
take_steps (s ∷ steps) r = take_steps steps (take_step s r)

-- The session is blocked, and nothing is being sent for it.
pub record IsSilent (session_id : String) (r : Registry) : Type 0 where
  pub blocked : is_blocked session_id r ≡ true
  pub idle : members_of session_id r.send_tasks ≡ []

module _ (own : String) where
  step-blocked :
      (s : RegistryStep) (r : Registry)
      → is_blocked own r ≡ true
      → is_blocked own (take_step s r) ≡ true
  unfolding take_step is_blocked register disconnect begin_send end_send block cancel_sends
      close_one contains
  step-blocked s r h = ground arith

  begin_send-blocked :
      (connection task : ℕ) (r : Registry)
      → is_blocked own r ≡ true
      → members_of own r.send_tasks ≡ []
      → members_of own (begin_send own connection task r).1.send_tasks ≡ []
  unfolding begin_send may_send
  begin_send-blocked connection task r b h = ground (arith, b, h)

  begin_send-other :
      (other : String) (connection task : ℕ) (r : Registry)
      → other ≢ own
      → members_of own r.send_tasks ≡ []
      → members_of own (begin_send other connection task r).1.send_tasks ≡ []
  unfolding begin_send
  begin_send-other other connection task r n h = elim (Bool-cases (may_send other connection r)) [
    | inl may ↦ rw may (members_of-add_ne other own task r.send_tasks n ∙ h)
    | inr may ↦ rw may h
  ]

  discard-nil : (item : ℕ) (items : List ℕ) → items ≡ [] → discard item items ≡ []
  unfolding discard
  discard-nil item items e = rw e refl

  step-idle :
      (s : RegistryStep) (r : Registry)
      → IsSilent own r
      → members_of own (take_step s r).send_tasks ≡ []
  unfolding take_step register disconnect end_send block cancel_sends close_one
  step-idle (begins_send session_id connection task) r h = elim (String-discrete session_id own) [
    | yes p ↦ rw p (begin_send-blocked connection task r h.blocked h.idle)
    | no n ↦ begin_send-other session_id connection task r n h.idle
  ]
  step-idle (ends_send session_id task) r h = elim (String-discrete session_id own) [
    | yes p ↦ rw p (
        members_of-drop_self own task r.send_tasks
        ∙ discard-nil task (members_of own r.send_tasks) h.idle)
    | no n ↦ members_of-drop_ne session_id own task r.send_tasks n ∙ h.idle
  ]
  step-idle (cancels session_id) r h = elim (String-discrete session_id own) [
    | yes p ↦ rw p (members_of-erase_self own r.send_tasks)
    | no n ↦ members_of-erase_ne session_id own r.send_tasks n ∙ h.idle
  ]
  step-idle (registers session_id connection) r h = ground (arith, h.idle)
  step-idle (disconnects session_id connection) r h = h.idle
  step-idle (blocks session_id) r h = h.idle
  step-idle (closes hook session_id connection) r h = ground (arith, h.idle)

  block-blocked : (r : Registry) → is_blocked own (block own r) ≡ true
  unfolding block is_blocked contains
  block-blocked r = ground arith

  IsSilent-refuses :
      (connection : ℕ) (r : Registry)
      → IsSilent own r
      → (may_send own connection r ≡ false) × ((register own connection r).0 ≡ false)
  unfolding may_send register
  IsSilent-refuses connection r h = ground (arith, h.blocked)

  take_steps-IsSilent :
      (steps : List RegistryStep) (r : Registry)
      → IsSilent own r
      → IsSilent own (take_steps steps r)
  unfolding take_steps
  take_steps-IsSilent [] r h = h
  take_steps-IsSilent (s ∷ steps) r h =
      take_steps-IsSilent steps (take_step s r)
        (record { blocked = step-blocked s r h.blocked; idle = step-idle s r h })

  cancelled-IsSilent : (r : Registry) → is_blocked own r ≡ true → IsSilent own (cancel_sends own r)
  unfolding cancel_sends is_blocked
  cancelled-IsSilent r h = record { blocked = h; idle = members_of-erase_self own r.send_tasks }

  take_steps-blocked :
      (steps : List RegistryStep) (r : Registry)
      → is_blocked own r ≡ true
      → is_blocked own (take_steps steps r) ≡ true
  unfolding take_steps
  take_steps-blocked [] r h = h
  take_steps-blocked (s ∷ steps) r h = take_steps-blocked steps (take_step s r) (step-blocked s r h)

  -- Once a session is blocked and its sends are cancelled, whatever steps of any tasks came before,
  -- between and after, the session stays blocked, no send of it is under way, none of its
  -- connections may send and none can be registered.
  pub revoked-IsSilent :
      (before between after : List RegistryStep)
      → let r =
          take_steps after (
            cancel_sends own (take_steps between (block own (take_steps before empty_registry)))) in
        IsSilent own r
        × ((connection : ℕ)
            → (may_send own connection r ≡ false) × ((register own connection r).0 ≡ false))
  revoked-IsSilent before between after =
      let blocked =
        take_steps-blocked between (block own (take_steps before empty_registry))
          (block-blocked (take_steps before empty_registry)) in
      let silent = take_steps-IsSilent after _ (cancelled-IsSilent _ blocked) in
      (silent, λ connection. IsSilent-refuses connection _ silent)

  contains-head :
      (connection : ℕ) (items rest : List ℕ)
      → items ≡ connection ∷ rest
      → (contains connection items ≡ true) × (discard connection items ≡ rest)
  unfolding contains discard
  contains-head connection items rest e = rw e (ground arith, ground arith)

  close_one-first :
      (hook : ℕ → Bool) (connection : ℕ) (rest : List ℕ) (r : Registry)
      → hook connection ≡ true
      → members_of own r.connections ≡ connection ∷ rest
      → close_one hook own connection r ≡ (true, disconnect own connection r)
  unfolding close_one
  close_one-first hook connection rest r works e =
      ground (arith, works, contains-head connection (members_of own r.connections) rest e)

  disconnect-first :
      (connection : ℕ) (rest : List ℕ) (r : Registry)
      → members_of own r.connections ≡ connection ∷ rest
      → members_of own (disconnect own connection r).connections ≡ rest
  unfolding disconnect
  disconnect-first connection rest r e =
      members_of-drop_self own connection r.connections
      ∙ (contains-head connection (members_of own r.connections) rest e).1

  close_each-members :
      (hook : ℕ → Bool) (items : List ℕ) (r : Registry)
      → ((connection : ℕ) → hook connection ≡ true)
      → members_of own r.connections ≡ items
      → (r' : Registry) × (close_each hook own items r ≡ (true, r'))
        × (members_of own r'.connections ≡ [])
  unfolding close_each
  close_each-members hook [] r works e = (r, refl, e)
  close_each-members hook (connection ∷ rest) r works e =
      let (r', done, empty) =
        close_each-members hook rest (disconnect own connection r) works
          (disconnect-first connection rest r e) in
      (r', rw (close_one-first hook connection rest r (works connection) e, done) refl, empty)

  -- With a hook that closes every connection, and nothing else running, close_all runs to its end
  -- and leaves no connection of the session.
  pub close_all-members :
      (hook : ℕ → Bool) (r : Registry)
      → ((connection : ℕ) → hook connection ≡ true)
      → (r' : Registry) × (close_all hook own r ≡ (true, r')) × (connection_count own r' ≡ 0)
  unfolding close_all connection_count
  close_all-members hook r works =
      let r₁ = cancel_sends own (block own r) in
      let (r', e, empty) = close_each-members hook (members_of own r₁.connections) r₁ works refl in
      (r', e, rw empty refl)
