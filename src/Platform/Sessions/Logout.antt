-- ===== src/Platform/Sessions/Logout.antt =====
-- apps/backend/app/platform/sessions.py: the committed store after `logout`.
use supersonic.Prelude.{
  refl, true, string_eq, ◌>>=◌, pure, String, ◌≡◌, some, ok, none, ◌∙◌, Option, ◌⊎◌, Result, ℕ,
  subst, Bool-cases, Bool, inl, inr, length,
}
use supersonic.Contract.{Time}
use supersonic.Platform.Sessions.{
  log_out, logout, call_on_revoke, check_readiness, now_utc, in_unit_of_work, SessionAction,
  SessionWorld, SessionError, close_work, database_unavailable, revoke_hook_failed, raise,
}
use supersonic.Platform.Sessions.Atomic.{Quiet, check_readiness-Quiet, now_utc-Quiet}
use supersonic.Platform.Store.{Store}
use supersonic.Prelude.Triples.{Ends, Triple, Ends-cases, Triple-bind}
use supersonic.Platform.Sessions.LogoutWork.{IsLoggedOut, log_out-IsLoggedOut, log_out-Atomic}

module _ (digest : String → String) (raw_secret : String) where
  -- What a logout that raised left of a store.
  abbrev pub IsAborted : Store → SessionError → Store → Type 0
  IsAborted before e after =
      (after ≡ before)
      ⊎ (((e ≡ database_unavailable) ⊎ (e ≡ revoke_hook_failed))
          × IsLoggedOut digest raw_secret before after)

  log_out-Ends :
      (now : Time) (w : SessionWorld)
      → w.work ≡ w.store
      → Ends
          (λ _ w'. IsLoggedOut digest raw_secret w.store w'.store)
          (λ _ w'. w'.store ≡ w.store)
          (log_out digest raw_secret now w)
  log_out-Ends now w h =
      Ends-cases _ _ (log_out digest raw_secret now w)
        (λ id e.
          subst (λ s. IsLoggedOut digest raw_secret s (log_out digest raw_secret now w).1.store) h
            (log_out-IsLoggedOut digest raw_secret now w id e))
        (λ x e. log_out-Atomic digest raw_secret now w x e)

  close_work-Ends :
      (s : Store) (r : Result SessionError String × SessionWorld)
      → Ends (λ _ w. IsLoggedOut digest raw_secret s w.store) (λ _ w. w.store ≡ s) r
      → Ends
          (λ _ w. IsLoggedOut digest raw_secret s w.store)
          (λ e w. IsAborted s e w.store)
          (close_work r.0 r.1)
  unfolding close_work
  close_work-Ends s (ok id, w) h = elim (Bool-cases (w.outages w.statements)) [
    | inl e ↦ rw e (inr (inl refl, h))
    | inr e ↦ rw e h
  ]
  close_work-Ends s (raise x, w) h = elim (Bool-cases (w.outages w.statements)) [
    | inl e ↦ rw e (inl h)
    | inr e ↦ rw e (inl h)
  ]

  hook-Ends :
      (s : Store) (id : String) (w : SessionWorld)
      → IsLoggedOut digest raw_secret s w.store
      → (hook : Option (ℕ → Bool)) → w.on_revoke ≡ hook
      → Ends
          (λ _ w. IsLoggedOut digest raw_secret s w.store)
          (λ e w. IsAborted s e w.store)
          (call_on_revoke id w)
  unfolding call_on_revoke
  hook-Ends s id w h none e = rw e h
  hook-Ends s id w h (some raises) e = elim (Bool-cases (raises (length w.revoke_calls))) [
    | inl b ↦ rw (e, b) (inr (inr refl, h))
    | inr b ↦ rw (e, b) h
  ]

  call_on_revoke-Ends :
      (s : Store) (id : String) (w : SessionWorld)
      → IsLoggedOut digest raw_secret s w.store
      → Ends
          (λ _ w. IsLoggedOut digest raw_secret s w.store)
          (λ e w. IsAborted s e w.store)
          (call_on_revoke id w)
  call_on_revoke-Ends s id w h = hook-Ends s id w h w.on_revoke refl

  Quiet-Triple :
      {A : Type 0} (m : SessionAction A)
      → Quiet m
      → (s : Store)
      → Triple (λ v. v.store ≡ s) m (λ _ v. v.store ≡ s) (λ e v. IsAborted s e v.store)
  Quiet-Triple m q s v h = Ends-cases _ _ (m v) (λ _ _. q v ∙ h) (λ _ _. inl (q v ∙ h))

  unit-Triple :
      (s : Store) (now : Time)
      → Triple
          (λ v. v.store ≡ s)
          (in_unit_of_work (log_out digest raw_secret now) >>= λ id.
            call_on_revoke id >>= λ _. pure true)
          (λ _ w'. IsLoggedOut digest raw_secret s w'.store)
          (λ e w'. IsAborted s e w'.store)
  unit-Triple s now =
      Triple-bind (λ v. v.store ≡ s) (in_unit_of_work (log_out digest raw_secret now))
        (λ id. call_on_revoke id >>= λ _. pure true)
        (λ _ w'. IsLoggedOut digest raw_secret s w'.store)
        (λ _ w'. IsLoggedOut digest raw_secret s w'.store) (λ e w'. IsAborted s e w'.store)
        (λ v h. close_work-Ends s (log_out digest raw_secret now (record v { work = v.store })) (
          subst
            (λ t.
              Ends (λ _ w. IsLoggedOut digest raw_secret t w.store) (λ _ w. w.store ≡ t)
                (log_out digest raw_secret now (record v { work = v.store })))
            h (log_out-Ends now (record v { work = v.store }) refl)))
        (λ id.
          Triple-bind (λ v. IsLoggedOut digest raw_secret s v.store) (call_on_revoke id)
            (λ _. pure true) (λ _ w'. IsLoggedOut digest raw_secret s w'.store)
            (λ _ w'. IsLoggedOut digest raw_secret s w'.store) (λ e w'. IsAborted s e w'.store)
            (call_on_revoke-Ends s id) (λ _ v h. h))

  -- A logout makes both of its changes or none, whatever calls of the database fail and whatever
  -- on_revoke does. If it returns, the committed store is the old one in which the session under
  -- the secret, which was current and of an enabled user, is revoked, and to which the fact of the
  -- logout is appended. If it raises, the committed store is as it was, or it has both changes and
  -- what was raised is that the database was unavailable or what on_revoke raised.
  pub logout-Atomic :
      (w : SessionWorld)
      → Ends
          (λ _ w'. IsLoggedOut digest raw_secret w.store w'.store)
          (λ e w'. IsAborted w.store e w'.store)
          (logout digest raw_secret w)
  unfolding logout
  logout-Atomic w =
      Triple-bind (λ v. v.store ≡ w.store) check_readiness
        (λ _. now_utc >>= λ now. in_unit_of_work (log_out digest raw_secret now) >>= λ id.
          call_on_revoke id >>= λ _. pure true)
        (λ _ v. v.store ≡ w.store) (λ _ w'. IsLoggedOut digest raw_secret w.store w'.store)
        (λ e w'. IsAborted w.store e w'.store)
        (Quiet-Triple check_readiness check_readiness-Quiet w.store)
        (λ _.
          Triple-bind (λ v. v.store ≡ w.store) now_utc
            (λ now. in_unit_of_work (log_out digest raw_secret now) >>= λ id.
              call_on_revoke id >>= λ _. pure true)
            (λ _ v. v.store ≡ w.store) (λ _ w'. IsLoggedOut digest raw_secret w.store w'.store)
            (λ e w'. IsAborted w.store e w'.store) (Quiet-Triple now_utc now_utc-Quiet w.store)
            (λ now. unit-Triple w.store now))
        w refl
