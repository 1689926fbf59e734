-- ===== src/Platform/Sessions/LoggedOut.antt =====
-- apps/backend/app/platform/sessions.py: `resolve` after `logout`.
use supersonic.Prelude.{
  refl, arith, true, false, none, some, ok, raise, string_eq, [], ◌∷◌, ◌>>=◌, pure, Result, String,
  List, continue, ◌≡◌, is_none, Option, ◌≢◌, Bool, ap, sym, ◌∙◌, Bool-cases, inl, inr,
}
use supersonic.Platform.Store.{
  find_row, with_revoked, revoke_session, append_event, get_session_by_token_digest,
}
use supersonic.Platform.Sessions.{
  log_out_found, SessionError, at_database, SessionWorld, append_session_audit,
  resolve_current_user, SessionAction, next_uuid, commit_work, find_current, log_out, logout,
  in_unit_of_work, call_on_revoke, resolve, SessionIdentity, check_readiness, now_utc, close_work,
}
use supersonic.Contract.{Time}
use supersonic.Platform.Models.{PlatformSession, User}
use supersonic.Platform.Sessions.Atomic.{now_utc-Quiet, check_readiness-Quiet}

-- No session is found, or one that is revoked.
abbrev pub IsRefused : Option PlatformSession → Type 0
IsRefused none = Unit {0}
IsRefused (some p) = is_none p.revoked_at ≡ false

find-revoked :
    (digest reason : String) (now : Time) (p : PlatformSession) (ps : List PlatformSession)
    → find_row (λ q. q.token_digest) digest ps ≡ some p
    → IsRefused (find_row (λ q. q.token_digest) digest (with_revoked p.id now reason ps))
unfolding find_row with_revoked
find-revoked digest reason now p [] f = tt
find-revoked digest reason now p (r ∷ ps) f = ground (arith, find-revoked digest reason now p ps)

module _ {A B : Type 0} where
  -- What returns went on from what returned.
  pub ok-continue :
      (r : Result SessionError A × SessionWorld) (f : A → SessionAction B) (b : B)
      → (continue r.0 f r.1).0 ≡ ok b
      → (a : A) × (r.0 ≡ ok a) × (continue r.0 f r.1 ≡ f a r.1)
  ok-continue (ok a, w) f b h = (a, refl, refl)
  ok-continue (raise e, w) f b h = absurd (ground (arith, h))

close_work-ok :
    {A : Type 0} (r : Result SessionError A) (w : SessionWorld) (a : A)
    → (close_work r w).0 ≡ ok a
    → (r ≡ ok a) × ((close_work r w).1.store ≡ w.store)
unfolding close_work
close_work-ok r w a h = elim (Bool-cases (w.outages w.statements)) [
  | inl e ↦ cc (rw e at h)
  | inr e ↦ (rw e at h, rw e refl)
]

-- A unit of work that returned was closed.
in_unit-ok :
    {A : Type 0} (m : SessionAction A) (w : SessionWorld) (a : A)
    → (in_unit_of_work m w).0 ≡ ok a
    → ((m (record w { work = w.store })).0 ≡ ok a)
      × ((in_unit_of_work m w).1.store ≡ (m (record w { work = w.store })).1.store)
in_unit-ok m w a h = let (r, w') = m (record w { work = w.store }) in close_work-ok r w' a h

call_on_revoke-store : (id : String) (w : SessionWorld) → (call_on_revoke id w).1.store ≡ w.store
unfolding call_on_revoke
call_on_revoke-store id w = ground arith

pub log_out_found-store :
    (p : PlatformSession) (u : User) (now : Time) (w : SessionWorld) (id : String)
    → (log_out_found p u now w).0 ≡ ok id
    → (log_out_found p u now w).1.store.platform_sessions
      ≡ with_revoked p.id now "logout" w.work.platform_sessions
unfolding log_out_found at_database append_session_audit next_uuid commit_work revoke_session
    append_event
log_out_found-store p u now w id h = ground (arith, h)

module _ (digest : String → String) (raw_secret : String) where
  find_current-found :
      (now : Time) (w : SessionWorld) (p : PlatformSession) (u : User)
      → (find_current digest raw_secret now w).0 ≡ ok (p, u)
      → (get_session_by_token_digest (digest raw_secret) w.work ≡ some p)
        × (is_none p.revoked_at ≡ true)
        × ((find_current digest raw_secret now w).1.work ≡ w.work)
  unfolding at_database resolve_current_user
  find_current-found now w p u h = ground (arith, h)

  find_current-refused :
      (now : Time) (w : SessionWorld) (x : PlatformSession × User)
      → IsRefused (get_session_by_token_digest (digest raw_secret) w.work)
      → (find_current digest raw_secret now w).0 ≢ ok x
  unfolding at_database resolve_current_user
  find_current-refused now w x h e = ground (arith, h, e)

  abbrev from_now : Time → SessionAction Bool
  from_now now =
      in_unit_of_work (log_out digest raw_secret now) >>= λ id. call_on_revoke id >>= λ _. pure true

  from_now-IsRefused :
      (now : Time) (w : SessionWorld)
      → (from_now now w).0 ≡ ok true
      → IsRefused (get_session_by_token_digest (digest raw_secret) (from_now now w).1.store)
  unfolding log_out get_session_by_token_digest
  from_now-IsRefused now w h =
      let w₀ = record w { work = w.store } in
      let unit = in_unit_of_work (log_out digest raw_secret now) w in
      let (id, closed, same) =
        ok-continue unit (λ id. call_on_revoke id >>= λ _. pure true) true h in
      let (e, committed) = in_unit-ok (log_out digest raw_secret now) w id closed in
      let (_, _, called) =
        ok-continue (call_on_revoke id unit.1) (λ _. pure true) true
          (ap (λ r. r.0) (sym same) ∙ h) in
      let (x, found, rest) =
        ok-continue (find_current digest raw_secret now w₀) (λ (p, u). log_out_found p u now) id
          e in
      let (row, _, works) = find_current-found now w₀ x.0 x.1 found in
      let stored =
        log_out_found-store x.0 x.1 now (find_current digest raw_secret now w₀).1 id
          (ap (λ r. r.0) (sym rest) ∙ e) in
      rw (same, called, call_on_revoke-store id unit.1, committed, rest, stored, works)
        (find-revoked (digest raw_secret) "logout" now x.0 w.store.platform_sessions row)

  logout-IsRefused :
      (w : SessionWorld)
      → (logout digest raw_secret w).0 ≡ ok true
      → IsRefused
          (get_session_by_token_digest (digest raw_secret) (logout digest raw_secret w).1.store)
  unfolding logout
  logout-IsRefused w h =
      let (_, _, ready) =
        ok-continue (check_readiness w) (λ _. now_utc >>= λ now. from_now now) true h in
      let h₁ = ap (λ r. r.0) (sym ready) ∙ h in
      let (now, _, timed) =
        ok-continue (now_utc (check_readiness w).1) (λ now. from_now now) true h₁ in
      let w₂ = (now_utc (check_readiness w).1).1 in
      rw (ready, timed) (from_now-IsRefused now w₂ (ap (λ r. r.0) (sym timed) ∙ h₁))

  abbrev identity_of : PlatformSession × User → SessionAction SessionIdentity
  identity_of (p, u) = pure (record {
    principal = record { user_id = u.id; role = u.role; session_id = p.id };
    display_name = u.display_name;
    expires_at = p.expires_at;
  })

  abbrev identify : Time → SessionAction SessionIdentity
  identify now = in_unit_of_work (find_current digest raw_secret now >>= identity_of)

  resolve-refused :
      (w : SessionWorld) (identity : SessionIdentity)
      → IsRefused (get_session_by_token_digest (digest raw_secret) w.store)
      → (resolve digest raw_secret w).0 ≢ ok identity
  unfolding resolve
  resolve-refused w identity refused e =
      let (_, _, ready) =
        ok-continue (check_readiness w) (λ _. now_utc >>= λ now. identify now) identity e in
      let e₁ = ap (λ r. r.0) (sym ready) ∙ e in
      let w₁ = (check_readiness w).1 in
      let (now, _, timed) = ok-continue (now_utc w₁) (λ now. identify now) identity e₁ in
      let e₂ = ap (λ r. r.0) (sym timed) ∙ e₁ in
      let w₂ = (now_utc w₁).1 in
      let w₃ = record w₂ { work = w₂.store } in
      let (e₃, _) =
        in_unit-ok (find_current digest raw_secret now >>= identity_of) w₂ identity e₂ in
      let (x, found, _) =
        ok-continue (find_current digest raw_secret now w₃) identity_of identity e₃ in
      let kept : w₂.store ≡ w.store = now_utc-Quiet w₁ ∙ check_readiness-Quiet w in
      find_current-refused now w₃ x (rw kept refused) found

  -- After a logout has returned, the same secret resolves to no identity for as long as the store
  -- is the one that the logout left, at any time and whatever the database answers.
  pub logout-refused :
      (w later : SessionWorld) (identity : SessionIdentity)
      → (logout digest raw_secret w).0 ≡ ok true
      → later.store ≡ (logout digest raw_secret w).1.store
      → (resolve digest raw_secret later).0 ≢ ok identity
  logout-refused w later identity h s = resolve-refused later identity (rw s (logout-IsRefused w h))
