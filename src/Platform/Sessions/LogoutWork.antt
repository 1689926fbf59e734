-- ===== src/Platform/Sessions/LogoutWork.antt =====
-- apps/backend/app/platform/sessions.py: the unit of work of `logout`.
use supersonic.Prelude.{
  arith, true, string_eq, ◌>>=◌, pure, String, throw_if, not, ◌≡◌, some, ok, ◌++◌, ap, none, sym,
  ◌∷◌, ◌∙◌, [],
}
use supersonic.Contract.{Time}
use supersonic.Platform.Sessions.{
  log_out, find_current, at_database, reads, invalid_session, append_session_audit, commit_work,
  log_out_found, SessionAction, resolve_current_user, next_uuid, SessionWorld, is_current,
  session_event,
}
use supersonic.Platform.Sessions.Atomic.{
  Quiet, Atomic, Atomic-bind, Quiet-bind, at_database-Quiet, resolve_current_user-Quiet,
  throw_if-Quiet, append_session_audit-Quiet, Atomic-last, commit_work-Atomic,
}
use supersonic.Platform.Store.{
  revoke_session, get_session_by_token_digest, Store, append_event, with_revoked, get_user_by_id,
}
use supersonic.Platform.Models.{PlatformSession, User}
use supersonic.Platform.Sessions.LoggedOut.{ok-continue, log_out_found-store}

module _ (digest : String → String) (raw_secret : String) where
  find_current-Quiet : (now : Time) → Quiet (find_current digest raw_secret now)
  find_current-Quiet now =
      Quiet-bind (at_database (reads (get_session_by_token_digest (digest raw_secret)))) _
        (at_database-Quiet _) (λ found. resolve_current_user-Quiet found now)

  log_out_found-Atomic :
      (p : PlatformSession) (u : User) (now : Time) → Atomic (log_out_found p u now)
  unfolding log_out_found
  log_out_found-Atomic p u now =
      Atomic-bind (at_database (revoke_session p.id now "logout"))
        (λ revoked. throw_if (not revoked) invalid_session >>= λ _.
          append_session_audit "auth.logout" now u p.id >>= λ _. commit_id)
        (at_database-Quiet (revoke_session p.id now "logout"))
        (λ revoked.
          Atomic-bind (throw_if (not revoked) invalid_session)
            (λ _. append_session_audit "auth.logout" now u p.id >>= λ _. commit_id)
            (throw_if-Quiet (not revoked) invalid_session)
            (λ _.
              Atomic-bind (append_session_audit "auth.logout" now u p.id) (λ _. commit_id)
                (append_session_audit-Quiet "auth.logout" now u p.id)
                (λ _. Atomic-last commit_work (λ _. p.id) commit_work-Atomic)))
    where
      commit_id : SessionAction String
      commit_id = commit_work >>= λ _. pure p.id

  pub log_out-Atomic : (now : Time) → Atomic (log_out digest raw_secret now)
  unfolding log_out
  log_out-Atomic now =
      Atomic-bind (find_current digest raw_secret now) (λ (p, u). log_out_found p u now)
        (find_current-Quiet now) (λ (p, u). log_out_found-Atomic p u now)

  -- Both changes of a logout: the session under the secret, which was current and of an enabled
  -- user, is revoked, and the fact of it is appended. Nothing else is changed.
  abbrev pub IsLoggedOut : Store → Store → Type 0
  IsLoggedOut before after =
      (p : PlatformSession) × (u : User) × (now : Time) × (id : String)
      × (get_session_by_token_digest (digest raw_secret) before ≡ some p)
      × (is_current now p ≡ true)
      × (get_user_by_id p.user_id before ≡ some u)
      × (u.disabled_at ≡ none)
      × (after.users ≡ before.users)
      × (after.platform_sessions ≡ with_revoked p.id now "logout" before.platform_sessions)
      × (after.audit_events ≡ before.audit_events ++ session_event id now "auth.logout" u p.id ∷ [])

  find_current-IsCurrent :
      (now : Time) (w : SessionWorld) (p : PlatformSession) (u : User)
      → (find_current digest raw_secret now w).0 ≡ ok (p, u)
      → (get_session_by_token_digest (digest raw_secret) w.work ≡ some p)
        × (is_current now p ≡ true)
        × (get_user_by_id p.user_id w.work ≡ some u)
        × (u.disabled_at ≡ none)
        × ((find_current digest raw_secret now w).1.work ≡ w.work)
  unfolding at_database resolve_current_user
  find_current-IsCurrent now w p u h = ground (arith, h)

  log_out_found-users :
      (p : PlatformSession) (u : User) (now : Time) (w : SessionWorld) (id : String)
      → (log_out_found p u now w).0 ≡ ok id
      → (log_out_found p u now w).1.store.users ≡ w.work.users
  unfolding log_out_found at_database append_session_audit next_uuid commit_work revoke_session
      append_event
  log_out_found-users p u now w id h = ground (arith, h)

  log_out_found-events :
      (p : PlatformSession) (u : User) (now : Time) (w : SessionWorld) (id : String)
      → (log_out_found p u now w).0 ≡ ok id
      → (log_out_found p u now w).1.store.audit_events
        ≡ w.work.audit_events ++ session_event (w.ids w.issued) now "auth.logout" u p.id ∷ []
  unfolding log_out_found at_database append_session_audit next_uuid commit_work revoke_session
      append_event
  log_out_found-events p u now w id h = ground (arith, h)

  pub log_out-IsLoggedOut :
      (now : Time) (w : SessionWorld) (id : String)
      → (log_out digest raw_secret now w).0 ≡ ok id
      → IsLoggedOut w.work (log_out digest raw_secret now w).1.store
  unfolding log_out
  log_out-IsLoggedOut now w id h =
      let (x, found, rest) =
        ok-continue (find_current digest raw_secret now w) (λ (p, u). log_out_found p u now) id h in
      let w' = (find_current digest raw_secret now w).1 in
      let (row, current, user, enabled, works) = find_current-IsCurrent now w x.0 x.1 found in
      let e = ap (λ r. r.0) (sym rest) ∙ h in
      let users = log_out_found-users x.0 x.1 now w' id e in
      let sessions = log_out_found-store x.0 x.1 now w' id e in
      let events = log_out_found-events x.0 x.1 now w' id e in
      rw rest (
        x.0,
        x.1,
        now,
        w'.ids w'.issued,
        row,
        current,
        user,
        enabled,
        users ∙ ap (λ s. s.users) works,
        sessions ∙ ap (λ s. with_revoked x.0.id now "logout" s.platform_sessions) works,
        events
            ∙ ap
                (λ s.
                  s.audit_events
                  ++ session_event (w'.ids w'.issued) now "auth.logout" x.1 x.0.id ∷ [])
                works,
      )
