-- ===== src/Platform/Sessions/Revoke.antt =====
-- apps/backend/app/platform/sessions.py: `revoke`.
use supersonic.Prelude.{
  if◌then◌else◌, true, false, none, some, ◌>>=◌, ◌>>◌, string_eq, throw_if, pure, String, Bool, not,
  strip, ◌==◌, ◌&&◌, leb, text_length, is_none,
}
use supersonic.Platform.Sessions.{
  at_database, check_readiness, resolve_current_user, now_utc, append_session_audit, SessionAction,
  call_on_revoke, commit_work, reads, value_error, in_unit_of_work, close_work,
}
use supersonic.Contract.{Time}
use supersonic.Platform.Models.{PlatformSession}
use supersonic.Platform.Store.{get_session_by_id, revoke_session}

-- The test of `_validate_revoke_reason`.
abbrev pub is_revoke_reason : String → Bool
is_revoke_reason reason = not (strip reason == "") && leb (text_length reason) 64

-- The body of the unit of work in `revoke`, once the session was found and is not revoked.
unfoldable pub revoke_found : PlatformSession → String → Time → SessionAction Bool
unfolding at_database resolve_current_user append_session_audit commit_work
revoke_found found reason now = do
  (p, u) ← resolve_current_user (some found) now
  revoked ← at_database (revoke_session p.id now reason)
  if revoked
      then (do append_session_audit "session.revoke" now u p.id; commit_work; pure true)
      else pure false

unfoldable pub revoke_work : String → String → Time → SessionAction Bool
unfolding at_database revoke_found
revoke_work platform_session_id reason now = do
  found ← at_database (reads (get_session_by_id platform_session_id))
  elim found [
    | none ↦ pure false
    | some p ↦ if is_none p.revoked_at then revoke_found p reason now else pure false
  ]

-- `revoke`
unfoldable pub revoke : String → String → SessionAction Bool
unfolding check_readiness now_utc revoke_work call_on_revoke close_work
revoke platform_session_id reason = do
  throw_if (not (is_revoke_reason reason)) value_error
  check_readiness
  now ← now_utc
  revoked ← in_unit_of_work (revoke_work platform_session_id reason now)
  if revoked then (do call_on_revoke platform_session_id; pure true) else pure false
