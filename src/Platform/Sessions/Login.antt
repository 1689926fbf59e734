-- ===== src/Platform/Sessions/Login.antt =====
-- apps/backend/app/platform/sessions.py: `login`.
use supersonic.Prelude.{
  true, false, none, some, ok, ◌>>=◌, ◌>>◌, string_eq, throw_if, pure, modify, throw, nat_eq,
  String, Option, ℕ, if◌then◌else◌, ◌==◌, ◌+◌, [], not, strip, ◌||◌, is_none, Bool,
}
use supersonic.Contract.{Time}
use supersonic.Platform.LoginThrottle.{
  Limits, ThrottleDecision, record_failure, record_success, check,
}
use supersonic.Platform.Models.{AuditEvent, AuditResult, User, AuditDelivery, PlatformSession}
use supersonic.Platform.Sessions.{
  PasswordVerification, SessionAction, next_uuid, at_database, check_readiness, commit_work,
  append_session_audit, IssuedSession, now_utc, credential_store_invalid, reads,
  audit_persistence_failure, login_throttled, invalid_credentials, in_unit_of_work, close_work,
}
use supersonic.Platform.Store.{
  update_password_hash, append_event, add_session, get_user_by_username_norm,
}

-- The event of a login that was rejected.
abbrev pub rejection_event : String → Time → AuditEvent
rejection_event id now = record {
  id = id;
  occurred_at = now;
  action = "auth.login";
  result = AuditResult.rejected;
  delivery = AuditDelivery.primary;
  actor_user_id = none;
  actor_platform_session_id = none;
  actor_role = none;
  endpoint = none;
  cockpit_session_id = none;
  command_name = none;
  correlation_id = none;
  target_type = none;
  target_id = none;
  parameters = [];
  error_code = none;
  source_type = "local_hmi";
}

-- `decision.retry_after or 1`
abbrev pub retry_or_one : Option ℕ → ℕ
retry_or_one none = 1
retry_or_one (some n) = if n == 0 then 1 else n

module _ (casefold : String → String) (limits : Limits) (digest : String → String)
    (verify : String → String → Option PasswordVerification) (session_ttl : ℕ) where
  unfoldable pub check_throttle : String → String → SessionAction ThrottleDecision
  check_throttle username client w =
      let (decision, entries) =
        check casefold limits (w.monotonic w.ticks) username client w.throttle in
      (ok decision, record w { throttle = entries; ticks = w.ticks + 1 })

  unfoldable pub note_failure : String → String → SessionAction (Unit {0})
  note_failure username client = modify (λ w. record w {
    throttle = record_failure casefold limits (w.monotonic w.ticks) username client w.throttle;
    ticks = w.ticks + 1;
  })

  unfoldable pub note_success : String → String → SessionAction (Unit {0})
  note_success username client =
      modify
        (λ w. record w { throttle = record_success casefold limits username client w.throttle })

  -- `_reject`
  unfoldable pub reject : {A : Type 0} → Time → String → String → SessionAction A
  unfolding note_failure next_uuid at_database commit_work
  reject now username_norm client = do
    note_failure username_norm client
    id ← next_uuid
    inserted ← at_database (append_event (rejection_event id now))
    throw_if (not inserted) audit_persistence_failure
    commit_work
    throw invalid_credentials

  -- A hash that the hasher wants replaced.
  unfoldable pub replace_hash : User → Time → Option String → SessionAction (Unit {0})
  unfolding at_database
  replace_hash u now none = pure tt
  replace_hash u now (some hash) = do
    updated ← at_database (update_password_hash u.id hash now)
    throw_if (not updated) credential_store_invalid

  unfoldable pub next_token : SessionAction String
  next_token w = (ok (w.tokens w.tokens_issued), record w { tokens_issued = w.tokens_issued + 1 })

  -- The session, its audit and the commit.
  unfoldable pub store_session : PlatformSession → User → Time → SessionAction (Unit {0})
  unfolding at_database append_session_audit commit_work
  store_session p u now = do
    at_database (λ s. (tt, add_session p s))
    append_session_audit "auth.login" now u p.id
    commit_work

  abbrev pub new_session : String → String → User → Time → PlatformSession
  new_session id raw_token u now = record {
    id = id;
    user_id = u.id;
    token_digest = digest raw_token;
    created_at = now;
    expires_at = now + session_ttl;
    last_seen_at = none;
    revoked_at = none;
    revoke_reason = none;
  }

  -- The rest of `login` for a user who is verified.
  unfoldable pub issue_session : User → Time → SessionAction IssuedSession
  unfolding next_token next_uuid store_session
  issue_session u now = do
    raw_token ← next_token
    platform_session_id ← next_uuid
    store_session (new_session platform_session_id raw_token u now) u now
    pure (record {
      token = raw_token;
      platform_session_id = platform_session_id;
      user_id = u.id;
      display_name = u.display_name;
      role = u.role;
      expires_at = now + session_ttl;
    })

  -- Whether the credentials are to be rejected, and the hash that the hasher wants.
  unfoldable pub settle_credentials :
      User → Time → String → String → Bool → Option String → SessionAction IssuedSession
  unfolding reject replace_hash issue_session
  settle_credentials u now username_norm client true hash = reject now username_norm client
  settle_credentials u now username_norm client false hash = do
    replace_hash u now hash
    issue_session u now

  unfoldable pub settle_verification :
      User → Time → String → String → Option PasswordVerification → SessionAction IssuedSession
  unfolding settle_credentials
  settle_verification u now username_norm client none = throw credential_store_invalid
  settle_verification u now username_norm client (some v) =
      settle_credentials u now username_norm client (not v.verified || not (is_none u.disabled_at))
        v.updated_hash

  -- The user that was found, or none.
  unfoldable pub settle_user :
      Option User → String → Time → String → String → SessionAction IssuedSession
  unfolding reject settle_verification
  settle_user none password now username_norm client = reject now username_norm client
  settle_user (some u) password now username_norm client =
      settle_verification u now username_norm client (verify password u.password_hash)

  -- The body of the unit of work in `login`.
  unfoldable pub log_in : String → String → Time → String → SessionAction IssuedSession
  unfolding at_database settle_user
  log_in username_norm password now client = do
    user ← at_database (reads (get_user_by_username_norm username_norm))
    settle_user user password now username_norm client

  -- `login`
  unfoldable pub login : String → String → String → SessionAction IssuedSession
  unfolding check_throttle check_readiness now_utc log_in note_success close_work
  login username password client = do
    let username_norm = casefold (strip username)
    decision ← check_throttle username_norm client
    throw_if (not decision.allowed) (login_throttled (retry_or_one decision.retry_after))
    check_readiness
    now ← now_utc
    session ← in_unit_of_work (log_in username_norm password now client)
    note_success username_norm client
    pure session
