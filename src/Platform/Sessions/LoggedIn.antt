-- ===== src/Platform/Sessions/LoggedIn.antt =====
-- apps/backend/app/platform/sessions.py: who may log in, and the session that a login stores.
use supersonic.Prelude.{
  refl, arith, true, false, none, some, ok, string_eq, [], ◌∷◌, pure, sym, ap, ◌∙◌, not, String,
  List, Option, ◌≡◌, ℕ, ◌++◌, ◌≢◌, ◌+◌, Bool, ◌||◌, is_none, Result,
}
use supersonic.Platform.Sessions.LoggedOut.{ok-continue}
use supersonic.Platform.LoginThrottle.{Limits}
use supersonic.Platform.Models.{PlatformSession, User}
use supersonic.Platform.Sessions.{
  IssuedSession, PasswordVerification, at_database, next_uuid, commit_work, append_session_audit,
  SessionWorld, SessionError, reads,
}
use supersonic.Platform.Sessions.Login.{
  reject, issue_session, replace_hash, note_failure, next_token, settle_credentials,
  settle_verification, settle_user, store_session, new_session, log_in,
}
use supersonic.Platform.Store.{
  update_password_hash, append_event, add_session, get_user_by_username_norm, Store,
}
use supersonic.Contract.{Time}

-- The session that a login answers with is the new last row.
abbrev pub IsStored :
    (String → String) → List PlatformSession → List PlatformSession → IssuedSession → Type 0
IsStored digest before after issued =
    (p : PlatformSession) × (after ≡ before ++ p ∷ [])
    × (p.id ≡ issued.platform_session_id)
    × (p.token_digest ≡ digest issued.token)
    × (p.user_id ≡ issued.user_id)
    × (p.expires_at ≡ issued.expires_at)
    × (p.revoked_at ≡ none)

reads-found :
    {A : Type 0} (f : Store → A) (w : SessionWorld) (a : A)
    → (at_database (reads f) w).0 ≡ ok a
    → (f w.work ≡ a) × ((at_database (reads f) w).1.work ≡ w.work)
unfolding at_database
reads-found f w a e = ground (arith, e)

module _ (casefold : String → String) (limits : Limits) (digest : String → String)
    (verify : String → String → Option PasswordVerification) (session_ttl : ℕ) where
  reject-raise :
      {A : Type 0} (now : Time) (name client : String) (w : SessionWorld) (a : A)
      → (reject casefold limits digest verify session_ttl now name client w).0 ≢ ok a
  unfolding reject note_failure next_uuid at_database commit_work
  reject-raise now name client w a e = ground (arith, e)

  ok-answer : {A : Type 0} (a b : A) → ◌≡◌ {A = Result SessionError A} (ok a) (ok b) → a ≡ b
  ok-answer a b e = ground (arith, e)

  store_session-sessions :
      (p : PlatformSession) (u : User) (now : Time) (w : SessionWorld) (x : Unit {0})
      → (store_session casefold limits digest verify session_ttl p u now w).0 ≡ ok x
      → (store_session casefold limits digest verify session_ttl p u now
          w).1.store.platform_sessions
        ≡ w.work.platform_sessions ++ p ∷ []
  unfolding store_session at_database append_session_audit next_uuid commit_work append_event
      add_session
  store_session-sessions p u now w x e = ground (arith, e)

  issue_session-IsStored :
      (u : User) (now : Time) (w : SessionWorld) (issued : IssuedSession)
      → (issue_session casefold limits digest verify session_ttl u now w).0 ≡ ok issued
      → IsStored digest w.work.platform_sessions
          (issue_session casefold limits digest verify session_ttl u now
            w).1.store.platform_sessions
          issued
  unfolding issue_session next_token next_uuid
  issue_session-IsStored u now w issued e =
      let token = w.tokens w.tokens_issued in
      let id = w.ids w.issued in
      let p = new_session casefold limits digest verify session_ttl id token u now in
      let w₁ = record w { tokens_issued = w.tokens_issued + 1; issued = w.issued + 1 } in
      let answer : IssuedSession = record {
        token = token;
        platform_session_id = id;
        user_id = u.id;
        display_name = u.display_name;
        role = u.role;
        expires_at = now + session_ttl;
      } in
      let stores = store_session casefold limits digest verify session_ttl p u now in
      let (x, stored, same) = ok-continue (stores w₁) (λ _. pure answer) issued e in
      let given = ok-answer answer issued (ap (λ r. r.0) (sym same) ∙ e) in
      rw same (
        p,
        store_session-sessions p u now w₁ x stored,
        ap (λ a. a.platform_session_id) given,
        ap (λ a. digest a.token) given,
        ap (λ a. a.user_id) given,
        ap (λ a. a.expires_at) given,
        refl,
      )

  replace_hash-sessions :
      (u : User) (now : Time) (hash : Option String) (w : SessionWorld)
      → (replace_hash casefold limits digest verify session_ttl u now hash
          w).1.work.platform_sessions
        ≡ w.work.platform_sessions
  unfolding replace_hash at_database update_password_hash
  replace_hash-sessions u now none w = refl
  replace_hash-sessions u now (some hash) w = ground arith

  -- The credentials are those of an enabled user, and the session is stored.
  abbrev pub IsAdmitted :
      User → String → List PlatformSession → List PlatformSession → IssuedSession → Type 0
  IsAdmitted u password before after issued =
      (v : PasswordVerification) × (verify password u.password_hash ≡ some v)
      × (v.verified ≡ true)
      × (u.disabled_at ≡ none)
      × IsStored digest before after issued

  settle_credentials-IsStored :
      (u : User) (now : Time) (name client : String) (rejects : Bool) (hash : Option String)
      (w : SessionWorld) (issued : IssuedSession)
      → (settle_credentials casefold limits digest verify session_ttl u now name client rejects hash
          w).0
        ≡ ok issued
      → (rejects ≡ false)
        × IsStored digest w.work.platform_sessions
            (settle_credentials casefold limits digest verify session_ttl u now name client rejects
              hash w).1.store.platform_sessions
            issued
  unfolding settle_credentials
  settle_credentials-IsStored u now name client true hash w issued e =
      absurd (reject-raise now name client w issued e)
  settle_credentials-IsStored u now name client false hash w issued e =
      let change = replace_hash casefold limits digest verify session_ttl u now hash in
      let issue = issue_session casefold limits digest verify session_ttl u now in
      let (_, _, same) = ok-continue (change w) (λ _. issue) issued e in
      let (p, row, a, b, c, d, f) =
        issue_session-IsStored u now (change w).1 issued (ap (λ r. r.0) (sym same) ∙ e) in
      let kept = replace_hash-sessions u now hash w in
      (refl, rw same (p, row ∙ ap (λ rows. rows ++ p ∷ []) kept, a, b, c, d, f))

  settle_verification-IsAdmitted :
      (u : User) (password : String) (now : Time) (name client : String)
      (found : Option PasswordVerification) (w : SessionWorld) (issued : IssuedSession)
      → verify password u.password_hash ≡ found
      → (settle_verification casefold limits digest verify session_ttl u now name client found w).0
        ≡ ok issued
      → IsAdmitted u password w.work.platform_sessions
          (settle_verification casefold limits digest verify session_ttl u now name client found
            w).1.store.platform_sessions
          issued
  unfolding settle_verification
  settle_verification-IsAdmitted u password now name client none w issued v e =
      absurd (ground (arith, e))
  settle_verification-IsAdmitted u password now name client (some x) w issued v e =
      let (admitted, stored) =
        settle_credentials-IsStored u now name client
          (not x.verified || not (is_none u.disabled_at)) x.updated_hash w issued e in
      (x, v, ground (arith, admitted), ground (arith, admitted), stored)

  settle_user-IsAdmitted :
      (user : Option User) (password : String) (now : Time) (name client : String)
      (w : SessionWorld) (issued : IssuedSession)
      → (settle_user casefold limits digest verify session_ttl user password now name client w).0
        ≡ ok issued
      → (u : User) × (user ≡ some u)
        × IsAdmitted u password w.work.platform_sessions
            (settle_user casefold limits digest verify session_ttl user password now name client
              w).1.store.platform_sessions
            issued
  unfolding settle_user
  settle_user-IsAdmitted none password now name client w issued e =
      absurd (reject-raise now name client w issued e)
  settle_user-IsAdmitted (some u) password now name client w issued e =
      (u, refl, settle_verification-IsAdmitted u password now name client _ w issued refl e)

  -- When the unit of work of a login returns a session, a user with that name was found who is not
  -- disabled and whose hash the hasher verified, and the committed sessions are the old ones and
  -- the one that is returned, which is not revoked, under the digest of its token.
  pub log_in-IsAdmitted :
      (name password : String) (now : Time) (client : String) (w : SessionWorld)
      (issued : IssuedSession)
      → (log_in casefold limits digest verify session_ttl name password now client w).0 ≡ ok issued
      → (u : User) × (get_user_by_username_norm name w.work ≡ some u)
        × IsAdmitted u password w.work.platform_sessions
            (log_in casefold limits digest verify session_ttl name password now client
              w).1.store.platform_sessions
            issued
  unfolding log_in
  log_in-IsAdmitted name password now client w issued e =
      let lookup_user = at_database (reads (get_user_by_username_norm name)) in
      let (user, found, same) =
        ok-continue (lookup_user w)
          (λ user.
            settle_user casefold limits digest verify session_ttl user password now name client)
          issued e in
      let (u, is, admitted) =
        settle_user-IsAdmitted user password now name client (lookup_user w).1 issued
          (ap (λ r. r.0) (sym same) ∙ e) in
      let (is_found, kept) = reads-found (get_user_by_username_norm name) w user found in
      let (v, verified, accepted, enabled, fresh_row) = admitted in
      let (p, row, a, b, c, d, f) = fresh_row in
      (
        u,
        is_found ∙ is,
        (
          v,
          verified,
          accepted,
          enabled,
          rw same (p, row ∙ ap (λ s. s.platform_sessions ++ p ∷ []) kept, a, b, c, d, f),
        ),
      )
