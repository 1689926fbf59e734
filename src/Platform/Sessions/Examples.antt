-- ===== src/Platform/Sessions/Examples.antt =====
-- A user of the platform who logs in, and one who logs out.
use supersonic.Prelude.{
  refl, true, false, none, some, ok, raise, String-discrete, concat, show, String, ◌∷◌, [], ◌≢◌,
  ◌≡◌, Option, ◌+◌, ◌==◌, string_eq, nat_eq, length,
}
use supersonic.Platform.Models.{Role, User, PlatformSession}
use supersonic.Platform.LoginThrottle.{Limits}
use supersonic.Platform.Store.{
  Store, get_user_by_username_norm, get_session_by_token_digest, get_user_by_id, revoke_session,
  append_event, add_session,
}
use supersonic.Platform.Sessions.{
  SessionWorld, logout, SessionIdentity, resolve, IssuedSession, check_readiness, now_utc,
  PasswordVerification, log_out, log_out_found, at_database, resolve_current_user,
  append_session_audit, next_uuid, commit_work, call_on_revoke, database_unavailable,
}
use supersonic.Platform.Sessions.Login.{
  log_in, settle_user, settle_verification, settle_credentials, issue_session, store_session,
}
use supersonic.Platform.Sessions.LoggedOut.{logout-refused}
use supersonic.Platform.Sessions.Logout.{logout-Atomic, IsAborted}
use supersonic.Platform.Sessions.LoggedIn.{IsAdmitted, log_in-IsAdmitted}
use supersonic.Prelude.Triples.{Ends}
use supersonic.Platform.Sessions.LogoutWork.{IsLoggedOut}

abbrev login_limits : Limits
login_limits = record {
  max_failures = 5;
  failure_window = 60;
  lockout = 30;
  max_entries = 1024;
  ticks_per_second = 1;
}

abbrev ada : User
ada = record {
  id = "u-1";
  username_norm = "ada";
  display_name = "Ada";
  password_hash = "h:pw";
  role = Role.operator;
  disabled_at = none;
  created_at = 10;
  updated_at = 10;
}

abbrev ada_session : PlatformSession
ada_session = record {
  id = "s-1";
  user_id = "u-1";
  token_digest = "#t-1";
  created_at = 100;
  expires_at = 5000;
  last_seen_at = none;
  revoked_at = none;
  revoke_reason = none;
}

abbrev stored : Store
stored = record { users = ada ∷ []; platform_sessions = ada_session ∷ []; audit_events = [] }

abbrev session_world : SessionWorld
session_world = record {
  store = stored;
  work = stored;
  throttle = [];
  clock = λ n. some (1000 + n);
  readings = 0;
  monotonic = λ n. n;
  ticks = 0;
  ids = show;
  issued = 0;
  tokens = show;
  tokens_issued = 0;
  outages = λ _. false;
  statements = 0;
  on_revoke = some (λ _. false);
  revoke_calls = [];
}

abbrev hashed : String → String
hashed t = concat ("#" ∷ t ∷ [])

logged_out : (logout hashed "t-1" session_world).0 ≡ ok true
unfolding logout check_readiness now_utc log_out log_out_found at_database resolve_current_user
    append_session_audit next_uuid commit_work call_on_revoke get_session_by_token_digest
    String-discrete concat get_user_by_id revoke_session append_event show
logged_out = refl

abbrev logged_out_world : SessionWorld
logged_out_world = (logout hashed "t-1" session_world).1

abbrev ada_identity : SessionIdentity
ada_identity = record {
  principal = record { user_id = "u-1"; role = Role.operator; session_id = "s-1" };
  display_name = "Ada";
  expires_at = 5000;
}

logout-refused_example : (resolve hashed "t-1" logged_out_world).0 ≢ ok ada_identity
logout-refused_example =
    logout-refused hashed "t-1" session_world logged_out_world ada_identity logged_out refl

-- The database fails when the session is closed, after the commit.
abbrev closing_world : SessionWorld
closing_world = record session_world { outages = λ n. n == 6 }

logout-Atomic_example :
    Ends
      (λ _ w. IsLoggedOut hashed "t-1" stored w.store)
      (λ e w. IsAborted hashed "t-1" stored e w.store)
      (logout hashed "t-1" closing_world)
logout-Atomic_example = logout-Atomic hashed "t-1" closing_world

-- Such a logout raises, and the session is revoked all the same.
closing_fails :
    ((logout hashed "t-1" closing_world).0 ≡ raise database_unavailable)
    × (length (logout hashed "t-1" closing_world).1.store.audit_events ≡ 1)
unfolding logout supersonic.Prelude.ℕ_discrete get_session_by_token_digest String-discrete concat
    get_user_by_id revoke_session append_event
closing_fails = (refl, refl)

abbrev verifies : String → String → Option PasswordVerification
verifies password hash =
    some (record { verified = concat ("h:" ∷ password ∷ []) == hash; updated_hash = none })

abbrev ada_issued : IssuedSession
ada_issued = record {
  token = "0";
  platform_session_id = "0";
  user_id = "u-1";
  display_name = "Ada";
  role = Role.operator;
  expires_at = 1600;
}

ada_admitted :
    (log_in (λ s. s) login_limits hashed verifies 600 "ada" "pw" 1000 "10.0.0.7" session_world).0
    ≡ ok ada_issued
unfolding log_in settle_user settle_verification settle_credentials issue_session store_session
    at_database get_user_by_username_norm String-discrete concat append_event add_session show
ada_admitted = refl

log_in-IsAdmitted_example :
    (u : User) × (get_user_by_username_norm "ada" stored ≡ some u)
    × IsAdmitted
        (λ s. s)
        login_limits
        hashed
        verifies
        600
        u
        "pw"
        (ada_session ∷ [])
        (log_in
          (λ s. s)
          login_limits
          hashed
          verifies
          600
          "ada"
          "pw"
          1000
          "10.0.0.7"
          session_world).1.store.platform_sessions
        ada_issued
log_in-IsAdmitted_example =
    log_in-IsAdmitted (λ s. s) login_limits hashed verifies 600 "ada" "pw" 1000 "10.0.0.7"
      session_world ada_issued ada_admitted
