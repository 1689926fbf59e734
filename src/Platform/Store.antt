-- ===== src/Platform/Store.antt =====
-- apps/backend/app/adapters/postgres/repositories.py: the statements that the session service sends,
-- as functions on the rows of three tables.
use supersonic.Prelude.{
  true, false, none, some, string_eq, Option, List, String, ◌∷◌, ◌++◌, Bool, not, [], ◌==◌, ◌||◌,
  if◌then◌else◌, is_none, ◌&&◌,
}
use supersonic.Platform.Models.{User, PlatformSession, AuditEvent}
use supersonic.Contract.{Time}

pub record Store : Type 0 where
  pub users : List User
  pub platform_sessions : List PlatformSession
  pub audit_events : List AuditEvent

-- `select(…).where(…)` on a column without duplicates.
unfoldable pub find_row : {A : Type 0} → (A → String) → String → List A → Option A
find_row column value [] = none
find_row column value (row ∷ rows) =
    if column row == value then some row else find_row column value rows

-- `SqlAlchemyUserRepository`
unfoldable pub get_user_by_id : String → Store → Option User
unfolding find_row
get_user_by_id id s = find_row (λ u. u.id) id s.users

unfoldable pub get_user_by_username_norm : String → Store → Option User
unfolding find_row
get_user_by_username_norm name s = find_row (λ u. u.username_norm) name s.users

unfoldable pub with_password_hash : String → String → Time → List User → List User
with_password_hash id hash now [] = []
with_password_hash id hash now (u ∷ us) =
    let rest = with_password_hash id hash now us in
    (if u.id == id then record u { password_hash = hash; updated_at = now } else u) ∷ rest

-- Whether a row was updated, and the rows.
unfoldable pub update_password_hash : String → String → Time → Store → Bool × Store
unfolding get_user_by_id with_password_hash
update_password_hash id hash now s = (
  not (is_none (get_user_by_id id s)),
  record s { users = with_password_hash id hash now s.users },
)

-- `SqlAlchemyPlatformSessionRepository`
unfoldable pub get_session_by_token_digest : String → Store → Option PlatformSession
unfolding find_row
get_session_by_token_digest digest s = find_row (λ p. p.token_digest) digest s.platform_sessions

unfoldable pub get_session_by_id : String → Store → Option PlatformSession
unfolding find_row
get_session_by_id id s = find_row (λ p. p.id) id s.platform_sessions

unfoldable pub add_session : PlatformSession → Store → Store
add_session p s = record s { platform_sessions = s.platform_sessions ++ p ∷ [] }

-- `where(id == …, revoked_at.is_(None))`
abbrev pub is_revocable : String → PlatformSession → Bool
is_revocable id p = p.id == id && is_none p.revoked_at

unfoldable pub with_revoked : String → Time → String → List PlatformSession → List PlatformSession
with_revoked id now reason [] = []
with_revoked id now reason (p ∷ ps) =
    let rest = with_revoked id now reason ps in
    (if is_revocable id p
      then record p { revoked_at = some now; revoke_reason = some reason }
      else p)
    ∷ rest

unfoldable pub any_revocable : String → List PlatformSession → Bool
any_revocable id [] = false
any_revocable id (p ∷ ps) = is_revocable id p || any_revocable id ps

unfoldable pub revoke_session : String → Time → String → Store → Bool × Store
unfolding with_revoked any_revocable
revoke_session id now reason s = (
  any_revocable id s.platform_sessions,
  record s { platform_sessions = with_revoked id now reason s.platform_sessions },
)

-- `SqlAlchemyAuditEventRepository.append`: nothing is inserted under an id that is taken.
unfoldable pub append_event : AuditEvent → Store → Bool × Store
unfolding find_row
append_event event s = elim (find_row (λ e. e.id) event.id s.audit_events) [
  | none ↦ (true, record s { audit_events = s.audit_events ++ event ∷ [] })
  | some _ ↦ (false, s)
]
