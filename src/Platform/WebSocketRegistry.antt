-- ===== src/Platform/WebSocketRegistry.antt =====
-- apps/backend/app/platform/websocket_registry.py: `WebSocketSessionRegistry`. A connection and a
-- task are objects, known by numbers. Between two `await`s a method runs alone, so each stretch of
-- it is one function on the registry; the close hook is a parameter that tells which connections it
-- fails to close.
pub mod Members
pub mod Revocation
use supersonic.Prelude.{
  true, false, none, some, string_eq, nat_eq, ite, [], String, ℕ, List, Bool, length, ◌∷◌, discard,
  contains, if◌then◌else◌, add, is_empty, ◌&&◌, not, Option,
}
use supersonic.Prelude.Dict.{Dict, erase, lookup, insert}

pub record Registry : Type 0 where
  pub connections : Dict String (List ℕ)
  pub blocked_sessions : List String
  pub send_tasks : Dict String (List ℕ)

abbrev pub empty_registry : Registry
empty_registry = record { connections = []; blocked_sessions = []; send_tasks = [] }

abbrev pub or_empty : Option (List ℕ) → List ℕ
or_empty none = []
or_empty (some items) = items

abbrev pub members_of : String → Dict String (List ℕ) → List ℕ
members_of key d = or_empty (lookup key d)

-- `d[key].add(item)` on a `defaultdict(set)`.
unfoldable pub add_member : String → ℕ → Dict String (List ℕ) → Dict String (List ℕ)
add_member key item d = insert key (add item (members_of key d)) d

-- `discard`, and `pop` once nothing is left.
unfoldable pub drop_member : String → ℕ → Dict String (List ℕ) → Dict String (List ℕ)
drop_member key item d =
    let rest = discard item (members_of key d) in
    if is_empty rest then erase key d else insert key rest d

unfoldable pub is_blocked : String → Registry → Bool
is_blocked session_id r = contains session_id r.blocked_sessions

-- `register`
unfoldable pub register : String → ℕ → Registry → Bool × Registry
unfolding is_blocked add_member
register session_id connection r =
    if is_blocked session_id r
    then (false, r)
    else (true, record r { connections = add_member session_id connection r.connections })

-- `disconnect`: nothing of a session that has no entry.
unfoldable pub disconnect : String → ℕ → Registry → Registry
unfolding drop_member
disconnect session_id connection r = record r {
  connections = drop_member session_id connection r.connections;
}

-- `may_send`
unfoldable pub may_send : String → ℕ → Registry → Bool
unfolding is_blocked
may_send session_id connection r =
    contains connection (members_of session_id r.connections) && not (is_blocked session_id r)

unfoldable pub connection_count : String → Registry → ℕ
connection_count session_id r = length (members_of session_id r.connections)

-- `send_if_allowed` up to `await task`: whether the send is begun.
unfoldable pub begin_send : String → ℕ → ℕ → Registry → Bool × Registry
unfolding may_send add_member
begin_send session_id connection task r =
    if may_send session_id connection r
    then (true, record r { send_tasks = add_member session_id task r.send_tasks })
    else (false, r)

-- Its `finally`.
unfoldable pub end_send : String → ℕ → Registry → Registry
unfolding drop_member
end_send session_id task r = record r { send_tasks = drop_member session_id task r.send_tasks }

-- `close_all` up to the lock.
unfoldable pub block : String → Registry → Registry
block session_id r = record r { blocked_sessions = session_id ∷ r.blocked_sessions }

-- `_cancel_sends`: once `gather` returns, no task of the session is left to send.
unfoldable pub cancel_sends : String → Registry → Registry
cancel_sends session_id r = record r { send_tasks = erase session_id r.send_tasks }

-- The body of the loop in `close_all`: a connection that is gone is skipped, and one whose close
-- fails ends the loop with its exception. The flag tells whether the loop goes on.
unfoldable pub close_one : (ℕ → Bool) → String → ℕ → Registry → Bool × Registry
unfolding disconnect
close_one closes session_id connection r =
    if contains connection (members_of session_id r.connections)
    then (if closes connection then (true, disconnect session_id connection r) else (false, r))
    else (true, r)

unfoldable pub close_each : (ℕ → Bool) → String → List ℕ → Registry → Bool × Registry
unfolding close_one
close_each closes session_id [] r = (true, r)
close_each closes session_id (connection ∷ rest) r =
    let (goes_on, r') = close_one closes session_id connection r in
    let (done, r'') = close_each closes session_id rest r' in
    if goes_on then (done, r'') else (false, r')

-- `close_all`, when nothing else runs meanwhile.
unfoldable pub close_all : (ℕ → Bool) → String → Registry → Bool × Registry
unfolding block cancel_sends close_each
close_all closes session_id r =
    let r' = cancel_sends session_id (block session_id r) in
    close_each closes session_id (members_of session_id r'.connections) r'
