-- ===== src/Platform/LoginThrottle.antt =====
-- apps/backend/app/platform/throttle.py: `LoginThrottle`. A reading of the clock, a window and a
-- lockout are numbers of the same tick; `casefold` is a parameter, since its table belongs to Unicode.
pub mod Entries
pub mod Lockouts
pub mod Capacity
use supersonic.Prelude.{
  String-discrete, true, false, ok, raise, Bool, List, String, Eq, ℕ, Option, ltb, ◌+◌, ◌∷◌,
  is_empty, ◌++◌, [], strip, length, some, ◌&&◌, ◌-◌, if◌then◌else◌, ◌/◌, leb, is_none, none,
}
use supersonic.Prelude.Dict.{Dict, erase, lookup}

pub record ThrottleDecision : Type 0 where
  pub allowed : Bool
  pub retry_after : Option ℕ

-- `failures` is a `deque`, oldest first.
pub record ThrottleEntry : Type 0 where
  pub failures : List ℕ
  pub locked_until : Option ℕ

-- A normalized username and the key of the remote client.
abbrev pub ThrottleKey : Type 0
ThrottleKey = String × String

unfoldable pub ThrottleKey-discrete : Discrete ThrottleKey
ThrottleKey-discrete = hlevel (String-discrete)

instance abbrev pub throttle_key_eq : Eq ThrottleKey
throttle_key_eq = record { discrete = ThrottleKey-discrete }

pub record Limits : Type 0 where
  pub max_failures : ℕ
  pub failure_window : ℕ
  pub lockout : ℕ
  pub max_entries : ℕ
  pub ticks_per_second : ℕ

-- The test of `__init__`.
abbrev pub are_positive : Limits → Bool
are_positive limits =
    ltb 0 limits.max_failures
    && ltb 0 limits.failure_window
    && ltb 0 limits.lockout
    && ltb 0 limits.max_entries

-- An `OrderedDict`, least recently used first.
abbrev pub Entries : Type 0
Entries = Dict ThrottleKey ThrottleEntry

-- `ceil(entry.locked_until - now)` in seconds.
abbrev pub seconds_up : ℕ → ℕ → ℕ
seconds_up ticks_per_second ticks = (ticks + (ticks_per_second - 1)) / ticks_per_second

-- The loop of `_discard_expired_failures`. `failure <= now - window` is `failure + window <= now`.
unfoldable pub discard_expired : ℕ → ℕ → List ℕ → List ℕ
discard_expired window now [] = []
discard_expired window now (failure ∷ failures) =
    let rest = discard_expired window now failures in
    if leb (failure + window) now then rest else failure ∷ failures

abbrev pub unlocked_at : ℕ → Option ℕ → Option ℕ
unlocked_at now none = none
unlocked_at now (some until) = if leb until now then none else some until

-- What the body of the loop in `_trim` makes of an entry.
unfoldable pub trim_entry : Limits → ℕ → ThrottleEntry → ThrottleEntry
trim_entry limits now entry = record {
  failures = discard_expired limits.failure_window now entry.failures;
  locked_until = unlocked_at now entry.locked_until;
}

-- `not entry.failures and entry.locked_until is None`
abbrev pub is_idle : ThrottleEntry → Bool
is_idle entry = is_empty entry.failures && is_none entry.locked_until

-- `_trim`
unfoldable pub trim : Limits → ℕ → Entries → Entries
unfolding trim_entry
trim limits now [] = []
trim limits now ((key, entry) ∷ entries) =
    let rest = trim limits now entries in
    let entry' = trim_entry limits now entry in
    if is_idle entry' then rest else (key, entry') ∷ rest

-- `move_to_end`, with the entry changed first.
unfoldable pub put_last : ThrottleKey → ThrottleEntry → Entries → Entries
put_last key entry entries = erase key entries ++ (key, entry) ∷ []

-- `_evict_lru`: `popitem(last=False)` as long as there are too many entries.
unfoldable pub evict_lru : ℕ → Entries → Entries
evict_lru max_entries [] = []
evict_lru max_entries (e ∷ entries) =
    let rest = evict_lru max_entries entries in
    if ltb max_entries (length (e ∷ entries)) then rest else e ∷ entries

-- The part of `check` below `move_to_end`.
abbrev pub decide_entry : Limits → ℕ → ThrottleEntry → ThrottleDecision × ThrottleEntry
decide_entry limits now entry = elim entry.locked_until [
  | none ↦ (record { allowed = true; retry_after = none }, entry)
  | some until ↦
      if ltb now until
      then (
        record {
          allowed = false;
          retry_after = some (seconds_up limits.ticks_per_second (until - now));
        },
        entry,
      )
      else (
        record { allowed = true; retry_after = none },
        record { failures = []; locked_until = none },
      )
]

-- The entry after one more failure.
unfoldable pub failed_entry : Limits → ℕ → ThrottleEntry → ThrottleEntry
failed_entry limits now entry =
    let failures = discard_expired limits.failure_window now (entry.failures ++ now ∷ []) in
    if leb limits.max_failures (length failures)
    then record { failures = []; locked_until = some (now + limits.lockout) }
    else record { failures = failures; locked_until = entry.locked_until }

abbrev pub entry_or_new : Option ThrottleEntry → ThrottleEntry
entry_or_new none = record { failures = []; locked_until = none }
entry_or_new (some entry) = entry

module _ (casefold : String → String) (limits : Limits) where
  -- `_key`
  unfoldable pub throttle_key : String → String → ThrottleKey
  throttle_key username remote_client_key = (casefold (strip username), remote_client_key)

  -- `entry_count`
  unfoldable pub entry_count : ℕ → Entries → ℕ × Entries
  unfolding trim
  entry_count now entries = let left = trim limits now entries in (length left, left)

  -- `check` at the reading `now`
  unfoldable pub check : ℕ → String → String → Entries → ThrottleDecision × Entries
  unfolding trim throttle_key put_last
  check now username remote_client_key entries =
      let left = trim limits now entries in
      let key = throttle_key username remote_client_key in
      elim (lookup key left) [
        | none ↦ (record { allowed = true; retry_after = none }, left)
        | some entry ↦
            let (decision, entry') = decide_entry limits now entry in
            (decision, put_last key entry' left)
      ]

  unfoldable pub record_failure : ℕ → String → String → Entries → Entries
  unfolding trim throttle_key put_last failed_entry evict_lru
  record_failure now username remote_client_key entries =
      let left = trim limits now entries in
      let key = throttle_key username remote_client_key in
      evict_lru limits.max_entries
        (put_last key (failed_entry limits now (entry_or_new (lookup key left))) left)

  unfoldable pub record_success : String → String → Entries → Entries
  unfolding throttle_key
  record_success username remote_client_key entries =
      erase (throttle_key username remote_client_key) entries
