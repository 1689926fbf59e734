-- ===== src/Platform/LoginThrottle/Capacity.antt =====
-- apps/backend/app/platform/throttle.py: how many entries there are after calls in any order.
use supersonic.Prelude.{
  arith, some, ℕ, String, List, ◌∷◌, length, ◌≤◌, Option-cases, inl, inr, length-append, [], ◌≡◌,
}
use supersonic.Platform.LoginThrottle.{
  throttle_key_eq, Limits, Entries, check, record_failure, record_success, put_last, entry_count,
  throttle_key, trim, ThrottleKey, decide_entry, ThrottleEntry,
}
use supersonic.Platform.LoginThrottle.Entries.{
  evict-length, erase-length-le, trim-length, erase-length-lt,
}
use supersonic.Prelude.Dict.{lookup, erase}

pub data ThrottleCall : Type 0 where
  checks : ℕ → String → String → ThrottleCall
  fails : ℕ → String → String → ThrottleCall
  succeeds : String → String → ThrottleCall
  counts_entries : ℕ → ThrottleCall

module _ (casefold : String → String) (limits : Limits) where
  -- The entries after a call.
  unfoldable pub answer_call : ThrottleCall → Entries → Entries
  answer_call (checks now username client) entries =
      (check casefold limits now username client entries).1
  answer_call (fails now username client) entries =
      record_failure casefold limits now username client entries
  answer_call (succeeds username client) entries =
      record_success casefold limits username client entries
  answer_call (counts_entries now) entries = (entry_count casefold limits now entries).1

  unfoldable pub answer_calls : List ThrottleCall → Entries → Entries
  unfolding answer_call
  answer_calls [] entries = entries
  answer_calls (call ∷ calls) entries = answer_calls calls (answer_call call entries)

  put_last-length :
      (key : ThrottleKey) (entry entry' : ThrottleEntry) (entries : Entries)
      → lookup key entries ≡ some entry
      → length (put_last key entry' entries) ≤ length entries
  unfolding put_last
  put_last-length key entry entry' entries found = ground (
    arith,
    erase-length-lt key entry entries found,
    length-append (erase key entries) ((key, entry') ∷ []),
  )

  check-length :
      (now : ℕ) (username client : String) (entries : Entries)
      → length (check casefold limits now username client entries).1 ≤ length entries
  unfolding check
  check-length now username client entries =
      let key = throttle_key casefold limits username client in
      let left = trim limits now entries in
      let shorter = trim-length limits now entries in
      elim (Option-cases (lookup key left)) [
        | inl missing ↦ rw (missing, check) shorter
        | inr (entry, found) ↦
            let kept = put_last-length key entry (decide_entry limits now entry).1 left found in
            rw (found, check) (ground (arith, shorter, kept))
      ]

  answer_call-capacity :
      (call : ThrottleCall) (entries : Entries)
      → length entries ≤ limits.max_entries
      → length (answer_call call entries) ≤ limits.max_entries
  unfolding answer_call record_failure record_success entry_count
  answer_call-capacity (checks now username client) entries h =
      ground (arith, check-length now username client entries)
  answer_call-capacity (fails now username client) entries h = evict-length limits.max_entries _
  answer_call-capacity (succeeds username client) entries h =
      ground (arith, erase-length-le (throttle_key casefold limits username client) entries)
  answer_call-capacity (counts_entries now) entries h =
      ground (arith, trim-length limits now entries)

  -- From entries within the maximum, no sequence of calls leaves more entries than the maximum.
  pub answer_calls-capacity :
      (calls : List ThrottleCall) (entries : Entries)
      → length entries ≤ limits.max_entries
      → length (answer_calls calls entries) ≤ limits.max_entries
  unfolding answer_calls
  answer_calls-capacity [] entries h = h
  answer_calls-capacity (call ∷ calls) entries h =
      answer_calls-capacity calls (answer_call call entries) (answer_call-capacity call entries h)
