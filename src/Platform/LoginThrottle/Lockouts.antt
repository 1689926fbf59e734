-- ===== src/Platform/LoginThrottle/Lockouts.antt =====
-- apps/backend/app/platform/throttle.py: what `check` answers after a failure or a success.
use supersonic.Prelude.{
  refl, arith, true, false, none, some, ◌∙◌, String, ℕ, List, [], ◌<◌, ◌≤◌, ◌++◌, length, ◌≡◌, ◌∷◌,
  ◌+◌, ◌-◌,
}
use supersonic.Platform.LoginThrottle.{
  throttle_key_eq, Limits, ThrottleKey, record_failure, check, throttle_key, Entries, ThrottleEntry,
  put_last, entry_or_new, failed_entry, discard_expired, trim, seconds_up, trim_entry,
  record_success, are_positive,
}
use supersonic.Prelude.Dict.{lookup, erase, lookup-append, lookup-erase, lookup_self}
use supersonic.Platform.LoginThrottle.Entries.{trim-append, evict-last, trim-lookup_none}

module _ (casefold : String → String) (limits : Limits) (username client : String) where
  abbrev own_key : ThrottleKey
  own_key = throttle_key casefold limits username client

  -- What is recorded of the key when its failures are trimmed.
  abbrev pub recent : ℕ → Entries → ThrottleEntry
  recent now entries = entry_or_new (lookup own_key (trim limits now entries))

  -- The failures of the key within the window, this one included.
  abbrev pub window_failures : ℕ → Entries → List ℕ
  window_failures now entries =
      discard_expired limits.failure_window now ((recent now entries).failures ++ now ∷ [])

  abbrev locked_entry : ℕ → ThrottleEntry
  locked_entry until = record { failures = []; locked_until = some until }

  locked_lem :
      (now : ℕ) (entries : Entries)
      → 0 < limits.max_entries
      → limits.max_failures ≤ length (window_failures now entries)
      → (left : Entries) × (record_failure casefold limits now username client entries
          ≡ left ++ (own_key, locked_entry (now + limits.lockout)) ∷ [])
        × (lookup own_key left ≡ none)
  unfolding record_failure put_last failed_entry
  locked_lem now entries h full =
      let kept = erase own_key (trim limits now entries) in
      let (left, e, missing) =
        evict-last limits.max_entries own_key (locked_entry (now + limits.lockout)) kept h
          (lookup-erase own_key (trim limits now entries)) in
      (left, ground (arith, e), missing)

  -- A lock that still runs at `now` survives the trimming.
  trim-locked :
      (now until : ℕ) (left : Entries)
      → now < until
      → lookup own_key left ≡ none
      → lookup own_key (trim limits now (left ++ (own_key, locked_entry until) ∷ []))
        ≡ some (locked_entry until)
  unfolding trim trim_entry discard_expired
  trim-locked now until left h missing =
      let entry = locked_entry until in
      let alone : trim limits now ((own_key, entry) ∷ []) ≡ (own_key, entry) ∷ [] = ground arith in
      rw (trim-append limits now left ((own_key, entry) ∷ []), alone)
        (lookup-append own_key (trim limits now left) ((own_key, entry) ∷ [])
            (trim-lookup_none limits now own_key left missing)
          ∙ lookup_self own_key entry)

  -- With positive limits, a failure that brings the failures within the window to the maximum locks
  -- the key out: a check at any reading before the end of the lockout refuses, and tells the
  -- seconds that are left, rounded up.
  pub record_failure-locks :
      (now later : ℕ) (entries : Entries)
      → are_positive limits ≡ true
      → limits.max_failures ≤ length (window_failures now entries)
      → later < now + limits.lockout
      → (check casefold limits later username client
          (record_failure casefold limits now username client entries)).0
        ≡ record {
          allowed = false;
          retry_after = some (seconds_up limits.ticks_per_second (now + limits.lockout - later));
        }
  unfolding check
  record_failure-locks now later entries h full l =
      let room : 0 < limits.max_entries = ground (arith, h) in
      let (left, e, missing) = locked_lem now entries room full in
      rw (e, trim-locked later (now + limits.lockout) left l missing, check) (ground (arith, l))

  -- After a success is recorded, a check of the same key at any reading allows it.
  pub record_success-allows :
      (later : ℕ) (entries : Entries)
      → (check casefold limits later username client
          (record_success casefold limits username client entries)).0
        ≡ record { allowed = true; retry_after = none }
  unfolding check record_success
  record_success-allows later entries =
      rw
        (
          trim-lookup_none limits later own_key (erase own_key entries)
              (lookup-erase own_key entries),
          check,
        )
        refl
