-- ===== src/Platform/LoginThrottle/Entries.antt =====
-- apps/backend/app/platform/throttle.py: what trimming, evicting and moving to the end do to the
-- entries.
use supersonic.Prelude.{
  refl, arith, none, some, ℕ, length, ◌≡◌, ◌++◌, ◌<◌, ◌≤◌, ◌+◌, ◌∷◌, [], Bool-cases, ltb, inl, inr,
}
use supersonic.Platform.LoginThrottle.{
  throttle_key_eq, trim, evict_lru, Limits, ThrottleKey, Entries, ThrottleEntry,
}
use supersonic.Prelude.Dict.{erase, lookup}

pub trim-length :
    (limits : Limits) (now : ℕ) (entries : Entries)
    → length (trim limits now entries) ≤ length entries
unfolding trim
trim-length limits now [] = ground arith
trim-length limits now ((key, entry) ∷ entries) = ground (arith, trim-length limits now entries)

pub erase-length-le :
    (key : ThrottleKey) (entries : Entries) → length (erase key entries) ≤ length entries
unfolding erase
erase-length-le key [] = ground arith
erase-length-le key ((k, e) ∷ entries) = ground (arith, erase-length-le key entries)

pub erase-length-lt :
    (key : ThrottleKey) (entry : ThrottleEntry) (entries : Entries)
    → lookup key entries ≡ some entry
    → length (erase key entries) + 1 ≤ length entries
unfolding erase lookup
erase-length-lt key entry [] h = absurd (ground arith)
erase-length-lt key entry ((k, e) ∷ entries) h =
    ground (arith, erase-length-lt key entry entries, erase-length-le key entries)

pub evict-length : (n : ℕ) (entries : Entries) → length (evict_lru n entries) ≤ n
unfolding evict_lru
evict-length n [] = ground arith
evict-length n (e ∷ entries) = ground (arith, evict-length n entries)

pub trim-lookup_none :
    (limits : Limits) (now : ℕ) (key : ThrottleKey) (entries : Entries)
    → lookup key entries ≡ none
    → lookup key (trim limits now entries) ≡ none
unfolding trim lookup
trim-lookup_none limits now key [] h = refl
trim-lookup_none limits now key ((k, e) ∷ entries) h =
    ground (arith, trim-lookup_none limits now key entries)

pub trim-append :
    (limits : Limits) (now : ℕ) (entries entries' : Entries)
    → trim limits now (entries ++ entries') ≡ trim limits now entries ++ trim limits now entries'
unfolding trim
trim-append limits now [] entries' = refl
trim-append limits now ((k, e) ∷ entries) entries' =
    ground (arith, trim-append limits now entries entries')

-- The last entry survives the eviction.
pub evict-last :
    (n : ℕ) (key : ThrottleKey) (entry : ThrottleEntry) (entries : Entries)
    → 0 < n
    → lookup key entries ≡ none
    → (left : Entries) × (evict_lru n (entries ++ (key, entry) ∷ []) ≡ left ++ (key, entry) ∷ [])
      × (lookup key left ≡ none)
unfolding evict_lru lookup
evict-last n key entry [] h m = ([], ground arith, refl)
evict-last n key entry ((k, e) ∷ entries) h m =
    let tail : lookup key entries ≡ none = ground arith in
    let (left, evicted, missing) = evict-last n key entry entries h tail in
    let whole = (k, e) ∷ entries ++ (key, entry) ∷ [] in
    elim (Bool-cases (ltb n (length whole))) [
      | inl over ↦ (left, ground (arith, over, evicted), missing)
      | inr fits ↦ ((k, e) ∷ entries, ground (arith, fits), m)
    ]
