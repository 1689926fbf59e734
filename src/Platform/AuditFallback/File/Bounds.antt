-- ===== src/Platform/AuditFallback/File/Bounds.antt =====
-- apps/backend/app/platform/audit_fallback.py: the size of the file.
use supersonic.Prelude.{
  String, Option, none, some, ℕ, ◌+◌, leb, ltb, concat, ◌∷◌, [], ◌≡◌, refl, arith, true, Bool-cases,
  inl, inr, Option-cases, bind-some, pure, ap, sym, some_injective, ◌⊎◌, false, ◌≤◌,
}
use supersonic.Prelude.Triples.{Ends, Ends-continue}
use supersonic.Platform.Models.{AuditEvent, AuditDelivery}
use supersonic.Platform.Sanitization.{PythonTexts, sanitize_audit_event}
use supersonic.Platform.AuditFallback.{LineTexts, fallback_event, encode_event, is_fallback_event}
use supersonic.Platform.AuditFallback.File.{
  os_error, FileAccess, with_line, current_size, append_line, append, FallbackError,
}

fallback_event-delivery :
    (texts : PythonTexts) (event result : AuditEvent)
    → fallback_event texts event ≡ some result
    → result.delivery ≡ AuditDelivery.fallback
unfolding fallback_event
fallback_event-delivery texts event result h = elim (Bool-cases (is_fallback_event texts event)) [
  | inl b ↦
      let (e, _, k) = bind-some (sanitize_audit_event texts event) _ result (rw b at h) in
      ap (λ r. r.delivery) (sym (some_injective k))
  | inr b ↦ cc (rw b at h)
]

-- A text that is joined has the bytes of its parts.
abbrev pub IsAdditive : FileAccess → Type 0
IsAdditive files = (s t : String) → files.size (concat (s ∷ t ∷ [])) ≡ files.size s + files.size t

module _ (files : FileAccess) (max_bytes : ℕ) where
  abbrev pub Fits : Option String → Type 0
  Fits file = leb (current_size files max_bytes file) max_bytes ≡ true

  pub size-with_line :
      IsAdditive files
      → (file : Option String) (line : String)
      → files.size (with_line file line) ≡ current_size files max_bytes file + files.size line
  size-with_line h none line = omega arith
  size-with_line h (some text) line = h text line

  -- A write that is interrupted leaves the file as it was, or with a part of the line.
  abbrev pub IsPartial : Type 0
  IsPartial =
      (file : Option String) (line : String) (left : Option String)
      → files.interrupted file line ≡ some left
      → (left ≡ file)
        ⊎ ((part : String) × (files.size part ≤ files.size line)
            × (left ≡ some (with_line file part)))

  -- What an append that raised left.
  abbrev pub IsLeft : Option String → FallbackError → Option String → Type 0
  IsLeft file e left = Fits left × ((left ≡ file) ⊎ (e ≡ os_error))

  left-Fits :
      IsAdditive files
      → IsPartial
      → (file : Option String) (line : String) (left : Option String) → Fits file
      → ltb max_bytes (current_size files max_bytes file + files.size line) ≡ false
      → files.interrupted file line ≡ some left
      → Fits left
  left-Fits h partial file line left p room e = elim (partial file line left e) [
    | inl same ↦ rw same p
    | inr (part, le, is) ↦ rw is (ground (arith, size-with_line h file part, le, room))
  ]

  append_line-Fits :
      IsAdditive files
      → IsPartial
      → (line : String) (file : Option String) → Fits file
      → Ends (λ _ f. Fits f) (λ e f. IsLeft file e f) (append_line files max_bytes line file)
  unfolding append_line
  append_line-Fits h partial line file p =
      let size = size-with_line h file line in
      elim (Bool-cases (ltb max_bytes (current_size files max_bytes file + files.size line))) [
        | inl b ↦ rw b (p, inl refl)
        | inr b ↦ elim (Option-cases (files.interrupted file line)) [
          | inl n ↦ rw (b, n) (ground (arith, size, b))
          | inr (left, e) ↦ rw (b, e) (left-Fits h partial file line left p b e, inr refl)
        ]
      ]

  module _ (texts : PythonTexts) (lines : LineTexts) where
    -- Where the sizes of joined texts add up and a write that an OSError interrupts leaves the file
    -- as it was or with a part of the line that is no longer than the line, an append to a file of
    -- at most max_bytes leaves a file of at most max_bytes, whether it returns or raises. What it
    -- returns is delivered as fallback, and if it raises anything but the OSError, the file is as
    -- it was.
    pub append-Fits :
        IsAdditive files
        → IsPartial
        → (event : AuditEvent) (file : Option String) → Fits file
        → Ends
            (λ e f. Fits f × (e.delivery ≡ AuditDelivery.fallback))
            (λ e f. IsLeft file e f)
            (append files max_bytes texts lines event file)
    unfolding append
    append-Fits h partial event file p = elim (Option-cases (fallback_event texts event)) [
      | inl n ↦ rw n (p, inl refl)
      | inr (e, s) ↦ rw s (elim (Option-cases (encode_event texts lines e)) [
        | inl n ↦ rw n (p, inl refl)
        | inr (line, t) ↦ rw t (
            Ends-continue (append_line files max_bytes line file) (λ _. pure e) (λ _ f. Fits f)
              (λ r f. Fits f × (r.delivery ≡ AuditDelivery.fallback)) (λ e f. IsLeft file e f)
              (append_line-Fits h partial line file p)
              (λ _ f q. (q, fallback_event-delivery texts event e s)))
      ])
    ]
