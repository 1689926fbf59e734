-- ===== src/Platform/AuditFallback/File/Loading.antt =====
-- apps/backend/app/platform/audit_fallback.py: a fact that is appended and loaded.
use supersonic.Prelude.{
  false, List, [], ◌∷◌, ◌++◌, String, ◌==◌, string_eq, Option, none, some, ◌≡◌, refl, ap, ok,
  some_injective, ℕ, Bool-cases, inl, ltb, inr, concat, ◌+◌, sym,
}
use supersonic.Prelude.Partial.{bind-some}
use supersonic.Platform.Models.{AuditEvent}
use supersonic.Platform.Sanitization.{PythonTexts}
use supersonic.Platform.AuditFallback.{
  LineTexts, fallback_event, encode_event, fields_of, encode_payload,
}
use supersonic.Platform.AuditFallback.Decode.{decode_event, decode_lines}
use supersonic.Platform.AuditFallback.File.{
  or_format_error, FileAccess, load_events, read_source, with_line, append, append_line,
  current_size,
}
use supersonic.Prelude.Triples.{ok_injective}
use supersonic.Platform.AuditFallback.Fields.{IsFileFact}
use supersonic.Contract.{JsonValue}
use supersonic.Platform.Sanitization.Plain.{IsPythonTexts}
use supersonic.Platform.AuditFallback.File.Bounds.{IsAdditive, size-with_line}
use supersonic.Platform.AuditFallback.RoundTrip.{decode-encode}

or_format_error-ok :
    {A : Type 0} (o : Option A) (file : Option String) (a : A)
    → or_format_error o file ≡ (ok a, file)
    → o ≡ some a
or_format_error-ok none file a h = cc
or_format_error-ok (some b) file a h = ap some (ok_injective (ap (λ r. r.0) h))

module _ (texts : PythonTexts) (lines : LineTexts) where
  decode_lines-snoc :
      (before : List String) (line : String) (events : List AuditEvent) (event : AuditEvent)
      → decode_lines texts lines before ≡ some events
      → (line == "") ≡ false
      → decode_event texts lines line ≡ some event
      → decode_lines texts lines (before ++ line ∷ []) ≡ some (events ++ event ∷ [])
  unfolding decode_lines
  decode_lines-snoc [] line events event h full e =
      rw (full, e) (ap (λ v. some (v ++ event ∷ [])) (some_injective h))
  decode_lines-snoc (l ∷ before) line events event h full e = elim (Bool-cases (l == "")) [
    | inl b ↦ cc (rw b at h)
    | inr b ↦
        let (e1, h1, k) = bind-some (decode_event texts lines l) _ events (rw b at h) in
        let (es, h2, k2) = bind-some (decode_lines texts lines before) _ events k in
        rw (b, h1, decode_lines-snoc before line es event h2 full e)
          (ap (λ v. some (v ++ event ∷ [])) (some_injective k2))
  ]

  module _ (files : FileAccess) (max_bytes : ℕ) where
    abbrev pub lines_of : Option String → List String
    lines_of none = []
    lines_of (some text) = files.splitlines text

    load-decode_lines :
        (file : Option String) (events : List AuditEvent)
        → load_events files max_bytes texts lines file ≡ (ok events, file)
        → decode_lines texts lines (lines_of file) ≡ some events
    unfolding load_events read_source decode_lines
    load-decode_lines none events h = cc
    load-decode_lines (some text) events h = elim (Bool-cases (ltb max_bytes (files.size text))) [
      | inl b ↦ cc (rw b at h)
      | inr b ↦ or_format_error-ok _ (some text) events (rw b at h)
    ]

    -- A line that is written at the end of a file is read after the others.
    abbrev pub Splits : Option String → String → Type 0
    Splits file line =
        lines_of (some (with_line file (concat (line ∷ "\n" ∷ [])))) ≡ lines_of file ++ line ∷ []

    load-line :
        (file : Option String) (line : String) (events : List AuditEvent) (event : AuditEvent)
        → load_events files max_bytes texts lines file ≡ (ok events, file)
        → (line == "") ≡ false
        → decode_event texts lines line ≡ some event
        → Splits file line
        → ltb max_bytes (files.size (with_line file (concat (line ∷ "\n" ∷ [])))) ≡ false
        → load_events files max_bytes texts lines
            (some (with_line file (concat (line ∷ "\n" ∷ []))))
          ≡ (ok (events ++ event ∷ []), some (with_line file (concat (line ∷ "\n" ∷ []))))
    unfolding load_events read_source
    load-line file line events event loaded full read split size =
        rw
          (
            size,
            split,
            decode_lines-snoc (lines_of file) line events event
                (load-decode_lines file events loaded) full read,
          )
          refl

    append-fact :
        (event : AuditEvent) (line : String) (file : Option String)
        → IsFileFact texts event
        → encode_event texts lines event ≡ some line
        → ltb max_bytes (current_size files max_bytes file + files.size line) ≡ false
        → files.interrupted file line ≡ none
        → append files max_bytes texts lines event file ≡ (ok event, some (with_line file line))
    unfolding append append_line fallback_event
    append-fact event line file h written size writes =
        rw (h.valid, h.clean, sym h.delivered, written, size, writes) refl

    -- An object that `json` writes as a line and reads back from it.
    abbrev pub IsLineOf : AuditEvent → String → Type 0
    IsLineOf event line =
        (lines.dumps (JsonValue.object (fields_of (encode_payload texts lines event))) ≡ some line)
        × (lines.loads line
            ≡ some (JsonValue.object (fields_of (encode_payload texts lines event))))
        × ((line == "") ≡ false)

    -- If a fallback file that loads, or no file, has room for the line of a fact in the form that
    -- the file holds, and the line is written without an OSError, then append returns the fact and
    -- writes the line, and loading the file afterwards returns the facts that it held and then this
    -- one. Assumed: json reads back what it wrote of the fact, which is not an empty text,
    -- fromisoformat reads the time back, splitlines splits the new line off, sizes add up when
    -- texts are joined, lower keeps lower-case texts and the UUID parser keeps canonical UUIDs.
    pub append-load_events :
        (laws : IsPythonTexts texts) (additive : IsAdditive files) (event : AuditEvent)
        (line : String) (file : Option String) (events : List AuditEvent)
        → IsFileFact texts event
        → lines.fromisoformat (lines.isoformat event.occurred_at) ≡ some event.occurred_at
        → IsLineOf event line
        → Splits file line
        → load_events files max_bytes texts lines file ≡ (ok events, file)
        → ltb max_bytes (current_size files max_bytes file + files.size (concat (line ∷ "\n" ∷ [])))
          ≡ false
        → files.interrupted file (concat (line ∷ "\n" ∷ [])) ≡ none
        → let file' = some (with_line file (concat (line ∷ "\n" ∷ []))) in
          (append files max_bytes texts lines event file ≡ (ok event, file'))
          × (load_events files max_bytes texts lines file' ≡ (ok (events ++ event ∷ []), file'))
    append-load_events laws additive event line file events fact time (written, read, full) split
          loaded size writes =
        let (encoded, decoded) = decode-encode texts lines laws event line fact time written read in
        (
          append-fact event (concat (line ∷ "\n" ∷ [])) file fact encoded size writes,
          load-line file line events event loaded full decoded split
              (rw (size-with_line files max_bytes additive file (concat (line ∷ "\n" ∷ []))) size),
        )
