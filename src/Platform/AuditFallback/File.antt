-- ===== src/Platform/AuditFallback/File.antt =====
-- apps/backend/app/platform/audit_fallback.py: `JsonlAuditFallback`, while its lock is held.
pub mod Bounds
pub mod Loading
use supersonic.Prelude.{
  Bool, true, false, List, [], ◌∷◌, ◌++◌, String, ◌==◌, string_eq, Option, none, some, ℕ, ◌+◌, ltb,
  concat, if◌then◌else◌, Exec, Result, ok, raise, ◌>>=◌, ◌>>◌, pure, throw,
}
use supersonic.Platform.Models.{AuditEvent}
use supersonic.Platform.Sanitization.{PythonTexts}
use supersonic.Platform.AuditFallback.{LineTexts, fallback_event, encode_event}
use supersonic.Platform.AuditFallback.Decode.{decode_lines}

-- The length of a text in UTF-8, `str.splitlines`, and what a file is left as when opening it or
-- writing a line raises an `OSError`, or `none` where the line is written.
pub record FileAccess : Type 0 where
  pub size : String → ℕ
  pub splitlines : String → List String
  pub interrupted : Option String → String → Option (Option String)

-- `AuditFallbackFull`, `AuditFallbackFormatError` with any exception of the sanitizing, and the
-- `OSError` of a write.
pub data FallbackError : Type 0 where
  full format_error os_error : FallbackError

-- The state is the text of the file, or `none` when there is no file.
abbrev pub FileAction : Type 0 → Type 0
FileAction = Exec FallbackError (Option String)

abbrev pub or_format_error : {A : Type 0} → Option A → FileAction A
or_format_error none = throw format_error
or_format_error (some a) = pure a

-- Opening with `O_APPEND`
abbrev pub with_line : Option String → String → String
with_line none line = line
with_line (some text) line = concat (text ∷ line ∷ [])

module _ (files : FileAccess) (max_bytes : ℕ) where
  abbrev pub current_size : Option String → ℕ
  current_size none = 0
  current_size (some text) = files.size text

  -- The body of `append` under its lock
  unfoldable pub append_line : String → FileAction (Unit {0})
  append_line line file =
      if ltb max_bytes (current_size file + files.size line)
      then (raise full, file)
      else (elim (files.interrupted file line) [
        | none ↦ (ok tt, some (with_line file line))
        | some left ↦ (raise os_error, left)
      ])

  -- `_read_source`, of a file that is there
  unfoldable pub read_source : String → FileAction String
  read_source text = if ltb max_bytes (files.size text) then throw full else pure text

  module _ (texts : PythonTexts) (lines : LineTexts) where
    -- `append`
    unfoldable pub append : AuditEvent → FileAction AuditEvent
    append event = do
      fallback ← or_format_error (fallback_event texts event)
      line ← or_format_error (encode_event texts lines fallback)
      append_line line
      pure fallback

    -- `load_events`
    unfoldable pub load_events : FileAction (List AuditEvent)
    load_events none = (ok [], none)
    load_events (some text) =
        (do
          source ← read_source text
          or_format_error (decode_lines texts lines (files.splitlines source)))
          (some text)
