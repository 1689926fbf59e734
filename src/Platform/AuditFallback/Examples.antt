-- ===== src/Platform/AuditFallback/Examples.antt =====
-- A fact of an administrator that is written to an empty fallback file.
use Prim.Native.String
use text.Mathlib.TextLemmas.{nil-append, cons-append}
use supersonic.Prelude.{
  String, Option, none, some, ◌∷◌, [], ◌≡◌, refl, concat, ok, text_length, arith, ◌+◌, inr, sym,
  some_injective,
}
use supersonic.Contract.{JsonValue}
use supersonic.Platform.Models.{AuditEvent, AuditDelivery}
use supersonic.Platform.Sanitization.Examples.{
  plain_texts, plain_texts-IsPythonTexts, sanitized_revoke,
}
use supersonic.Platform.AuditFallback.{LineTexts, fields_of, encode_payload, encode_event}
use supersonic.Platform.AuditFallback.Decode.{decode_event}
use supersonic.Platform.AuditFallback.Fields.{IsFileFact}
use supersonic.Platform.AuditFallback.RoundTrip.{decode-encode}
use supersonic.Platform.AuditFallback.File.{FileAccess, append, load_events, with_line}
use supersonic.Platform.AuditFallback.File.Bounds.{append-Fits, Fits, IsAdditive, IsPartial, IsLeft}
use supersonic.Platform.AuditFallback.File.Loading.{append-load_events}
use supersonic.Prelude.Triples.{Ends}

abbrev fact : AuditEvent
fact = sanitized_revoke AuditDelivery.fallback

abbrev iso_texts : LineTexts
iso_texts = record {
  dumps = λ _. none;
  loads = λ _. none;
  isoformat = λ _. "2023-11-14T22:13:20+00:00";
  fromisoformat = λ _. some 1700000000;
}

-- A writer and a reader of the one line.
abbrev one_line : LineTexts
one_line = record iso_texts {
  dumps = λ _. some "the line";
  loads = λ _. some (JsonValue.object (fields_of (encode_payload plain_texts iso_texts fact)));
}

-- Texts of ASCII characters, and a file that holds the one line.
abbrev one_file : FileAccess
one_file = record {
  size = text_length;
  splitlines = λ _. "the line" ∷ [];
  interrupted = λ _ _. none;
}

text_length-append : (s t : String) → text_length (String.◌++◌ s t) ≡ text_length s + text_length t
unfolding text_length
text_length-append String.[] t = rw (nil-append t) (omega arith)
text_length-append (String.◌∷◌ c s) t =
    rw (cons-append c s t) (ground (arith, text_length-append s t))

one_file-IsAdditive : IsAdditive one_file
unfolding concat text_length
one_file-IsAdditive s t =
    ground (arith, text_length-append s (String.◌++◌ t ""), text_length-append t "")

fact-IsFileFact : IsFileFact plain_texts fact
unfolding supersonic.Platform.AuditFallback.is_fallback_event plain_texts
    supersonic.Prelude.ℕ_discrete supersonic.Platform.Models.AuditResult-discrete
    supersonic.Platform.Models.AuditDelivery-discrete supersonic.Prelude.String-discrete
    supersonic.Prelude.text_length supersonic.Platform.Sanitization.sanitize_audit_event
    supersonic.Platform.Sanitization.sanitize_uuid_metadata
    supersonic.Platform.Sanitization.sanitize_target_id
    supersonic.Platform.Sanitization.sanitize_audit_parameters
    supersonic.Platform.Sanitization.sanitize_text_value
    supersonic.Platform.Sanitization.sanitize_required_enum_metadata
    supersonic.Platform.Sanitization.sanitize_enum_metadata
fact-IsFileFact = record {
  valid = refl;
  clean = refl;
  delivered = refl;
  identified = refl;
  actor = refl;
  session = refl;
}

decode-encode_example :
    (encode_event plain_texts one_line fact ≡ some (concat ("the line" ∷ "\n" ∷ [])))
    × (decode_event plain_texts one_line "the line" ≡ some fact)
unfolding encode_payload
decode-encode_example =
    decode-encode plain_texts one_line plain_texts-IsPythonTexts fact "the line" fact-IsFileFact
      refl refl refl

-- The file is not there yet, and may grow to a mebibyte.
append-load_events_example :
    let file' = some (concat ("the line" ∷ "\n" ∷ [])) in
    (append one_file 1048576 plain_texts one_line fact none ≡ (ok fact, file'))
    × (load_events one_file 1048576 plain_texts one_line file' ≡ (ok (fact ∷ []), file'))
unfolding encode_payload supersonic.Prelude.String-discrete load_events text_length concat
append-load_events_example =
    append-load_events plain_texts one_line one_file 1048576 plain_texts-IsPythonTexts
      one_file-IsAdditive fact "the line" none [] fact-IsFileFact refl (refl, refl, refl) refl refl
      refl refl

-- The file is created, but nothing is written to it.
abbrev full_disk : FileAccess
full_disk = record one_file { interrupted = λ file _. some (some (with_line file "")) }

full_disk-IsPartial : IsPartial full_disk 1048576
unfolding text_length
full_disk-IsPartial file line left e = inr ("", omega arith, sym (some_injective e))

append-Fits_example :
    Ends
      (λ e f. Fits full_disk 1048576 f × (e.delivery ≡ AuditDelivery.fallback))
      (λ e f. IsLeft full_disk 1048576 none e f)
      (append full_disk 1048576 plain_texts one_line fact none)
append-Fits_example =
    append-Fits full_disk 1048576 plain_texts one_line one_file-IsAdditive full_disk-IsPartial fact
      none refl
