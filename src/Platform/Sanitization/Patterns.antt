-- ===== src/Platform/Sanitization/Patterns.antt =====
-- apps/backend/app/platform/sanitization.py: the two regular expressions, as a class for each
-- character, and `fullmatch`.
use Prim.Native.Char.{Char, code}
use supersonic.Prelude.{
  Bool, true, false, ◌&&◌, ◌||◌, List, [], ◌∷◌, ◌++◌, String, ℕ, zero, suc, leb, ◌==◌, nat_eq,
}

abbrev pub Pattern : Type 0
Pattern = List (Char → Bool)

-- `[0-9a-f]`
unfoldable pub is_hex : Char → Bool
is_hex c = leb 0x30 (code c) && leb (code c) 0x39 || leb 0x61 (code c) && leb (code c) 0x66

unfoldable pub is_char : Char → Char → Bool
is_char d c = code c == code d

unfoldable pub repeat : ℕ → (Char → Bool) → Pattern
repeat zero p = []
repeat (suc n) p = p ∷ repeat n p

-- A text that is matched as it stands.
unfoldable pub literal : String → Pattern
unfolding is_char
literal String.[] = []
literal (String.◌∷◌ c s) = is_char c ∷ literal s

-- `pattern.fullmatch(text) is not None`
unfoldable pub fullmatch : Pattern → String → Bool
fullmatch [] String.[] = true
fullmatch [] (String.◌∷◌ c s) = false
fullmatch (p ∷ ps) String.[] = false
fullmatch (p ∷ ps) (String.◌∷◌ c s) = p c && fullmatch ps s

-- `_UUID_TEXT`
unfoldable pub uuid_pattern : Pattern
unfolding is_hex repeat literal
uuid_pattern =
    repeat 8 is_hex
    ++ literal "-"
    ++ repeat 4 is_hex
    ++ literal "-"
    ++ repeat 4 is_hex
    ++ literal "-"
    ++ repeat 4 is_hex
    ++ literal "-"
    ++ repeat 12 is_hex

-- `_AUDIT_SIMULATED_RISK_EVENT_ID`
unfoldable pub simulated_pattern : Pattern
unfolding literal uuid_pattern
simulated_pattern = literal "simulated-takeover-" ++ uuid_pattern

unfoldable pub is_uuid_text : String → Bool
unfolding fullmatch uuid_pattern
is_uuid_text s = fullmatch uuid_pattern s
