-- ===== src/Platform/Sanitization/Plain.antt =====
-- apps/backend/app/platform/sanitization.py: what is documented of the text functions that it calls,
-- and the texts that they leave as they are.
use Prim.Native.Char.{Char, code}
use supersonic.Prelude.{
  Bool, true, ◌&&◌, ◌||◌, [], ◌∷◌, ◌++◌, String, ℕ, zero, suc, leb, nat_eq, All, All-append, ◌≡◌,
  some, arith, refl,
}
use supersonic.Platform.Sanitization.Patterns.{
  Pattern, is_hex, is_char, repeat, literal, fullmatch, uuid_pattern, simulated_pattern,
  is_uuid_text,
}
use supersonic.Platform.Sanitization.{PythonTexts}

-- A lower-case letter, a digit, a hyphen or a bracket of ASCII.
unfoldable pub is_plain : Char → Bool
is_plain c =
    let n = code c in
    leb 0x61 n && leb n 0x7a
    || leb 0x30 n && leb n 0x39
    || leb n 0x2d && leb 0x2d n
    || leb n 0x5b && leb 0x5b n
    || leb n 0x5d && leb 0x5d n

unfoldable pub is_plain_text : String → Bool
unfolding is_plain
is_plain_text String.[] = true
is_plain_text (String.◌∷◌ c s) = is_plain c && is_plain_text s

-- `str.lower` leaves such a text as it is, and `str(UUID(text))` is canonical and its own UUID.
pub record IsPythonTexts (texts : PythonTexts) : Type 0 where
  pub lower_plain : (s : String) → is_plain_text s ≡ true → texts.lower s ≡ s
  pub uuid_canonical : (s t : String) → texts.uuid s ≡ some t → is_uuid_text t ≡ true
  pub uuid_fixed : (t : String) → is_uuid_text t ≡ true → texts.uuid t ≡ some t

abbrev IsPlain : (Char → Bool) → Type 0
IsPlain p = (c : Char) → p c ≡ true → is_plain c ≡ true

is_hex-IsPlain : IsPlain is_hex
unfolding is_hex is_plain
is_hex-IsPlain c h = ground (arith, h)

is_char-IsPlain : (d : Char) → is_plain d ≡ true → IsPlain (is_char d)
unfolding is_char is_plain
is_char-IsPlain d h c e = ground (arith, h, e)

repeat-IsPlain : (n : ℕ) (p : Char → Bool) → IsPlain p → All IsPlain (repeat n p)
unfolding repeat
repeat-IsPlain zero p h = tt
repeat-IsPlain (suc n) p h = (h, repeat-IsPlain n p h)

literal-IsPlain : (s : String) → is_plain_text s ≡ true → All IsPlain (literal s)
unfolding literal is_plain_text
literal-IsPlain String.[] h = tt
literal-IsPlain (String.◌∷◌ c s) h =
    (is_char-IsPlain c (ground (arith, h)), literal-IsPlain s (ground (arith, h)))

fullmatch-plain :
    (ps : Pattern) (s : String) → All IsPlain ps → fullmatch ps s ≡ true → is_plain_text s ≡ true
unfolding fullmatch is_plain_text
fullmatch-plain [] String.[] h m = refl
fullmatch-plain [] (String.◌∷◌ c s) h m = cc
fullmatch-plain (p ∷ ps) String.[] h m = cc
fullmatch-plain (p ∷ ps) (String.◌∷◌ c s) h m = ground (arith, m, h.0 c, fullmatch-plain ps s h.1)

-- Patterns that match plain texts only.
abbrev PlainPattern : Type 0
PlainPattern = (ps : Pattern) × All IsPlain ps

infixr 60 ◌then◌
abbrev ◌then◌ : PlainPattern → PlainPattern → PlainPattern
(ps, h) then (qs, k) = (ps ++ qs, All-append IsPlain ps qs h k)

abbrev hexes : ℕ → PlainPattern
hexes n = (repeat n is_hex, repeat-IsPlain n is_hex is_hex-IsPlain)

abbrev texts_of : (s : String) → is_plain_text s ≡ true → PlainPattern
texts_of s h = (literal s, literal-IsPlain s h)

abbrev uuid_texts : PlainPattern
unfolding is_plain is_plain_text
uuid_texts =
    hexes 8
    then texts_of "-" refl
    then hexes 4
    then texts_of "-" refl
    then hexes 4
    then texts_of "-" refl
    then hexes 4
    then texts_of "-" refl
    then hexes 12

pub uuid_text-plain : (s : String) → is_uuid_text s ≡ true → is_plain_text s ≡ true
unfolding is_uuid_text uuid_pattern uuid_texts
uuid_text-plain s h = fullmatch-plain uuid_pattern s uuid_texts.1 h

pub simulated_text-plain :
    (s : String) → fullmatch simulated_pattern s ≡ true → is_plain_text s ≡ true
unfolding simulated_pattern uuid_pattern uuid_texts is_plain is_plain_text
simulated_text-plain s h =
    fullmatch-plain simulated_pattern s (texts_of "simulated-takeover-" refl then uuid_texts).1 h
