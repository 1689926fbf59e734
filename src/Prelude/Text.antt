-- ===== src/Prelude/Text.antt =====
-- Texts as Python's `str`: equality, `str.strip` and `len`, by code points.
use Prim.Native.Char.{Char, code}
use Prim.Native.Nat.{ℕ, zero, suc, ◌+◌, ◌/◌, ◌%◌, ◌≤◌, Ordering}
use Prim.Native.String
use Prim.Native.String.{String}
use mathlib.Core.Bool.{Bool, true, false, false≢true, ◌&&◌, ◌||◌}
use mathlib.Core.List.{List, [], ◌∷◌}
use mathlib.Core.Logic.{inl, inr, ◌≢◌}
use mathlib.Core.Path.{◌≡◌, refl, sym, ap, ◌∙◌}
use native.Mathlib.Omega.{arith}
use text.Mathlib.Text.{◌==◌ as str_eq}
use text.Mathlib.TextEquality.{eq_iff}
use supersonic.Prelude.Lists.{contains}
use supersonic.Prelude.Tests.{Bool-cases, Eq, leb, ltb, if◌then◌else◌, nat_eq}

decide_text : {s t : String} (b : Bool) → (b ≡ true → s ≡ t) × (s ≡ t → b ≡ true) → Dec (s ≡ t)
decide_text true h = yes (h.0 refl)
decide_text false h = no (λ e. cc (h.1 e))

unfoldable pub String-discrete : Discrete String
unfolding decide_text
String-discrete s t = decide_text (str_eq s t) (eq_iff s t)

instance abbrev pub string_eq : Eq String
string_eq = record { discrete = String-discrete }

-- `str.isspace` of one character: the white space of Unicode as Python counts it.
unfoldable pub is_space : Char → Bool
unfolding contains
is_space ch =
    let c = code ch in
    leb 0x9 c && leb c 0xd
    || leb 0x1c c && leb c 0x20
    || leb 0x2000 c && leb c 0x200a
    || contains c (0x85 ∷ 0xa0 ∷ 0x1680 ∷ 0x2028 ∷ 0x2029 ∷ 0x202f ∷ 0x205f ∷ 0x3000 ∷ [])

-- `len(s)`
unfoldable pub text_length : String → ℕ
text_length String.[] = 0
text_length (String.◌∷◌ c s) = suc (text_length s)

unfoldable pub lstrip : String → String
lstrip String.[] = ""
lstrip (String.◌∷◌ c s) = if is_space c then lstrip s else String.◌∷◌ c s

-- A character before a text that `rstrip` returned.
keep_before : Char → String → String
keep_before c String.[] = if is_space c then "" else String.◌∷◌ c ""
keep_before c (String.◌∷◌ d s) = String.◌∷◌ c (String.◌∷◌ d s)

unfoldable pub rstrip : String → String
unfolding keep_before
rstrip String.[] = ""
rstrip (String.◌∷◌ c s) = keep_before c (rstrip s)

-- `"".join(parts)`, and a formatted string literal given by its parts.
unfoldable pub concat : List String → String
concat [] = ""
concat (s ∷ parts) = String.◌++◌ s (concat parts)

-- `separator.join(parts)`
unfoldable pub join : String → List String → String
unfolding concat
join separator [] = ""
join separator (s ∷ []) = s
join separator (s ∷ t ∷ parts) = concat (s ∷ separator ∷ join separator (t ∷ parts) ∷ [])

-- `sorted(set(texts))`: UTF-8 orders texts as their code points do.
insert_text : String → List String → List String
insert_text s [] = s ∷ []
insert_text s (t ∷ texts) = elim (String.compare s t) [
  | Ordering.lt ↦ s ∷ t ∷ texts
  | Ordering.eq ↦ t ∷ texts
  | Ordering.gt ↦ t ∷ insert_text s texts
]

unfoldable pub sorted : List String → List String
unfolding insert_text
sorted [] = []
sorted (s ∷ texts) = insert_text s (sorted texts)

digit : ℕ → String
digit n = String.slice "0123456789" n (n + 1)

show_digits : ℕ → ℕ → String
unfolding digit
show_digits zero n = ""
show_digits (suc fuel) n =
    let front = show_digits fuel (n / 10) in
    if ltb n 10 then digit n else String.◌++◌ front (digit (n % 10))

-- `str(n)`: a number has no more digits than its value, plus one.
unfoldable pub show : ℕ → String
unfolding show_digits
show n = show_digits (n + 1) n

-- `s.strip()`
unfoldable pub strip : String → String
unfolding lstrip rstrip
strip s = rstrip (lstrip s)

keep_before-le : (c : Char) (s : String) → text_length (keep_before c s) ≤ suc (text_length s)
unfolding keep_before text_length
keep_before-le c String.[] = elim (Bool-cases (is_space c)) [
  | inl e ↦ rw e (omega arith)
  | inr e ↦ rw e (omega arith)
]
keep_before-le c (String.◌∷◌ d s) = omega arith

rstrip-le : (s : String) → text_length (rstrip s) ≤ text_length s
unfolding rstrip text_length
rstrip-le String.[] = omega arith
rstrip-le (String.◌∷◌ c s) = omega (arith, keep_before-le c (rstrip s), rstrip-le s)

lstrip-le : (s : String) → text_length (lstrip s) ≤ text_length s
unfolding lstrip text_length
lstrip-le String.[] = omega arith
lstrip-le (String.◌∷◌ c s) = ground (arith, lstrip-le s)

pub strip-le : (s : String) → text_length (strip s) ≤ text_length s
unfolding strip
strip-le s = omega (arith, rstrip-le (lstrip s), lstrip-le s)

rstrip-keep_before :
    (c : Char) (s : String) → rstrip s ≡ s → rstrip (keep_before c s) ≡ keep_before c s
unfolding rstrip
rstrip-keep_before c String.[] h = elim (Bool-cases (is_space c)) [
  | inl e ↦ rw e
  | inr e ↦ rw e (rw e)
]
rstrip-keep_before c (String.◌∷◌ d s) h = ap (keep_before c) h

rstrip_idem : (s : String) → rstrip (rstrip s) ≡ rstrip s
unfolding rstrip
rstrip_idem String.[] = refl
rstrip_idem (String.◌∷◌ c s) = rstrip-keep_before c (rstrip s) (rstrip_idem s)

lstrip-keep_before :
    (c : Char) (s : String) → is_space c ≡ false → lstrip (keep_before c s) ≡ keep_before c s
unfolding lstrip keep_before
lstrip-keep_before c String.[] h = ground arith
lstrip-keep_before c (String.◌∷◌ d s) h = ground arith

lstrip-rstrip-lstrip : (s : String) → lstrip (rstrip (lstrip s)) ≡ rstrip (lstrip s)
unfolding lstrip rstrip
lstrip-rstrip-lstrip String.[] = refl
lstrip-rstrip-lstrip (String.◌∷◌ c s) =
    ground (arith, lstrip-rstrip-lstrip s, lstrip-keep_before c (rstrip s))

pub strip_idem : (s : String) → strip (strip s) ≡ strip s
unfolding strip
strip_idem s = ap rstrip (lstrip-rstrip-lstrip s) ∙ rstrip_idem (lstrip s)

-- Two texts that compare as different, such as two literals (by `refl`).
pub ne_by_compare : (s t : String) → str_eq s t ≡ false → s ≢ t
ne_by_compare s t h = λ e. false≢true (sym h ∙ (eq_iff s t).1 e)
