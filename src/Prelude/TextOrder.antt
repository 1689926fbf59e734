-- ===== src/Prelude/TextOrder.antt =====
-- The order of texts by code points, as PostgreSQL orders UUIDs and as Python orders texts.
use Prim.Native.Nat.{Ordering, compare as compare_ℕ}
use Prim.Native.Char.{code}
use Prim.Native.String
use Prim.Native.String.compare
use Prim.Native.String.{String, then}
use mathlib.Core.Path.{◌≡◌, refl, sym, ap, ◌∙◌}
use mathlib.Core.Logic.{◌⊎◌, inl, inr}
use mathlib.Core.Bool.{Bool, true, false}
use native.Mathlib.Omega.{arith}
use text.Mathlib.TextEquality.{path_by_compare}
use text.Mathlib.TextPositions.{compare_refl}
use supersonic.Prelude.{ℕ}

then_mono :
    (b x y : Ordering)
    → (x ≡ Ordering.lt → y ≡ Ordering.lt)
    → then b x ≡ Ordering.lt
    → then b y ≡ Ordering.lt
then_mono Ordering.lt x y h p = refl
then_mono Ordering.eq x y h p = h p
then_mono Ordering.gt x y h p = p

then_trans :
    (a b c : Ordering) (x y z : Ordering)
    → (a ≡ Ordering.lt → b ≡ Ordering.lt → c ≡ Ordering.lt)
    → (a ≡ Ordering.eq → b ≡ c)
    → (b ≡ Ordering.eq → a ≡ c)
    → (x ≡ Ordering.lt → y ≡ Ordering.lt → z ≡ Ordering.lt)
    → then a x ≡ Ordering.lt
    → then b y ≡ Ordering.lt
    → then c z ≡ Ordering.lt
then_trans Ordering.lt Ordering.lt c x y z h1 h2 h3 h4 p q = rw (h1 refl refl)
then_trans Ordering.lt Ordering.eq c x y z h1 h2 h3 h4 p q = rw (sym (h3 refl))
then_trans Ordering.lt Ordering.gt c x y z h1 h2 h3 h4 p q = cc
then_trans Ordering.eq b c x y z h1 h2 h3 h4 p q = rw (sym (h2 refl)) (then_mono b y z (h4 p) q)
then_trans Ordering.gt b c x y z h1 h2 h3 h4 p q = cc

compare_ℕ-lt :
    (a b c : ℕ)
    → compare_ℕ a b ≡ Ordering.lt
    → compare_ℕ b c ≡ Ordering.lt
    → compare_ℕ a c ≡ Ordering.lt
compare_ℕ-lt a b c h k = ground (arith, h, k)

compare_ℕ-eq : (a b c : ℕ) → compare_ℕ a b ≡ Ordering.eq → compare_ℕ b c ≡ compare_ℕ a c
compare_ℕ-eq a b c h = ground (arith, h)

compare_ℕ-eq_right : (a b c : ℕ) → compare_ℕ b c ≡ Ordering.eq → compare_ℕ a b ≡ compare_ℕ a c
compare_ℕ-eq_right a b c h = ground (arith, h)

compare_ℕ-gt : (a b : ℕ) → compare_ℕ a b ≡ Ordering.gt → compare_ℕ b a ≡ Ordering.lt
compare_ℕ-gt a b h = ground (arith, h)

Ordering-cases : (o : Ordering) → (o ≡ Ordering.lt) ⊎ ((o ≡ Ordering.eq) ⊎ (o ≡ Ordering.gt))
Ordering-cases Ordering.lt = inl refl
Ordering-cases Ordering.eq = inr (inl refl)
Ordering-cases Ordering.gt = inr (inr refl)

pub compare_trans :
    (s t u : String)
    → String.compare s t ≡ Ordering.lt
    → String.compare t u ≡ Ordering.lt
    → String.compare s u ≡ Ordering.lt
compare_trans s String.[] String.[] p q = cc
compare_trans String.[] t (String.◌∷◌ e u) p q = compare.nil-cons e u
compare_trans String.[] (String.◌∷◌ d t) String.[] p q = cc (compare.cons-nil d t)
compare_trans (String.◌∷◌ c s) String.[] u p q = cc (compare.cons-nil c s)
compare_trans (String.◌∷◌ c s) (String.◌∷◌ d t) String.[] p q = cc (compare.cons-nil d t)
compare_trans (String.◌∷◌ c s) (String.◌∷◌ d t) (String.◌∷◌ e u) p q =
    compare.cons-cons c e s u
    ∙ then_trans (compare_ℕ (code c) (code d)) (compare_ℕ (code d) (code e))
        (compare_ℕ (code c) (code e)) (String.compare s t) (String.compare t u) (String.compare s u)
        (compare_ℕ-lt (code c) (code d) (code e)) (compare_ℕ-eq (code c) (code d) (code e))
        (compare_ℕ-eq_right (code c) (code d) (code e)) (compare_trans s t u)
        (sym (compare.cons-cons c d s t) ∙ p) (sym (compare.cons-cons d e t u) ∙ q)

then_flip :
    (a b x y : Ordering)
    → (a ≡ Ordering.gt → b ≡ Ordering.lt)
    → (a ≡ Ordering.eq → b ≡ Ordering.eq)
    → (x ≡ Ordering.gt → y ≡ Ordering.lt)
    → then a x ≡ Ordering.gt
    → then b y ≡ Ordering.lt
then_flip Ordering.lt b x y h1 h2 h3 p = cc
then_flip Ordering.eq b x y h1 h2 h3 p = rw (h2 refl) (h3 p)
then_flip Ordering.gt b x y h1 h2 h3 p = rw (h1 refl) refl

compare_ℕ-eq_sym : (a b : ℕ) → compare_ℕ a b ≡ Ordering.eq → compare_ℕ b a ≡ Ordering.eq
compare_ℕ-eq_sym a b h = ground (arith, h)

pub compare_flip :
    (s t : String) → String.compare s t ≡ Ordering.gt → String.compare t s ≡ Ordering.lt
compare_flip String.[] String.[] p = cc
compare_flip String.[] (String.◌∷◌ d t) p = cc (compare.nil-cons d t)
compare_flip (String.◌∷◌ c s) String.[] p = compare.nil-cons c s
compare_flip (String.◌∷◌ c s) (String.◌∷◌ d t) p =
    compare.cons-cons d c t s
    ∙ then_flip (compare_ℕ (code c) (code d)) (compare_ℕ (code d) (code c)) (String.compare s t)
        (String.compare t s) (compare_ℕ-gt (code c) (code d)) (compare_ℕ-eq_sym (code c) (code d))
        (compare_flip s t) (sym (compare.cons-cons c d s t) ∙ p)

abbrev pub is_lt : Ordering → Bool
is_lt Ordering.lt = true
is_lt Ordering.eq = false
is_lt Ordering.gt = false

abbrev pub text_before : String → String → Bool
text_before s t = is_lt (String.compare s t)

is_lt-lt : (o : Ordering) → is_lt o ≡ true → o ≡ Ordering.lt
is_lt-lt Ordering.lt h = refl
is_lt-lt Ordering.eq h = cc
is_lt-lt Ordering.gt h = cc

pub text_before_trans :
    (s t u : String) → text_before s t ≡ true → text_before t u ≡ true → text_before s u ≡ true
text_before_trans s t u h k =
    ap is_lt
      (compare_trans s t u (is_lt-lt (String.compare s t) h) (is_lt-lt (String.compare t u) k))

pub text_before_irrefl : (s : String) → text_before s s ≡ false
text_before_irrefl s = ap is_lt (compare_refl s)

pub text_before_total :
    (s t : String) → (text_before s t ≡ true) ⊎ ((text_before t s ≡ true) ⊎ (s ≡ t))
text_before_total s t = elim (Ordering-cases (String.compare s t)) [
  | inl e ↦ inl (ap is_lt e)
  | inr (inl e) ↦ inr (inr (path_by_compare s t e))
  | inr (inr e) ↦ inr (inl (ap is_lt (compare_flip s t e)))
]
