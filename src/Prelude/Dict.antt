-- ===== src/Prelude/Dict.antt =====
-- Python's `dict`: an association list in insertion order. A new key goes to the end, and an old
-- key keeps its place.
use mathlib.Core.List.{List, [], ◌∷◌, ◌++◌, map}
use mathlib.Core.Logic.{ite, ◌≢◌}
use mathlib.Core.Option.{Option, none, some}
use mathlib.Core.Path.{◌≡◌, refl}
use native.Mathlib.Omega.{arith}
use supersonic.Prelude.Tests.{Eq}

abbrev pub Dict {ℓ} : Type ℓ → Type ℓ → Type ℓ
Dict K V = List (K × V)

module _ {ℓ} {K V : Type ℓ} where
  abbrev pub keys : Dict K V → List K
  keys = map (λ e. e.0)

module _ {ℓ} {K V : Type ℓ} ⦃e : Eq K⦄ where
  -- `d.get(k)`
  unfoldable pub lookup : K → Dict K V → Option V
  lookup k [] = none
  lookup k ((j, v) ∷ d) = ite (e.discrete j k) (some v) (lookup k d)

  -- `d[k] = v`
  unfoldable pub insert : K → V → Dict K V → Dict K V
  insert k v [] = (k, v) ∷ []
  insert k v ((j, w) ∷ d) = ite (e.discrete j k) ((j, v) ∷ d) ((j, w) ∷ insert k v d)

  -- `d.pop(k, None)`, with the value dropped; a key has one entry at most
  unfoldable pub erase : K → Dict K V → Dict K V
  erase k [] = []
  erase k ((j, v) ∷ d) = ite (e.discrete j k) (erase k d) ((j, v) ∷ erase k d)

  pub lookup-insert :
      (k j : K) (v : V) (d : Dict K V)
      → lookup j (insert k v d) ≡ ite (e.discrete k j) (some v) (lookup j d)
  unfolding lookup insert
  lookup-insert k j v [] = refl
  lookup-insert k j v ((i, w) ∷ d) = ground (arith, lookup-insert k j v d)

  pub lookup-erase : (k : K) (d : Dict K V) → lookup k (erase k d) ≡ none
  unfolding lookup erase
  lookup-erase k [] = refl
  lookup-erase k ((i, w) ∷ d) = ground (arith, lookup-erase k d)

  pub lookup-append : (k : K) (c d : Dict K V) → lookup k c ≡ none → lookup k (c ++ d) ≡ lookup k d
  unfolding lookup
  lookup-append k [] d n = refl
  lookup-append k ((i, w) ∷ c) d n = ground (arith, lookup-append k c d)

  pub lookup_self : (k : K) (v : V) → lookup k ((k, v) ∷ []) ≡ some v
  unfolding lookup
  lookup_self k v = ground arith

  pub lookup-erase_ne : (k j : K) (d : Dict K V) → k ≢ j → lookup j (erase k d) ≡ lookup j d
  unfolding lookup erase
  lookup-erase_ne k j [] n = refl
  lookup-erase_ne k j ((i, w) ∷ d) n = ground (arith, lookup-erase_ne k j d n)
