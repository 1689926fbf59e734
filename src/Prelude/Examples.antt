-- ===== src/Prelude/Examples.antt =====
-- Runs of the text functions.
use supersonic.Prelude.Text.{show, sorted, join, strip, text_length, is_space}
use mathlib.Core.List.{[], ◌∷◌}
use mathlib.Core.Path.{◌≡◌, refl}
use native.Mathlib.Decide.{ℕ_discrete}

show_test : show 160 ≡ "160"
unfolding show
show_test = refl

sorted_test : join ", " (sorted ("b" ∷ "a" ∷ "b" ∷ [])) ≡ "a, b"
unfolding join sorted
sorted_test = refl

strip_test : strip "  a b " ≡ "a b"
unfolding strip is_space ℕ_discrete
strip_test = refl

text_length_test : text_length "滨河大道" ≡ 4
unfolding text_length
text_length_test = refl
