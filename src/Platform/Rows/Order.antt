-- ===== src/Platform/Rows/Order.antt =====
-- apps/backend/app/adapters/postgres/repositories.py: rows in a strict order.
use supersonic.Prelude.{Bool, true, false, List, [], ◌∷◌, ◌≡◌, sym, ◌∙◌, Bool-cases, inl, inr, ◌⊎◌}
use supersonic.Platform.Rows.{insert_ordered, order_by}

-- A strict order of rows.
pub record IsOrder {A : Type 0} (before : A → A → Bool) : Type 0 where
  pub irrefl : (x : A) → before x x ≡ false
  pub trans : (x y z : A) → before x y ≡ true → before y z ≡ true → before x z ≡ true

module _ {A : Type 0} (before : A → A → Bool) where
  -- A row comes before every row of a list.
  abbrev pub Leads : A → List A → Type 0
  Leads x [] = Unit {0}
  Leads x (y ∷ ys) = (before x y ≡ true) × Leads x ys

  abbrev pub Sorted : List A → Type 0
  Sorted [] = Unit {0}
  Sorted (x ∷ xs) = Leads x xs × Sorted xs

  -- Of two rows one comes before the other.
  abbrev pub Comparable : A → List A → Type 0
  Comparable x [] = Unit {0}
  Comparable x (y ∷ ys) = ((before x y ≡ true) ⊎ (before y x ≡ true)) × Comparable x ys

  abbrev pub AllComparable : List A → Type 0
  AllComparable [] = Unit {0}
  AllComparable (x ∷ xs) = Comparable x xs × AllComparable xs

  module _ (order : IsOrder before) where
    pub Leads-trans : (x y : A) (ys : List A) → before x y ≡ true → Leads y ys → Leads x ys
    Leads-trans x y [] h l = tt
    Leads-trans x y (z ∷ zs) h (l, ls) = (order.trans x y z h l, Leads-trans x y zs h ls)

    pub asym : (x y : A) → before x y ≡ true → before y x ≡ false
    asym x y h = elim (Bool-cases (before y x)) [
      | inl e ↦ cc (sym (order.irrefl x) ∙ order.trans x y x h e)
      | inr e ↦ e
    ]

    Leads-insert :
        (x row : A) (rows : List A)
        → before x row ≡ true
        → Leads x rows
        → Leads x (insert_ordered before row rows)
    unfolding insert_ordered
    Leads-insert x row [] h l = (h, tt)
    Leads-insert x row (r ∷ rows) h (l, ls) = elim (Bool-cases (before row r)) [
      | inl e ↦ rw e (h, (l, ls))
      | inr e ↦ rw e (l, Leads-insert x row rows h ls)
    ]

    insert-Sorted :
        (row : A) (rows : List A)
        → Comparable row rows
        → Sorted rows
        → Sorted (insert_ordered before row rows)
    unfolding insert_ordered
    insert-Sorted row [] c s = (tt, tt)
    insert-Sorted row (r ∷ rows) (c, cs) (l, s) = elim (Bool-cases (before row r)) [
      | inl e ↦ rw e ((e, Leads-trans row r rows e l), (l, s))
      | inr e ↦ elim c [
        | inl h ↦ cc
        | inr h ↦ rw e (Leads-insert r row rows h l, insert-Sorted row rows cs s)
      ]
    ]

    Comparable-insert :
        (x row : A) (rows : List A)
        → (before x row ≡ true) ⊎ (before row x ≡ true)
        → Comparable x rows
        → Comparable x (insert_ordered before row rows)
    unfolding insert_ordered
    Comparable-insert x row [] h c = (h, tt)
    Comparable-insert x row (r ∷ rows) h (c, cs) = elim (Bool-cases (before row r)) [
      | inl e ↦ rw e (h, (c, cs))
      | inr e ↦ rw e (c, Comparable-insert x row rows h cs)
    ]

    Comparable-order_by :
        (x : A) (rows : List A) → Comparable x rows → Comparable x (order_by before rows)
    unfolding order_by
    Comparable-order_by x [] c = tt
    Comparable-order_by x (r ∷ rows) (c, cs) =
        Comparable-insert x r (order_by before rows) c (Comparable-order_by x rows cs)

    pub order_by-Sorted : (rows : List A) → AllComparable rows → Sorted (order_by before rows)
    unfolding order_by
    order_by-Sorted [] c = tt
    order_by-Sorted (r ∷ rows) (c, cs) =
        insert-Sorted r (order_by before rows) (Comparable-order_by r rows c)
          (order_by-Sorted rows cs)
