-- ===== src/Platform/Rows/Select.antt =====
-- apps/backend/app/adapters/postgres/repositories.py: selections of rows in a strict order.
use supersonic.Prelude.{
  Bool, true, false, List, [], ◌∷◌, ◌++◌, if◌then◌else◌, ◌≡◌, refl, ap, sym, Bool-cases, inl, inr,
  ◌&&◌,
}
use supersonic.Platform.Rows.{select_where, insert_ordered, order_by}
use supersonic.Platform.Rows.Order.{
  IsOrder, Leads, Sorted, AllComparable, order_by-Sorted, asym, Comparable, Leads-trans,
}

module _ {A : Type 0} where
  pub select_where-both :
      (p q : A → Bool) (rows : List A)
      → select_where q (select_where p rows) ≡ select_where (λ r. p r && q r) rows
  unfolding select_where
  select_where-both p q [] = refl
  select_where-both p q (r ∷ rows) = elim (Bool-cases (p r)) [
    | inl e ↦ rw e (ap (λ v. if q r then r ∷ v else v) (select_where-both p q rows))
    | inr e ↦ rw e (select_where-both p q rows)
  ]

  pub select_where_idem :
      (p : A → Bool) (rows : List A) → select_where p (select_where p rows) ≡ select_where p rows
  unfolding select_where
  select_where_idem p [] = refl
  select_where_idem p (r ∷ rows) = elim (Bool-cases (p r)) [
    | inl e ↦ rw (e, e) (ap (λ v. r ∷ v) (select_where_idem p rows))
    | inr e ↦ rw e (select_where_idem p rows)
  ]

  Comparable-select_where :
      (before : A → A → Bool) (p : A → Bool) (x : A) (rows : List A)
      → Comparable before x rows
      → Comparable before x (select_where p rows)
  unfolding select_where
  Comparable-select_where before p x [] c = tt
  Comparable-select_where before p x (r ∷ rows) (c, cs) = elim (Bool-cases (p r)) [
    | inl e ↦ rw e (c, Comparable-select_where before p x rows cs)
    | inr e ↦ rw e (Comparable-select_where before p x rows cs)
  ]

  pub AllComparable-select_where :
      (before : A → A → Bool) (p : A → Bool) (rows : List A)
      → AllComparable before rows
      → AllComparable before (select_where p rows)
  unfolding select_where
  AllComparable-select_where before p [] c = tt
  AllComparable-select_where before p (r ∷ rows) (c, cs) = elim (Bool-cases (p r)) [
    | inl e ↦
        rw e
          (Comparable-select_where before p r rows c, AllComparable-select_where before p rows cs)
    | inr e ↦ rw e (AllComparable-select_where before p rows cs)
  ]

  module _ (before : A → A → Bool) (order : IsOrder before) where
    insert-Leads :
        (row : A) (rows : List A)
        → Leads before row rows
        → insert_ordered before row rows ≡ row ∷ rows
    unfolding insert_ordered
    insert-Leads row [] l = refl
    insert-Leads row (r ∷ rows) (l, ls) = rw l refl

    Leads-select_where :
        (p : A → Bool) (x : A) (rows : List A)
        → Leads before x rows
        → Leads before x (select_where p rows)
    unfolding select_where
    Leads-select_where p x [] l = tt
    Leads-select_where p x (r ∷ rows) (l, ls) = elim (Bool-cases (p r)) [
      | inl e ↦ rw e (l, Leads-select_where p x rows ls)
      | inr e ↦ rw e (Leads-select_where p x rows ls)
    ]

    select_where-insert :
        (p : A → Bool) (row : A) (rows : List A)
        → Sorted before rows
        → p row ≡ true
        → insert_ordered before row (select_where p rows)
          ≡ select_where p (insert_ordered before row rows)
    unfolding select_where insert_ordered
    select_where-insert p row [] s h = rw h refl
    select_where-insert p row (r ∷ rows) (l, s) h = elim (Bool-cases (p r)) [
      | inl e ↦ elim (Bool-cases (before row r)) [
        | inl b ↦ rw (e, b, h, e) refl
        | inr b ↦ rw (e, b, e) (ap (λ v. r ∷ v) (select_where-insert p row rows s h))
      ]
      | inr e ↦ elim (Bool-cases (before row r)) [
        | inl b ↦
            rw (e, b, h, e)
              (insert-Leads row (select_where p rows)
                (Leads-select_where p row rows (Leads-trans before order row r rows b l)))
        | inr b ↦ rw (e, b, e) (select_where-insert p row rows s h)
      ]
    ]

    select_where-insert_other :
        (p : A → Bool) (row : A) (rows : List A)
        → p row ≡ false
        → select_where p (insert_ordered before row rows) ≡ select_where p rows
    unfolding select_where insert_ordered
    select_where-insert_other p row [] h = rw h refl
    select_where-insert_other p row (r ∷ rows) h = elim (Bool-cases (before row r)) [
      | inl b ↦ rw (b, h) refl
      | inr b ↦ rw b (ap (λ v. if p r then r ∷ v else v) (select_where-insert_other p row rows h))
    ]

    pub order_by-select_where :
        (p : A → Bool) (rows : List A)
        → AllComparable before rows
        → order_by before (select_where p rows) ≡ select_where p (order_by before rows)
    unfolding select_where order_by
    order_by-select_where p [] c = refl
    order_by-select_where p (r ∷ rows) (c, cs) = elim (Bool-cases (p r)) [
      | inl e ↦
          rw (e, order_by-select_where p rows cs)
            (select_where-insert p r (order_by before rows) (order_by-Sorted before order rows cs)
              e)
      | inr e ↦
          rw (e, order_by-select_where p rows cs)
            (sym (select_where-insert_other p r (order_by before rows) e))
    ]

    -- After a row of a sorted list come exactly the rows that stand behind it.
    select_all : (x : A) (rows : List A) → Leads before x rows → select_where (before x) rows ≡ rows
    unfolding select_where
    select_all x [] l = refl
    select_all x (r ∷ rows) (l, ls) = rw l (ap (λ v. r ∷ v) (select_all x rows ls))

    Leads-last : (x y : A) (xs ys : List A) → Leads before x (xs ++ y ∷ ys) → before x y ≡ true
    Leads-last x y [] ys (l, ls) = l
    Leads-last x y (z ∷ xs) ys (l, ls) = Leads-last x y xs ys ls

    pub select_where-after :
        (x : A) (xs ys : List A)
        → Sorted before (xs ++ x ∷ ys)
        → select_where (before x) (xs ++ x ∷ ys) ≡ ys
    unfolding select_where
    select_where-after x [] ys (l, s) = rw (order.irrefl x) (select_all x ys l)
    select_where-after x (z ∷ xs) ys (l, s) =
        rw (asym before order z x (Leads-last z x xs ys l)) (select_where-after x xs ys s)
