-- ===== src/Platform/Rows.antt =====
-- apps/backend/app/adapters/postgres/repositories.py: the selections and the orders of statements.
pub mod Order
pub mod Select
use supersonic.Prelude.{Bool, List, [], ◌∷◌, if◌then◌else◌, true, false}

-- `select(…).where(…)`
unfoldable pub select_where : {A : Type 0} → (A → Bool) → List A → List A
select_where test [] = []
select_where test (row ∷ rows) =
    let rest = select_where test rows in if test row then row ∷ rest else rest

-- `order_by`: before a row come the rows that compare as less.
unfoldable pub insert_ordered : {A : Type 0} → (A → A → Bool) → A → List A → List A
insert_ordered before row [] = row ∷ []
insert_ordered before row (r ∷ rows) =
    let rest = insert_ordered before row rows in if before row r then row ∷ r ∷ rows else r ∷ rest

unfoldable pub order_by : {A : Type 0} → (A → A → Bool) → List A → List A
unfolding insert_ordered
order_by before [] = []
order_by before (row ∷ rows) = insert_ordered before row (order_by before rows)
