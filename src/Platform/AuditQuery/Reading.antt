-- ===== src/Platform/AuditQuery/Reading.antt =====
-- apps/backend/app/adapters/postgres/repositories.py: the history that is read page after page.
use supersonic.Prelude.{
  true, false, List, [], ◌∷◌, ◌++◌, ◌≡◌, refl, arith, ap, ℕ, zero, suc, ◌+◌, ltb, length, take,
  none, some, ◌≤◌, length-append,
}
use supersonic.Platform.Models.{AuditEvent}
use supersonic.Platform.Sanitization.{PythonTexts}
use supersonic.Platform.AuditQuery.{last, page_of, AuditCursor}

pub take-all :
    {A : Type 0} (n : ℕ) (rows : List A) → ltb n (length rows) ≡ false → take n rows ≡ rows
take-all zero [] h = refl
take-all zero (r ∷ rows) h = ground (arith, h)
take-all (suc n) [] h = refl
take-all (suc n) (r ∷ rows) h = ap (λ v. r ∷ v) (take-all n rows (ground (arith, h)))

add_one : (n : ℕ) → n + 1 ≡ suc n
add_one n = omega arith

take-take : {A : Type 0} (n : ℕ) (rows : List A) → take n (take (suc n) rows) ≡ take n rows
take-take zero rows = refl
take-take (suc n) [] = refl
take-take (suc n) (r ∷ rows) = ap (λ v. r ∷ v) (take-take n rows)

ltb-take :
    {A : Type 0} (n : ℕ) (rows : List A) → ltb n (length (take (suc n) rows)) ≡ ltb n (length rows)
ltb-take zero [] = refl
ltb-take zero (r ∷ rows) = ground arith
ltb-take (suc n) [] = refl
ltb-take (suc n) (r ∷ rows) = ground (arith, ltb-take n rows)

-- A page that is full ends with a fact, and the other facts stand behind it.
pub record IsFull (n : ℕ) (rows : List AuditEvent) : Type 0 where
  pub before : List AuditEvent
  pub final : AuditEvent
  pub rest : List AuditEvent
  pub split : rows ≡ before ++ final ∷ rest
  pub page : take n rows ≡ before ++ final ∷ []
  pub ends : last (take n rows) ≡ some final

pub full : (n : ℕ) (rows : List AuditEvent) → ltb (suc n) (length rows) ≡ true → IsFull (suc n) rows
full n [] h = ground (arith, h)
full zero (r ∷ rows) h = record {
  before = [];
  final = r;
  rest = rows;
  split = refl;
  page = refl;
  ends = refl;
}
full (suc n) (r ∷ rows) h =
    let f = full n rows (ground (arith, h)) in
    record {
      before = r ∷ f.before;
      final = f.final;
      rest = f.rest;
      split = ap (λ v. r ∷ v) f.split;
      page = ap (λ v. r ∷ v) f.page;
      ends = rw f.ends refl;
    }

pub shorter :
    {A : Type 0} (xs ys : List A) (x : A) (n : ℕ) → length (xs ++ x ∷ ys) ≤ suc n → length ys ≤ n
shorter xs ys x n h = omega (arith, h, length-append xs (x ∷ ys))

module _ (texts : PythonTexts) where
  abbrev pub cursor_of : AuditEvent → AuditCursor
  cursor_of event = record { occurred_at = event.occurred_at; event_id = event.id }

  pub page_of-final :
      (limit : ℕ) (rest : List AuditEvent)
      → ltb limit (length rest) ≡ false
      → page_of texts limit (take (limit + 1) rest)
        ≡ some (record { events = rest; next_cursor = none })
  unfolding page_of
  page_of-final limit rest h =
      rw (add_one limit, ltb-take limit rest, h, take-take limit rest, take-all limit rest h) refl

  pub page_of-full :
      (n : ℕ) (rest : List AuditEvent)
      → ltb (suc n) (length rest) ≡ true
      → (f : IsFull (suc n) rest) → texts.uuid f.final.id ≡ some f.final.id
      → page_of texts (suc n) (take (suc n + 1) rest)
        ≡ some
            (record { events = f.before ++ f.final ∷ []; next_cursor = some (cursor_of f.final) })
  unfolding page_of
  page_of-full n rest h f u =
      rw (add_one (suc n), ltb-take (suc n) rest, h, take-take (suc n) rest, f.ends, u, f.page) refl
