-- ===== src/Platform/AuditQuery/Order.antt =====
-- apps/backend/app/adapters/postgres/repositories.py: the order of the audit history.
use supersonic.Prelude.{true, List, [], ◌∷◌, ◌≡◌, arith, ◌≢◌, inl, inr, ◌⊎◌, nat_eq}
use supersonic.Prelude.TextOrder.{text_before_trans, text_before_irrefl, text_before_total}
use supersonic.Platform.Models.{AuditEvent}
use supersonic.Platform.Rows.Order.{IsOrder, Comparable, AllComparable}
use supersonic.Platform.AuditQuery.{newest_first, is_before}

pub newest_first-IsOrder : IsOrder newest_first
unfolding is_before
newest_first-IsOrder = record {
  irrefl = λ x. ground (arith, text_before_irrefl x.id);
  trans = λ x y z h k. ground (arith, h, k, text_before_trans z.id y.id x.id);
}

-- No two facts of a list have one id.
abbrev pub Differs : AuditEvent → List AuditEvent → Type 0
Differs event [] = Unit {0}
Differs event (e ∷ events) = (event.id ≢ e.id) × Differs event events

abbrev pub HasOwnIds : List AuditEvent → Type 0
HasOwnIds [] = Unit {0}
HasOwnIds (event ∷ events) = Differs event events × HasOwnIds events

newest_first_total :
    (x y : AuditEvent) → x.id ≢ y.id → (newest_first x y ≡ true) ⊎ (newest_first y x ≡ true)
unfolding is_before
newest_first_total x y h = elim (text_before_total x.id y.id) [
  | inl a ↦ ground (arith, a)
  | inr (inl a) ↦ ground (arith, a)
  | inr (inr e) ↦ absurd (h e)
]

Differs-Comparable :
    (x : AuditEvent) (events : List AuditEvent)
    → Differs x events
    → Comparable newest_first x events
Differs-Comparable x [] d = tt
Differs-Comparable x (e ∷ events) (d, ds) =
    (newest_first_total x e d, Differs-Comparable x events ds)

pub own_ids-AllComparable :
    (events : List AuditEvent) → HasOwnIds events → AllComparable newest_first events
own_ids-AllComparable [] h = tt
own_ids-AllComparable (e ∷ events) (d, ds) =
    (Differs-Comparable e events d, own_ids-AllComparable events ds)
