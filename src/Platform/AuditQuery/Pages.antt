-- ===== src/Platform/AuditQuery/Pages.antt =====
-- apps/backend/app/adapters/postgres/repositories.py: `list_page` where its cursor stands.
use supersonic.Prelude.{true, List, [], ◌∷◌, ◌++◌, ◌≡◌, refl, ap, ◌∙◌, ℕ, ◌+◌, take, subst}
use supersonic.Platform.Models.{AuditEvent}
use supersonic.Platform.Store.{Store}
use supersonic.Platform.Rows.{select_where, order_by}
use supersonic.Platform.Rows.Order.{Sorted, AllComparable, order_by-Sorted}
use supersonic.Platform.Rows.Select.{
  order_by-select_where, select_where-after, AllComparable-select_where,
}
use supersonic.Platform.AuditQuery.Order.{newest_first-IsOrder, HasOwnIds, own_ids-AllComparable}
use supersonic.Platform.AuditQuery.{AuditQueryScope, newest_first, in_scope, page_rows, is_before}

-- What a scope shows of the history, newest first.
abbrev pub visible : AuditQueryScope → Store → List AuditEvent
visible scope s = order_by newest_first (select_where (in_scope scope) s.audit_events)

pub select_where-always : {A : Type 0} (rows : List A) → select_where (λ _. true) rows ≡ rows
unfolding select_where
select_where-always [] = refl
select_where-always (r ∷ rows) = ap (λ v. r ∷ v) (select_where-always rows)

visible-AllComparable :
    (scope : AuditQueryScope) (s : Store)
    → HasOwnIds s.audit_events
    → AllComparable newest_first (select_where (in_scope scope) s.audit_events)
visible-AllComparable scope s h =
    AllComparable-select_where newest_first (in_scope scope) s.audit_events
      (own_ids-AllComparable s.audit_events h)

-- Without a cursor the page begins with the newest fact.
pub page_rows-first :
    (scope : AuditQueryScope) (limit : ℕ) (s : Store)
    → page_rows scope (λ _. true) limit s ≡ take (limit + 1) (visible scope s)
unfolding page_rows
page_rows-first scope limit s =
    ap (λ v. take (limit + 1) (order_by newest_first v))
      (select_where-always (select_where (in_scope scope) s.audit_events))

-- With the cursor of a fact it begins behind that fact.
pub page_rows-after :
    (scope : AuditQueryScope) (limit : ℕ) (s : Store) (xs : List AuditEvent) (e : AuditEvent)
    (ys : List AuditEvent)
    → HasOwnIds s.audit_events
    → visible scope s ≡ xs ++ e ∷ ys
    → page_rows scope (is_before e.occurred_at e.id) limit s ≡ take (limit + 1) ys
unfolding page_rows
page_rows-after scope limit s xs e ys h split =
    let c = visible-AllComparable scope s h in
    ap (take (limit + 1)) (
      order_by-select_where newest_first newest_first-IsOrder (newest_first e)
        (select_where (in_scope scope) s.audit_events) c
      ∙ ap (select_where (newest_first e)) split
      ∙ select_where-after newest_first newest_first-IsOrder e xs ys (
          subst (Sorted newest_first) split (
            order_by-Sorted newest_first newest_first-IsOrder
              (select_where (in_scope scope) s.audit_events) c)))
