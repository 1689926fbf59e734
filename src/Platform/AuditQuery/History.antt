-- ===== src/Platform/AuditQuery/History.antt =====
-- apps/backend/app/adapters/postgres/repositories.py: `list_page`, asked for again and again.
use mathlib.Core.List.{append_assoc, append-nil}
use supersonic.Prelude.{
  Bool, true, List, [], ◌∷◌, ◌++◌, ◌≡◌, refl, arith, ap, sym, ◌∙◌, ℕ, zero, suc, ◌+◌, ltb, leb,
  length, take, Option, none, some, Bool-cases, inl, inr, ◌≤◌, ok, subst,
}
use supersonic.Platform.Models.{AuditEvent}
use supersonic.Platform.Sanitization.{PythonTexts}
use supersonic.Platform.Store.{Store}
use supersonic.Platform.Database.{Database, call}
use supersonic.Platform.Rows.{select_where, insert_ordered, order_by}
use supersonic.Platform.AuditQuery.{
  page_of, AuditPage, AuditCursor, AuditQueryScope, newest_first, in_scope, audit_keyset_before,
  page_rows, is_before,
}
use supersonic.Platform.AuditQuery.Service.{list_page, read_pages}
use supersonic.Platform.AuditQuery.Order.{HasOwnIds}
use supersonic.Platform.AuditQuery.Pages.{visible, page_rows-first, page_rows-after}
use supersonic.Platform.AuditQuery.Reading.{full, shorter, page_of-final, page_of-full, cursor_of}
use supersonic.Platform.Reconciliation.Again.{Answers}
use supersonic.Platform.Database.Rules.{after}

module _ (texts : PythonTexts) where
  -- Every id is a canonical UUID.
  abbrev pub Identified : List AuditEvent → Type 0
  Identified [] = Unit {0}
  Identified (e ∷ events) = (texts.uuid e.id ≡ some e.id) × Identified events

  select_where-Identified :
      (p : AuditEvent → Bool) (events : List AuditEvent)
      → Identified events
      → Identified (select_where p events)
  unfolding select_where
  select_where-Identified p [] h = tt
  select_where-Identified p (e ∷ events) (h, hs) = elim (Bool-cases (p e)) [
    | inl b ↦ rw b (h, select_where-Identified p events hs)
    | inr b ↦ rw b (select_where-Identified p events hs)
  ]

  insert-Identified :
      (row : AuditEvent) (events : List AuditEvent)
      → texts.uuid row.id ≡ some row.id
      → Identified events
      → Identified (insert_ordered newest_first row events)
  unfolding insert_ordered
  insert-Identified row [] h hs = (h, tt)
  insert-Identified row (e ∷ events) h (k, ks) = elim (Bool-cases (newest_first row e)) [
    | inl b ↦ rw b (h, (k, ks))
    | inr b ↦ rw b (k, insert-Identified row events h ks)
  ]

  order_by-Identified :
      (events : List AuditEvent) → Identified events → Identified (order_by newest_first events)
  unfolding order_by
  order_by-Identified [] h = tt
  order_by-Identified (e ∷ events) (h, hs) =
      insert-Identified e (order_by newest_first events) h (order_by-Identified events hs)

  Identified-member :
      (xs : List AuditEvent) (e : AuditEvent) (ys : List AuditEvent)
      → Identified (xs ++ e ∷ ys)
      → texts.uuid e.id ≡ some e.id
  Identified-member [] e ys (h, hs) = h
  Identified-member (x ∷ xs) e ys (h, hs) = Identified-member xs e ys hs

  -- The next page begins with the rest of what the scope shows.
  record Stands (scope : AuditQueryScope) (s : Store) (cursor : Option AuditCursor)
      (rest : List AuditEvent) : Type 0 where
    test : AuditEvent → Bool
    keyset : audit_keyset_before texts cursor ≡ some test
    rows : (limit : ℕ) → page_rows scope test limit s ≡ take (limit + 1) rest
    read : List AuditEvent
    split : visible scope s ≡ read ++ rest

  first-Stands : (scope : AuditQueryScope) (s : Store) → Stands scope s none (visible scope s)
  unfolding audit_keyset_before
  first-Stands scope s = record {
    test = λ _. true;
    keyset = refl;
    rows = λ limit. page_rows-first scope limit s;
    read = [];
    split = refl;
  }

  next-Stands :
      (scope : AuditQueryScope) (s : Store) (xs : List AuditEvent) (e : AuditEvent)
      (ys : List AuditEvent)
      → HasOwnIds s.audit_events
      → texts.uuid e.id ≡ some e.id
      → visible scope s ≡ xs ++ e ∷ ys
      → Stands scope s (some (cursor_of texts e)) ys
  unfolding audit_keyset_before
  next-Stands scope s xs e ys h u split = record {
    test = is_before e.occurred_at e.id;
    keyset = rw u refl;
    rows = λ limit. page_rows-after scope limit s xs e ys h split;
    read = xs ++ e ∷ [];
    split = split ∙ sym (append_assoc xs (e ∷ []) ys);
  }

  list_page-rows :
      (scope : AuditQueryScope) (cursor : Option AuditCursor) (limit : ℕ) (rest : List AuditEvent)
      (page : AuditPage) (d : Database)
      → Answers d
      → Stands scope d.work cursor rest
      → page_of texts limit (take (limit + 1) rest) ≡ some page
      → list_page texts (record { scope = scope; cursor = cursor; limit = limit }) d
        ≡ (ok page, after d d.work)
  unfolding list_page call
  list_page-rows scope cursor limit rest page d answers at p =
      rw (at.keyset, answers d.calls, at.rows limit, p) refl

  -- A client that has read up to a place reads the rest.
  read_pages-rest :
      (n m : ℕ) (scope : AuditQueryScope) (cursor : Option AuditCursor) (rest : List AuditEvent)
      (d : Database)
      → Answers d
      → HasOwnIds d.work.audit_events
      → Identified (visible scope d.work)
      → Stands scope d.work cursor rest
      → length rest ≤ n
      → (k : ℕ) × (read_pages texts n scope (suc m) cursor d ≡ (ok rest, record d { calls = k }))
  unfolding read_pages
  read_pages-rest zero m scope cursor [] d answers own ids at h = (d.calls, refl)
  read_pages-rest zero m scope cursor (e ∷ rest) d answers own ids at h = absurd (omega (arith, h))
  read_pages-rest (suc n) m scope cursor rest d answers own ids at h =
      elim (Bool-cases (ltb (suc m) (length rest))) [
        | inl b ↦
            let f = full m rest b in
            let here =
              at.split
              ∙ ap (λ v. at.read ++ v) f.split
              ∙ sym (append_assoc at.read f.before (f.final ∷ f.rest)) in
            let u =
              Identified-member (at.read ++ f.before) f.final f.rest (subst Identified here ids) in
            let (k, e) =
              read_pages-rest n m scope (some (cursor_of texts f.final)) f.rest (after d d.work)
                answers own ids
                (next-Stands scope d.work (at.read ++ f.before) f.final f.rest own u here)
                (shorter f.before f.rest f.final n (subst (λ v. length v ≤ suc n) f.split h)) in
            (
              k,
              rw
                  (
                    list_page-rows scope cursor (suc m) rest _ d answers at
                        (page_of-full texts m rest b f u),
                    e,
                  )
                  (ap (λ v. (ok v, record d { calls = k }))
                    (append_assoc f.before (f.final ∷ []) f.rest ∙ sym f.split)),
            )
        | inr b ↦ (
          d.calls + 1,
          rw
              (list_page-rows scope cursor (suc m) rest _ d answers at
                (page_of-final texts (suc m) rest b))
              (ap (λ v. (ok v, record d { calls = d.calls + 1 })) (append-nil rest)),
        )
      ]

  -- On a database that answers, whose facts have ids that differ and are canonical UUIDs, a client
  -- that reads page after page from the first one, with a positive limit and at least as many pages
  -- allowed as there are facts in the scope, gets every fact of the scope exactly as the whole
  -- history lists them, newest first: no fact is lost or repeated between two pages.
  pub read_pages-visible :
      (n limit : ℕ) (scope : AuditQueryScope) (d : Database)
      → Answers d
      → HasOwnIds d.work.audit_events
      → Identified d.work.audit_events
      → leb 1 limit ≡ true
      → length (visible scope d.work) ≤ n
      → (read_pages texts n scope limit none d).0 ≡ ok (visible scope d.work)
  read_pages-visible n zero scope d answers own ids one h = cc
  read_pages-visible n (suc m) scope d answers own ids one h =
      let (k, e) =
        read_pages-rest n m scope none (visible scope d.work) d answers own
          (order_by-Identified (select_where (in_scope scope) d.work.audit_events)
            (select_where-Identified (in_scope scope) d.work.audit_events ids))
          (first-Stands scope d.work) h in
      ap (λ r. r.0) e
