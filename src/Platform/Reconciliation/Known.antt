-- ===== src/Platform/Reconciliation/Known.antt =====
-- apps/backend/app/platform/audit_reconciliation.py: the facts that the loop leaves in the table.
use supersonic.Prelude.{
  Bool, true, false, List, [], ◌∷◌, ◌++◌, String, ℕ, Option, none, some, ◌≡◌, refl, arith, All,
  Option-cases, inl, inr, string_eq, throw_if, not,
}
use supersonic.Prelude.Triples.{Ends-weaken, Triple, Triple-bind, Ends}
use supersonic.Platform.Models.{AuditEvent}
use supersonic.Platform.Store.{Store, find_row, append_event}
use supersonic.Platform.Sanitization.{PythonTexts}
use supersonic.Platform.AuditIdentity.{canonicalize, audit_events_equivalent}
use supersonic.Platform.Database.{
  Database, call, append_audit_event, get_audit_event, require_matching_duplicate, append_or_match,
  match_unless, with_value, PlatformError, audit_event_conflict,
}
use supersonic.Platform.Reconciliation.{import_events, counted}
use supersonic.Platform.Database.Rules.{after, call-Ends}

find-append_some :
    (id : String) (events : List AuditEvent) (row event : AuditEvent)
    → find_row (λ e. e.id) id events ≡ some row
    → find_row (λ e. e.id) id (events ++ event ∷ []) ≡ some row
unfolding find_row
find-append_some id [] row event h = cc
find-append_some id (e ∷ events) row event h =
    ground (arith, h, find-append_some id events row event)

find-append_none :
    (events : List AuditEvent) (event : AuditEvent)
    → find_row (λ e. e.id) event.id events ≡ none
    → find_row (λ e. e.id) event.id (events ++ event ∷ []) ≡ some event
unfolding find_row
find-append_none [] event h = ground arith
find-append_none (e ∷ events) event h = ground (arith, h, find-append_none events event)

abbrev with_event : AuditEvent → Store → Store
with_event event s = record s { audit_events = s.audit_events ++ event ∷ [] }

append_event-new :
    (s : Store) (event : AuditEvent)
    → find_row (λ e. e.id) event.id s.audit_events ≡ none
    → append_event event s ≡ (true, with_event event s)
unfolding append_event
append_event-new s event h = rw (append_event, h)

pub append_event-old :
    (s : Store) (event row : AuditEvent)
    → find_row (λ e. e.id) event.id s.audit_events ≡ some row
    → append_event event s ≡ (false, s)
unfolding append_event
append_event-old s event row h = rw (append_event, h)

abbrev pub Anything : PlatformError → Database → Type 0
Anything e d = Unit

module _ (texts : PythonTexts) where
  -- A fact in the form that the loop is given.
  pub record IsCanonical (event : AuditEvent) : Type 0 where
    pub canonical : canonicalize texts event ≡ some event
    pub identified : texts.uuid event.id ≡ some event.id
    pub itself : audit_events_equivalent texts event event ≡ some true

  -- The fact has a row that is equivalent.
  abbrev pub Known : Store → AuditEvent → Type 0
  Known s event =
      (row : AuditEvent) × (find_row (λ e. e.id) event.id s.audit_events ≡ some row)
      × (audit_events_equivalent texts row event ≡ some true)

  with_event-Known :
      (s : Store) (event : AuditEvent)
      → IsCanonical event
      → find_row (λ e. e.id) event.id s.audit_events ≡ none
      → Known (with_event event s) event
  with_event-Known s event c h = (event, find-append_none s.audit_events event h, c.itself)

  with_event-keeps :
      (s : Store) (event : AuditEvent) (known : List AuditEvent)
      → All (Known s) known
      → All (Known (with_event event s)) known
  with_event-keeps s event [] h = tt
  with_event-keeps s event (k ∷ known) ((row, f, e), h) =
      ((row, find-append_some k.id s.audit_events row event f, e), with_event-keeps s event known h)

  -- After the insertion: the fact is known, or its id was taken.
  abbrev Appended : AuditEvent → List AuditEvent → Bool → Database → Type 0
  Appended event known true d = All (Known d.work) (event ∷ known)
  Appended event known false d = All (Known d.work) known

  append_event-Appended :
      (event : AuditEvent) (known : List AuditEvent)
      → IsCanonical event
      → (d : Database) → All (Known d.work) known
      → Appended event known (append_event event d.work).0 (after d (append_event event d.work).1)
  append_event-Appended event known c d h =
      elim (Option-cases (find_row (λ x. x.id) event.id d.work.audit_events)) [
        | inl n ↦
            rw (append_event-new d.work event n)
              (with_event-Known d.work event c n, with_event-keeps d.work event known h)
        | inr (r, n) ↦ rw (append_event-old d.work event r n) h
      ]

  append-Appended :
      (event : AuditEvent) (known : List AuditEvent)
      → IsCanonical event
      → Triple
          (λ d. All (Known d.work) known)
          (append_audit_event texts event)
          (Appended event known)
          Anything
  unfolding append_audit_event call
  append-Appended event known c d h = rw c.canonical (
      call-Ends (append_event event) (Appended event known) Anything d
        (append_event-Appended event known c d h) tt)

  -- What the look-up of the id finds.
  abbrev Found : AuditEvent → List AuditEvent → Option AuditEvent → Database → Type 0
  Found event known existing d =
      All (Known d.work) known × (find_row (λ e. e.id) event.id d.work.audit_events ≡ existing)

  get-Found :
      (event : AuditEvent) (known : List AuditEvent)
      → IsCanonical event
      → Triple
          (λ d. All (Known d.work) known)
          (get_audit_event texts event.id)
          (Found event known)
          Anything
  unfolding get_audit_event
  get-Found event known c d h =
      rw c.identified (call-Ends _ (Found event known) Anything d (h, refl) tt)

  equivalent-Known :
      (event row : AuditEvent) (known : List AuditEvent) (same : Option Bool) (d : Database)
      → Found event known (some row) d
      → audit_events_equivalent texts row event ≡ same
      → Ends
          (λ _ e. All (Known e.work) (event ∷ known))
          Anything
          (with_value same (λ b. throw_if (not b) (audit_event_conflict event.id)) d)
  equivalent-Known event row known none d h e = tt
  equivalent-Known event row known (some true) d h e = ((row, h.1, e), h.0)
  equivalent-Known event row known (some false) d h e = tt

  require-Known :
      (event : AuditEvent) (known : List AuditEvent) (existing : Option AuditEvent)
      → Triple
          (Found event known existing)
          (require_matching_duplicate texts existing event)
          (λ _ d. All (Known d.work) (event ∷ known))
          Anything
  unfolding require_matching_duplicate
  require-Known event known none d h = tt
  require-Known event known (some row) d h = equivalent-Known event row known _ d h refl

  match-Known :
      (event : AuditEvent) (known : List AuditEvent)
      → IsCanonical event
      → (inserted : Bool)
      → Triple
          (Appended event known inserted)
          (match_unless texts inserted event)
          (λ _ d. All (Known d.work) (event ∷ known))
          Anything
  match-Known event known c true = λ d h. h
  match-Known event known c false =
      let Q : Unit {0} → Database → Type 0 = λ _ d. All (Known d.work) (event ∷ known) in
      Triple-bind _ (get_audit_event texts event.id) _ (Found event known) (λ _. Q tt) Anything
        (get-Found event known c)
        λ existing.
          Triple-bind _ (require_matching_duplicate texts existing event) _ Q (λ _. Q tt) Anything
            (require-Known event known existing) λ _ d h. h

  -- A fact that was appended or matched is known, and so is what was known before.
  append_or_match-Known :
      (event : AuditEvent) (known : List AuditEvent)
      → IsCanonical event
      → Triple
          (λ d. All (Known d.work) known)
          (append_or_match texts event)
          (λ _ d. All (Known d.work) (event ∷ known))
          Anything
  unfolding append_or_match
  append_or_match-Known event known c =
      Triple-bind _ (append_audit_event texts event) _ (Appended event known) _ Anything
        (append-Appended event known c) (match-Known event known c)

  abbrev pub Learned : List AuditEvent → List AuditEvent → ℕ × ℕ → Database → Type 0
  Learned known events _ d = All (Known d.work) known × All (Known d.work) events

  -- The loop leaves every fact known.
  pub import_events-Known :
      (events : List AuditEvent) (counts : ℕ × ℕ) (known : List AuditEvent)
      → All IsCanonical events
      → Triple
          (λ d. All (Known d.work) known)
          (import_events texts events counts)
          (Learned known events)
          Anything
  unfolding import_events
  import_events-Known [] counts known c = λ d h. (h, tt)
  import_events-Known (event ∷ events) counts known c =
      Triple-bind _ (append_or_match texts event) _ (λ _ d. All (Known d.work) (event ∷ known)) _
        Anything (append_or_match-Known event known c.0)
        λ inserted d h.
          Ends-weaken (Learned (event ∷ known) events) (Learned known (event ∷ events)) Anything
            Anything _
            (import_events-Known events (counted inserted counts) (event ∷ known) c.1 d h)
            (λ _ _ q. (q.0.1, (q.0.0, q.1))) (λ _ _ r. r)
