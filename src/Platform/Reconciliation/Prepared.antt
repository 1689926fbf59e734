-- ===== src/Platform/Reconciliation/Prepared.antt =====
-- apps/backend/app/platform/audit_reconciliation.py: what `_prepare_event` and
-- `_validate_batch_identity` return.
use supersonic.Prelude.{
  if◌then◌else◌, Bool, true, false, List, [], ◌∷◌, String, Option, none, some, ok, raise, ◌≡◌, refl,
  arith, All, ap, Bool-cases, inl, inr, sym, ◌∙◌, continue, ◌>>=◌, Result, string_eq, throw_if, not,
  pure,
}
use supersonic.Prelude.Partial.{bind-some, some_injective}
use supersonic.Prelude.Dict.{Dict, lookup}
use supersonic.Platform.Models.{AuditEvent}
use supersonic.Platform.Sanitization.{PythonTexts}
use supersonic.Platform.Sanitization.Plain.{IsPythonTexts}
use supersonic.Platform.AuditIdentity.{canonicalize, is_persistable, audit_events_equivalent}
use supersonic.Platform.AuditIdentity.Canonical.{canonicalize_idem, canonicalize-identified}
use supersonic.Platform.AuditIdentity.Duplicates.{canonical-equivalent}
use supersonic.Platform.Database.{
  Database, DatabaseAction, with_value, PlatformError, require_matching_duplicate,
}
use supersonic.Platform.Reconciliation.{
  prepare_event, prepare_events, is_importable, require_same, validate_batch_identity, remember,
}
use supersonic.Platform.Reconciliation.Known.{IsCanonical}
use mathlib.Core.Path.{subst}

importable-persistable :
    (event : AuditEvent) → is_importable event ≡ true → is_persistable event ≡ true
importable-persistable event h = ground (arith, h)

-- The result does not depend on the database, which is left as it is.
abbrev pub IsPure : {A : Type 0} → DatabaseAction A → Type 0
IsPure m = (d d' : Database) → m d ≡ ((m d').0, d)

module _ {A B : Type 0} where
  pure-continue :
      (r : Result PlatformError A) (f : A → DatabaseAction B) (d d' : Database)
      → ((a : A) → IsPure (f a))
      → continue r f d ≡ ((continue r f d').0, d)
  pure-continue (ok a) f d d' h = h a d d'
  pure-continue (raise e) f d d' h = refl

  bind-IsPure :
      (m : DatabaseAction A) (f : A → DatabaseAction B)
      → IsPure m
      → ((a : A) → IsPure (f a))
      → IsPure (m >>= f)
  bind-IsPure m f h k d d' =
      ap (λ x. continue x.0 f x.1) (h d d')
      ∙ pure-continue (m d').0 f d d' k
      ∙ ap (λ x. ((continue (m d').0 f x).0, d)) (sym (ap (λ x. x.1) (h d' d')))

module _ (texts : PythonTexts) where
  prepare-canonical :
      (event prepared : AuditEvent)
      → prepare_event texts event ≡ some prepared
      → canonicalize texts event ≡ some prepared
  unfolding prepare_event canonicalize
  prepare-canonical event prepared h = elim (Bool-cases (is_importable event)) [
    | inr e ↦ cc (rw e at h)
    | inl e ↦ rw (importable-persistable event e) (rw e at h)
  ]

  prepare-IsCanonical :
      (laws : IsPythonTexts texts) (event prepared : AuditEvent)
      → prepare_event texts event ≡ some prepared
      → IsCanonical texts prepared
  prepare-IsCanonical laws event prepared h =
      let c = prepare-canonical event prepared h in
      let again = canonicalize_idem texts laws event prepared c in
      record {
        canonical = again;
        identified = canonicalize-identified texts laws event prepared c;
        itself = canonical-equivalent texts laws prepared prepared again;
      }

  pub prepare_events-IsCanonical :
      (laws : IsPythonTexts texts) (events prepared : List AuditEvent)
      → prepare_events texts events ≡ some prepared
      → All (IsCanonical texts) prepared
  unfolding prepare_events
  prepare_events-IsCanonical laws [] prepared h =
      subst (All (IsCanonical texts)) (some_injective h) tt
  prepare_events-IsCanonical laws (event ∷ events) prepared h =
      let (p, hp, h1) = bind-some (prepare_event texts event) _ prepared h in
      let (rest, hr, h2) = bind-some (prepare_events texts events) _ prepared h1 in
      subst (All (IsCanonical texts)) (some_injective h2)
        (prepare-IsCanonical laws event p hp, prepare_events-IsCanonical laws events rest hr)

  throw-IsPure :
      (same : Option Bool) (e : PlatformError) → IsPure (with_value same (λ b. throw_if (not b) e))
  throw-IsPure none e d d' = refl
  throw-IsPure (some true) e d d' = refl
  throw-IsPure (some false) e d d' = refl

  matching-IsPure :
      (existing event : AuditEvent)
      → IsPure (require_matching_duplicate texts (some existing) event)
  unfolding require_matching_duplicate
  matching-IsPure existing event = throw-IsPure (audit_events_equivalent texts existing event) _

  same-IsPure :
      (same : Option Bool) (existing event : AuditEvent)
      → IsPure (
          with_value same
            (λ b. if b then pure tt else require_matching_duplicate texts (some existing) event))
  same-IsPure none existing event d d' = refl
  same-IsPure (some true) existing event d d' = refl
  same-IsPure (some false) existing event d d' = matching-IsPure existing event d d'

  require_same-IsPure :
      (existing : Option AuditEvent) (event : AuditEvent)
      → IsPure (require_same texts existing event)
  require_same-IsPure none event = λ d d'. refl
  require_same-IsPure (some existing) event = same-IsPure _ existing event

  pub validate-IsPure :
      (by_id : Dict String AuditEvent) (events : List AuditEvent)
      → IsPure (validate_batch_identity texts by_id events)
  unfolding validate_batch_identity
  validate-IsPure by_id [] = λ d d'. refl
  validate-IsPure by_id (event ∷ events) =
      bind-IsPure (require_same texts (lookup event.id by_id) event) _
        (require_same-IsPure (lookup event.id by_id) event)
        λ _. validate-IsPure (remember texts (lookup event.id by_id) event by_id) events
