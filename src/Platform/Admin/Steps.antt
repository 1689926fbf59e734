-- ===== src/Platform/Admin/Steps.antt =====
-- apps/backend/app/platform/admin.py: the audit facts leave the users' rows as they are.
use supersonic.Prelude.{
  Bool, true, false, not, List, [], ◌∷◌, String, Option, none, some, ok, raise, Result, ◌≡◌, refl,
  arith, Option-cases, inl, inr,
}
use supersonic.Prelude.Triples.{Ends}
use supersonic.Platform.Models.{User, AuditEvent, Principal, AuditResult}
use supersonic.Contract.{Time, JsonValue}
use supersonic.Prelude.Dict.{Dict}
use supersonic.Platform.Store.{Store, append_event}
use supersonic.Platform.Sanitization.{PythonTexts}
use supersonic.Platform.Database.{
  PlatformError, call, commit_unit, append_audit_event, get_audit_event, require_matching_duplicate,
  append_or_match, match_unless, Database,
}
use supersonic.Platform.Admin.{
  AdminWorld, AdminAction, AdminMutationResult, on_database, admin_now, new_uuid, ManagementAttempt,
  check_ready, management_event, audit_failure, in_admin_unit,
}
use supersonic.Platform.Admin.Audit.{
  translating, append_outcome, append_attempted, commit_attempted, append_failed,
  record_failed_outcome, propagate_each, propagate_revokes, audit_result_of, finish_mutation,
  propagate_if,
}
use supersonic.Platform.Admin.Keeps.{
  Keeps, Keeps-bind, Both, During, Committed, call-Keeps, on_database-Keeps, with_value-Keeps,
  commit_unit-Keeps, throw_if-Keeps, in_admin_unit-Keeps, in_committed_admin_unit-Keeps,
  translating-Keeps, on_database-Ends,
}
use supersonic.Platform.Database.Rules.{call-Ends}

append_event-users : (event : AuditEvent) (s : Store) → (append_event event s).1.users ≡ s.users
unfolding append_event
append_event-users event s = ground arith

-- The clock, the ids and the hook are not of the database.
module _ (D : Database → Type 0) where
  abbrev pub OfDatabase : AdminWorld → Type 0
  OfDatabase w = D w.database

  pub admin_now-Keeps : Keeps OfDatabase admin_now
  unfolding admin_now
  admin_now-Keeps w h = elim (Option-cases (w.clock w.readings)) [
    | inl e ↦ rw (admin_now, e) h
    | inr (now, e) ↦ rw (admin_now, e) h
  ]

  pub new_uuid-Keeps : Keeps OfDatabase new_uuid
  unfolding new_uuid
  new_uuid-Keeps w h = h

  propagate_each-Keeps : (ids : List String) → Keeps OfDatabase (propagate_each ids)
  unfolding propagate_each
  propagate_each-Keeps [] w h = h
  propagate_each-Keeps (id ∷ ids) w h =
      Keeps-bind OfDatabase (propagate_each ids) _ (propagate_each-Keeps ids) (λ _ v k. k)
        (record w { revoke_calls = id ∷ w.revoke_calls }) h

  propagate_if-Keeps : (hook : Bool) (ids : List String) → Keeps OfDatabase (propagate_if hook ids)
  unfolding propagate_if
  propagate_if-Keeps false ids = λ w h. h
  propagate_if-Keeps true ids = propagate_each-Keeps ids

  pub propagate_revokes-Keeps : (ids : List String) → Keeps OfDatabase (propagate_revokes ids)
  unfolding propagate_revokes
  propagate_revokes-Keeps ids w h = propagate_if-Keeps w.has_hook ids w h

module _ (H : List User → Type 0) where
  pub check_ready-Keeps : Keeps (Committed H) check_ready
  unfolding check_ready call
  check_ready-Keeps w h =
      on_database-Ends (λ _. Committed H) (λ _. Committed H) w (call (λ s. (tt, s)) w.database)
        (call-Ends (λ s. (tt, s)) (λ _ d. H d.store.users) (λ _ d. H d.store.users) w.database h h)

  module _ (texts : PythonTexts) where
    append_audit_event-Keeps :
        (event : AuditEvent) → Keeps (Both H) (append_audit_event texts event)
    unfolding append_audit_event
    append_audit_event-Keeps event =
        with_value-Keeps H _ _ (λ row. call-Keeps H (append_event row) (append_event-users row))

    get_audit_event-Keeps : (id : String) → Keeps (Both H) (get_audit_event texts id)
    unfolding get_audit_event
    get_audit_event-Keeps id = with_value-Keeps H _ _ (λ i. call-Keeps H _ (λ s. refl))

    require-Keeps :
        (existing : Option AuditEvent) (event : AuditEvent)
        → Keeps (Both H) (require_matching_duplicate texts existing event)
    unfolding require_matching_duplicate
    require-Keeps none event = λ d h. h
    require-Keeps (some e) event = with_value-Keeps H _ _ (λ b. throw_if-Keeps (Both H) (not b) _)

    match-Keeps :
        (inserted : Bool) (event : AuditEvent) → Keeps (Both H) (match_unless texts inserted event)
    match-Keeps true event = λ d h. h
    match-Keeps false event =
        Keeps-bind (Both H) (get_audit_event texts event.id) _ (get_audit_event-Keeps event.id)
          λ existing.
            Keeps-bind (Both H) (require_matching_duplicate texts existing event) _
              (require-Keeps existing event) λ _ d h. h

    append_or_match-Keeps : (event : AuditEvent) → Keeps (Both H) (append_or_match texts event)
    unfolding append_or_match
    append_or_match-Keeps event =
        Keeps-bind (Both H) (append_audit_event texts event) _ (append_audit_event-Keeps event)
          λ inserted. match-Keeps inserted event

    pub append_outcome-Keeps :
        (actor : Principal) (attempt : ManagementAttempt) (result : AuditResult) (now : Time)
        (parameters : Dict String JsonValue) (code : Option String)
        → Keeps (During H) (append_outcome texts actor attempt result now parameters code)
    unfolding append_outcome
    append_outcome-Keeps actor attempt result now parameters code =
        Keeps-bind (During H) new_uuid _ (new_uuid-Keeps (Both H)) λ id.
          Keeps-bind (During H)
            (on_database (
              append_or_match texts (management_event actor attempt id now result parameters code)))
            _
            (on_database-Keeps H _ (
              append_or_match-Keeps (management_event actor attempt id now result parameters code)))
            λ _ w h. h

    append_attempted-Keeps :
        (actor : Principal) (attempt : ManagementAttempt) (now : Time)
        → Keeps (During H) (append_attempted texts actor attempt now)
    unfolding append_attempted
    append_attempted-Keeps actor attempt now =
        let event =
          management_event actor attempt attempt.correlation_id now AuditResult.attempted
            attempt.parameters none in
        Keeps-bind (During H) (on_database (append_or_match texts event)) _
          (on_database-Keeps H _ (append_or_match-Keeps event))
          λ _. on_database-Keeps H commit_unit (commit_unit-Keeps H)

    pub commit_attempted-Keeps :
        (actor : Principal) (action type id : String) (parameters : Dict String JsonValue)
        → Keeps (Committed H) (commit_attempted texts actor action type id parameters)
    unfolding commit_attempted
    commit_attempted-Keeps actor action type id parameters =
        let D : Database → Type 0 = λ d. H d.store.users in
        Keeps-bind (Committed H) new_uuid _ (new_uuid-Keeps D) λ correlation_id.
          Keeps-bind (Committed H) admin_now _ (admin_now-Keeps D) λ now.
            Keeps-bind (Committed H)
              (translating (in_admin_unit (append_attempted texts actor _ now))) _
              (translating-Keeps H (Committed H) _
                (in_admin_unit-Keeps H _ (append_attempted-Keeps actor _ now)))
              λ _ w h. h

    append_failed-Keeps :
        (actor : Principal) (attempt : ManagementAttempt) (e : PlatformError)
        → Keeps (During H) (append_failed texts actor attempt e)
    unfolding append_failed
    append_failed-Keeps actor attempt e =
        Keeps-bind (During H) admin_now _ (admin_now-Keeps (Both H)) λ now.
          Keeps-bind (During H)
            (append_outcome texts actor attempt (audit_failure e).0 now attempt.parameters
              (some (audit_failure e).1))
            _ (append_outcome-Keeps actor attempt _ now _ _)
            λ _. on_database-Keeps H commit_unit (commit_unit-Keeps H)

    audit_result_of-Keeps :
        (actor : Principal) (attempt : ManagementAttempt)
        (r : Result PlatformError AdminMutationResult)
        → Keeps (Committed H) (audit_result_of texts actor attempt r)
    unfolding record_failed_outcome
    audit_result_of-Keeps actor attempt (ok a) = λ w h. h
    audit_result_of-Keeps actor attempt (raise e) =
        Keeps-bind (Committed H) (record_failed_outcome texts actor attempt e) _
          (translating-Keeps H (Committed H) _
            (in_committed_admin_unit-Keeps H _ (append_failed-Keeps actor attempt e)))
          λ _ w h. h

    audited-Keeps :
        (actor : Principal) (attempt : ManagementAttempt)
        (r : Result PlatformError AdminMutationResult × AdminWorld)
        → Ends (λ _. Committed H) (λ _. Committed H) r
        → Ends (λ _. Committed H) (λ _. Committed H) (audit_result_of texts actor attempt r.0 r.1)
    audited-Keeps actor attempt (ok a, w) h = h
    audited-Keeps actor attempt (raise e, w) h = audit_result_of-Keeps actor attempt (raise e) w h

    pub finish_mutation-Keeps :
        (actor : Principal) (attempt : ManagementAttempt)
        (mutation : AdminAction AdminMutationResult)
        → Keeps (Committed H) mutation
        → Keeps (Committed H) (finish_mutation texts actor attempt mutation)
    unfolding finish_mutation
    finish_mutation-Keeps actor attempt mutation k =
        Keeps-bind (Committed H) _ _ (λ w h. audited-Keeps actor attempt (mutation w) (k w h))
          λ result.
            Keeps-bind (Committed H) (propagate_revokes result.revoked_session_ids) _
              (propagate_revokes-Keeps (λ d. H d.store.users) result.revoked_session_ids) λ _ w h. h
