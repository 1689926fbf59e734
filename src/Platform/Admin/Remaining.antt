-- ===== src/Platform/Admin/Remaining.antt =====
-- apps/backend/app/platform/admin.py: the administrators after an operation, and after any operations.
use supersonic.Prelude.{
  Bool, true, false, not, ◌&&◌, List, [], String, Option, none, some, refl, arith, is_none,
  if◌then◌else◌, ◌==◌, length, bool_eq,
}
use supersonic.Prelude.Dict.{Dict}
use supersonic.Prelude.Triples.{Triple, Triple-bind, Triple-if}
use supersonic.Platform.Models.{User, Principal, Role, role_eq, AuditResult}
use supersonic.Contract.{Time, JsonValue}
use supersonic.Platform.Store.{get_user_by_id}
use supersonic.Platform.Sanitization.{PythonTexts}
use supersonic.Platform.Database.{call, commit_unit}
use supersonic.Platform.Database.Rules.{call-Ends}
use supersonic.Platform.Admin.Statements.{set_role, set_disabled_at, revoke_all_for_user}
use supersonic.Platform.Admin.{on_database, ManagementAttempt}
use supersonic.Platform.Admin.Users.{
  find_user, require_user, protect_if, settle_role, require_role, conclude, replace_role,
  change_found_role, change_role_work, settle_disabled, require_disabled, revoke_if,
  switch_disabled, set_found_disabled, set_disabled_work, outcome_parameters, revoked_parameters,
}
use supersonic.Platform.Admin.Keeps.{
  Keeps, Keeps-bind, call-Keeps, on_database-Keeps, on_database-Ends, commit_unit-Keeps,
  with_value-Keeps,
}
use supersonic.Platform.Admin.Steps.{append_outcome-Keeps}
use supersonic.Platform.Admin.LastAdmin.{
  IsManaged, Managed, Located, Found, Protected, find_user-Found, protect-Protected,
  set_role-IsManaged, set_disabled-IsManaged,
}
use supersonic.Platform.Admin.Audit.{append_outcome}

set_role-Managed :
    (u : User) (new_role : Role) (now : Time)
    → Triple
        (Protected (u.role == Role.admin && is_none u.disabled_at) new_role u)
        (on_database (call (set_role u.id new_role now u.role)))
        (λ _. Managed)
        (λ _. Managed)
unfolding set_role
set_role-Managed u new_role now w h =
    on_database-Ends (λ _. Managed) (λ _. Managed) w
      (call (set_role u.id new_role now u.role) w.database)
      (call-Ends (set_role u.id new_role now u.role) (λ _ d. Managed (record w { database = d }))
        (λ _ d. Managed (record w { database = d })) w.database
        (h.0.0.0, set_role-IsManaged new_role now u w.database.work.users h.0.0.1 h.0.1 h.1) h.0.0)

set_disabled-Managed :
    (u : User) (disabled : Bool) (now : Time)
    → Triple
        (Protected (disabled && u.role == Role.admin) Role.viewer u)
        (on_database (call (set_disabled_at u.id (if disabled then some now else none) now)))
        (λ _. Managed)
        (λ _. Managed)
unfolding set_disabled_at
set_disabled-Managed u true now w h =
    on_database-Ends (λ _. Managed) (λ _. Managed) w
      (call (set_disabled_at u.id (some now) now) w.database)
      (call-Ends (set_disabled_at u.id (some now) now) (λ _ d. Managed (record w { database = d }))
        (λ _ d. Managed (record w { database = d })) w.database
        (
          h.0.0.0,
          set_disabled-IsManaged (some now) now u w.database.work.users h.0.0.1 h.0.1
              (λ e. h.1 e (ground arith)),
        )
        h.0.0)
set_disabled-Managed u false now w h =
    on_database-Ends (λ _. Managed) (λ _. Managed) w
      (call (set_disabled_at u.id none now) w.database)
      (call-Ends (set_disabled_at u.id none now) (λ _ d. Managed (record w { database = d }))
        (λ _ d. Managed (record w { database = d })) w.database
        (h.0.0.0, set_disabled-IsManaged none now u w.database.work.users h.0.0.1 h.0.1 (λ e. cc))
        h.0.0)

module _ (texts : PythonTexts) where
  pub find_user-Keeps : (id : String) → Keeps Managed (find_user texts id)
  unfolding find_user get_user_by_id
  find_user-Keeps id =
      on_database-Keeps IsManaged _
        (with_value-Keeps IsManaged (texts.uuid id) _ (λ i. call-Keeps IsManaged _ (λ s. refl)))

  pub revoke_all-Keeps :
      (id : String) (now : Time) (reason : String)
      → Keeps Managed (on_database (call (revoke_all_for_user id now reason)))
  unfolding revoke_all_for_user
  revoke_all-Keeps id now reason =
      on_database-Keeps IsManaged _
        (call-Keeps IsManaged (revoke_all_for_user id now reason) (λ s. refl))

  module _ (actor : Principal) (attempt : ManagementAttempt) (now : Time) where
    pub conclude-Keeps :
        (parameters : Dict String JsonValue) (changed : Bool) (ids : List String)
        → Keeps Managed (conclude texts actor attempt now parameters changed ids)
    unfolding conclude
    conclude-Keeps parameters changed ids =
        Keeps-bind Managed
          (append_outcome texts actor attempt AuditResult.succeeded now parameters none) _
          (append_outcome-Keeps IsManaged texts actor attempt AuditResult.succeeded now parameters
            none)
          λ _.
            Keeps-bind Managed (on_database commit_unit) _
              (on_database-Keeps IsManaged commit_unit (commit_unit-Keeps IsManaged)) λ _ w h. h

    require_role-Keeps :
        (new_role : Role) (o : Option User)
        → Keeps Managed (require_role texts actor attempt now new_role o)
    require_role-Keeps new_role none = λ w h. h
    require_role-Keeps new_role (some u) =
        Triple-if Managed (u.role == new_role) _ _ (λ _. Managed) (λ _. Managed) (λ w h. h)
          (λ w h. h)

    settle_role-Keeps :
        (updated : Bool) (u : User) (new_role : Role)
        → Keeps Managed (settle_role texts actor attempt now updated u new_role)
    unfolding settle_role
    settle_role-Keeps false u new_role =
        Keeps-bind Managed (find_user texts u.id) _ (find_user-Keeps u.id)
          λ o. require_role-Keeps new_role o
    settle_role-Keeps true u new_role =
        Keeps-bind Managed (on_database (call (revoke_all_for_user u.id now "role_changed"))) _
          (revoke_all-Keeps u.id now "role_changed") λ _ w h. h

    replace_role-Keeps :
        (u : User) (new_role : Role)
        → Triple
            (Located u)
            (replace_role texts actor attempt now u new_role)
            (λ _. Managed)
            (λ _. Managed)
    unfolding replace_role
    replace_role-Keeps u new_role =
        Triple-bind (Located u)
          (protect_if (u.role == Role.admin && is_none u.disabled_at) new_role u.id) _
          (λ _. Protected (u.role == Role.admin && is_none u.disabled_at) new_role u) (λ _. Managed)
          (λ _. Managed) (protect-Protected _ new_role u)
          λ _.
            Triple-bind _ (on_database (call (set_role u.id new_role now u.role))) _ (λ _. Managed)
              (λ _. Managed) (λ _. Managed) (set_role-Managed u new_role now)
              λ updated.
                Keeps-bind Managed (settle_role texts actor attempt now updated u new_role) _
                  (settle_role-Keeps updated u new_role)
                  λ (changed, ids).
                    conclude-Keeps (outcome_parameters u new_role (length ids)) changed ids

    change_found_role-Keeps :
        (u : User) (new_role : Role)
        → Triple
            (Located u)
            (change_found_role texts actor attempt now u new_role)
            (λ _. Managed)
            (λ _. Managed)
    unfolding change_found_role
    change_found_role-Keeps u new_role =
        Triple-if (Located u) (u.role == new_role) _ _ (λ _. Managed) (λ _. Managed)
          (λ w h. conclude-Keeps (outcome_parameters u new_role 0) false [] w h.0)
          (replace_role-Keeps u new_role)

    require_user-Located :
        (found : Option User)
        → Triple (Found found) (require_user texts found) Located (λ _. Managed)
    require_user-Located none = λ w h. h
    require_user-Located (some u) = λ w h. h

    pub change_role_work-Keeps :
        (user_id : String) (new_role : Role)
        → Keeps Managed (change_role_work texts actor attempt now user_id new_role)
    unfolding change_role_work
    change_role_work-Keeps user_id new_role =
        Triple-bind Managed (find_user texts user_id) _ Found _ _ (find_user-Found texts user_id)
          λ found.
            Triple-bind (Found found) (require_user texts found) _ Located _ _
              (require_user-Located found) λ u. change_found_role-Keeps u new_role

    require_disabled-Keeps :
        (disabled : Bool) (o : Option User)
        → Keeps Managed (require_disabled texts actor attempt now disabled o)
    require_disabled-Keeps disabled none = λ w h. h
    require_disabled-Keeps disabled (some u) =
        Triple-if Managed (not (is_none u.disabled_at) == disabled) _ _ (λ _. Managed)
          (λ _. Managed) (λ w h. h) (λ w h. h)

    settle_disabled-Keeps :
        (updated : Bool) (u : User) (disabled : Bool)
        → Keeps Managed (settle_disabled texts actor attempt now updated u disabled)
    unfolding settle_disabled
    settle_disabled-Keeps false u disabled =
        Keeps-bind Managed (find_user texts u.id) _ (find_user-Keeps u.id)
          λ o. require_disabled-Keeps disabled o
    settle_disabled-Keeps true u disabled = λ w h. h

    revoke_if-Keeps :
        (b : Bool) (id : String) → Keeps Managed (revoke_if texts actor attempt now b id)
    revoke_if-Keeps true id = revoke_all-Keeps id now "user_disabled"
    revoke_if-Keeps false id = λ w h. h

    switch_disabled-Keeps :
        (u : User) (disabled : Bool)
        → Triple
            (Located u)
            (switch_disabled texts actor attempt now u disabled)
            (λ _. Managed)
            (λ _. Managed)
    unfolding switch_disabled
    switch_disabled-Keeps u disabled =
        Triple-bind (Located u) (protect_if (disabled && u.role == Role.admin) Role.viewer u.id) _
          (λ _. Protected (disabled && u.role == Role.admin) Role.viewer u) (λ _. Managed)
          (λ _. Managed) (protect-Protected _ Role.viewer u)
          λ _.
            Triple-bind _
              (on_database (call (set_disabled_at u.id (if disabled then some now else none) now)))
              _ (λ _. Managed) (λ _. Managed) (λ _. Managed) (set_disabled-Managed u disabled now)
              λ updated.
                Keeps-bind Managed (settle_disabled texts actor attempt now updated u disabled) _
                  (settle_disabled-Keeps updated u disabled)
                  λ changed.
                    Keeps-bind Managed
                      (revoke_if texts actor attempt now (disabled && changed) u.id) _
                      (revoke_if-Keeps (disabled && changed) u.id)
                      λ ids. conclude-Keeps (revoked_parameters (length ids)) changed ids

    set_found_disabled-Keeps :
        (u : User) (disabled : Bool)
        → Triple
            (Located u)
            (set_found_disabled texts actor attempt now u disabled)
            (λ _. Managed)
            (λ _. Managed)
    unfolding set_found_disabled
    set_found_disabled-Keeps u disabled =
        Triple-if (Located u) (not (is_none u.disabled_at) == disabled) _ _ (λ _. Managed)
          (λ _. Managed) (λ w h. conclude-Keeps (revoked_parameters 0) false [] w h.0)
          (switch_disabled-Keeps u disabled)

    pub set_disabled_work-Keeps :
        (user_id : String) (disabled : Bool)
        → Keeps Managed (set_disabled_work texts actor attempt now user_id disabled)
    unfolding set_disabled_work
    set_disabled_work-Keeps user_id disabled =
        Triple-bind Managed (find_user texts user_id) _ Found _ _ (find_user-Found texts user_id)
          λ found.
            Triple-bind (Found found) (require_user texts found) _ Located _ _
              (require_user-Located found) λ u. set_found_disabled-Keeps u disabled
