-- ===== src/Platform/Admin/Users.antt =====
-- apps/backend/app/platform/admin.py: `change_role` and `set_disabled`.
use supersonic.Prelude.{
  Bool, true, false, not, ◌&&◌, List, [], ◌∷◌, String, ℕ, Option, none, some, is_none,
  if◌then◌else◌, ◌==◌, string_eq, bool_eq, leb, length, contains, pure, throw, throw_if, ◌>>=◌,
  ◌>>◌, ◌++◌,
}
use supersonic.Prelude.Dict.{Dict}
use supersonic.Contract.{Time, JsonValue}
use supersonic.Platform.Models.{User, Role, role_eq, Principal, AuditResult}
use supersonic.Platform.Store.{get_user_by_id}
use supersonic.Platform.Sanitization.{PythonTexts}
use supersonic.Platform.Database.{
  call, query, with_value, commit_unit, user_not_found, self_management_forbidden,
  last_admin_protected, admin_mutation_failed,
}
use supersonic.Platform.Admin.Statements.{
  set_role, set_disabled_at, enabled_role_holder_ids, revoke_all_for_user,
}
use supersonic.Platform.Admin.{
  AdminAction, ManagementAttempt, AdminMutationResult, mutation_result, on_database, check_ready,
  in_admin_unit, in_committed_admin_unit, admin_now, require_admin,
}
use supersonic.Platform.Admin.Audit.{append_outcome, commit_attempted, finish_mutation}

abbrev pub role_value : Role → String
role_value Role.admin = "admin"
role_value Role.operator = "operator"
role_value Role.viewer = "viewer"

abbrev pub role_parameters : Role → Role → Dict String JsonValue
role_parameters old new =
    ("oldRole", JsonValue.string (role_value old))
    ∷ ("newRole", JsonValue.string (role_value new))
    ∷ []

abbrev pub revoked_parameters : ℕ → Dict String JsonValue
revoked_parameters n = ("revokedSessionCount", JsonValue.integer false n) ∷ []

-- `_protect_enabled_admin`, of the ids that are locked
abbrev pub is_last_admin : String → List String → Bool
is_last_admin target_id ids = contains target_id ids && leb (length ids) 1

unfoldable pub protect_enabled_admin : Role → String → AdminAction (Unit {0})
unfolding enabled_role_holder_ids contains
protect_enabled_admin Role.admin target_id = pure tt
protect_enabled_admin _ target_id = do
  ids ← on_database (query (enabled_role_holder_ids Role.admin))
  throw_if (is_last_admin target_id ids) last_admin_protected

-- `if …: await self._protect_enabled_admin(…)`
abbrev pub protect_if : Bool → Role → String → AdminAction (Unit {0})
protect_if true new_role target_id = protect_enabled_admin new_role target_id
protect_if false new_role target_id = pure tt

abbrev pub outcome_parameters : User → Role → ℕ → Dict String JsonValue
outcome_parameters u new_role n = role_parameters u.role new_role ++ revoked_parameters n

module _ (texts : PythonTexts) where
  -- `_same_identifier`
  abbrev pub same_canonical : String → String → Option String → Option String → Bool
  same_canonical left right (some l) (some r) = l == r
  same_canonical left right _ _ = left == right

  unfoldable pub same_identifier : String → String → Bool
  same_identifier left right = same_canonical left right (texts.uuid left) (texts.uuid right)

  -- `uow.users.get_by_id`
  unfoldable pub find_user : String → AdminAction (Option User)
  find_user user_id =
      on_database (with_value (texts.uuid user_id) (λ id. query (get_user_by_id id)))

  abbrev pub require_user : Option User → AdminAction User
  require_user none = throw user_not_found
  require_user (some u) = pure u

  -- The unit of work that reads the candidate
  unfoldable pub read_user : String → AdminAction User
  read_user user_id = do found ← find_user user_id; require_user found

  module _ (actor : Principal) (attempt : ManagementAttempt) (now : Time) where
    -- `_append_outcome`, `commit` and the result that is then committed
    unfoldable pub conclude :
        Dict String JsonValue → Bool → List String → AdminAction AdminMutationResult
    conclude parameters changed ids = do
      append_outcome texts actor attempt AuditResult.succeeded now parameters none
      on_database commit_unit
      pure (mutation_result changed ids)

    -- The user after an update that changed no row.
    abbrev pub require_role : Role → Option User → AdminAction (Bool × List String)
    require_role new_role none = throw user_not_found
    require_role new_role (some current) =
        if current.role == new_role then pure (false, []) else throw admin_mutation_failed

    unfoldable pub settle_role : Bool → User → Role → AdminAction (Bool × List String)
    settle_role false u new_role = do current ← find_user u.id; require_role new_role current
    settle_role true u new_role = do
      ids ← on_database (call (revoke_all_for_user u.id now "role_changed"))
      pure (true, ids)

    unfoldable pub replace_role : User → Role → AdminAction AdminMutationResult
    unfolding protect_enabled_admin
    replace_role u new_role = do
      protect_if (u.role == Role.admin && is_none u.disabled_at) new_role u.id
      updated ← on_database (call (set_role u.id new_role now u.role))
      (changed, ids) ← settle_role updated u new_role
      conclude (outcome_parameters u new_role (length ids)) changed ids

    unfoldable pub change_found_role : User → Role → AdminAction AdminMutationResult
    change_found_role u new_role =
        if u.role == new_role
        then conclude (outcome_parameters u new_role 0) false []
        else replace_role u new_role

    -- The unit of work of `_change_role_after_attempt`
    unfoldable pub change_role_work : String → Role → AdminAction AdminMutationResult
    change_role_work user_id new_role = do
      found ← find_user user_id
      u ← require_user found
      change_found_role u new_role

    -- The user after an update that changed no row.
    abbrev pub require_disabled : Bool → Option User → AdminAction Bool
    require_disabled disabled none = throw user_not_found
    require_disabled disabled (some current) =
        if not (is_none current.disabled_at) == disabled
        then pure false
        else throw admin_mutation_failed

    unfoldable pub settle_disabled : Bool → User → Bool → AdminAction Bool
    settle_disabled false u disabled = do
      current ← find_user u.id
      require_disabled disabled current
    settle_disabled true u disabled = pure true

    abbrev pub revoke_if : Bool → String → AdminAction (List String)
    revoke_if true user_id = on_database (call (revoke_all_for_user user_id now "user_disabled"))
    revoke_if false user_id = pure []

    unfoldable pub switch_disabled : User → Bool → AdminAction AdminMutationResult
    switch_disabled u disabled = do
      protect_if (disabled && u.role == Role.admin) Role.viewer u.id
      updated ← on_database (call (set_disabled_at u.id (if disabled then some now else none) now))
      changed ← settle_disabled updated u disabled
      ids ← revoke_if (disabled && changed) u.id
      conclude (revoked_parameters (length ids)) changed ids

    unfoldable pub set_found_disabled : User → Bool → AdminAction AdminMutationResult
    set_found_disabled u disabled =
        if not (is_none u.disabled_at) == disabled
        then conclude (revoked_parameters 0) false []
        else switch_disabled u disabled

    -- The unit of work of `_set_disabled_after_attempt`
    unfoldable pub set_disabled_work : String → Bool → AdminAction AdminMutationResult
    set_disabled_work user_id disabled = do
      found ← find_user user_id
      u ← require_user found
      set_found_disabled u disabled

  module _ (actor : Principal) where
    -- `_change_role_after_attempt`
    unfoldable pub change_role_after_attempt :
        String → Role → ManagementAttempt → AdminAction AdminMutationResult
    change_role_after_attempt user_id new_role attempt = do
      now ← admin_now
      in_committed_admin_unit (change_role_work actor attempt now user_id new_role)

    -- `change_role`, once its candidate was read
    unfoldable pub change_role_of : User → Role → AdminAction AdminMutationResult
    change_role_of u new_role = if u.role == new_role then pure (mutation_result false []) else (do
      attempt ←
          commit_attempted texts actor "user.role_change" "user" u.id
            (role_parameters u.role new_role)
      finish_mutation texts actor attempt (change_role_after_attempt u.id new_role attempt))

    -- `change_role`
    unfoldable pub change_role : String → Role → AdminAction AdminMutationResult
    unfolding same_identifier
    change_role user_id new_role = do
      require_admin actor
      throw_if (same_identifier user_id actor.user_id) self_management_forbidden
      check_ready
      u ← in_admin_unit (read_user user_id)
      change_role_of u new_role

    -- `_set_disabled_after_attempt`
    unfoldable pub set_disabled_after_attempt :
        String → Bool → ManagementAttempt → AdminAction AdminMutationResult
    set_disabled_after_attempt user_id disabled attempt = do
      now ← admin_now
      in_committed_admin_unit (set_disabled_work actor attempt now user_id disabled)

    abbrev pub disable_action : Bool → String
    disable_action disabled = if disabled then "user.disable" else "user.enable"

    -- `set_disabled`, once its candidate was read
    unfoldable pub set_disabled_of : User → Bool → AdminAction AdminMutationResult
    set_disabled_of u disabled =
        if not (is_none u.disabled_at) == disabled then pure (mutation_result false []) else (do
          attempt ← commit_attempted texts actor (disable_action disabled) "user" u.id []
          finish_mutation texts actor attempt (set_disabled_after_attempt u.id disabled attempt))

    -- `set_disabled`
    unfoldable pub set_disabled : String → Bool → AdminAction AdminMutationResult
    unfolding same_identifier
    set_disabled user_id disabled = do
      require_admin actor
      throw_if (disabled && same_identifier user_id actor.user_id) self_management_forbidden
      check_ready
      u ← in_admin_unit (read_user user_id)
      set_disabled_of u disabled
