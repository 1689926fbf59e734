-- ===== src/Platform/Admin/Statements.antt =====
-- apps/backend/app/adapters/postgres/repositories.py: the statements that the administration sends,
-- as functions on the rows.

use supersonic.Prelude.{
  Bool, false, not, ◌&&◌, ◌||◌, List, [], ◌∷◌, String, ℕ, Option, some, is_none, if◌then◌else◌,
  ◌==◌, string_eq, take, ltb, nat_eq, map,
}
use supersonic.Contract.{Time}
use supersonic.Prelude.TextOrder.{text_before}
use supersonic.Platform.Rows.{select_where, order_by}
use supersonic.Platform.Models.{User, PlatformSession, Role, role_eq}
use supersonic.Platform.Store.{Store}

-- The rows of an `update`: how many match is told by `any_match`, since an id has one row at most.
unfoldable pub update_where : {A : Type 0} → (A → Bool) → (A → A) → List A → List A
update_where test change [] = []
update_where test change (row ∷ rows) =
    (if test row then change row else row) ∷ update_where test change rows

unfoldable pub any_match : {A : Type 0} → (A → Bool) → List A → Bool
any_match test [] = false
any_match test (row ∷ rows) = test row || any_match test rows

-- `set_role`
abbrev pub has_role : String → Role → User → Bool
has_role id expected u = u.id == id && u.role == expected

unfoldable pub set_role : String → Role → Time → Role → Store → Bool × Store
unfolding update_where any_match
set_role id role now expected s = (
  any_match (has_role id expected) s.users,
  record s {
    users =
        update_where (has_role id expected) (λ u. record u { role = role; updated_at = now })
          s.users;
  },
)

-- `set_disabled`
abbrev pub may_switch : String → Option Time → User → Bool
may_switch id disabled_at u =
    u.id == id
    && (if is_none disabled_at then not (is_none u.disabled_at) else is_none u.disabled_at)

unfoldable pub set_disabled_at : String → Option Time → Time → Store → Bool × Store
unfolding update_where any_match
set_disabled_at id disabled_at now s = (
  any_match (may_switch id disabled_at) s.users,
  record s {
    users =
        update_where (may_switch id disabled_at)
          (λ u. record u { disabled_at = disabled_at; updated_at = now }) s.users;
  },
)

-- `lock_enabled_role_holder_ids`, in the order of the rows: its caller counts the ids and looks for
-- one of them.
abbrev pub is_enabled : Role → User → Bool
is_enabled role u = u.role == role && is_none u.disabled_at

unfoldable pub enabled_role_holder_ids : Role → Store → List String
unfolding select_where
enabled_role_holder_ids role s = map (λ u. u.id) (select_where (is_enabled role) s.users)

-- `revoke_all_for_user`
abbrev pub is_open_of : String → PlatformSession → Bool
is_open_of user_id p = p.user_id == user_id && is_none p.revoked_at

unfoldable pub revoke_all_for_user : String → Time → String → Store → List String × Store
unfolding update_where select_where
revoke_all_for_user user_id now reason s = (
  map (λ p. p.id) (select_where (is_open_of user_id) s.platform_sessions),
  record s {
    platform_sessions =
        update_where (is_open_of user_id)
          (λ p. record p { revoked_at = some now; revoke_reason = some reason })
          s.platform_sessions;
  },
)

-- `list_all`
unfoldable pub list_all : ℕ → Store → List User
unfolding order_by
list_all limit s =
    take limit (order_by (λ u v. text_before u.username_norm v.username_norm) s.users)

-- `list_for_user`: the last created come first, and of one time the last id.
unfoldable pub list_for_user : String → ℕ → Store → List PlatformSession
unfolding order_by select_where
list_for_user user_id limit s = take limit (
    order_by
      (λ p q.
        ltb q.created_at p.created_at || p.created_at == q.created_at && text_before q.id p.id)
      (select_where (λ p. p.user_id == user_id) s.platform_sessions))
