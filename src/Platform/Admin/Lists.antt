-- ===== src/Platform/Admin/Lists.antt =====
-- apps/backend/app/platform/admin.py: `list_users` and `list_sessions`.
use supersonic.Prelude.{List, ℕ, String, map, pure, ◌>>=◌, ◌>>◌}
use supersonic.Platform.Models.{Principal, PlatformSession}
use supersonic.Platform.Sanitization.{PythonTexts}
use supersonic.Platform.Database.{query, with_value}
use supersonic.Platform.Admin.Statements.{list_all, list_for_user}
use supersonic.Platform.Admin.{
  AdminAction, UserSummary, SessionSummary, user_summary, session_summary, on_database, check_ready,
  in_admin_unit, require_admin, validate_limit,
}
use supersonic.Platform.Admin.Users.{read_user}

-- `list_users`
unfoldable pub list_users : Principal → ℕ → AdminAction (List UserSummary)
list_users actor limit = do
  require_admin actor
  validate_limit limit
  check_ready
  users ← in_admin_unit (on_database (query (list_all limit)))
  pure (map user_summary users)

module _ (texts : PythonTexts) where
  -- The unit of work of `list_sessions`
  unfoldable pub read_sessions : String → ℕ → AdminAction (List PlatformSession)
  read_sessions user_id limit = do
    _ ← read_user texts user_id
    on_database (with_value (texts.uuid user_id) (λ id. query (list_for_user id limit)))

  -- `list_sessions`
  unfoldable pub list_sessions : Principal → String → ℕ → AdminAction (List SessionSummary)
  list_sessions actor user_id limit = do
    require_admin actor
    validate_limit limit
    check_ready
    sessions ← in_admin_unit (read_sessions user_id limit)
    pure (map session_summary sessions)
