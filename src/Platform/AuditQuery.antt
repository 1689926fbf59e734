-- ===== src/Platform/AuditQuery.antt =====
-- apps/backend/app/platform/audit_query.py, the audit queries of models.py, and `list_page` of
-- adapters/postgres/repositories.py: the pages of the audit history.
pub mod Service
pub mod Order
pub mod Pages
pub mod Reading
pub mod History
pub mod Hidden
mod Examples
use Prim.Native.Char.{Char, code}
use Prim.Native.String
use supersonic.Prelude.{
  Bool, true, false, ◌&&◌, ◌||◌, not, List, [], ◌∷◌, String, ◌==◌, nat_eq, string_eq, ℕ, ◌+◌,
  Option, none, some, leb, ltb, length, take, if◌then◌else◌, zero, suc,
}
use supersonic.Prelude.Partial.{◌>>=◌}
use supersonic.Prelude.TextOrder.{text_before}
use supersonic.Contract.{Time}
use supersonic.Platform.Models.{AuditEvent, Role}
use supersonic.Platform.Sanitization.{PythonTexts, sanitize_audit_event}
use supersonic.Platform.Store.{Store}
use supersonic.Platform.Rows.{select_where, order_by}

pub data AuditQueryScope : Type 0 where
  all operational : AuditQueryScope

pub record AuditCursor : Type 0 where
  pub occurred_at : Time
  pub event_id : String

pub record AuditQuery : Type 0 where
  pub scope : AuditQueryScope
  pub cursor : Option AuditCursor
  pub limit : ℕ

pub record AuditPage : Type 0 where
  pub events : List AuditEvent
  pub next_cursor : Option AuditCursor

-- `AuditQuery.__post_init__`
unfoldable pub audit_query : AuditQueryScope → Option AuditCursor → ℕ → Option AuditQuery
audit_query scope cursor limit =
    if leb 1 limit && leb limit 100
    then some (record { scope = scope; cursor = cursor; limit = limit })
    else none

-- `_scope_for_role`
abbrev pub scope_for_role : Role → AuditQueryScope
scope_for_role Role.admin = all
scope_for_role Role.operator = operational
scope_for_role Role.viewer = operational

-- `LIKE` of a text and `%`
unfoldable pub starts_with : String → String → Bool
starts_with String.[] s = true
starts_with (String.◌∷◌ c prefix) String.[] = false
starts_with (String.◌∷◌ c prefix) (String.◌∷◌ d s) = code c == code d && starts_with prefix s

-- `_apply_audit_scope`
unfoldable pub in_scope : AuditQueryScope → AuditEvent → Bool
unfolding starts_with
in_scope all event = true
in_scope operational event =
    event.action == "cockpit.command"
    || starts_with "cockpit.command." event.action
    || starts_with "risk." event.action
    || starts_with "recovery." event.action

-- The condition of `_audit_keyset_before`
unfoldable pub is_before : Time → String → AuditEvent → Bool
is_before time id event =
    ltb event.occurred_at time || event.occurred_at == time && text_before event.id id

-- `order_by(AuditEventRow.occurred_at.desc(), AuditEventRow.id.desc())`
abbrev pub newest_first : AuditEvent → AuditEvent → Bool
newest_first event other = is_before event.occurred_at event.id other

abbrev pub last : List AuditEvent → Option AuditEvent
last [] = none
last (event ∷ events) = elim (last events) [ none ↦ some event | some e ↦ some e ]

-- The rows of the statement, with the condition of its cursor.
unfoldable pub page_rows : AuditQueryScope → (AuditEvent → Bool) → ℕ → Store → List AuditEvent
unfolding order_by select_where
page_rows scope test limit s =
    take (limit + 1)
      (order_by newest_first (select_where test (select_where (in_scope scope) s.audit_events)))

module _ (texts : PythonTexts) where
  -- `AuditCursor.__post_init__`
  abbrev pub audit_cursor : Time → String → Option AuditCursor
  audit_cursor time id = do _ ← texts.uuid id; some (record { occurred_at = time; event_id = id })

  -- `_audit_keyset_before`; with no cursor there is no condition.
  unfoldable pub audit_keyset_before : Option AuditCursor → Option (AuditEvent → Bool)
  audit_keyset_before none = some (λ event. true)
  audit_keyset_before (some cursor) = do
    id ← texts.uuid cursor.event_id
    some (is_before cursor.occurred_at id)

  abbrev pub next_cursor_of : Option AuditEvent → Option (Option AuditCursor)
  next_cursor_of none = some none
  next_cursor_of (some event) = do
    cursor ← audit_cursor event.occurred_at event.id
    some (some cursor)

  -- The page of `list_page`
  unfoldable pub page_of : ℕ → List AuditEvent → Option AuditPage
  page_of limit rows = do
    cursor ← if ltb limit (length rows) then next_cursor_of (last (take limit rows)) else some none
    some (record { events = take limit rows; next_cursor = cursor })

  -- `_sanitize_event`, of every event of a page
  unfoldable pub sanitize_events : List AuditEvent → Option (List AuditEvent)
  sanitize_events [] = some []
  sanitize_events (event ∷ events) = do
    e ← sanitize_audit_event texts event
    es ← sanitize_events events
    some (e ∷ es)
