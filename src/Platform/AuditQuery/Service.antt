-- ===== src/Platform/AuditQuery/Service.antt =====
-- apps/backend/app/platform/audit_query.py: `AuditQueryService`, and the pages that a client reads
-- one after the other.
use supersonic.Prelude.{List, [], ◌++◌, ℕ, zero, suc, Option, none, some, pure, ◌>>=◌, ◌>>◌}
use supersonic.Platform.Models.{AuditEvent, Role}
use supersonic.Platform.Sanitization.{PythonTexts}
use supersonic.Platform.Database.{DatabaseAction, call, query, with_value, in_unit}
use supersonic.Platform.AuditQuery.{
  AuditCursor, AuditQuery, AuditPage, AuditQueryScope, audit_query, scope_for_role, page_rows,
  page_of, audit_keyset_before, sanitize_events,
}

module _ (texts : PythonTexts) where
  -- `list_page`
  unfoldable pub list_page : AuditQuery → DatabaseAction AuditPage
  unfolding page_rows page_of audit_keyset_before
  list_page q = with_value (audit_keyset_before texts q.cursor) (λ test. do
    rows ← query (page_rows q.scope test q.limit)
    with_value (page_of texts q.limit rows) pure)

  abbrev pub sanitize_page : AuditPage → DatabaseAction AuditPage
  sanitize_page page =
      with_value (sanitize_events texts page.events)
        (λ events. pure (record { events = events; next_cursor = page.next_cursor }))

  -- `list_for_role`
  unfoldable pub list_for_role : Role → Option AuditCursor → ℕ → DatabaseAction AuditPage
  unfolding audit_query list_page sanitize_events
  list_for_role role cursor limit =
      with_value (audit_query (scope_for_role role) cursor limit)
        (λ q. do call (λ s. (tt, s)); page ← in_unit (list_page q); sanitize_page page)

  -- A client that asks for the next page as long as there is one, for at most so many pages.
  unfoldable pub read_pages :
      ℕ → AuditQueryScope → ℕ → Option AuditCursor → DatabaseAction (List AuditEvent)
  unfolding list_page
  read_pages zero scope limit cursor = pure []
  read_pages (suc n) scope limit cursor = do
    page ← list_page (record { scope = scope; cursor = cursor; limit = limit })
    rest ← elim page.next_cursor [ none ↦ pure [] | some c ↦ read_pages n scope limit (some c) ]
    pure (page.events ++ rest)
