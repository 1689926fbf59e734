-- ===== src/Platform/AuditQuery/Examples.antt =====
-- A history of three facts, one of which an operator does not see.
use supersonic.Prelude.{
  refl, true, false, none, some, ok, ◌∷◌, [], ◌≡◌, ap, sym, String, List, arith, ℕ, ne_by_compare,
}
use supersonic.Platform.Models.{AuditEvent, AuditDelivery, Role}
use supersonic.Platform.Store.{Store}
use supersonic.Platform.Sanitization.Examples.{plain_texts, revoke_event, first_id, second_id}
use supersonic.Platform.Database.{Database}
use supersonic.Platform.AuditQuery.{operational}
use supersonic.Platform.AuditQuery.Service.{read_pages, list_for_role}
use supersonic.Platform.AuditQuery.History.{read_pages-visible, Identified}
use supersonic.Platform.AuditQuery.Order.{HasOwnIds}
use supersonic.Platform.AuditQuery.Hidden.{list_for_role-hide, hide}

abbrev third_id : String
third_id = "16fd2706-8baf-433b-82eb-8c7fada847da"

-- A fact with its id, its time and its action.
abbrev fact_of : String → ℕ → String → AuditEvent
fact_of id time action = record (revoke_event AuditDelivery.primary) {
  id = id;
  occurred_at = time;
  action = action;
}

abbrev login : AuditEvent
login = fact_of third_id 3000000 "auth.login"

abbrev command : AuditEvent
command = fact_of second_id 2000000 "cockpit.command"

abbrev risk : AuditEvent
risk = fact_of first_id 1000000 "risk.detected"

abbrev history : List AuditEvent
history = risk ∷ login ∷ command ∷ []

abbrev store_of_history : Store
store_of_history = record { users = []; platform_sessions = []; audit_events = history }

abbrev database : Database
database = record {
  store = store_of_history;
  work = store_of_history;
  outages = λ _. false;
  calls = 0;
}

history-HasOwnIds : HasOwnIds history
history-HasOwnIds = (
  (ne_by_compare first_id third_id refl, (ne_by_compare first_id second_id refl, tt)),
  ((ne_by_compare third_id second_id refl, tt), (tt, tt)),
)

history-Identified : Identified plain_texts history
unfolding plain_texts supersonic.Prelude.ℕ_discrete
history-Identified = (refl, (refl, (refl, tt)))

-- Pages of one fact.
read_pages-visible_example :
    (read_pages plain_texts 2 operational 1 none database).0 ≡ ok (command ∷ risk ∷ [])
unfolding supersonic.Platform.Rows.order_by supersonic.Platform.Rows.select_where
    supersonic.Platform.AuditQuery.in_scope supersonic.Prelude.String-discrete
    supersonic.Prelude.ℕ_discrete supersonic.Platform.AuditQuery.is_before
read_pages-visible_example =
    read_pages-visible plain_texts 2 1 operational database (λ n. refl) history-HasOwnIds
      history-Identified refl (omega arith)

list_for_role-hide_example : list_for_role plain_texts Role.viewer none 50 (hide database) ≡ (
  (list_for_role plain_texts Role.viewer none 50 database).0,
  hide (list_for_role plain_texts Role.viewer none 50 database).1,
)
list_for_role-hide_example = list_for_role-hide plain_texts Role.viewer none 50 database (λ e. cc e)
