-- ===== src/Platform/Admin/Revoking.antt =====
-- apps/backend/app/platform/admin.py: the steps of `revoke_session` leave the users' rows as they are.
use supersonic.Prelude.{Bool, true, false, not, String, Option, none, some, refl, is_none, bool_eq}
use supersonic.Prelude.Triples.{Triple-if}
use supersonic.Platform.Models.{Principal, role_eq, PlatformSession}
use supersonic.Contract.{Time}
use supersonic.Platform.Store.{get_session_by_id, revoke_session as revoke_row}
use supersonic.Platform.Sanitization.{PythonTexts}
use supersonic.Platform.Admin.{ManagementAttempt, on_database}
use supersonic.Platform.Admin.Sessions.{
  find_session, require_session, require_revoked, settle_revoked, revoke_target,
  revoke_session_work, read_session, revoke_parameters,
}
use supersonic.Platform.Admin.Keeps.{
  Keeps, Keeps-bind, call-Keeps, on_database-Keeps, with_value-Keeps,
}
use supersonic.Platform.Admin.LastAdmin.{IsManaged, Managed}
use supersonic.Platform.Admin.Remaining.{conclude-Keeps}
use supersonic.Platform.Database.{call}

module _ (texts : PythonTexts) where
  pub find_session-Keeps : (id : String) → Keeps Managed (find_session texts id)
  unfolding find_session get_session_by_id
  find_session-Keeps id =
      on_database-Keeps IsManaged _
        (with_value-Keeps IsManaged (texts.uuid id) _ (λ i. call-Keeps IsManaged _ (λ s. refl)))

  pub require_session-Keeps : (o : Option PlatformSession) → Keeps Managed (require_session texts o)
  require_session-Keeps none = λ w h. h
  require_session-Keeps (some p) = λ w h. h

  pub require_revoked-Keeps : (o : Option PlatformSession) → Keeps Managed (require_revoked texts o)
  require_revoked-Keeps none = λ w h. h
  require_revoked-Keeps (some p) =
      Triple-if Managed (is_none p.revoked_at) _ _ (λ _. Managed) (λ _. Managed) (λ w h. h)
        (λ w h. h)

  pub settle_revoked-Keeps :
      (updated : Bool) (p : PlatformSession) → Keeps Managed (settle_revoked texts updated p)
  unfolding settle_revoked
  settle_revoked-Keeps true p = λ w h. h
  settle_revoked-Keeps false p =
      Keeps-bind Managed (find_session texts p.id) _ (find_session-Keeps p.id) require_revoked-Keeps

  pub revoke_row-Keeps :
      (id : String) (now : Time) (reason : String)
      → Keeps Managed (on_database (call (revoke_row id now reason)))
  unfolding revoke_row
  revoke_row-Keeps id now reason =
      on_database-Keeps IsManaged _ (call-Keeps IsManaged (revoke_row id now reason) (λ s. refl))

  pub revoke_target-Keeps :
      (p : PlatformSession) (now : Time) (reason : String)
      → Keeps Managed (revoke_target texts p now reason)
  unfolding revoke_target
  revoke_target-Keeps p now reason =
      Triple-if Managed (not (is_none p.revoked_at)) _ _ (λ _. Managed) (λ _. Managed) (λ w h. h)
        (Keeps-bind Managed (on_database (call (revoke_row p.id now reason))) _
          (revoke_row-Keeps p.id now reason) λ updated. settle_revoked-Keeps updated p)

  module _ (actor : Principal) where
    pub read_session-Keeps : (id : String) → Keeps Managed (read_session texts id)
    unfolding read_session
    read_session-Keeps id =
        Keeps-bind Managed (find_session texts id) _ (find_session-Keeps id) require_session-Keeps

    pub revoke_work-Keeps :
        (attempt : ManagementAttempt) (now : Time) (id reason : String)
        → Keeps Managed (revoke_session_work texts actor attempt now id reason)
    unfolding revoke_session_work
    revoke_work-Keeps attempt now id reason =
        Keeps-bind Managed (find_session texts id) _ (find_session-Keeps id) λ found.
          Keeps-bind Managed (require_session texts found) _ (require_session-Keeps found) λ p.
            Keeps-bind Managed (revoke_target texts p now reason) _
              (revoke_target-Keeps p now reason)
              λ changed.
                conclude-Keeps texts actor attempt now (revoke_parameters p reason) changed _
