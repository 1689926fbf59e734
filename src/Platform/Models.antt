-- ===== src/Platform/Models.antt =====
-- apps/backend/app/platform/models.py and errors.py: the platform's data. A datetime is a number of
-- microseconds (UTC), as in the contract.
use supersonic.Prelude.{ℕ, String, Option, Eq}
use supersonic.Contract.{Time, JsonValue}
use supersonic.Prelude.Dict.{Dict}

pub data Role : Type 0 where
  admin operator viewer : Role

unfoldable pub Role-discrete : Discrete Role
Role-discrete = hlevel

instance abbrev pub role_eq : Eq Role
role_eq = record { discrete = Role-discrete }

pub data AuditResult : Type 0 where
  attempted succeeded rejected error degraded : AuditResult

unfoldable pub AuditResult-discrete : Discrete AuditResult
AuditResult-discrete = hlevel

instance abbrev pub audit_result_eq : Eq AuditResult
audit_result_eq = record { discrete = AuditResult-discrete }

pub data AuditDelivery : Type 0 where
  primary fallback lost : AuditDelivery

unfoldable pub AuditDelivery-discrete : Discrete AuditDelivery
AuditDelivery-discrete = hlevel

instance abbrev pub audit_delivery_eq : Eq AuditDelivery
audit_delivery_eq = record { discrete = AuditDelivery-discrete }

pub record User : Type 0 where
  pub id : String
  pub username_norm : String
  pub display_name : String
  pub password_hash : String
  pub role : Role
  pub disabled_at : Option Time
  pub created_at : Time
  pub updated_at : Time

pub record PlatformSession : Type 0 where
  pub id : String
  pub user_id : String
  pub token_digest : String
  pub created_at : Time
  pub expires_at : Time
  pub last_seen_at : Option Time
  pub revoked_at : Option Time
  pub revoke_reason : Option String

pub record AuditEvent : Type 0 where
  pub id : String
  pub occurred_at : Time
  pub action : String
  pub result : AuditResult
  pub delivery : AuditDelivery
  pub actor_user_id : Option String
  pub actor_platform_session_id : Option String
  pub actor_role : Option Role
  pub endpoint : Option String
  pub cockpit_session_id : Option String
  pub command_name : Option String
  pub correlation_id : Option String
  pub target_type : Option String
  pub target_id : Option String
  pub parameters : Dict String JsonValue
  pub error_code : Option String
  pub source_type : String

pub record Principal : Type 0 where
  pub user_id : String
  pub role : Role
  pub session_id : String

-- `PlatformAccessError`
pub record PlatformAccessError : Type 0 where
  pub code : String
  pub message : String
  pub status_code : ℕ

-- `RoleForbidden(message)`
abbrev pub role_forbidden : String → PlatformAccessError
role_forbidden message = record { code = "role_forbidden"; message = message; status_code = 403 }
