-- ===== src/Platform/Sanitization/Tables.antt =====
-- apps/backend/app/platform/sanitization.py: the texts that an audit fact may hold.
use supersonic.Prelude.{String, List, [], ◌∷◌}
use supersonic.Prelude.Dict.{Dict}

abbrev pub audit_safe_parameter_keys : List String
audit_safe_parameter_keys =
    "attempt" ∷ "command" ∷ "count" ∷ "eventId" ∷ "mode" ∷ "newRole" ∷ "oldRole" ∷ "privacyEnabled"
    ∷ "reason" ∷ "revokedSessionCount" ∷ "state" ∷ "status" ∷ "targetUserId" ∷ "temperatureC"
    ∷ "theme" ∷ []

abbrev pub audit_redacted_parameter_keys : List String
audit_redacted_parameter_keys =
    "api_key" ∷ "database_dsn" ∷ "destinationName" ∷ "private_text" ∷ "raw_secret" ∷ "raw_token"
    ∷ "session_secret" ∷ "sql_error" ∷ []

abbrev pub audit_parameter_key_order : List String
audit_parameter_key_order =
    "attempt" ∷ "command" ∷ "count" ∷ "eventId" ∷ "mode" ∷ "oldRole" ∷ "newRole" ∷ "privacyEnabled"
    ∷ "revokedSessionCount" ∷ "targetUserId" ∷ "reason" ∷ "state" ∷ "status" ∷ "temperatureC"
    ∷ "theme" ∷ "api_key" ∷ "database_dsn" ∷ "destinationName" ∷ "private_text" ∷ "raw_secret"
    ∷ "raw_token" ∷ "session_secret" ∷ "sql_error" ∷ []

abbrev pub audit_command_values : List String
audit_command_values =
    "acknowledge_risk" ∷ "confirm_route" ∷ "reset_session" ∷ "resolve_risk"
    ∷ "revoke_platform_session" ∷ "select_destination" ∷ "set_cabin_control" ∷ "set_media_state"
    ∷ "set_system_mode" ∷ "set_theme" ∷ "submit_trip_suggestion" ∷ []

abbrev pub audit_enum_values : Dict String (List String)
audit_enum_values =
    ("mode", "normal" ∷ "warning" ∷ "takeover" ∷ "stale" ∷ "offline" ∷ "recovery" ∷ [])
    ∷ ("newRole", "admin" ∷ "operator" ∷ "viewer" ∷ [])
    ∷ ("oldRole", "admin" ∷ "operator" ∷ "viewer" ∷ [])
    ∷ (
      "reason",
      "admin_revoke" ∷ "operator_request" ∷ "role_changed" ∷ "security_review" ∷ "user_disabled"
          ∷ [],
    )
    ∷ ("state", "playing" ∷ "paused" ∷ "suppressed" ∷ [])
    ∷ (
      "status",
      "attempted" ∷ "succeeded" ∷ "rejected" ∷ "error" ∷ "ready" ∷ "degraded" ∷ "unavailable" ∷ [],
    )
    ∷ ("theme", "day" ∷ "night" ∷ [])
    ∷ []

abbrev pub audit_actions : List String
audit_actions =
    "auth.login" ∷ "auth.logout" ∷ "cockpit.command" ∷ "recovery.completed" ∷ "risk.detected"
    ∷ "session.revoke" ∷ "user.disable" ∷ "user.enable" ∷ "user.role_change" ∷ []

abbrev pub audit_endpoints : List String
audit_endpoints = "center" ∷ "cluster" ∷ "control" ∷ "hud" ∷ "overview" ∷ "passenger" ∷ []

abbrev pub audit_target_types : List String
audit_target_types = "climate_zone" ∷ "platform_session" ∷ "risk_event" ∷ "user" ∷ []

abbrev pub audit_error_codes : List String
audit_error_codes =
    "admin_mutation_failed" ∷ "audit_conflict" ∷ "audit_unavailable" ∷ "command_forbidden"
    ∷ "command_not_implemented" ∷ "control_disabled" ∷ "database_unavailable" ∷ "endpoint_mismatch"
    ∷ "internal_error" ∷ "invalid_parameters" ∷ "invalid_transition" ∷ "last_admin_protected"
    ∷ "risk_not_found" ∷ "role_forbidden" ∷ "safety_suppressed" ∷ "session_not_found"
    ∷ "source_mismatch" ∷ "user_not_found" ∷ []
