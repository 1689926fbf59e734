-- ===== src/Cockpit/Transitions/Passenger.antt =====
-- apps/backend/app/cockpit/transitions.py: SET_MEDIA_STATE, SUBMIT_TRIP_SUGGESTION and
-- SET_CABIN_CONTROL.
use supersonic.Prelude.{
  ℕ, none, [], ◌∷◌, if◌then◌else◌, ◌==◌, not, bool_eq, string_eq, take, contains, lift, pure,
  throw_if, ◌>>=◌, ◌>>◌,
}
use supersonic.Contract.{
  CockpitSnapshotV1, FlowId, flow_id_eq, risk_lifecycle_eq, risk_source_eq, route_status_eq,
  system_mode_eq, theme_mode_eq,
}
use supersonic.Cockpit.Errors.{rejected, rejected_with}
use supersonic.Cockpit.Parameters.{require_exact, text, boolean}
use supersonic.Cockpit.Transitions.Risks.{has_unresolved_critical_risk}
use supersonic.Cockpit.Transitions.Candidate.{Branch, unchanged, candidate, Step, Raw, with_media}

abbrev pub suggestion_max_length : ℕ
suggestion_max_length = 200

unfoldable pub set_media_state : CockpitSnapshotV1 → Raw → Step Branch
set_media_state s params = do
  lift (require_exact params ("state" ∷ []))
  value ← lift (text params "state" 16 none)
  throw_if (not (contains value ("playing" ∷ "paused" ∷ [])))
      (rejected "invalid_parameters" "state must be playing or paused.")
  throw_if (has_unresolved_critical_risk s.risks)
      (rejected_with 409 "safety_suppressed" "Media controls are disabled during driver takeover.")
  pure (if s.passenger.media_state == value then unchanged else candidate (with_media value s) none)

unfoldable pub submit_trip_suggestion : CockpitSnapshotV1 → Raw → Step Branch
submit_trip_suggestion s params = do
  lift (require_exact params ("suggestion" ∷ []))
  suggestion ← lift (text params "suggestion" suggestion_max_length none)
  let suggestions = take 8 (suggestion ∷ s.passenger.trip_suggestions)
  pure (
      candidate
        (record s {
          active_flow = FlowId.passenger_collaboration;
          passenger = record s.passenger { trip_suggestions = suggestions };
        })
        none)

unfoldable pub set_cabin_control : CockpitSnapshotV1 → Raw → Step Branch
set_cabin_control s params = do
  lift (require_exact params ("privacyEnabled" ∷ []))
  value ← lift (boolean params "privacyEnabled" none)
  pure (
      if s.passenger.privacy_enabled == value
      then unchanged
      else candidate (record s { passenger = record s.passenger { privacy_enabled = value } }) none)
