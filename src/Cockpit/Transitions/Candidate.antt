-- ===== src/Cockpit/Transitions/Candidate.antt =====
-- apps/backend/app/cockpit/transitions.py: the copy of the snapshot that a command works on. A
-- branch raises, returns early, or falls through to `synchronize_risk_dependent_state`.
use supersonic.Prelude.{String, Option, bool_eq, string_eq, Exec}
use supersonic.Prelude.Dict.{Dict, insert}
use supersonic.Contract.{
  CockpitSnapshotV1, DataFreshness, flow_id_eq, JsonValue, RiskEventV1, risk_lifecycle_eq,
  risk_source_eq, route_status_eq, system_mode_eq, theme_mode_eq, Time,
}
use supersonic.Cockpit.Errors.{CommandRejected}
use supersonic.Cockpit.StateFactory.{navigation_data_freshness}
use supersonic.Cockpit.World.{World}

-- How a branch ends: by the return with `changed=False`, by falling through with a candidate and
-- the risk that it resolved, or by the return with a fresh snapshot.
pub data Branch : Type 0 where
  unchanged : Branch
  candidate : CockpitSnapshotV1 → Option RiskEventV1 → Branch
  fresh : CockpitSnapshotV1 → Branch

abbrev pub Step : Type 0 → Type 0
Step = Exec CommandRejected World

abbrev pub Raw : Type 0
Raw = Dict String JsonValue

-- `snapshot.data_health[domain] = DataHealth(status=…, updated_at=…)`
abbrev pub with_health : String → DataFreshness → Time → CockpitSnapshotV1 → CockpitSnapshotV1
with_health domain status at s = record s {
  data_health = insert domain (record { status = status; updated_at = at }) s.data_health;
}

abbrev pub with_media : String → CockpitSnapshotV1 → CockpitSnapshotV1
with_media state s = record s { passenger = record s.passenger { media_state = state } }

unfoldable pub synchronize_navigation_health : CockpitSnapshotV1 → CockpitSnapshotV1
synchronize_navigation_health s =
    with_health "navigation" (navigation_data_freshness s.navigation) s.navigation.updated_at s
