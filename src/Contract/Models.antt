-- ===== src/Contract/Models.antt =====
-- apps/backend/app/contracts/v1.py: the models of the gp05.v1 contract. A datetime is a number of
-- microseconds (UTC), a UUID its canonical text, and a float of the contract a number of
-- thousandths: the code only sets, copies and compares them.
use supersonic.Prelude.{ℕ, ◌*◌, String, Bool, List, Option}
use supersonic.Prelude.Dict.{Dict}
use supersonic.Contract.Names.{
  EndpointId, ThemeMode, SystemMode, FlowId, DataFreshness, RiskLifecycle, RiskSeverity, RiskSource,
  RiskType, RouteProvider, MapServiceStatus, RouteStatus, CommandName,
}

abbrev pub Time : Type 0
Time = ℕ

abbrev pub Uuid : Type 0
Uuid = String

abbrev pub Decimal : Type 0
Decimal = ℕ

abbrev pub decimal : ℕ → Decimal
decimal n = n * 1000

-- pydantic's `JsonValue`. An integer is a sign and a magnitude, a float its 64 bits.
mutual
  pub data JsonValue : Type 0 where
    null : JsonValue
    boolean : Bool → JsonValue
    integer : Bool → ℕ → JsonValue
    float : ℕ → JsonValue
    string : String → JsonValue
    array : JsonItems → JsonValue
    object : JsonFields → JsonValue

  pub data JsonItems : Type 0 where
    nil : JsonItems
    cons : JsonValue → JsonItems → JsonItems

  pub data JsonFields : Type 0 where
    end : JsonFields
    field : String → JsonValue → JsonFields → JsonFields

pub record DataHealth : Type 0 where
  pub status : DataFreshness
  pub updated_at : Time

pub record VehicleStateV1 : Type 0 where
  pub speed_kph : Decimal
  pub gear : String
  pub battery_percent : Decimal
  pub range_km : Decimal
  pub drive_mode : String
  pub seatbelt_fastened : Bool

-- A sign (true is negative) and a magnitude for each angle.
pub record Coordinate : Type 0 where
  pub longitude : Bool × Decimal
  pub latitude : Bool × Decimal

pub record NavigationStep : Type 0 where
  pub index : ℕ
  pub instruction : String
  pub road_name : String
  pub distance_meters : Decimal
  pub maneuver : String

pub record NavigationStateV1 : Type 0 where
  pub provider : RouteProvider
  pub service_status : MapServiceStatus
  pub status : RouteStatus
  pub destination_name : Option String
  pub remaining_distance_meters : Decimal
  pub eta_seconds : ℕ
  pub current_step : Option NavigationStep
  pub steps : List NavigationStep
  pub polyline : List Coordinate
  pub updated_at : Time

pub record RiskEventV1 : Type 0 where
  pub event_id : String
  pub session_id : String
  pub risk_type : RiskType
  pub lifecycle : RiskLifecycle
  pub severity : RiskSeverity
  pub source : RiskSource
  pub confidence : Decimal
  pub occurred_at : Time
  pub updated_at : Time
  pub message : String
  pub evidence : List String
  pub metadata : Dict String JsonValue

pub record EndpointConnection : Type 0 where
  pub status : DataFreshness
  pub last_seen_at : Time

pub record PassengerStateV1 : Type 0 where
  pub media_state : String
  pub privacy_enabled : Bool
  pub trip_suggestions : List String

pub record CockpitSnapshotV1 : Type 0 where
  pub session_id : String
  pub revision : ℕ
  pub timestamp : Time
  pub theme : ThemeMode
  pub system_mode : SystemMode
  pub active_flow : FlowId
  pub data_health : Dict String DataHealth
  pub vehicle : VehicleStateV1
  pub navigation : NavigationStateV1
  pub risks : List RiskEventV1
  pub passenger : PassengerStateV1
  pub endpoint_connectivity : Dict EndpointId EndpointConnection
  pub capabilities : List String

-- `kind` is "endpoint" or "service".
pub record MessageSource : Type 0 where
  pub kind : String
  pub id : String

pub record CommandPayloadV1 : Type 0 where
  pub name : CommandName
  pub endpoint : EndpointId
  pub parameters : Dict String JsonValue

-- The fields of `EnvelopeBase`, whose `protocol_version` is always the contract's.
pub record CommandEnvelopeV1 : Type 0 where
  pub message_id : Uuid
  pub correlation_id : Uuid
  pub timestamp : Time
  pub source : MessageSource
  pub target : Option EndpointId
  pub payload : CommandPayloadV1

pub record SnapshotEnvelopeV1 : Type 0 where
  pub message_id : Uuid
  pub correlation_id : Uuid
  pub timestamp : Time
  pub source : MessageSource
  pub target : Option EndpointId
  pub payload : CockpitSnapshotV1
