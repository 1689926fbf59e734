-- ===== src/Cockpit/Examples.antt =====
-- A cockpit on the bench: three commands of the control endpoint, and what the theorems say of them.
use supersonic.Cockpit.Transitions.{finish, apply, dispatch, synchronize_risk_dependent_state}
use supersonic.Cockpit.Transitions.Scenario.{
  set_system_mode, enter_mode, activate_simulated_takeover, simulated_takeover_risk,
}
use supersonic.Cockpit.Service.{
  Cockpit, apply_command, commit, rebuild_connectivity, touch, make_envelope, publish_snapshot,
  connect_endpoint, disconnect_endpoint,
}
use supersonic.Prelude.{
  refl, String, ◌+◌, concat, none, ◌∷◌, show, [], some, contains, ◌≡◌, String-discrete, same_set,
  strip, text_length, ok, is_space, ◌⊎◌, raise, ◌↔◌, ℕ_discrete, ◌≢◌, ◌≤◌, false, string_eq,
}
use supersonic.Cockpit.World.{World, read_clock, new_id}
use supersonic.Contract.{
  CommandName, CommandEnvelopeV1, JsonValue, EndpointId, EndpointId-discrete, SystemMode-discrete,
  CommandName-discrete, endpoint_command_permissions, parse_enum, RiskSeverity-discrete,
  RiskLifecycle-discrete, RiskSource-discrete, FlowId-discrete, SnapshotEnvelopeV1,
  EndpointConnection, RiskLifecycle,
}
use supersonic.Cockpit.Runs.{
  serve, Request, started, commands, IsRunning, serve-IsRunning, serve_all, started-IsRunning,
  connects, reads, cockpit_safe,
}
use supersonic.Prelude.Dict.{Dict, lookup}
use supersonic.Cockpit.Transitions.Risks.{has_unresolved_critical_risk, find_risk, replace_risk}
use supersonic.Cockpit.Policies.{validate, endpoint_mismatch, effective_endpoint}
use supersonic.Cockpit.Parameters.{require_exact, enum, text}
use supersonic.Cockpit.StateFactory.{default_snapshot}
use supersonic.Cockpit.Coherence.Takeover.{IsTakeover, IsRecovered}
use supersonic.Cockpit.Transitions.RiskCommands.{acknowledge_risk, resolve_risk, command_risk}
use supersonic.Cockpit.Runs.Steps.{
  resolve_risk-IsRecovered, serve_all-IsTakeover, serve-Evolves, serve-revision,
}
use supersonic.Cockpit.Broker.{publish, SnapshotBroker}
use supersonic.Cockpit.Coherence.Lifecycle.{Evolves}
use supersonic.Cockpit.Service.Commands.{Ending, apply_command-Ending}
use supersonic.Cockpit.Transitions.Acceptance.{
  Accepts, NamesRisk, Names, acknowledge_risk_iff, resolve_risk_iff, set_media_state_iff,
}
use supersonic.Cockpit.Parameters.Reads.{text-raise_iff, text_iff, RefusesText}
use supersonic.Cockpit.Policies.Access.{Admits, validate_iff, validate-raise_iff, Refuses}
use supersonic.Cockpit.Broker.Delivery.{IsDelivered, publish_lem}
use supersonic.Cockpit.Service.Connections.{IsConnected, connect_lem}
use supersonic.Cockpit.Service.Disconnections.{IsDisconnected, disconnect_lem}
use supersonic.Cockpit.Service.Effects.{with_connectivity, HasConnection, rebuild_connectivity_lem}
use supersonic.Cockpit.Transitions.Passenger.{set_media_state}
use supersonic.Cockpit.Errors.{CommandRejected, rejected}

abbrev bench : World
bench = record {
  clock = λ n. 1000 + n;
  readings = 0;
  ids = λ n. concat ("id-" ∷ show n ∷ []);
  issued = 0;
}

abbrev command : CommandName → Dict String JsonValue → CommandEnvelopeV1
command name parameters = record {
  message_id = "m-1";
  correlation_id = "c-1";
  timestamp = 990;
  source = record { kind = "endpoint"; id = "control" };
  target = none;
  payload = record { name = name; endpoint = EndpointId.control; parameters = parameters };
}

abbrev takeover_command : CommandEnvelopeV1
takeover_command = command CommandName.set_system_mode (("mode", JsonValue.string "takeover") ∷ [])

abbrev at_control : CommandEnvelopeV1 → Request
at_control c = commands c (some EndpointId.control)

abbrev taken_over : Cockpit
taken_over = serve (at_control takeover_command) (started bench)

abbrev risk_command : CommandName → CommandEnvelopeV1
risk_command name = command name (("eventId", JsonValue.string "simulated-takeover-id-1") ∷ [])

abbrev acknowledged_over : Cockpit
acknowledged_over = serve (at_control (risk_command CommandName.acknowledge_risk)) taken_over

taken_over-IsRunning : IsRunning taken_over
taken_over-IsRunning = serve-IsRunning _ (started-IsRunning bench)

acknowledged_over-IsRunning : IsRunning acknowledged_over
acknowledged_over-IsRunning = serve-IsRunning _ taken_over-IsRunning

taken_over-IsTakeover : IsTakeover taken_over.snapshot
unfolding serve started apply_command apply dispatch set_system_mode enter_mode
    activate_simulated_takeover simulated_takeover_risk read_clock new_id finish
    synchronize_risk_dependent_state has_unresolved_critical_risk validate contains require_exact
    enum default_snapshot commit rebuild_connectivity touch make_envelope publish_snapshot
    String-discrete EndpointId-discrete SystemMode-discrete CommandName-discrete lookup
    endpoint_command_permissions same_set parse_enum RiskSeverity-discrete RiskLifecycle-discrete
    publish
taken_over-IsTakeover = record { unresolved = refl; mode = refl; flow = refl; media = refl }

abbrev media_command : CommandEnvelopeV1
media_command = command CommandName.set_media_state (("state", JsonValue.string "playing") ∷ [])

cockpit_safe_example : IsRunning (
    serve_all
      (connects EndpointId.hud ∷ at_control takeover_command ∷ reads 0 ∷ [])
      (started bench))
cockpit_safe_example =
    cockpit_safe bench (connects EndpointId.hud ∷ at_control takeover_command ∷ reads 0 ∷ [])

serve_all-IsTakeover_example :
    IsTakeover
      (serve_all (at_control media_command ∷ connects EndpointId.hud ∷ []) taken_over).snapshot
serve_all-IsTakeover_example =
    serve_all-IsTakeover (at_control media_command ∷ connects EndpointId.hud ∷ []) taken_over
      taken_over-IsRunning taken_over-IsTakeover ((λ e. cc, λ e. cc), (tt, tt))

resolution :
    (e : SnapshotEnvelopeV1) × ((apply_command
        (risk_command CommandName.resolve_risk)
        (some EndpointId.control)
        acknowledged_over).0
      ≡ ok e)
unfolding serve started apply_command apply dispatch acknowledge_risk resolve_risk command_risk
    find_risk replace_risk text strip text_length RiskSource-discrete FlowId-discrete
    set_system_mode enter_mode activate_simulated_takeover simulated_takeover_risk read_clock new_id
    finish synchronize_risk_dependent_state has_unresolved_critical_risk validate contains
    require_exact enum default_snapshot commit rebuild_connectivity touch make_envelope
    publish_snapshot String-discrete EndpointId-discrete SystemMode-discrete CommandName-discrete
    lookup endpoint_command_permissions same_set parse_enum RiskSeverity-discrete
    RiskLifecycle-discrete publish is_space ℕ_discrete show
resolution = (_, refl)

resolve_risk-IsRecovered_example :
    IsRecovered
      (apply_command
        (risk_command CommandName.resolve_risk)
        (some EndpointId.control)
        acknowledged_over).1.snapshot
    × (resolution.0.payload
        ≡ (apply_command
            (risk_command CommandName.resolve_risk)
            (some EndpointId.control)
            acknowledged_over).1.snapshot)
resolve_risk-IsRecovered_example =
    resolve_risk-IsRecovered (risk_command CommandName.resolve_risk) (some EndpointId.control)
      acknowledged_over acknowledged_over-IsRunning refl resolution.0 resolution.1

serve-Evolves_example :
    Evolves taken_over.snapshot.risks acknowledged_over.snapshot.risks
    ⊎ (acknowledged_over.snapshot.risks ≡ [])
serve-Evolves_example =
    serve-Evolves (at_control (risk_command CommandName.acknowledge_risk)) taken_over
      taken_over-IsRunning

serve-revision_example :
    (acknowledged_over.snapshot ≡ taken_over.snapshot)
    ⊎ (acknowledged_over.snapshot.revision ≡ taken_over.snapshot.revision + 1)
serve-revision_example =
    serve-revision (at_control (risk_command CommandName.acknowledge_risk)) taken_over
      taken_over-IsRunning

apply_command-Ending_example :
    Ending takeover_command
      (some EndpointId.control)
      (started bench)
      (apply_command takeover_command (some EndpointId.control) (started bench))
apply_command-Ending_example =
    apply_command-Ending takeover_command (some EndpointId.control) (started bench)
      (started-IsRunning bench).bounded

abbrev bench_event : String
bench_event = "simulated-takeover-id-1"

abbrev risk_parameters : Dict String JsonValue
risk_parameters = (risk_command CommandName.acknowledge_risk).payload.parameters

validate_iff_example :
    (validate takeover_command (some EndpointId.control) ≡ ok tt)
    ↔ Admits (effective_endpoint (some EndpointId.control) EndpointId.control) takeover_command
validate_iff_example = validate_iff takeover_command (some EndpointId.control)

-- The command declares the endpoint control and comes from the endpoint hud.
validate-raise_iff_example :
    (validate takeover_command (some EndpointId.hud) ≡ raise endpoint_mismatch)
    ↔ Refuses EndpointId.hud takeover_command endpoint_mismatch
validate-raise_iff_example =
    validate-raise_iff takeover_command (some EndpointId.hud) endpoint_mismatch

publish_lem_example :
    (b : SnapshotBroker) × (publish resolution.0 acknowledged_over.broker ≡ some b)
    × IsDelivered acknowledged_over.broker.subscribers resolution.0 acknowledged_over.broker b
publish_lem_example =
    publish_lem resolution.0 acknowledged_over.broker acknowledged_over-IsRunning.bounded

connect_lem_example :
    (c : Cockpit) × (connect_endpoint EndpointId.hud taken_over
      ≡ (ok taken_over.broker.next_queue, c))
    × IsConnected EndpointId.hud taken_over c
connect_lem_example =
    connect_lem EndpointId.hud taken_over taken_over-IsRunning.bounded
      taken_over-IsRunning.connectivity

disconnect_lem_example :
    (c : Cockpit) × (disconnect_endpoint EndpointId.hud 0 taken_over ≡ (ok tt, c))
    × IsDisconnected EndpointId.hud 0 taken_over c
disconnect_lem_example =
    disconnect_lem EndpointId.hud 0 taken_over taken_over-IsRunning.bounded
      taken_over-IsRunning.connectivity

rebuild_connectivity_lem_example :
    (d : Dict EndpointId EndpointConnection) × (w : World) × (rebuild_connectivity taken_over
      ≡ (ok tt, with_connectivity d w taken_over))
    × ((e : EndpointId) → HasConnection d e (taken_over.broker.connection_counts e))
rebuild_connectivity_lem_example = rebuild_connectivity_lem taken_over

set_media_state_iff_example :
    Accepts (set_media_state taken_over.snapshot media_command.payload.parameters taken_over.world)
    ↔ ((value : String) × Names media_command.payload.parameters "state" 16 value
        × ((value ≡ "playing") ⊎ (value ≡ "paused"))
        × (has_unresolved_critical_risk taken_over.snapshot.risks ≡ false))
set_media_state_iff_example =
    set_media_state_iff taken_over.snapshot media_command.payload.parameters taken_over.world

acknowledge_risk_iff_example :
    Accepts (acknowledge_risk taken_over.snapshot risk_parameters taken_over.world)
    ↔ NamesRisk taken_over.snapshot risk_parameters RiskLifecycle.active
acknowledge_risk_iff_example =
    acknowledge_risk_iff taken_over.snapshot risk_parameters taken_over.world

resolve_risk_iff_example :
    Accepts (resolve_risk acknowledged_over.snapshot risk_parameters acknowledged_over.world)
    ↔ NamesRisk acknowledged_over.snapshot risk_parameters RiskLifecycle.acknowledged
resolve_risk_iff_example =
    resolve_risk_iff acknowledged_over.snapshot risk_parameters acknowledged_over.world

text_iff_example : (text risk_parameters "eventId" 256 none ≡ ok bench_event) ↔ (
    (s : String) × (lookup "eventId" risk_parameters ≡ some (JsonValue.string s))
    × (bench_event ≡ strip s)
    × (bench_event ≢ "")
    × (text_length bench_event ≤ 256))
text_iff_example = text_iff risk_parameters "eventId" 256 none bench_event

abbrev too_long : CommandRejected
too_long = rejected "invalid_parameters" "eventId must be at most 5 characters."

text-raise_iff_example :
    (text risk_parameters "eventId" 5 none ≡ raise too_long)
    ↔ RefusesText risk_parameters "eventId" 5 none too_long
text-raise_iff_example = text-raise_iff risk_parameters "eventId" 5 none too_long

mismatched : validate takeover_command (some EndpointId.hud) ≡ raise endpoint_mismatch
unfolding validate EndpointId-discrete
mismatched = refl

refused : text risk_parameters "eventId" 5 none ≡ raise too_long
unfolding text strip is_space text_length lookup String-discrete ℕ_discrete concat show
refused = refl
