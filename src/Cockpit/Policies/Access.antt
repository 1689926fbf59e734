-- ===== src/Cockpit/Policies/Access.antt =====
-- apps/backend/app/cockpit/policies.py: which commands `CommandPolicy.validate` admits.
use supersonic.Prelude.{
  true, Option, ◌≡◌, refl, ◌↔◌, ◌⊎◌, ok, raise, contains, arith, ◌≢◌, false, concat, ◌∷◌, [],
}
use supersonic.Contract.{
  EndpointId, endpoint_id_value, CommandName, CommandName-discrete, command_name_eq,
  CommandEnvelopeV1, endpoint_command_permissions, command_name_value,
}
use supersonic.Cockpit.Errors.{CommandRejected}
use supersonic.Cockpit.Policies.{validate, effective_endpoint, implemented_commands}

-- What a command must claim to be admitted at an endpoint.
pub record Admits (endpoint : EndpointId) (command : CommandEnvelopeV1) : Type 0 where
  pub declared : command.payload.endpoint ≡ endpoint
  pub kind : command.source.kind ≡ "endpoint"
  pub id : command.source.id ≡ endpoint_id_value endpoint
  pub permitted : contains command.payload.name (endpoint_command_permissions endpoint) ≡ true

implemented : (name : CommandName) → contains name implemented_commands ≡ true
unfolding contains implemented_commands CommandName-discrete
implemented CommandName.set_theme = refl
implemented _ = refl

-- The policy admits a command exactly when its declared endpoint, its source and its name fit the
-- endpoint that the server settled on: every name that an endpoint may send is implemented.
pub validate_iff :
    (command : CommandEnvelopeV1) (server : Option EndpointId)
    → (validate command server ≡ ok tt)
      ↔ Admits (effective_endpoint server command.payload.endpoint) command
unfolding validate
validate_iff command server = (
  λ h. ground (arith, implemented command.payload.name),
  λ h. ground (arith, implemented command.payload.name),
)

-- The source names the endpoint.
abbrev pub IsSource : EndpointId → CommandEnvelopeV1 → Type 0
IsSource endpoint command =
    (command.source.kind ≡ "endpoint") × (command.source.id ≡ endpoint_id_value endpoint)

-- The refusals, each with what fails and with what does not: the first test that fails decides.
abbrev pub Refuses : EndpointId → CommandEnvelopeV1 → CommandRejected → Type 0
Refuses endpoint command e =
    ((command.payload.endpoint ≢ endpoint)
      × (e ≡ record {
        code = "endpoint_mismatch";
        message = "Declared endpoint must match the server-owned endpoint context.";
        status_code = 403;
      }))
    ⊎ (((command.payload.endpoint ≡ endpoint)
          × ¬ IsSource endpoint command
          × (e ≡ record {
            code = "source_mismatch";
            message = "Command source must match the server-owned endpoint.";
            status_code = 403;
          }))
        ⊎ ((command.payload.endpoint ≡ endpoint)
            × IsSource endpoint command
            × (contains command.payload.name (endpoint_command_permissions endpoint) ≡ false)
            × (e ≡ record {
              code = "command_forbidden";
              message = concat (
                  "Endpoint "
                  ∷ endpoint_id_value endpoint
                  ∷ " cannot issue "
                  ∷ command_name_value command.payload.name
                  ∷ "."
                  ∷ []);
              status_code = 403;
            })))

-- The policy raises an error exactly in these cases, with exactly these errors of status 403:
-- endpoint_mismatch when the declared endpoint is not the one that the server settled on;
-- source_mismatch when it is, but the source does not name that endpoint; command_forbidden when
-- both fit and the endpoint may not send a command of that name. It never raises that a command is
-- not implemented.
pub validate-raise_iff :
    (command : CommandEnvelopeV1) (server : Option EndpointId) (e : CommandRejected)
    → (validate command server ≡ raise e)
      ↔ Refuses (effective_endpoint server command.payload.endpoint) command e
unfolding validate
validate-raise_iff command server e = (
  λ h. ground (arith, implemented command.payload.name),
  λ h. ground (arith, implemented command.payload.name),
)
