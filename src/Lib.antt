-- ===== src/Lib.antt =====
-- Supersonic: the authoritative state of a car's cockpit and the platform that guards it.
--
-- The program (apps/backend/app) keeps one snapshot of a cockpit in memory. Six endpoints send
-- commands and receive every new snapshot over WebSockets; a platform of users, roles and sessions
-- stands in front of the commands that change it, and audits them.
--
--   Contract        contracts/v1.py: the enumerations (Names), the models (Models), the permissions of
--                   the endpoints (Permissions), Python's StrEnum (Enum).
--   Cockpit         cockpit/: Errors is errors.py; Policies and Parameters are policies.py;
--                   StateFactory is state_factory.py; Transitions and its children are
--                   transitions.py, a module for each group of commands; Broker is broker.py; Service
--                   is service.py. World holds what the constructor injects, the clock and the id
--                   factory. Coherence states what follows from the risks, and its children prove it
--                   of each command. Runs puts the methods in any order, with the reads of the queues
--                   by the connections.
--   Platform        platform/: Models is models.py and errors.py; Authorization is authorization.py;
--                   CommandGateway is command_gateway.py; LoginThrottle is throttle.py;
--                   WebSocketRegistry is websocket_registry.py; Sessions is sessions.py; Admin is
--                   admin.py; Sanitization is sanitization.py; AuditIdentity is audit_identity.py;
--                   Reconciliation is audit_reconciliation.py; AuditFallback is audit_fallback.py;
--                   AuditQuery is audit_query.py with list_page of the repositories.
--                   Store is what the services ask of adapters/postgres/repositories.py, and Database
--                   is the unit of work of unit_of_work.py: what is committed, what the open unit
--                   sees, and which calls of the database fail.
--                   Rows selects and orders the rows of a table.
--   Prelude         tests, lists, texts and their order, dictionaries of Python, actions that may raise
--                   with their triples, and computations that may raise where nothing is told of the
--                   exception.
--
-- A method is a function from the state to a result and the state afterwards, so that what was
-- written before a raise stays written. CockpitService holds its lock through every method, and a
-- method is one step. WebSocketRegistry waits without a lock, and its methods are cut at each await
-- into steps, which those of all tasks interleave freely. Every other method is one run, with
-- nothing between its awaits; in the services that use the database, each call of it may fail, as
-- may the commit and the close of the unit of work, which raises even after a commit. The gateway
-- calls the service as cockpit/service.py is modelled here; its audit ports are parameters.
--
-- Numbers and texts. A datetime is a number of microseconds (UTC), or none where a clock may be naive;
-- a UUID is its canonical text; a float of the contract is a number of thousandths, since the code
-- only sets, copies and compares it. The throttle counts in whole ticks of its clock. A set is a list
-- whose order no theorem reads. Every loop runs over a list and needs no fuel.
--
-- Parameters. str.casefold, str.lower, the parser of UUIDs, json, the ISO texts of a datetime, the
-- length of a text in UTF-8, str.splitlines, what an interrupted write leaves of a file, the digest
-- of a token, the password hasher, the close and revoke hooks, the audit ports, the clocks, the id
-- and token factories, and the statements at which the database fails are arguments of the
-- definitions, and the theorems hold for all of them unless they say what they need.
--
-- Not modelled: the HTTP and WebSocket routers and pydantic's checks of what they receive; the
-- configuration; the conversions of database rows; sanitize_parameters; reconcile_file and the
-- archiving of the fallback file; the locks, the directory, the fingerprints and the failing reads
-- of that file; the P0 prototype (risk_engine.py, models.py, mock_llm.py, data.py); the operations
-- scripts and the web applications.
pub mod Prelude
pub mod Contract
pub mod Cockpit
pub mod Platform
