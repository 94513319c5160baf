-- ===== src/Lib.antt =====
-- Guardian Pi: the backend's security logic and the agent's stateful parts.
--
-- The program. Agents on endpoints register devices and send heartbeats and telemetry with an API
-- key, and fetch policies; users work with alerts, actions, investigations and policies with a
-- bearer token. The backend keeps all of it in a database, and its detection engine and alert
-- pipeline turn telemetry into alerts.
--
-- The files, and the code that each follows:
--   Base          tests, lists, dicts and integers that the other files share
--   Http          results of endpoints: a value, an HTTPException or another exception
--   Db            backend/app/core/database.py, and the use of a table: fetch, modify, flush, get_db.
--                 Db.Laws, Db.Modify and Db.Add say what these leave in the rows, Db.Memory is a
--                 table as a list, Db.Sessions is about get_db
--   Models        backend/app/models, and the models in the routers of policies and investigations
--   Schemas       the responses of backend/app/schemas and of the routers of policies and
--                 investigations, which the endpoints make of rows; Schemas.Refused,
--                 Schemas.Reached
--   Deps          backend/app/api/deps.py and backend/app/core/security.py; Deps.Access
--   Pages         the filters and the pages of the list endpoints
--   Auth          backend/app/api/v1/auth.py; Auth.Login
--   Devices       backend/app/api/v1/devices.py; Devices.Compatibility, Devices.Registry
--   Alerts        backend/app/api/v1/alerts.py; Alerts.Lifecycle, Alerts.Stats
--   Telemetry     backend/app/api/v1/telemetry.py; Telemetry.Ingest
--   Remediation   backend/app/api/v1/remediation.py; Remediation.Rollback
--   Investigations  backend/app/api/v1/investigations.py; Investigations.Timeline
--   Policies      backend/app/api/v1/policies.py; Policies.Targets, and
--                 Policies.Contract: the map that the endpoints keep, and that they keep it
--   Detection     backend/app/services/detection_service.py; Detection.Rules has its tables,
--                 Detection.Matching, Detection.Signatures and Detection.Scoring
--                 are about the engine
--   Pipeline      backend/app/services/alert_pipeline.py: the batch, for any way to create an alert;
--                 Pipeline.Wanted says what a batch asks for, Pipeline.Alarming how severe
--                 that is, Pipeline.Create has _create_alert
--   Threat        backend/app/services/threat_service.py; Threat.Risk
--   Websocket     backend/app/api/v1/websocket.py; Websocket.Channels
--   EventBus      backend/app/services/event_bus.py; EventBus.Relay
--   Agent         the agent. FileIntegrity, Monitors.Processes, Monitors.Network and Monitors.Usb:
--                 agent/monitors; Hashing: the chunked hashing of files; Sender, with Sender.Queue
--                 and Sender.Ledger: agent/telemetry/sender.py; Crypto and Tamper: agent/security;
--                 Quarantine and Firewall: agent/remediation; Detector: agent/detectors; Installer:
--                 agent/installer; Loops: agent/guardian_agent.py
--   Delivery      a flush of the agent's sender as a request that the telemetry endpoint answers:
--                 Delivery.Decrypt and Delivery.Flush
--   Compliance    backend/app/services/compliance_service.py and backend/app/api/v1/compliance.py
--   AgentUpdate   backend/app/api/v1/agent_update.py
--   RateLimit     check_rate_limit of backend/app/core/redis.py
--   Local         run_local.py: Local.Tables its models, Local.Tokens its login and tokens,
--                 Local.Responses the answers of the other endpoints, Local.Endpoints these endpoints,
--                 Local.Seed its demonstration data
--   Tests         sample data, tests, and the theorems at concrete inputs
--
-- How the code is followed. A function keeps its name. An endpoint takes its request, the result of
-- its dependencies (the user, or the text of the API key) and the store, and returns its response
-- with the store, or an error. It checks the role and the schema first, as the framework does;
-- whichever of these two fails, nothing was changed. A change of a row is a function on the row
-- (updated, beaten, closed and so on), which `modify` loads, applies and writes. The clock, fresh ids
-- and fresh token ids are arguments. Times are seconds; ids are canonical texts.
--
-- Parameters. SQLAlchemy's tables are a record `Table`, whose documented behaviour is `IsLawful`;
-- an operation may fail, and a failed request changes nothing. Queries see the rows in the order of
-- the store. The JWT library, bcrypt, constant-time comparison and UUID parsing are the record
-- `Security`; lower case and regular expressions are `Texts`; numbers of metrics are `Numbers`;
-- pydantic's check of a field `str` is `Pydantic`, and `IsPydantic` that it takes no uuid.UUID;
-- NATS and JSON are `Nats` and `Json`; decryption is `decrypt`, which Delivery makes of base64,
-- JSON and AES-GCM (`Primitives`); hashlib is `Sha256`, Redis is `Redis`, HMAC is `Signer`, and the
-- tokens of run_local.py are `Libraries`; psutil is `Processes` and the arguments of the monitors;
-- the commands of the firewall are `run`, and the sends of a broadcast are `sends`. The constructor
-- of the model in _create_alert is `Construct`, and `IsDeclarative` is what SQLAlchemy documents of
-- unknown keywords.
--
-- Bounds. The loop over the chunks of a file runs on fuel, one more than the bytes of the file,
-- which is enough as each chunk takes at least one; each other loop is over a list. A count that
-- max(0, ...) cuts off is a subtraction that stops at 0. RAM and storage are integers, so that
-- negative values of a request are covered. Wrap-around does not occur, as Python's integers are
-- unbounded.
--
-- Not modelled: the columns updated_at, events whose details have null under a key that the
-- pipeline reads (on which it raises), the format check of e-mail addresses, log lines, e-mail and
-- cloud integrations, the broadcasts of the pipeline to WebSocket clients (they do not raise),
-- broadcasts that overlap with connections that come and go, metrics and health endpoints of the
-- backend, the middleware, the cache and the connection of Redis, the settings, the model of the
-- CPU and the storage that the device detector reads, the installation of missing packages and the
-- routes without logic of run_local.py, the legacy application, and the code in other languages.
mod Base
pub mod Http
pub mod Db
pub mod Models
pub mod Schemas
pub mod Deps
pub mod Pages
pub mod Devices
pub mod Auth
pub mod Alerts
pub mod Telemetry
pub mod Delivery
pub mod Local
pub mod RateLimit
pub mod AgentUpdate
pub mod Compliance
pub mod Remediation
pub mod Investigations
pub mod Policies
pub mod Detection
pub mod Pipeline
pub mod Threat
pub mod Websocket
pub mod EventBus
pub mod Agent
pub mod Tests
