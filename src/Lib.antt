-- ===== src/Lib.antt =====
-- SentinelX SIEM: from a log line to an event, an alert and an incident, and who may ask for what.
--
-- A log line is parsed and, if `RawPolicy.decide` says so, its raw text is kept. The event's document
-- goes to `CorrelationEngine.process_event`, which counts it in the windows of the rules held in memory
-- (or in a NATS key-value store) and hands it on to `RuleEngineV2.on_event`, whose rules, lists, states
-- and alerts are in the database. Both read the event's fields through the detection core. A worker hands
-- the stored events to the rule engine, jobs make incidents and entities' scores of the alerts, analysts
-- close them and a purge deletes what is old. The security lists say which events a rule ignores; agents
-- send events over the API, under the tenant of their key.
--
-- Base: shared tests on numbers and texts, lists, and integers over the native numbers.
-- Text, Value, Number, Net: Python's texts, JSON values with truth and text of them, int() and float(),
--   and the IPv4 addresses. A time is a number of microseconds, a float a number of millionths.
-- Expr: `_safe_eval` of app/services/rule_engine_v2.py. The tree is what Python's parser gives; the
--   arithmetic of values is an argument.
-- Detection: app/services/detection_core.py. Fields and Fallback read fields (the two readers call each
--   other: Fallback has the depth), Source compares sources, Clause has
--   `match_clause` and `build_group_key`. The lists are an argument, `Lists`.
-- Correlation: app/services/correlation_engine.py and app/schemas/detection_rule.py. Rule has the rules,
--   Window the windows (Order, Runs: laws of streams), Engine the two ways through the engine (Windows,
--   Rules, Keys: its laws). The key-value store is a record whose calls may fail.
-- RawPolicy: app/services/raw_policy.py. Mail and Web are its branches, Decide the whole of it.
-- RuleEngine: app/services/rule_engine_v2.py, with the rows of app/models as records and the database as
--   `Db`. Index loads the rules, Bindings has exclusions, detections and contexts (Severity), Window
--   the buffers and their counts (Own, Counts), Context the names of a condition, Turn what one rule
--   makes of an event (Effects, Cooldown), OnEvent the whole of `on_event` (Alerts: their bounds).
-- Http: the answers of a request handler.
-- Access: app/core/rbac.py. Its Keys are app/core/security.py (RoundTrip: printing and parsing), Users
--   app/routers/auth.py and admin_users.py, Agents app/services/agent_api_key_service.py and the heartbeat
--   of app/routers/agents.py (Revoked: keys after their revocation), Context the context of a request of
--   app/schemas/dependencies.py (Origin: where a context comes from). Hashes and tokens are arguments.
-- Ingest: app/routers/ingest_v1.py and the publishing of app/services/nats_service.py (Tenant: its laws);
--   the broker's client is an argument.
-- SecurityLists: app/services/security_list_service.py with its tables. Fallback reads the files, Query
--   answers questions, Trust is `is_trusted_event_for_rule` (Scope: its laws), Edit has the writes (Cache,
--   History), Serve is the lists as the rule engine sees them. Python's ipaddress is an argument.
-- IncidentJob: app/services/incident_job.py over the incident engine (Slices: the backfill). The fuel of
--   the backfill's loop is one round for each microsecond of the span and two more.
-- Normalize: `to_normalized_event` of app/parsing/types.py (Country). The checks of the canonical
--   event's constructor are an argument of Pipeline.
-- EngineWorker: app/workers/engine_worker_loop.py. Cycle is one round of its loop (Ends, Budget, Claims,
--   Marks, Count: what it brings to an end); the loop is a recursion on what is left of its budget. The
--   rule engine and the mail are arguments.
-- Review: app/routers/incidents_v2.py, over a session whose committed tables and changed objects are
--   apart. Listing is the list of incidents (Shown: its law), Requests what a change of a status leaves.
-- Retention: app/services/retention_service.py (Ids: rows deleted by their ids, Purge: its laws).
-- Pipeline: `parse_log_file` of app/services/log_pipeline.py (Lines: the loop, Stream: the whole). The
--   parser is an argument with a state of its own, the file the list of its lines.
-- IncidentEngine: app/services/incident_engine.py, with its tables as `IncidentDb`. Match tests an alert
--   against a rule (none is an exception), Buckets groups the alerts of the window, Record writes an
--   incident and its links (Single, Links: its laws), Turn treats one group, Run all rules
--   (Growth: what becomes of the incidents).
-- EntityJob: app/services/entity_job.py. Attrs reads an alert's evidence, Step scores one alert (Bands:
--   scores and severities), Run has the batches (Order, Batches, Whole: its laws). The fuel of the loop is
--   one more than the number of alerts, since every batch moves past one alert at least.
-- Examples: concrete runs.
--
-- Not modelled: what the broker gets of a batch of the pipeline, whose failures are swallowed; a path
-- that goes on into a text, a number or a list, where the field readers look for a Python attribute and
-- the model finds nothing; raw samples of an alert and failures of the database in `on_event`; the
-- random id and the clock's time of an alert; texts beyond ASCII in `lower` and `upper`; regular
-- expressions, network and storage; the rows that the pipeline can keep in PostgreSQL; the locks of other
-- workers and failures of the database in a worker's cycle and in a purge; parsers, notifications,
-- reports, exports, and the other handlers and workers, which are queries, templates and I/O for the most
-- part. A dict of a JSONB column that is changed in place, without `flag_modified`, is not saved.
-- Recursion is structural, over lists and trees, so no bound or fuel is used but the depth of the field
-- readers and the loops of the entities job and of the incidents' backfill.
pub mod Base
pub mod Text
pub mod Value
pub mod Net
pub mod Number
pub mod Expr
pub mod Detection
pub mod Correlation
pub mod RawPolicy
pub mod RuleEngine
pub mod IncidentEngine
pub mod EntityJob
pub mod Access
pub mod Http
pub mod Ingest
pub mod SecurityLists
pub mod IncidentJob
pub mod Normalize
pub mod Pipeline
pub mod Review
pub mod Retention
pub mod EngineWorker
mod Examples
