-- ===== src/Lib.antt =====
-- The control center of a laboratory for operational technology: it collects snapshots of a plant,
-- turns them into signals, and keeps the tickets that operators work on. This library models the parts
-- that decide and keep state.
--
-- Parts, files and code:
-- * Tickets models src/dtlab/services/ticket_store.py, a SQLite database behind one class. `Model` has the
--   rows of the tables, `Tables` the SQL statements as actions on a state `Db` (an error leaves no state,
--   as the rollback does), `Validation` the argument checks, `Sla` the deadlines (`sla_due_at`) and the
--   derived state (`derive_ticket_sla`), `Operations` the methods that create tickets and checklists,
--   `Workflow` those that change a ticket, `Signals` the ingestion of signals, `Policy` the automatic
--   ticket of src/dtlab/services/ticket_policy.py, and `History` sequences of calls of all writing methods,
--   each with the clock, the random identifiers and the settings that it finds (`Env`). The children `Keeps`
--   and `Rules` carry an invariant of the database through every call, from what it asks of the single
--   statements. Text is the list of its code points; instants are microseconds.
-- * Hours models src/dtlab/services/operational_settings.py: `validate`, `add_business_hours` and
--   `is_business_open`. Zones and the reading of clock times are parameters. The ticket store calls it for
--   deadlines. A time has a clock and maybe a UTC offset: `not_before` compares two as Python does, and the
--   loop takes the clocks. A date past 9999-12-31 is the OverflowError. The loop runs on fuel: two rounds
--   for each day that the calendar has left, and three more; a round ends the loop, moves on by a day or
--   reaches closing time. Anchors have a time zone, and hours are not negative. `Payload` is the JSON text
--   of a policy, whose values of other types than the fields', which no call stores, are errors.
-- * Settings models the settings store of the same file: two keys of one table, and the operators; `serve_calls` is a
--   history of its calls. Business hours are kept as JSON text, Syslog settings as the dictionary.
-- * Json models the payloads and `_semantic_payload`, by which the ticket store compares them.
-- * Endpoint models integrations/plc_endpoint_audit/dtlab_plc_audit: `Episodes` and `Aggregator` are the
--   EpisodeAggregator of core.py, `run` a history of its calls, and `Spool` the envelopes and the spool
--   of spool.py, whose lines are kept as JSON objects, `append_all` a history of appends.
--   `Endpoint.Sender` is sender.py: the cursor counts lines, delivery is a parameter, and `advance_all` is any
--   interleaving of the sensor's appends and of sends.
-- * Ingress models the receiver: `Checks` is `_semantic_errors` of src/dtlab/services/host_ot_events.py for documents
--   that the schema accepts, and `Auth` the keyring and `verify_request_auth` of src/dtlab/services/host_ot_ingress.py.
--   `document_of` is the document that the aggregator writes, which `Agreement` holds against the checks.
-- * Snapshots models src/dtlab/services/snapshot_store.py. `Files` has the record `Store` of its files; `publish` and
--   `prune_objects` give their writes in order, so that the state after any first few of them is that of a
--   process that died there. `Shelf` has what the pointers stand for and what the code relies on. Members of
--   an object stand in the order of their keys, as the printer puts them.
-- * Prelude has the shared names: tests on numbers, lists, rows found and updated by key, texts.
--
-- SHA-256, HMAC, the JSON reader and printer, base64, the JSON schema, `str`, `int`, time zones and
-- time parsing are parameters, since they are no code of the repository. Not modelled are the read-
-- only listings and exports of the store, the schema migration, the user interfaces, the collectors
-- and their clients, and the deployment scripts.
pub mod Prelude
pub mod Json
pub mod Hours
pub mod Endpoint
pub mod Ingress
pub mod Settings
pub mod Snapshots
pub mod Tickets
