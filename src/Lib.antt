-- ===== src/Lib.antt =====
-- Full Shelf: the deterministic part of a food bank's recall and repair program. Agents propose;
-- what is written to the ledger is decided by policies and by one transactional executor, from
-- payloads that the orchestrator's planners compute; a replay session shows one recorded day. This
-- development models those, from packages/domain/full_shelf_domain, infra/spanner/schema.sql,
-- apps/orchestrator/src/main.py and tools/replay.
--
-- The parts, and where they are:
-- - Policy (models.py, state_machines.py, capacity.py, reconciliation.py and the lifecycle manager
--   of recall.py): the lifecycles of plans and incidents, the capacity check of a vehicle, and the
--   reconciliation of a recalled lot with its custody graph. Quantities there are integers, as the
--   source does not restrict them.
-- - Evidence (partner_evidence.py): a partner's message as an advisory proposal, and the policy
--   that recomputes each claim of it from the text and from authoritative values.
-- - Ledger (ledger_commands.py, ledger_executor.py, kms.compute_plan_diff_hash,
--   authority.operating_day_authority_id): the commands with their validators, fingerprint and
--   receipt identifier (Commands, Payloads, Validators, Digests), the tables (Rows, Database), and
--   `SpannerLedgerCommandExecutor`: Queries for the reads that commands share, Apply for the
--   branches of `_apply`, NextDay for CREATE_NEXT_DAY_DRAFT, Partner for
--   `_apply_partner_evidence`, Execute for `execute` with replay, denial and receipt.
-- - Planning (apps/orchestrator/src/main.py): the planners, which read the tables of Ledger and
--   produce its payloads. Recovery is `_derive_safe_recovery`, Candidates `_candidate_assignments`,
--   Repair `_derive_repair_proposal`, Tomorrow `_generate_next_day_plan` (it calls Candidates and
--   yields a command of Ledger), and Graph `_run_managed_custody_graph`, on the rows of its query.
-- - Security: Approvals is kms.py (the signed payload, the expiry, creation and verification of an
--   envelope), Scopes is authority.py (the resolver, its configuration and `resolve`).
-- - Replay (tools/replay): Events is the table of events.py; Binding, Frames and Session with its
--   child modules are session.py, one function for each method of `ReplaySession`; Stream is its
--   `stream`.
-- - Prelude: the names, Boolean tests, list lemmas and exceptions that the others share.
-- - Tests: one operating day, on which the theorems are applied.
--
-- The state. A `Database` has one list of rows for each table, the newest first, with the columns
-- that some rule reads; server timestamps are left out. A transaction sees its updates at once and
-- buffers its inserts; `commit` applies them in order and fails as a whole on a primary key or
-- unique key that is there or a parent row that is not (Commit). An exception is an `err` of
-- `Result` (Prelude/Errors), and with it no database is returned: the transaction is rolled back.
-- Concurrency is that of the database, which runs transactions one after the other.
--
-- A replay session is a record. Each method takes the session, and its clock and fresh identifiers
-- as arguments, and returns the session also when it refuses, since the source keeps what a method
-- changed before it raised. A method runs under the session's lock, so that an interleaving is a
-- sequence of steps: `Step` has a constructor for each method, `Reached` is what a new session
-- comes to, `Later` what another session comes to. A stream is a list of rounds, one for each time
-- that the reader wakes, with the session as it finds it.
--
-- Parameters. Hashing, JSON, dates and the clock are fields of `Environment`, and the signing
-- service, Base64 and the calendar of the approvals, the patterns of the scopes, the text
-- functions of the stream and the hash of the binding are arguments of the definitions that use
-- them too. The theorem on signatures alone assumes something of them: that what the service
-- signed it verifies, and that Base64 decodes what it encoded. The fleet of agents is an argument
-- of the repair planner, which only asks whether it failed. All recursion is structural; the
-- decimal digits of a number run on the number itself as fuel, which has at most as many digits.
--
-- Not modelled: the constraints that Pydantic puts on single fields (a payload here already has
-- the types it demands), the model calls, Pub/Sub and Cloud Tasks, the HTTP routes of the
-- services, the fleet of agents, service identity, judge isolation, the projection of a replay
-- session with its filter, the store of sessions, and the rest of the orchestrator: its reads of
-- other services, its receipt cursor and its route policy.
pub mod Prelude
pub mod Policy
pub mod Evidence
pub mod Ledger
pub mod Planning
pub mod Security
pub mod Replay
mod Tests
