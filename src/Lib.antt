-- ===== src/Lib.antt =====
-- DARKNETRA, the backend of an investigation workspace: cases with members, evidence, alerts and
-- findings that humans decide on, and agents that run tools under the policy of a case.
--
-- The program and the files that model it (paths from the root of the repository, under
-- backend/darknetra unless they say otherwise):
--
--   Records       the rows that several services read (auth/actor.py, auth/models.py, cases/models.py,
--                 evidence/models.py, agent/models.py). Samples has small tables for the tests.
--   Audit         audit/service.py `record`: the trail that every operation appends to.
--   Authz         Permissions (authz/permissions.py), Access (authz/deps.py `require`, `visible_case`,
--                 `require_case`), Credentials (authz/deps.py `current_actor`, auth/service.py
--                 `verify_csrf`, policy/actor.py `refresh_actor`); CaseAccess, Roles and
--                 Credentials/Laws hold the proofs.
--   Accounts      auth/service.py `login`, `refresh`, `change_password`; Login, Lockout and Rotation.
--   Cases         cases/service.py `create`, `transition`, Members (api/v1/routes/cases.py
--                 `change_member`); Lifecycle, Codes, Owners, Roles, and Steps (these as a step relation).
--   Decisions     decisions/service.py: Service (`_authorize`, `latest_decision`, `_target`), Effects (the
--                 changes of the target and `_link_effects`), Decide (`decide`), Findings (`create_finding`,
--                 `promote`, `supersede_finding`), Steps (these as a step relation); Chain, Gates, Review, Drafting,
--                 Elsewhere, Backing and Soundness hold the proofs.
--   Alerts        monitor/alerts.py `raise_alert`, `handle`; Cap, Handling and Reopened.
--   Agent         Budget (agent/budget.py and the limits of agent/delegation.py), Events (agent/events.py
--                 `append`), Runs (agent/service.py `select_harness`, `post_message`, the last transaction
--                 of `execute_run`, `recover_interrupted_runs`); Limits, Ending, Recovery, Delegation.
--   Policy        Engine (policy/engine.py, plugins/catalog.py `tool_enabled`), Invoke (tools/invoke.py);
--                 Rates, Gate, Calls and Admitted.
--   Jobs          jobs/runner.py `InProcessRunner`, as a step relation (Steps); Limits and Orderly.
--   Claims        agent/claim_checker.py `normalize`, `verify`; Support.
--   Chunker       rag/chunker.py `chunk_text`; Cover and Paragraphs.
--   Pages         api/pagination.py `page_rows`; Sorting, and Walk for a client that follows the cursors.
--   Blocking      analytics/blocking.py `candidate_pairs`; Loops, Bounds, Combinations, Found and Complete.
--   Vault         evidence/vault.py `LocalVault`; Stored.
--   Ingest        Rows (evidence/models.py, evidence/codes.py), Sniffing (ingest/sniff.py
--                 `quarantine_reason`), Process and Receive (evidence/service.py `process_evidence`,
--                 `ingest_bytes`); Depth, Sound, Numbering, Growth, Processed and Integrity.
--   Monitor       Sources (monitor/validation.py `sources_for`), Rows (monitor/models.py), Principal,
--                 Triage, Recovery (monitor/principal.py, monitor/triage.py, monitor/recovery.py), Publish and
--                 Attempt (monitor/runner.py), Scheduler (monitor/scheduler.py); Granted, Asked, Backoff, Fresh,
--                 Closed, Jobs, Signed and Reconciled.
--   Retention     monitor/retention.py `expire`; Expiry.
--   Archives      ingest/zipsafe.py `safe_members`; Safe.
--
-- How they interact: every service works on tables that it is given and returns the tables that it
-- leaves, or an error, in which case nothing is committed; `login` and `refresh`, which commit before they
-- raise, return both. `handle` of Alerts composes `decide` and `create_finding` of Decisions, which use the
-- permissions of Authz. `invoke` of Policy composes the budget of Agent, the policy of the case and the
-- refresh of an actor of Authz. `ingest_bytes` of Ingest puts bytes in the Vault, checks archives by
-- Archives and calls itself for their members. `run_item` of Monitor rechecks its actor by Authz, and
-- raises its signals by Alerts.
--
-- Conventions. A table is the list of its rows in the order of insertion, and a query is a search of it.
-- Identifiers are numbers, and an operation takes the new ones that it draws.
-- Times are microseconds; an operation takes those that it reads, and the start of its transaction where
-- a column defaults to it.
-- Texts are lists of code points, and `upper` and `casefold` cover ASCII letters only. Money is in units
-- of 0.0001 USD. Digests are numbers. Rows are locked while they are read and written, so an operation is
-- one step, and so is the code between two awaits of the job runner. Cuts in paragraphs recurse on as
-- many steps as the paragraph has characters, which is enough since each window starts behind the one
-- before.
--
-- Arguments of the model, as they are not code of the repository: the hash of tokens, the decoding of
-- signed cookies, the check and the making of password hashes. What a tool computes is an argument too,
-- as is the ratio by which two texts are alike, and so are the text that counts the overflow of alerts,
-- the order of codes in the database and the retention period, which is read from the JSON policy of a
-- case. So are the digest of bytes, the type of bytes, archives and parsers (the `Outside` of Ingest), and
-- the text of a page's cursor. In Monitor they are whether a lock is taken, whether and where
-- an attempt is cancelled, what a source answers, and
-- what other requests do to the tables meanwhile; a hit comes with its fingerprints and with the matches
-- in its excerpt, which the repository finds by hash functions and regular expressions.
--
-- Not modelled: routes and schemas, which validate and render, but for the change of a member; the details
-- and hashes of audit entries; scores, features and summaries, which nothing here reads; the loop of a
-- model's events in a run; the extraction of claims from an answer; the editing of watchlist items; the
-- text that is cleaned before two texts are compared; parsers, extraction, the analytics behind blocking,
-- search, capture and reports; model providers, adapters and rendering, which are input and output.
pub mod Prelude
pub mod Records
pub mod Samples
pub mod Audit
pub mod Authz
pub mod Accounts
pub mod Cases
pub mod Decisions
pub mod Alerts
pub mod Agent
pub mod Policy
pub mod Chunker
pub mod Pages
pub mod Blocking
pub mod Jobs
pub mod Vault
pub mod Archives
pub mod Ingest
pub mod Monitor
pub mod Retention
pub mod Claims
