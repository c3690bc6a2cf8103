-- ===== src/Lib.antt =====
-- A verification library for AIStat: the path of a user's Multica token between the public host and
-- the trusted worker at home, the supervisor of the worker's processes, the accounts of the host with
-- their login through an OAuth provider and their deletion, the crash-atomic install of a tenant's
-- snapshot, the installer of the worker's runtime, and the flow metrics of the dashboard.
--
-- How the parts interact. A user submits a token on the host (aistat/handoff.py, tables of
-- security.db). The worker (aistat/worker_sync.py) pulls, stores each token encrypted in its own
-- store (aistat/worker_store.py) and sends acknowledgements; a stored-acknowledgement erases the
-- plaintext on the host. A disconnect erases the token, and the worker deletes its copy and
-- confirms. The collector reads the store and drops credentials that are refused. The supervisor
-- (aistat/supervisor.py) keeps the worker's processes alive. A browser begins a login, the provider
-- sends it back with a one-time state, and the host registers its subject or finds its account
-- (aistat/oauth.py over aistat/security.py); a deletion takes every row of an account, with the
-- tenant row that the install of a snapshot needs.
--
-- Files.
-- - Prelude, Table: shared names, Boolean tests, lists, and SQLite tables with an integer key.
-- - Tenant: canonical_tenant_id of aistat/tenant.py.
-- - Handoff: aistat/handoff.py. State has the tables as a record Host; Validation the official
--   server and the allowlist of messages; Intake the calls of users (connection_status,
--   submit_connection, revoke_connection, reserve_connection_submission); Pull the worker's pull
--   and nonces; Requests the shape of tokens, labels and nonces and the check of a signed request;
--   Acks the acknowledgements; Machine a history of requests. Slots, Nonces, Expiry, Settlement,
--   Change, Plaintext, Epochs, Answer and History are the proofs. Every call takes its
--   time `now` and the state, and returns the state and a result; a ValueError is a value of
--   Refusal, with the state the call left.
-- - WorkerStore: WorkerTokenStore of aistat/worker_store.py, with Watermark, Laws and Revocation.
-- - WorkerSync: pull_once and report_sync of aistat/worker_sync.py.
-- - Protocol: the two stores and the messages between them as one step relation. Every answer and
--   every batch that was ever sent stays available, so delay, repetition and loss are steps.
-- - Supervisor: the class Supervisor of aistat/supervisor.py; Shutdown has stop and run.
-- - Snapshots: aistat/snapshot_recovery.py; Crash stops an install between two of its steps, and
--   Tenants has the replay watermark of aistat/security.py.
-- - Accounts: the users, external identities and the deletion of aistat/security.py. Identities and
--   Invariant are the tables and what is always true of them; Calls has every call as one step
--   relation and Steps that each call is one of its steps; Registry, Roles, Deletion and Afterwards
--   are the proofs over runs of calls.
-- - Oauth: begin, finish and open_registration_identity of aistat/oauth.py; Identity reads the two
--   answers of a provider, Email is normalize_email, and History is a history of logins with
--   whatever happens to the accounts in between. Browser, Bound, Once, Registration and Canonical
--   are the proofs.
-- - Installer: install, uninstall and rollback of aistat/runtime_install.py on the code generations
--   of a machine; Generations and Failures are the proofs.
-- - FlowMetrics: the loops of aistat/flow_metrics.py over the rows of their queries: the idle fleet
--   and the ranks, CycleTime and Rework, with Idle, Ranks, Sorting, Delivered, Reviews and Weeks; and
--   the Lineage, with Judged and Firsts for its two dictionaries and Accepted for its counters.
-- - Security: the login throttle, the sessions and the OAuth states of aistat/security.py.
--
-- Numbers. Times, epochs and ids are natural numbers; SQLite's bound on ids is checked as the code
-- checks it. Times of the supervisor are milliseconds. Where the code subtracts a time to live from
-- the clock, the model adds it on the other side. No definition runs on fuel: the main loop of the
-- supervisor runs over the list of the passes that the clock grants. The seconds of the flow metrics
-- are whole, a rate is its numerator and denominator, and a median is given twice.
--
-- Parameters. Fernet (the cryptography package) is a record with the law that decryption inverts
-- encryption; the digest of a cookie, random ids, processes, clocks and whether the supervisor's status can be written are arguments. So are the
-- HMAC and the digest of a worker's request, the case conversions of Python and SQLite, the two
-- requests to an OAuth provider with their answers, and what launchd and the preflights answer to a
-- command of the installer.
--
-- Not modelled. HTTP, configuration, file modes and locks (a call of the worker store runs under
-- its fence, so it is one step); a lease id or a signature that is not ASCII, and a timestamp
-- before 1970; the supervisor's lock file and log files; the text of SQL queries; the default of
-- finish without a policy, which no entry point uses; a display name that SQLite cannot store; a
-- file operation of the installer that fails. A signal that arrives within a pass of the supervisor
-- is noted at its end. The dashboard, its other metrics and backups are outside.
pub mod Prelude
pub mod Table
pub mod Tenant
pub mod Handoff
pub mod WorkerStore
pub mod WorkerSync
pub mod Protocol
pub mod Supervisor
pub mod Security
pub mod Snapshots
pub mod Accounts
pub mod FlowMetrics
pub mod Installer
pub mod Oauth
