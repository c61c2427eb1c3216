-- ===== src/Lib.antt =====
-- XAUUSD-Bot: a trading observatory for MetaTrader 5 with a private dashboard, which may send orders
-- to a demo account.
--
-- Demo is services/demo_execution.py, the only code that sends an order. Its service is a function
-- on a desk: the kill switch and the rows of persistence/orm.py (DemoExecutionControlRecord,
-- DemoExecutionRecord) and the orders that the broker has been given.
--   Types: the rows, the signal, the terminal's answers; Preflight, Request: the gates before an
--   order, in the order of the source, and the order itself; Records: the switch and the rows;
--   Service: execute, with everything that it writes; Rows, Steps: what a call may do; Passing,
--   Gates, Cleared: what a preflight that passes has checked; Once, Safety: the properties;
--   Examples: an order from the checks to the broker's answer.
-- Risk is what the gates call: services/risk.py (Snapshot, and Change for its changes) and
-- services/shadow_risk_gate.py (Gate),
-- with Limits for what an approval guarantees. Floats has the operations of Python's float as an
-- interface: the definitions suppose nothing of them, and the two properties on limits suppose a
-- total order that adding keeps, as there is without NaN.
--
-- Auth is services/authentication.py: the accounts, enrollments and sessions of the dashboard. Its
-- methods are functions on the four tables of persistence/orm.py (AuthUserRecord,
-- AuthSessionRecord, AuthEnrollmentRecord, AuthAuditRecord) as lists of records, each inside the
-- block of Database.session in persistence/database.py, which commits as a whole or leaves the
-- tables as they were.
--   Types, Store: the rows, and the block with its queries, insertions and updates;
--   Accounts, Enrollment, Sessions, Administration: the methods, by their names in the source;
--   Calls: a history of calls; Changes, Refinement: what a call may do to the tables, and that each
--   method does no more; Blocks, Authority, Lookups: how a block is reasoned about;
--   Invariant, Revocation, Outcomes, Cookies: what holds between the calls;
--   Safety, Secrets, Ownership, Logins, Lifetimes, Removal, Activation: the properties;
--   Examples: the methods run on a small database.
--
-- Supervisor is services/supervisor.py: the processes of the API and of live collection. Its state is
-- the registry file, the children that it holds and its own tables; what the operating system answers
-- to the questions of one call (snapshots of the processes, polls, the start of a child) is a record
-- that the call takes, so that nothing is supposed of it. A subprocess.TimeoutExpired that leaves a
-- stop is one of its results, and what other processes do to the lock file between the steps of
-- __enter__ is an argument of it.
--   Types: ProcessRecord, ProcessIdentity, ProcessSupervisor; Commands: _command_matches; Trees:
--   _matching_descendants, _matching_command_roots, _verified_stored_pids; Identity: the checks and
--   the refresh of a record's process; Start: start_component; Stop: what a stop ends, and how;
--   Stopping: stop_component and restart_component; Monitor, Status: the other operations; Listing:
--   _process_snapshot; Lock: SupervisorOperationLock; Descent, Reach, Pids: what the tree of a command
--   is; Owned, Ending, Spawning, Restarts, Runs, Quiet, Settled: the properties; Samples, Opened, Examples,
--   Passes: a launcher and its interpreter.
--
-- Csrf is services/csrf.py: Tokens has its two functions, Slices the parts of a list of bytes,
-- Binding what they guarantee together, Examples a token.
--
-- Policies is which requests may pass: config/remote_read_only_policy.py and config/csrf_policy.py.
--   Paths: _safe_path and what it uses of urlsplit; Routes: the sets and the shapes of paths;
--   Boundary: the decisions of the remote and of the private boundaries; Mutations: classify_mutation;
--   Origins: the provenance of a request; Separation, Treatment: how they fit together; Examples: some
--   requests.
--
-- Shadow is evaluate_decision of services/shadow_outcome.py, over the same interface for floats, and
-- the worker that applies it to the table of outcomes in persistence/repositories.py.
--   Evaluation: the loop over the candles and its results; Order: the candles in order; Stability,
--   Touches: the properties; Examples: a stop that is reached; Worker: a pass of the worker; Ranks,
--   Passes, Starvation, Finality: what passes leave as it was; Backlog: a table of 2,000 rows.
--
-- PairZone is the strategy of services/pair_zone_strategy.py, over the same interface for floats. What
-- PairZoneV1 remembers between its calls is a record, which evaluate takes and returns.
--   Types: the zones, the settings, the memory; Detection: detect_pair and _zones; Life: _lifecycle and
--   _prune_invalidated; Coverage: the H1 averages and whether candles are complete; Decision, Evaluation:
--   evaluate, whose trade the gate of Risk sizes; Verdicts, Lifecycles: what a state says of the candles;
--   Candidates, Surveys, Signals: what stands behind a trade; Once: the properties over calls; Reports:
--   the statistics, and which zones expire; Examples: a zone that is confirmed.
--
-- Runtime is what the parts tell one another: Bus is events/bus.py, Ipc the validation of requests in
-- services/control_ipc.py, Health the state of a worker in services/worker_health.py.
--
-- Ids are opaque, so they are numbers (but those that the code compares with a text), and so are
-- times, in microseconds. A text is the list of its code points. What the code draws at random, reads
-- from the clock or gets from the terminal is an argument; the clock is read once per call. Unicode
-- normalisation, SHA-256, Argon2, str.upper, HMAC and base 64 are fields of records of parameters; of
-- the last two one property supposes, at one value, lengths and that decoding undoes encoding, of the
-- others none supposes anything. Calls of Auth follow one another: two blocks that interleave are not
-- modelled, the database's isolation being that of SQLite's write lock. A call of Demo is cut in two
-- by what other tasks and processes commit in the meantime, which is an argument. Log lines,
-- notifications and failures of the database other than a broken unique constraint are left out.
-- The passes of _matching_descendants are on fuel, one more than the snapshot has processes, which a
-- property shows to be enough; loops up to a deadline take the answers that they get until then. All
-- other functions are by structural recursion.
--
-- Not modelled: services/control.py, services/live.py, the decisions of services/shadow_engine.py and
-- the forward shadow, the other strategies, research and model inference, which are orchestration over
-- the database or statistics over binary floating point, and the interfaces to HTTP, Telegram, the
-- database's queries and MetaTrader 5.
pub mod Base
pub mod Auth
pub mod Csrf
pub mod Demo
pub mod PairZone
pub mod Policies
pub mod Risk
pub mod Runtime
pub mod Shadow
pub mod Supervisor
