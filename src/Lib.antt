-- ===== src/Lib.antt =====
-- A model of the gateway of deepseek-harness-gateway, of its stores and of the supervisor that its
-- machines run, and what makes them correct.
--
-- The gateway is one Node process. Browsers log in to it (apps/gateway/src/auth.ts, with
-- login-throttle.ts), machines connect to it by WebSocket (nodes.ts, with daemon-control.ts), and it
-- relays the requests of a logged-in user to the console of a machine when authz.ts allows it. The
-- handlers of control.ts administer users, machines and assignments; audit-retention.ts trims the
-- audit log; router.ts and main.ts bind the parts together. All durable state is in a store (packages/store).
--
-- Store: packages/store/src. Store.Domain has the types of domain.ts and the tables of InMemoryStore
--   as one record; Store.Memory has its operations, a function from tables to tables each; Store.Audit
--   has queryAudit and purgeAudit, Store.Audit.Query and Store.Audit.Purge what they return and leave.
-- Sqlite: SqliteStore of packages/store/src/sqlite.ts, one function per method. Sqlite.Database has
--   what it relies on of SQLite and Drizzle, as records of operations with laws; Sqlite.Rows the
--   tables of schema.ts (`Engine`, `Db`) and the rows. `none` is a call that throws.
--   Sqlite.Simulation compares its writes with those of the in-memory store (`Write`, `Represents`
--   and `Allowed` of Sqlite.Refines, with the lemmas of Writes, Cascades, Audits, Assignments,
--   Entries, Tables and Lists), Sqlite.Reads its queries (with Parsed); Sqlite.Example has tables
--   that are lists.
-- Throttle: LoginThrottle of login-throttle.ts beside the rows that its persistence adapter (buildAuth
--   of auth.ts) writes to the store, as one World. `check`, `record_failure`, `record_success`, `prune`
--   and `hydrate` are the methods; `Op`, `step` and `run` are sequences of their calls. Throttle.Check,
--   Lockout, Restart and Keeps are about passing, lockouts, restarts (Throttle.Restart.Later about two
--   throttles that go on alike), and what of the store stays;
--   Throttle.Volume, over the sequences of Throttle.Events and with the lemmas of Attempts and Covers,
--   is about the cap on an address's attempts, Throttle.Overlap about logins that overlap.
-- Session: SessionStore of auth.ts. `lookup` is its `get`; `run` is a sequence of calls.
--   Session.Bound, Expiry and Live are about its size, the life of a session, and new sessions;
--   Session.Evict and Session.Unique hold the lemmas on `evict` and on the ids.
-- Login: hashPassword, verifyPassword, bootstrap, the handlers of /gw/login and /gw/logout, the hook
--   that finds a request's user, and requireRole, all of auth.ts, composed of Throttle, Session and
--   Store. Login.Passwords, Outcome and Journey are about password records, one login, and a login
--   with the requests after it.
-- Authz: authorizeConsole and getCookie of authz.ts (Authz.Access, Authz.Cookie).
-- DaemonControl: DaemonControlRegistry of daemon-control.ts. A promise is a number, and `settled` logs
--   what promises came to; DaemonControl.Once is about settling once.
-- Codec: encodeFrame and BinaryFrameParser of packages/protocol/src/codec.js. `frames_of` is the loop of
--   `push`, with a turn for each byte of the buffer, which is enough since a frame has 13 bytes at
--   least. Codec.Frame is about one frame, Codec.Chunks about a stream that is cut into chunks.
-- Nodes: NodeRegistry of nodes.ts. Nodes.State has its fields, its readings and the lease sweep, and
--   normalizeRole and normalizeDaemonState of packages/protocol/src/daemon.js; Nodes.Admin pairing
--   codes, approval, revocation, deletion, daemon control and shutdown; Nodes.Relay the HTTP relays and
--   WebSocket channels; Nodes.Onboard handleOnboarding; Nodes.Messages the messages and the close of a
--   machine's socket (attach). A socket is a number; what is sent on sockets and told to handlers is
--   the list `effects`. Nodes.Admission, Revoked, Pairing (with Codes) and Channels have the
--   theorems.
-- Control: the handlers of control.ts. Control.Users and Control.Machines have the routes of these,
--   Control.Exports the audit query and the CSV and JSONL exports. Control.Users.Admins is about system
--   administrators, Control.Paging about exports.
-- Retention: createAuditRetention of audit-retention.ts (Retention.Sweep, Retention.Lazy).
-- Router: the guards of the relay routes of router.ts, and relayHttp's handlers as a machine on the
--   variables that they share (`Relay`). The passthrough is its guard and, with anything in between,
--   its handler, which reads the target again. Router.Guards and Router.Stream have the theorems.
-- Startup: the options, switches and node list of main.ts, and handleBrowserUpgrade. Startup.Options and
--   Startup.Browsers have the theorems.
-- Supervisor: the Supervisor of plugins/dsh-gateway-agent/src/daemon.js, which starts and stops dsh
--   on a machine. Supervisor.Commands has expandCommand and splitCommand; Supervisor.State the
--   fields, the awaits of the asynchronous methods (`Task`) and what the methods do to the world
--   (`Effect`); Supervisor.Start `start` and the readiness wait, and the parent module the other
--   methods, each up to its next await, and `resume`, which goes on with a task. Supervisor.Run has
--   the events, in any order: a task goes on, a child exits, a request comes, daemon.json changes;
--   Supervisor.Budget is the interface of a measure that the methods keep to (by Spending, Costs,
--   Resumption and Picks). Ends fills it for the end of the methods, Revival for launches. Settles
--   (with Owners, Waits, StartOwners and StopOwners) is about the state once nothing is awaited,
--   and with Drain that it comes to that, Replies (with Debts) about answers, Faults about a stop
--   without a stop command. A child process is a number. Of the socket to the gateway only its
--   number is kept, which counts those that have closed: `reply` sends on the open one. Logging and
--   the child's log file are left out.
-- Common: what JavaScript gives the code: strings as lists of UTF-16 units (Common.Text, Split,
--   Hex), Map as a list of entries in insertion order (Common.Dict), sort (Common.Sort),
--   JSON.stringify of flat objects (Common.Json), JSON arrays of numbers (Common.Numbers), and
--   Boolean tests and lists over the native numbers.
--
-- Time, random bytes, hashes and the texts of dates are arguments; an asynchronous handler runs as one
-- step, except that the throttle's check and its record of a failure are steps of their own, so that
-- logins may overlap, that the guard and the handler of the passthrough are two steps, and that the
-- supervisor's methods stop at each await. Times and counters are natural numbers, since none of them reaches 2 ^ 53.
-- Loops recurse on their data, but for three with fuel: the purge loop has the 10,000 rounds that the
-- source has, the frame parser's loop a turn for each byte, and the export loop one page more than there
-- are events, which is enough since each page but the last moves on by an event at least.
--
-- Not modelled: opening, migrating and closing the database in packages/store/src/sqlite.ts,
-- JsonLineCodec of packages/protocol/src/codec.js, apps/gateway/src/updater.ts and
-- console-adapt.ts, the wiring of the server in main.ts, and the browser's end of a WebSocket in
-- nodes.ts, the socket of the supervisor, and the rest of plugins/dsh-gateway-agent: they are
-- mostly I/O through libraries. apps/web is the user interface.
pub mod Common
pub mod Store
pub mod Sqlite
pub mod Throttle
pub mod Session
pub mod Login
pub mod Authz
pub mod DaemonControl
pub mod Codec
pub mod Nodes
pub mod Control
pub mod Retention
pub mod Router
pub mod Startup
pub mod Supervisor
