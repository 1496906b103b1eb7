-- ===== src/Lib.antt =====
-- A verification library for Triagearr, which frees disk space by deleting the torrents, and the
-- media files hard-linked to them, that cost a seeding library the least.
--
-- The program's parts. Pollers fill a SQLite store with what the torrent client and the *arr
-- applications report. The scorer (internal/scorer) gives every torrent a delete score out of
-- eight factors. When a volume is short of space the Decider (internal/decider) turns the scores
-- into a plan: the candidates to delete, in order, until enough would be free. The mode of the
-- resulting run follows from its trigger (internal/triagearr/gate.go). The disk watcher
-- (internal/triggers) notices the shortage, asks for the plan, records the run, and alerts the
-- operator when no plan is enough. A run lock (internal/runlock) is meant to keep live runs
-- apart, across processes. A live run is executed by the Actor (internal/actor): for each
-- candidate it deletes the *arr files, checks the hard links, deletes the torrent, and keeps an
-- audit log; its writes are retried by internal/x/retry. The HTTP server (internal/server) lets
-- the operator sign in, start, watch and stop runs, behind a session middleware and a rate
-- limiter over the accounts in the store (internal/auth, internal/store/auth_repos.go). The
-- health watcher and the disk watcher hand events to the dispatcher of internal/notify. All of it
-- is built from the configuration that internal/config loads, and the import history that ties
-- torrents to *arr files comes through internal/clients/arr/arrhistory.
--
-- The files.
-- - Base and its children: shared names, lists, int64 words, signed integers, texts.
-- - Types: internal/triagearr/types.go. Gate: internal/triagearr/gate.go.
-- - Retry: internal/x/retry/retry.go; the host state stands for what the operation acts on.
--   Retry/Bounds has the rule for its loop.
-- - Float: the operations of float64, which are a parameter; IsOrdered and HasUnit are the laws
--   of IEEE 754 on numbers that some theorems assume.
-- - Scorer/Trackers, Scorer/Policy, Scorer/Factors: internal/scorer/factors.go and types.go.
--   Their children prove.
-- - Scorer/Tags, Scorer/Exclusions: the exclusion reasons of internal/scorer/factors.go, with the
--   proof in Exclusions/Reasons. Scorer/Pass: internal/scorer/scorer.go; its children are Data,
--   for the records, and Totals, for the counts and rows of ScoreAll.
-- - Decider: internal/decider/decider.go. Budget treats the loop against a list of eligible
--   candidates, Eligible the guards, Complete what the guards let through, Plan the whole of
--   Plan.
-- - Actor: internal/actor/actor.go. World has the trace of calls, latest first, and the
--   environment that answers them; Calls one call each; Quiet, Fanout and Sweep the steps before
--   the deletion; Order the order of the pipeline; Closing which actions are opened and closed;
--   Capped how many; Runs the whole of Execute.
-- - Store: ReplaceTrackers of internal/store/trackers_repos.go, with the proofs in Store/Replaced
--   and Store/Dated. Store/Runs: internal/store/runs_repos.go, the two tables as lists, with the
--   proof in Runs/Stored. Store/Actions: internal/store/actions_repos.go, its two tables
--   likewise, with the log's proof in Actions/Logged.
-- - RunLock: internal/runlock/runlock.go, one lock for each process and the steps of all of them;
--   RunLock/Exclusive proves.
-- - DiskWatcher: internal/triggers/disk_watcher.go; Model has its data and that of
--   internal/notify/format.go, Guard treats what a fire does around the Actor, Throttle when it
--   fires and alerts.
-- - Auth: internal/store/auth_repos.go, the accounts and sessions as two lists; Auth/Password is
--   internal/auth/auth.go, Auth/Tables the lemmas on the lists.
-- - Server/Access: `auth`, `authEnabled` and `resolveSession` of internal/server/middleware.go,
--   with Access/Admission for who is let in. Server/Accounts: internal/server/handlers_auth.go;
--   Accounts/Login treats a sign-in, Accounts/Fit and Accounts/Changes what each handler keeps,
--   Accounts/Sound all requests, command-line recoveries and restarts as steps.
-- - Server/Limiter: `ipRateLimiter` of internal/server/middleware.go; Recency has its list,
--   Bounded its invariant, Buckets what a call does. Server/RunRequests:
--   internal/server/handlers_runs.go, with RunRequests/Balanced for the run slot.
-- - Notify/Event and Notify/Dispatch: internal/notify/notify.go; Notify/Format and Format/Events:
--   internal/notify/format.go. Format/Bytes treats `HumanBytes`, Dispatch/Ring the fan-out and
--   the ring of deliveries.
-- - HealthWatcher: internal/triggers/health_watcher.go, with the proof in Transitions.
-- - Pollers/Tracker: the event loop and the passes of internal/pollers/tracker_poller.go, with
--   the proof in Tracker/Catchup. Pollers/Maintenance: runOnce of
--   internal/pollers/downsampler.go.
-- - Linker: internal/linker/linker.go.
-- - ArrHistory: internal/clients/arr/arrhistory/arrhistory.go, with the proof in Paging.
-- - Config/Lines, Config/Defaults, Config/Validation: internal/config/load.go and the types of
--   config.go. Lines/Comments has the comments of YAML, Lines/Plain the expansion,
--   Validation/Providers what the providers need, Validation/Checks the lemmas on checks,
--   Validation/Sound what Load accepts.
-- - Tests: examples and runs.
--
-- The modelling. An instant or a duration is a number of nanoseconds. A byte count is the pattern
-- of an int64, whose sums wrap, and the theorems that add sizes assume that they fit. Nearly
-- every loop is a recursion on its list, or on the rounds left for a retry. Two run on fuel: the
-- loop of HumanBytes on seven rounds, where an int64 needs six at most, and the paging loop of
-- the import history on any number that is over the number of records, since a page that is not
-- the last takes at least one. The environment of the Actor is an arbitrary function of
-- everything that happened so far, so a theorem over it covers every order of failures. The
-- scoring pass and the disk watcher run against what the reads of the store return, and every
-- write is part of their result. The server's requests are handled one after another; within one,
-- each statement of SQLite may fail, and the clock is read anew each time. bcrypt, SHA-256, the
-- random generators, the token bucket of golang.org/x/time/rate, the verbs %.1f and %q, package
-- regexp, and the order in which Go ranges over a map whose values it adds up, are parameters.
-- The step relation of the run lock lets any process take, arm and release its lock, or die, in
-- any order; the kernel's promise about flock is a condition of the step that takes the lock.
-- Paths are joined by a parameter. The text of an error is modelled in full where the audit log
-- stores it; elsewhere its prefix may leave out the names and numbers that the code prints in it.
--
-- Not modelled: SQL itself and HTTP, with JSON, cookie attributes, headers and routing, since
-- they are libraries'; two requests that change the accounts at the same time; the read-only and
-- the settings handlers of the server; overrides of the configuration and YAML; the clients of
-- qBittorrent and of the *arr applications, save the import history; the other pollers; the
-- dashboard, the command line and the development fakes.
pub mod Base
pub mod Types
pub mod Gate
pub mod Notify
pub mod ArrHistory
pub mod HealthWatcher
pub mod Pollers
pub mod Linker
pub mod Config
pub mod Retry
pub mod Float
pub mod Scorer
pub mod Store
pub mod Auth
pub mod Server
pub mod Decider
pub mod DiskWatcher
pub mod RunLock
pub mod Actor
pub mod Tests
