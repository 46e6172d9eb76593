-- ===== src/Lib.antt =====
-- AegisGo answers prompts with deterministic rules first and a language model second. This library
-- models its decision core in Go and the durable protocols around it.
--
-- The parts and how they interact.
--   * internal/router (Rules, Router): the rules table (`RuleDef`, `LoadRules`, `seedRules`,
--     `ReconcileSeeded`, `Seeded`, `Export`) feeds the router (`New`, `Swap`, `Handle`, `spliceArgs`),
--     whose hot reload swaps in what the table holds. Rules holds the table and the shadow
--     comparisons of internal/store/shadow.go, Router the compiled rules, Router.Splice the
--     argument templates, Router.Reload the reload.
--   * internal/engine (Confidence, Engine): `runUnwrapped` (Engine.Run) and `RunStreaming`
--     (Engine.Stream) route a prompt, fall back to the classifier or the model, compare a shadow rule
--     with the model (Engine.Shadow) and end in one of the tails (Engine.Tails), which score and
--     audit. Engine.Format spells the texts.
--   * internal/store/normalize.go (Normalize): the clustering key of a corpus row.
--   * internal/store/approvals.go and internal/tools/hitl.go (Approvals, Approvals.Gate): the ledger
--     of approval requests, and the gate that files a request, polls the ledger and acts.
--   * internal/telegram/inbox.go and poll.go (Inbox): the durable inbox, its workers' writes, and the
--     acknowledgement of a batch.
--   * internal/telegram/hitl.go (Approvals.Commands): the chat commands over the ledger.
--   * internal/telegram/dispatcher.go (Dispatcher): `Process` as a plan, the arms that a text reaches,
--     and its run over the inbox and the Bot API; Dispatcher.Throttle is `waitChat`, Dispatcher.Reply
--     `formatReply`, and Dispatcher.Buttons what `callbackText` makes of a pressed button.
--   * internal/telegram/scheduler.go and internal/store/schedules.go (Scheduler): the schedules that a
--     chat registers, and their rows.
--   * internal/app/addrulegate.go and registerrulesgate.go (AddRule): the dialect in which a chat adds
--     rules (`parseAddRule`, `parseRegisterRules`), the export that prints it (AddRule.Export), the
--     write to the table and the router (AddRule.Run), and its gate (AddRule.Run.Gate).
--   * internal/logwatch/watchdog.go (Watchdog): the polls of a log file, `tailFile`, and the cooldown
--     between alerts; Watchdog.Manager is the `Manager` with the goroutines of loop.Periodic.
--   * internal/app/watchgate.go and internal/logwatch/store.go (WatchGate): `ParseWatch`, and in
--     WatchGate.Store `HandleWatchText` and `StartWatches` over the manager and the rows of the watches.
--   * Texts: what the parsers use of the strings package.
--   * internal/tools/jobs.go (Jobs): background jobs, each critical section of the manager a step of
--     a relation.
--   * internal/store/store.go (Writer): the queue of writes, its transactions, and the shutdown.
--   * Prelude holds the shared tests, lists, results and decimals; Examples the tests.
--
-- How state and operations correspond to the code. A table is the list of its rows and a statement is
-- a function on it; each statement asks `ok n` or `accepts n`, any function, whether the driver
-- carries it out. The engine's world has the rows that the code writes and the calls that it makes,
-- newest first. A Go method that changes state is a function from the state to its results and the
-- next state. What other goroutines do to a ledger or an inbox in the meantime is a list of moves.
--
-- Parameters: the regular-expression engine, the tools and what they return, the model and the
-- classifier, the clock, the hash of a prompt, the two patterns of confidence.go, the callback of
-- a stream, the Bot API, the JSON decoder, `time.ParseDuration`, `fmt.Sscanf`, what the polls meet on
-- the disk and on the channel of alerts, and, in the dispatcher, what a command computes and the run of
-- the engine.
--
-- Bounds and fuel. Numbers are natural numbers; scores, limits and chunk sizes are the constants of
-- the code. Emission takes the length of the text as fuel, and takes a byte at least off it each
-- round. The gate polls on fuel of one turn more than the wait timeout, in units of its clock: each
-- turn takes at least one unit. The drain at shutdown takes the length of the queue, since each turn
-- takes a write off it. The wait for a chat's token polls on one turn more than the nanoseconds of
-- its longest wait; a turn that goes on takes one at least.
--
-- Not modelled: HTTP, gRPC, MCP and command-line front ends, providers, the miner, configuration, the
-- log analysis, the listings of the chat commands, the goroutines of scheduled jobs, and the one that
-- hands the alerts of the watches to a chat. Texts are bytes, and the splicing and the quoting assume
-- valid UTF-8. Intervals of schedules are natural numbers of nanoseconds, durations of watches have a
-- sign, and one that overflows 64 bits is outside the model.
pub mod Prelude
pub mod Rules
pub mod Texts
pub mod AddRule
pub mod Router
pub mod Confidence
pub mod Normalize
pub mod Engine
pub mod Approvals
pub mod Inbox
pub mod Dispatcher
pub mod Scheduler
pub mod Jobs
pub mod Watchdog
pub mod WatchGate
pub mod Writer
pub mod Examples
