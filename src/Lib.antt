-- ===== src/Lib.antt =====
-- The daemon of repomap-core: the parts that decide what an agent session may spend, when it loops,
-- how the foreman drives sessions over the beads of a repository, how one session runs, what an audit
-- of it finds, and how finished work is landed.
--
-- Parts and files. Paths are those of the repository.
-- - Governor/Types: daemon/src/governor/types.ts, with the `Punch` of daemon/src/classifier/index.ts.
-- - Governor/LoopDetector: daemon/src/governor/loop-detector.ts. The class is the record
--   `LoopDetector`; `ingest`, `getMetrics`, `detect` and the four private heuristics are the functions
--   `ingest`, `get_metrics`, `detect`, `detect_step_overflow` and so on. The three nested loops of
--   `detectToolCycle` are `find_cycle`, `rows_repeat` and `row_repeats`, each with the number of rounds
--   that its bound gives.
-- - Governor/CostBudget: daemon/src/governor/cost-budget-monitor.ts. The queries of
--   daemon/src/governor/dolt-utils.ts are the record `Dolt`. `getTreeSessionIds` is `walk_tree` on fuel,
--   one unit for a session that is expanded. Its child Config has `loadCostBudgetConfig` and the
--   parsers that it uses.
-- - Governor/Validator: the evaluation of punch cards in daemon/src/governor/kilo-verified-validator.ts,
--   `validateFromKiloLog` from the requirements and the punches on, with its guard, as `validate`.
--   The regular expression of `sqlLikeToRegex` is the function `like` on patterns.
-- - Governor/Audit: daemon/src/governor/session-audit.ts. The queries are the record `Dolt` there, each
--   detector is a function of its own in Detectors and Stalls, `runAudit` is `run_audit` in Report, and
--   the three nested loops of `findRepeatingPattern` are `try_lengths`, `try_starts` and
--   `count_repetitions` in Pattern. Tells says when a list of findings is empty and when it is critical.
-- - Governor/Classifier: daemon/src/classifier/index.ts, with `sortKeysDeep` of daemon/src/infra/utils.ts
--   in SortKeys. Commands has the regular expressions of the gates, Names the names of tools, Events
--   `classifyEvent` and the rest; the hash and the text of JSON are the record `Runtime`.
-- - Governor/Diagnosis: daemon/src/governor/diagnosis-engine.ts. The root has the types, the flattening
--   of the messages and the tool patterns, its child Detectors the five classifiers and
--   `diagnoseSession`; the answer of the server is a parameter.
-- - Foreman/Types: daemon/src/temporal/foreman.types.ts and `AgentTaskResult` of
--   daemon/src/temporal/workflows.ts.
-- - Foreman/Ledger: the ring buffer of outcomes, the retry decisions and the retry ledger of
--   daemon/src/temporal/foreman.workflows.ts. Failures counts the failures of a bead over a sequence of
--   outcomes, which Foreman/Workflow/Retried holds `handleDispatchOutcome` against.
-- - Foreman/State: the state of that workflow, its start and hand-over, its status, and its signals; Carried is
--   about what a hand-over keeps.
-- - Foreman/Selection: `selectNextBead` of daemon/src/temporal/foreman.activities.ts, on the items that
--   were parsed, and `aggregateHealth` there.
-- - Foreman/Workflow: the phases and the main loop of that workflow. The loop asks activities, the child
--   workflow, the clock and the operator, who are the record `Env` of functions of the requests made so
--   far, so the theorems hold of every order of answers, faults and signals. The loop is `loop` on
--   fuel, one unit for an iteration.
--   Ticks and Turns count the iterations of a turn, for Halts.
-- - Plant: the overall status of a report of daemon/src/temporal/plant-health.ts.
-- - Agent: `agentTaskWorkflow` of daemon/src/temporal/workflows.ts, a function for each of its steps, with
--   the activities of daemon/src/temporal/activities.ts and the signals as the record `Env`. Script is
--   the order of requests that the steps are held against.
-- - Infra/LandPlane: daemon/src/infra/land-plane.ts, with `closeBeadSync` of daemon/src/infra/bead-ops.ts.
--   Files and processes are the record `Machine`, whose state each process may change, and the run
--   keeps the commands. The types and the texts are in LandPlane, the operations in Exec.
-- - Infra/Reconcile: daemon/src/infra/pr-reconcile.ts, with GitHub, git and the bd command line as the
--   record `World` of functions of what was asked.
-- - Infra/Kilo: daemon/src/infra/kilo-client.ts. The root has what messages say, its child Rounds the
--   loop of `monitorSession`, which is `watch` on fuel, one unit for a round. The server is the record
--   `Server` of functions of the number of requests made before.
-- - Infra/Factory: daemon/src/infra/factory-dispatch.ts. The root has the reading of labels and JSON and
--   the arguments of bd, Molecule the pipeline and the loop over the steps, Single the dispatch of one
--   prompt over the record `Host`, and Whole the preflight checks and `runDispatch`.
-- - Infra/CardPrompt: daemon/src/optimization/prompt-injection.ts, over the record `Prompts`.
-- - Prelude: lists over native numbers, sets as lists without repetition, JavaScript numbers as the
--   record `Number` of operations without laws, JSON values, and text functions.
--
-- How the parts interact: the foreman starts one agent session for a bead as a child workflow, and the
-- result of the child, with the status that the governor gave it, comes back as `AgentTaskResult`; the
-- foreman turns it into a dispatch result, which moves the ledger and the counters. The agent workflow
-- asks the governor at the end of a session: the budget check, the punch card and the audit are
-- answers of its environment, and the functions that give such answers are those of Governor. Landing
-- and reconciliation close beads from outside the workflows.
--
-- Bounds and fuel. A time is its number of milliseconds, and durations do not go below 0, since the
-- clock does not go back. Counters are natural numbers without an upper bound, where JavaScript is
-- exact up to 2 ^ 53. The tree walk needs no more fuel than there are sessions. What holds of the loop
-- is stated for every amount of fuel, and Halts says that one unit more than the limit of iterations is
-- enough. The monitoring of a session has a unit for each second of its limit,
-- and a round takes at least one poll interval. The pattern search of an audit has one unit more than there are
-- tool calls, and no answer where the source would loop for ever on an empty pattern.
--
-- Not modelled: the daemon's command lines, the requests to Dolt, GitHub and pm2, which are I/O, the
-- derivation of punches from messages, the fitter dispatch, replay and catch-up, and the Python
-- packages. Of the modelled parts, log messages and English texts are left out.
mod Prelude
pub mod Governor
pub mod Foreman
pub mod Plant
pub mod Infra
pub mod Agent
