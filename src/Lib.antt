-- ===== src/Lib.antt =====
-- The sdi server keeps plans, scenarios, rounds, tasks, runs and decisions in an SQLite store, and
-- guards how work on them is declared done. This library models its core and proves what the guards
-- grant.
--
-- The parts, each with the file of the repository that it models:
-- * Domain is crates/core, the pure types and checks. Error and Ids are error.rs and ids.rs; Round,
--   Plan, Pattern, Scenario, Task, Decision, Autonomy, Verification, Run and Disruption are round.rs,
--   plan.rs, pattern.rs, scenario.rs, task.rs, decision.rs, autonomy_policy.rs, verification.rs, run.rs
--   and disruption.rs. Of an enum X, the functions show_x and parse_x are its Display and FromStr.
--   Pattern has the children Shape (validate_pattern_shape) and Reversal
--   (validate_reversal_plan_json); Verification has Extract (the readers of a report), Classify and
--   Cause (verification/cause.rs). Project is the record of project.rs.
-- * Repo is crates/db. Db has the tables as lists of rows in the order of insertion, and the errors of
--   their constraints (src/lib.rs). Plans, Scenarios, Decisions, Policies, Runs, Tasks and Budgets are
--   plan.rs, scenario.rs, decision.rs, autonomy_policy.rs, run.rs, task.rs and retry_budget.rs of
--   crates/db/src/repo; Rounds, Baseline, Progress and CarryOver are the parts of round.rs there;
--   Patterns, Projects and Reviews are pattern.rs, project.rs and disruption.rs; Leases, Relations,
--   Runs.Finish and Runs.Counts are further parts of run.rs, Budgets.Bridge is compatibility_bucket,
--   and Plans.Writes has the statements of plan.rs that make and edit plans.
--   A statement that writes is a function Db -> Result Db; Action is several statements on one
--   connection, each of which commits by itself, and transaction takes them back on an error.
-- * Router is crates/daemon/src/router: Gates is verification.rs, the gates on evidence, on the retry
--   budget and on the completion of a round; Tasks, Rounds and Plans are task.rs, round.rs and plan.rs;
--   Runs and Leases are parts of run.rs, and Provenance is the sentinel pattern of provenance.rs.
--   A handler is an Action; it calls the checks of Domain and the statements of Repo.
-- * Prelude has the shared tests, lists, signed integers and texts; Domain.Results reads back the
--   success of a chain of checks. Each module of laws is a child of the module it is about, and
--   Examples applies the theorems at concrete inputs.
--
-- Numbers and time: a timestamp is a number, and the clock's reading is the argument `now`; i32 and
-- i64 that may be negative are the integers of Prelude.Int, and counters do not overflow in the model.
-- Columns hold values instead of texts, so that the decoding of a row cannot fail. Texts are sequences
-- of code points; their order is that of their UTF-8 bytes.
--
-- Parameters stand for what is not in the repository's own code: the lower case of Unicode, the JSON
-- reader, SHA-256 and the fingerprint of a work tree (the record Workspace), the files of reports and
-- the map of a path into the repository (the record Host), and the percentage of a progress group, a
-- float.
--
-- Fuel: show_fuel prints a number n on n + 1 rounds, which is enough, since each round divides by 10
-- and no number has more digits than n + 1; trim_start_matches has the text itself as fuel, and each
-- round removes a prefix that is not empty; the walks along the relations of tasks have one round
-- more than there are relations, and each round but the first is for an id that a relation names. All
-- other functions recurse on their data.
--
-- Not modelled: the events that handlers publish, the HTTP layer, opening and pooling connections,
-- creation of plans, rounds, tasks and runs by the handlers, the approval of a plan that targets user
-- flows, the reuse check, and the parts of the program around the core: collaboration feed, knowledge,
-- usage, user flows, single source of truth, CLI, MCP server and the scripts of the plugin.
pub mod Prelude
pub mod Domain
pub mod Repo
pub mod Router
pub mod Examples
