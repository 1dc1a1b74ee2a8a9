-- ===== src/Repo/Runs/Finish.antt =====
-- crates/db/src/repo/run.rs: starting a run, finishing it, and the lists of runs.
use sdi_plugin.Prelude.{
  String, Bool, true, not, ◌&&◌, Option, none, some, List, [], ◌∷◌, ◌++◌, map, ◌==◌, leb, is_none,
  or_else, any, select, update,
}
use sdi_plugin.Prelude.Text.{◌⧺◌}
use sdi_plugin.Domain.Error.{DomainError, validation, Result, ok, err, ◌>>=◌, ◌>>◌, refuse_if}
use sdi_plugin.Domain.Ids.{EntityId, Timestamp}
use sdi_plugin.Repo.Db.{Db, foreign_key_violation, primary_key_violation, order_by, opt_eq}
use sdi_plugin.Prelude.Int.{ℤ}
use sdi_plugin.Domain.Run.{Run, RunResult, FailureIdentity}
use sdi_plugin.Domain.Verification.{FailureClass, SpawnError}

abbrev pub known : List EntityId → Option EntityId → Bool
known ids none = true
known ids (some id) = any (λ i. i == id) ids

abbrev pub run_references : Db → Run → Bool
run_references db r =
    known (map (λ t. t.id) db.tasks) r.task_id
    && known (map (λ p. p.id) db.plans) r.plan_id
    && known (map (λ q. q.round.id) db.rounds) r.round_id
    && known (map (λ s. s.id) db.scenarios) r.scenario_id

unfoldable pub insert_run : Run → Db → Result Db
insert_run r db = do
  refuse_if (is_none r.task_id && is_none r.scenario_id)
      (validation "sqlite: CHECK constraint failed: task_id IS NOT NULL OR scenario_id IS NOT NULL")
  refuse_if (any (λ q. q.id == r.id) db.runs) (primary_key_violation "runs")
  refuse_if (not (run_references db r)) foreign_key_violation
  ok (record db { runs = db.runs ++ r ∷ [] })

abbrev pub started_first : Run → Run → Bool
started_first a b = leb a.started_at b.started_at

unfoldable pub list_runs_by_task : Db → EntityId → List Run
list_runs_by_task db task_id =
    order_by started_first (select (λ r. opt_eq r.task_id task_id) db.runs)

unfoldable pub list_runs_by_session : Db → String → List Run
list_runs_by_session db session_id =
    order_by started_first (select (λ r. opt_eq r.session_id session_id) db.runs)

unfoldable pub list_runs_by_scenario : Db → EntityId → List Run
list_runs_by_scenario db scenario_id =
    order_by started_first (select (λ r. opt_eq r.scenario_id scenario_id) db.runs)

abbrev pub is_open_run : EntityId → Run → Bool
is_open_run id r = r.id == id && is_none r.finished_at

abbrev pub gone_or_finished : EntityId → DomainError
gone_or_finished id = validation ("run " ⧺ (id ⧺ " not found or already finished"))

-- What the UPDATE of `finish_run` sets.
abbrev pub close : RunResult → Option String → Timestamp → Run → Run
close result notes now r = record r {
  finished_at = some now;
  result = some result;
  notes = or_else notes r.notes;
}

unfoldable pub finish_run : EntityId → RunResult → Option String → Timestamp → Db → Result Db
finish_run id result notes now db = do
  refuse_if (not (any (is_open_run id) db.runs)) (gone_or_finished id)
  ok (record db { runs = update (is_open_run id) (close result notes now) db.runs })

-- The end of a run that verified something.
pub record RunFinish : Type 0 where
  pub result : Option RunResult
  pub notes : Option String
  pub exit_code : Option ℤ
  pub signal : Option ℤ
  pub timed_out : Bool
  pub spawn_error : Option SpawnError
  pub report_sha256 : Option String
  pub failure_class : Option FailureClass
  pub failure_signature : Option String
  pub failure_identity : Option FailureIdentity
  pub error_class : Option String
  pub failing_test : Option String
  pub duration_ms : Option ℤ

-- What the UPDATE of `finish_structured` sets.
abbrev pub close_structured : RunFinish → RunResult → Timestamp → Run → Run
close_structured f result now r = record r {
  finished_at = some now;
  result = some result;
  notes = or_else f.notes r.notes;
  exit_code = f.exit_code;
  signal = f.signal;
  timed_out = f.timed_out;
  spawn_error = f.spawn_error;
  report_sha256 = f.report_sha256;
  failure_class = f.failure_class;
  failure_signature = f.failure_signature;
  error_class = f.error_class;
  failing_test = f.failing_test;
  duration_ms = f.duration_ms;
  failure_identity = f.failure_identity;
}

abbrev pub required_result : Option RunResult → Result RunResult
required_result none = err (validation "run finish requires a result")
required_result (some r) = ok r

unfoldable pub finish_structured : EntityId → RunFinish → Timestamp → Db → Result Db
finish_structured id f now db = do
  result ← required_result f.result
  refuse_if (not (any (is_open_run id) db.runs)) (gone_or_finished id)
  ok (record db { runs = update (is_open_run id) (close_structured f result now) db.runs })
