-- ===== src/Examples/Work.antt =====
-- The theorems on runs, leases, relations, reviews and patterns at a concrete store.
use sdi_plugin.Prelude.{
  ℕ, String, ◌≡◌, refl, ◌↔◌, true, false, not, ◌&&◌, Option, none, some, List, [], ◌∷◌, arith, All,
}
use sdi_plugin.Prelude.Int.{pos}
use sdi_plugin.Domain.Error.{Result, ok, err, not_found, invalid_transition}
use sdi_plugin.Domain.Ids.{EntityId}
use sdi_plugin.Domain.Run.{Run, RunResult, RelationKind, TaskRelation, TaskLease}
use sdi_plugin.Domain.Disruption.{
  DisruptionReview, DisruptionReviewStatus, DisruptionSource, DisruptionResolution,
}
use sdi_plugin.Domain.Verification.{FailureClass}
use sdi_plugin.Repo.Db.{Db}
use sdi_plugin.Repo.Runs.{get_run}
use sdi_plugin.Repo.Runs.Frozen.{Ending, end_runs, end_runs-frozen}
use sdi_plugin.Repo.Leases.{get_lease}
use sdi_plugin.Repo.Leases.Lock.{LeaseOp}
use sdi_plugin.Repo.Leases.Exclusive.{run_ops, run_ops-exclusive}
use sdi_plugin.Repo.Relations.{parents, ancestors, descendants, mem}
use sdi_plugin.Repo.Relations.Found.{Lists}
use sdi_plugin.Repo.Relations.Kinship.{ancestors-Lists, ancestors-descendants}
use sdi_plugin.Repo.Reviews
use sdi_plugin.Repo.Reviews.Laws.{resolve-once}
use sdi_plugin.Router.Provenance.{ensure_direct_pattern}
use sdi_plugin.Router.Provenance.Sentinel.{ensure_direct_pattern-once}
use sdi_plugin.Router.Runs.{Host, FinishRunBody, no_report}
use sdi_plugin.Router.Runs.Booking.{finish_run, Ended}
use sdi_plugin.Router.Runs.Verified.{Verified}
use sdi_plugin.Router.Runs.Finished.{finish_run-atomic}
use sdi_plugin.Examples.Data.{store, run_1}

end_runs-frozen_example :
    get_run
      (end_runs ((Ending.plain "RUN-1" RunResult.failure (some "again"), 9) ∷ []) store)
      "RUN-1"
    ≡ ok run_1
unfolding get_run
end_runs-frozen_example =
    end_runs-frozen ((Ending.plain "RUN-1" RunResult.failure (some "again"), 9) ∷ []) store "RUN-1"
      run_1 refl refl

abbrev lease_1 : TaskLease
lease_1 = record {
  task_id = "TASK-1";
  holder = "a";
  acquired_at = 1;
  heartbeat_at = 1;
  expires_at = 20;
}

abbrev leased : Db
leased = record store { leases = lease_1 ∷ [] }

run_ops-exclusive_example :
    get_lease
      (run_ops
        ((LeaseOp.acquire "TASK-1" "b" (pos 5), 10) ∷ (LeaseOp.release "TASK-1" "b", 11) ∷ [])
        leased)
      "TASK-1"
    ≡ some lease_1
unfolding get_lease
run_ops-exclusive_example =
    run_ops-exclusive
      ((LeaseOp.acquire "TASK-1" "b" (pos 5), 10) ∷ (LeaseOp.release "TASK-1" "b", 11) ∷ []) leased
      "TASK-1" lease_1 (refl, tt) refl ((refl, refl, omega arith), ((refl, refl, omega arith), tt))

abbrev parent_of : EntityId → EntityId → EntityId → TaskRelation
parent_of id parent child = record {
  id = id;
  parent_id = parent;
  child_id = child;
  kind = RelationKind.parent;
  created_at = 1;
}

-- Three tasks in a cycle.
abbrev related : Db
related = record store {
  relations =
      parent_of "REL-1" "TASK-1" "TASK-2"
      ∷ parent_of "REL-2" "TASK-2" "TASK-3"
      ∷ parent_of "REL-3" "TASK-3" "TASK-1"
      ∷ [];
}

ancestors-Lists_example :
    (out : List EntityId) × (ancestors related "TASK-1" ≡ some out)
    × Lists (parents related) "TASK-1" out
ancestors-Lists_example = ancestors-Lists related "TASK-1"

ancestors-descendants_example :
    (mem "TASK-2" ("TASK-3" ∷ "TASK-2" ∷ []) ≡ true)
    ↔ (mem "TASK-1" ("TASK-3" ∷ "TASK-1" ∷ []) ≡ true)
unfolding ancestors descendants
ancestors-descendants_example =
    ancestors-descendants related "TASK-1" "TASK-2" ("TASK-3" ∷ "TASK-2" ∷ [])
      ("TASK-3" ∷ "TASK-1" ∷ []) refl refl

abbrev review_1 : DisruptionReview
review_1 = record {
  id = "DR-1";
  plan_id = "PLAN-1";
  source_kind = DisruptionSource.scenario;
  source_id = "SCN-2";
  impacted_scenario_ids = "SCN-1" ∷ [];
  status = DisruptionReviewStatus.pending;
  resolution = none;
  note = none;
  created_at = 1;
  resolved_at = none;
}

abbrev written : Result Db → Db
written (ok d) = d
written (err _) = store

abbrev reviewed : Db
reviewed = record store { reviews = review_1 ∷ [] }

abbrev settled : Db
unfolding Reviews.resolve
settled = written (Reviews.resolve "DR-1" (some DisruptionResolution.keep) none 9 reviewed)

resolve-once_example :
    ((r : DisruptionReview) × (Reviews.get settled "DR-1"
        ≡ ok (Reviews.settle_as (some DisruptionResolution.keep) none 9 r)))
    × (Reviews.resolve "DR-1" none (some "n") 10 settled
        ≡ err (invalid_transition "disruption_review" "resolved" "resolved"))
unfolding Reviews.resolve
resolve-once_example =
    resolve-once "DR-1" (some DisruptionResolution.keep) none none (some "n") 9 10 reviewed settled
      refl

abbrev marked : Db
unfolding ensure_direct_pattern
marked = (ensure_direct_pattern "PLAN-1" "CP-1" 9 store).1

ensure_direct_pattern-once_example :
    ensure_direct_pattern "PLAN-1" "CP-2" 10 marked ≡ (ok "CP-1", marked)
unfolding ensure_direct_pattern
ensure_direct_pattern-once_example =
    ensure_direct_pattern-once "PLAN-1" "CP-1" "CP-2" 9 10 store marked "CP-1" refl

abbrev host : Host
host = record {
  to_lowercase = λ s. s;
  sha256_hex = λ _. "0a";
  is_file = λ _. false;
  in_state_dir = λ _. false;
  read_report = λ _. ok no_report;
  in_repo_path = λ _ _. none;
}

abbrev body : FinishRunBody
body = record {
  result = none;
  notes = none;
  exit_code = some (pos 0);
  signal = none;
  timed_out = none;
  spawn_error = none;
  failure_class = none;
  failure_signature = none;
  duration_ms = none;
}

finish_run-atomic_example : (finish_run host "RUN-9" body 9 store).1 ≡ store
unfolding finish_run
finish_run-atomic_example = finish_run-atomic host "RUN-9" body 9 store (not_found "RUN-9") refl

-- A run of a task that no scenario is bound to: it passes, and nothing is booked.
abbrev run_2 : Run
run_2 = record run_1 { scenario_id = none; finished_at = none; result = none; exit_code = none }

abbrev running : Db
running = record store { runs = run_2 ∷ [] }

abbrev run_2_done : Run
run_2_done = record run_2 {
  finished_at = some 9;
  result = some RunResult.success;
  exit_code = some (pos 0);
  failure_class = some FailureClass.no_failure;
  notes = some "exit 0";
}

abbrev after_finish : Db
unfolding finish_run
after_finish = (finish_run host "RUN-1" body 9 running).1

abbrev ended : Ended
ended = record { run = run_2_done; budget = none }
