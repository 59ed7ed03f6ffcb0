-- ===== src/Examples/Merges.antt =====
-- The merge service at concrete tables.
use openclaw_rs.Base.{◌+◌, ◌*◌, length, ◌≡◌, refl, take, true, false, none, List, [], ◌∷◌, arith}
use openclaw_rs.Errors.{ok, err}
use openclaw_rs.Projection.Instance.{InstanceStatus}
use openclaw_rs.Projection.Task.{TaskStatus}
use openclaw_rs.Payload.{EventEnvelope}
use openclaw_rs.Act as Act
use openclaw_rs.Merging.{MergeResult, MergeParams, GitProvider, GitError}
use openclaw_rs.Merging.Attempts.{
  MergeInput, in_flight, attempt_merge_core, retry, attempt_merge, attempt_merge_with_retry,
}
use openclaw_rs.Merging.Cycle.{
  CycleInput, Decided, check_cycle_completion, check_cycle_completion-Decided,
}
use openclaw_rs.Merging.Retry.{Finished, attempt_merge_with_retry-Finished}
use openclaw_rs.Merging.Guards.{Guarded, Blocked, Passed, attempt_merge-Passed}
use openclaw_rs.Examples.Fixtures.{Json, get_json, event, uuid, a_task, an_instance}
use openclaw_rs.Examples.Services.{wire, memory, fresh_at}

-- The repository is locked, always.
abbrev locked : GitProvider
locked = record {
  merge = λ k repo source target. ok (MergeResult.failed "index.lock exists");
  diff_stat = λ k repo base head. err (GitError.io_error "none");
}

abbrev input : MergeInput Json
input = record {
  instances = an_instance InstanceStatus.active ∷ [];
  instances_fault = none;
  in_flight_fault = none;
  git = locked;
  fresh = λ k n. fresh_at (10 * k + n);
}

abbrev params : MergeParams
params = record {
  task_id = 8;
  run_id = 9;
  instance_id = 1;
  cycle_id = 7;
  repo_path = "/repo";
  source_branch = "task";
  target_branch = "main";
}

attempt_merge_with_retry-Finished_example :
    Finished wire input params 1 2 (attempt_merge_with_retry wire memory input params 2 3 []).1
attempt_merge_with_retry-Finished_example =
    attempt_merge_with_retry-Finished wire memory input params 2 3 [] (omega arith) (omega arith)

-- Three attempts, each with its failure.
six_events : length (attempt_merge_with_retry wire memory input params 2 3 []).0 ≡ 6
unfolding attempt_merge_with_retry Act.◌>>=◌
six_events = refl

-- Another task of the cycle is merged, its merge failed, and it is at it again.
abbrev again : List (EventEnvelope Json)
again =
    event 60 "MergeAttempted" (("cycle_id", uuid 7) ∷ ("task_id", uuid 6) ∷ [])
    ∷ event 61 "MergeFailed" (("task_id", uuid 6) ∷ [])
    ∷ event 62 "MergeAttempted" (("cycle_id", uuid 7) ∷ ("task_id", uuid 6) ∷ [])
    ∷ []

attempt_merge-Passed_example :
    Guarded
      (Blocked wire memory input params again)
      (Passed wire memory input params again)
      again
      (attempt_merge_core wire memory input params 1 again)
      (attempt_merge wire memory input params 1 again)
    × Guarded
        (Blocked wire memory input params again)
        (Passed wire memory input params again)
        again
        (retry wire memory input params 2 3 1 again)
        (attempt_merge_with_retry wire memory input params 2 3 again)
attempt_merge-Passed_example = attempt_merge-Passed wire memory input params 1 2 3 again

-- The guard sees the first attempt of the other task while it is at work …
first_seen : in_flight wire 7 8 (take 1 again) ≡ true
unfolding in_flight get_json
first_seen = refl

-- … but not the second: the merge of this task goes on, with two events of its own.
second_hidden :
    (in_flight wire 7 8 again ≡ false)
    × (length (attempt_merge wire memory input params 1 again).0 ≡ 5)
unfolding in_flight attempt_merge Act.◌>>=◌ get_json
second_hidden = (refl, refl)

-- A cycle of one task that has passed and is merged.
abbrev cycle : CycleInput Json
cycle = record {
  tasks = a_task TaskStatus.passed ∷ [];
  tasks_fault = none;
  later_tasks = a_task TaskStatus.passed ∷ [];
  merges_fault = none;
  fresh = fresh_at 50;
}

abbrev merged : List (EventEnvelope Json)
merged = event 1 "MergeSucceeded" (("task_id", uuid 8) ∷ []) ∷ []

answers_true : (check_cycle_completion wire memory cycle 7 1 merged).1 ≡ ok true
unfolding check_cycle_completion Act.◌>>=◌ get_json
answers_true = refl

check_cycle_completion-Decided_example :
    Decided wire memory cycle 7 1 true merged
      (check_cycle_completion wire memory cycle 7 1 merged).0
check_cycle_completion-Decided_example =
    check_cycle_completion-Decided wire memory cycle 7 1 merged true answers_true
