-- ===== src/Examples/Plans.antt =====
-- The planner's service at a concrete cycle.
use openclaw_rs.Base.{◌≡◌, refl, none, [], ◌∷◌}
use openclaw_rs.Base.Int.{pos}
use openclaw_rs.Errors.{ok, err, concurrency_conflict}
use openclaw_rs.Projection.Instance.{InstanceStatus}
use openclaw_rs.Workers.Ticks.{state_of}
use openclaw_rs.Planning.{PlanningContext, PlanError}
use openclaw_rs.Planning.Service.{PlanInput, request_plan_core, generate_plan}
use openclaw_rs.Planning.Requested.{request_plan-generate_plan}
use openclaw_rs.Examples.Fixtures.{Json, object, an_instance}
use openclaw_rs.Examples.Services.{wire, wire-IsWire, memory, fresh_at}

abbrev input : PlanInput Json
input = record {
  instances = an_instance InstanceStatus.active ∷ [];
  instances_fault = none;
  in_flight_fault = none;
  planner = λ context. err (PlanError.timeout 30);
  to_value = λ proposal. ok (object []);
  fresh = fresh_at 4;
}

abbrev context : PlanningContext
context = record {
  cycle_id = 7;
  project_id = 2;
  objective = "build";
  repo_context = record { file_tree_summary = ""; recent_commits = []; relevant_files = [] };
  constraints = record {
    max_tasks = 5;
    max_concurrent = 2;
    budget_remaining = pos 100;
    forbidden_paths = [];
  };
  previous_cycle_summary = none;
  context_hash = "hash";
}

request_plan-generate_plan_example :
    generate_plan wire memory input 1 7 context 1
      (request_plan_core wire memory (fresh_at 3) 1 7 context []).0
    ≡ (
      (request_plan_core wire memory (fresh_at 3) 1 7 context []).0,
      err (concurrency_conflict "plan generation already in-flight for cycle iiiiiii"),
    )
unfolding state_of request_plan_core
request_plan-generate_plan_example =
    request_plan-generate_plan wire memory input (fresh_at 3) 1 7 context context 1 [] wire-IsWire
      refl refl refl refl refl refl
