-- ===== src/Examples/Workers.antt =====
-- The ticks and the reconciler at concrete tables.
use openclaw_rs.Base.{
  ℕ, ◌≤◌, ◌+◌, ◌%◌, ◌^◌, ◌≡◌, refl, get_elem?, false, none, some, List, [], ◌∷◌, ◌==◌, ◌&&◌, All,
  length, map, if◌then◌else◌, Option, Bool-cases, inl, inr,
}
use mathlib.Core.List.{Memᴰ}
use openclaw_rs.Base.Int.{pos}
use openclaw_rs.Errors.{Result, ok, err}
use openclaw_rs.Payload.{EventEnvelope}
use openclaw_rs.Projection.Instance.{InstanceStatus}
use openclaw_rs.Projection.Task.{TaskStatus}
use openclaw_rs.Projection.Run.{RunStatus, RunRow, is, handle}
use openclaw_rs.Schedule.Rows.{ClaimResult}
use openclaw_rs.Store as Store
use openclaw_rs.Store.Rows.{from_row}
use openclaw_rs.Act.{Act}
use openclaw_rs.Act as Act
use openclaw_rs.Port.{Emitted, Grows}
use openclaw_rs.Port.Log.{has_key}
use openclaw_rs.Port.Postgres.{emit-Emitted}
use openclaw_rs.Workers.{WorkerHandle, WorkerError, WorkerManager}
use openclaw_rs.Workers.Reconcile.{
  ActiveRun, active_runs, abandon_key, build_dead_worker_event, reconcile_active_runs,
}
use openclaw_rs.Workers.Ticks.{TickInput, state_of, description_of, reconciler_tick, scheduler_tick}
use openclaw_rs.Workers.Dead.{ReportsOne}
use openclaw_rs.Workers.Once.{reconciler_tick-Grows}
use openclaw_rs.Workers.Reported.{reports, reconciler_tick-once}
use openclaw_rs.Workers.Counted.{dead, Noted, reconcile_active_runs-counts}
use openclaw_rs.Workers.Live.{Accepts, Told, scheduler_tick-Told}
use openclaw_rs.Workers.Over.{closed, reported_run-over}
use openclaw_rs.Examples.Fixtures.{Json, json, event, a_run, a_task, an_instance}
use openclaw_rs.Examples.Services.{wire, wire-Reads, wire-IsWire, memory, fresh_at}

-- No worker is found again, and none starts.
abbrev no_workers : WorkerManager
no_workers = record {
  spawn = λ config. err (WorkerError.spawn_failed "no such file");
  reattach = λ session run. ok none;
}

-- A claimed run whose claim is a minute too old, which both parts of the reconciler find dead.
abbrev input : TickInput Json
input = record {
  instances = an_instance InstanceStatus.active ∷ [];
  instances_fault = none;
  runs = a_run RunStatus.claimed ∷ [];
  runs_fault = none;
  later_runs = a_run RunStatus.claimed ∷ [];
  later_runs_fault = none;
  tasks = a_task TaskStatus.active ∷ [];
  tasks_fault = λ k. none;
  now = 360000000;
  manager = no_workers;
  data_dir = "/data";
  fresh = λ k. fresh_at (100 + k);
  later_fresh = λ k. fresh_at (200 + k);
}

reconciler_tick-Grows_example :
    Grows memory (ReportsOne wire input 1) [] (reconciler_tick wire memory input 1 []).0
reconciler_tick-Grows_example = reconciler_tick-Grows wire memory input 1 []

reconciler_tick-once_example :
    reports wire 9 (reconciler_tick wire memory input 1 []).0
    ≤ reports wire 9 [] + (if has_key {V = Json} 1 (some (abandon_key wire 9)) [] then 0 else 1)
reconciler_tick-once_example = reconciler_tick-once wire memory input 1 [] 9 wire-IsWire

-- The tick of the example does add the one event.
one_report : length (reconciler_tick wire memory input 1 []).0 ≡ 1
unfolding reconciler_tick Act.◌>>=◌
one_report = refl

abbrev reattach_none : (session_id run_id : ℕ) → Result WorkerError (Option WorkerHandle)
reattach_none session run = ok none

abbrev two_runs : List (RunRow Json)
two_runs = a_run RunStatus.running ∷ record (a_run RunStatus.claimed) { id = 11 } ∷ []

two_reconciled :
    (reconcile_active_runs wire memory reattach_none fresh_at none two_runs 1 []).1 ≡ ok 2
unfolding reconcile_active_runs Act.◌>>=◌
two_reconciled = refl

reconcile_active_runs-counts_example :
    (2 ≡ length (dead reattach_none (active_runs 1 two_runs)) % 2 ^ 32)
    × All
        (Noted wire memory
          (reconcile_active_runs wire memory reattach_none fresh_at none two_runs 1 []).0)
        (dead reattach_none (active_runs 1 two_runs))
reconcile_active_runs-counts_example =
    reconcile_active_runs-counts wire memory reattach_none fresh_at none two_runs 1 2 []
      two_reconciled

abbrev a_claim : ClaimResult
a_claim = record {
  task_id = 8;
  run_id = 9;
  cycle_id = 7;
  instance_id = 1;
  run_number = pos 1;
  worker_session_id = 10;
}

abbrev schedule : ℕ → Act (List (EventEnvelope Json)) (List ClaimResult)
schedule i s = (s, ok (a_claim ∷ []))

abbrev accepts : Accepts memory
accepts e s = elim (Bool-cases (has_key e.instance_id e.idempotency_key s)) [
  | inl old ↦ (pos 0, rw old refl)
  | inr new ↦ (pos 1, rw new refl)
]

scheduler_tick-Told_example :
    ((scheduler_tick wire memory schedule input 1 []).1 ≡ ok tt)
    × All (Told wire memory (scheduler_tick wire memory schedule input 1 []).0) (a_claim ∷ [])
unfolding state_of description_of
scheduler_tick-Told_example =
    scheduler_tick-Told wire memory input schedule 1 [] [] (a_claim ∷ []) accepts refl refl refl
      (λ k. refl) (("d", refl), tt)

abbrev dead_run : ActiveRun
dead_run = record {
  id = 9;
  task_id = 8;
  instance_id = 1;
  worker_session_id = 10;
  state = RunStatus.running;
}

reported_run-over_example :
    ((handle json (build_dead_worker_event wire (fresh_at 5) dead_run) none two_runs).1 ≡ ok tt)
    × (get_elem?
          (handle json (build_dead_worker_event wire (fresh_at 5) dead_run) none two_runs).0
          0
        ≡ some (closed 5 RunStatus.running (a_run RunStatus.running)))
    × ((t : RunRow Json)
        → Memᴰ t (handle json (build_dead_worker_event wire (fresh_at 5) dead_run) none two_runs).0
        → ((t.id == 9) && is t.state RunStatus.running) ≡ false)
unfolding is
reported_run-over_example =
    reported_run-over json wire (fresh_at 5) dead_run two_runs 0 (a_run RunStatus.running)
      wire-Reads refl refl refl refl

abbrev messages : Store.Messages
messages = record { duplicate = "duplicate key"; not_found = "no rows" }

abbrev quiet : Store.Answers
quiet = record { read = none; insert = none; lookup = none; now = 0 }

abbrev nothing : Store.State Json
nothing = record { rows = []; sent = [] }

emit-Emitted_example :
    Emitted
      (event 1 "RunStarted" [])
      []
      (map from_row (Store.emit messages quiet (event 1 "RunStarted" []) nothing).0.rows)
      (Store.emit messages quiet (event 1 "RunStarted" []) nothing).1
emit-Emitted_example = emit-Emitted messages (event 1 "RunStarted" []) quiet nothing
