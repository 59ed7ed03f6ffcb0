-- ===== src/Schedule.antt =====
-- `Scheduler::tick` of crates/openclaw-orchestrator/src/app/scheduler.rs, over the tables that it reads and
-- writes in one transaction.
pub mod Rows
pub mod Queries
pub mod Capacity
pub mod Numbers
pub mod Eligible
pub mod Uncounted
use openclaw_rs.Base.{
  ℕ, zero, suc, ◌+◌, ◌-◌, ◌^◌, String, Bool, true, false, Option, none, some, List, [], ◌∷◌, ◌++◌,
  ◌==◌, ◌&&◌, ◌||◌, if◌then◌else◌, any, take, ltb, not,
}
use openclaw_rs.Base.Int.{ℤ, pos, negsuc, ◌+ℤ◌, ◌-ℤ◌, leb_ℤ}
use openclaw_rs.Errors.{Result, ok, err, AppError, infra, database, ◌>>=◌}
use openclaw_rs.Sql.{Fault, Outcome, update_where, insert_new}
use openclaw_rs.Payload.{Uuid, Time}
use openclaw_rs.Projection.Cycle as CycleTable
use openclaw_rs.Projection.Cycle.{CycleStatus, CycleRow}
use openclaw_rs.Projection.Task as TaskTable
use openclaw_rs.Projection.Task.{TaskStatus, TaskRow}
use openclaw_rs.Projection.Run.{RunStatus, RunRow}
use openclaw_rs.Store.Rows.{EventRow}
use openclaw_rs.Store.{max_seq, unwrap_or_zero, greater, wrap_i64, eqb_ℤ}
use openclaw_rs.Schedule.Rows.{
  wrap_i32, CapacityRow, ClaimableTask, ClaimResult, Tables, Outside, default_max_concurrent,
  answer,
}
use openclaw_rs.Schedule.Queries.{
  find_capacity, available, count_run, is_approved, to_limit, claimable, next_event_seq,
  next_run_number, insert_plain, new_event,
}

module _ {V : Type 0} where
  -- 4a: the cycle of the task is started, once.
  unfoldable pub start_cycle :
      Outside V
      → Uuid
      → ℕ
      → ClaimableTask
      → Tables V
      → List Uuid
      → Result AppError (Tables V × List Uuid)
  unfolding insert_plain new_event next_event_seq CycleTable.is
  start_cycle o i k task db started =
      if is_approved task.cycle_state && not (any (λ c. c == task.cycle_id) started)
      then (do
        events ←
            insert_plain o.duplicate
              (new_event (o.new_v4 k 0) i (next_event_seq i db.events) "CycleRunningStarted"
                (o.started_payload task.cycle_id) o.now)
              db.events
        ok (
          record db {
            events = events;
            cycles =
                update_where
                  (λ c. (c.id == task.cycle_id) && CycleTable.is c.state CycleStatus.approved)
                  (λ c. record c { state = CycleStatus.running; updated_at = o.now }) db.cycles;
          },
          task.cycle_id ∷ started,
        ))
      else ok (db, started)

  -- 4b to 4f: the run is claimed.
  unfoldable pub claim_run :
      Outside V → Uuid → ℕ → ClaimableTask → Tables V → Result AppError (Tables V × ClaimResult)
  unfolding insert_plain new_event next_event_seq next_run_number count_run
  claim_run o i k task db =
      let run_id = o.new_v4 k 1 in
      let worker_session_id = o.new_v4 k 2 in
      let run_number = next_run_number task.id db.runs in
      (do
        events ←
            insert_plain o.duplicate
              (new_event (o.new_v4 k 3) i (next_event_seq i db.events) "RunClaimed"
                (o.claimed_payload run_id task.id task.cycle_id run_number worker_session_id) o.now)
              db.events
        ok (
          record {
            capacity = count_run i db.capacity;
            tasks =
                update_where (λ t. t.id == task.id)
                  (λ t. record t {
                    state = TaskStatus.active;
                    active_run_id = some run_id;
                    current_attempt = t.current_attempt + 1;
                    updated_at = o.now;
                  })
                  db.tasks;
            cycles = db.cycles;
            runs =
                insert_new (λ r. r.id)
                  (record {
                    id = run_id;
                    task_id = task.id;
                    instance_id = i;
                    run_number = run_number;
                    state = RunStatus.claimed;
                    worker_session_id = worker_session_id;
                    branch = none;
                    worktree_path = none;
                    prompt_sent = none;
                    output_json = none;
                    exit_code = none;
                    cost_cents = pos 0;
                    failure_category = none;
                    cancel_reason = none;
                    abandon_reason = none;
                    lease_until = none;
                    started_at = o.now;
                    finished_at = none;
                  })
                  db.runs;
            events = events;
          },
          record {
            task_id = task.id;
            run_id = run_id;
            cycle_id = task.cycle_id;
            instance_id = i;
            run_number = run_number;
            worker_session_id = worker_session_id;
          },
        ))

  -- The loop over the tasks, from round `k` on.
  unfoldable pub claim_all :
      Outside V
      → Uuid
      → ℕ
      → List ClaimableTask
      → Tables V
      → List Uuid
      → Result AppError (Tables V × List ClaimResult)
  unfolding start_cycle claim_run answer
  claim_all o i k [] db started = ok (db, [])
  claim_all o i k (task ∷ tasks) db started = answer (o.round k) >>= λ u.
      start_cycle o i k task db started >>= λ a. claim_run o i k task a.0 >>= λ b.
      claim_all o i (suc k) tasks b.0 a.1 >>= λ c. ok (c.0, b.1 ∷ c.1)

  -- The transaction. With no room there is no loop, and with no tasks the loop does nothing.
  unfoldable pub run_tick :
      Outside V → Uuid → Tables V → Result AppError (Tables V × List ClaimResult)
  unfolding answer find_capacity available claimable claim_all
  run_tick o i db = answer o.opening >>= λ u.
      (let limit = available (find_capacity i db.capacity) in
        if leb_ℤ limit (pos 0)
        then ok (db, [])
        else claim_all o i 0 (claimable i o.is_locked limit db) db [])
      >>= λ done. answer o.commit >>= λ v. ok done

  -- A transaction that is not committed changes nothing.
  unfoldable pub settle_tick :
      Tables V
      → Result AppError (Tables V × List ClaimResult)
      → Tables V × Result AppError (List ClaimResult)
  settle_tick db (ok (after, results)) = (after, ok results)
  settle_tick db (err x) = (db, err x)

  unfoldable pub tick : Outside V → Uuid → Tables V → Tables V × Result AppError (List ClaimResult)
  unfolding run_tick settle_tick
  tick o i db = settle_tick db (run_tick o i db)
