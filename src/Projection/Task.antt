-- ===== src/Projection/Task.antt =====
-- The task projector, crates/openclaw-orchestrator/src/app/task_projector.rs, over the table `orch_tasks` of
-- migrations/002_orchestrator.sql.
pub mod Events
pub mod Laws
pub mod Follows
pub mod Rebuild
use openclaw_rs.Base.{
  ℕ, String, Bool, Option, none, some, List, [], ◌∷◌, ◌==◌, ◌&&◌, ◌||◌, match_str,
}
use openclaw_rs.Base.Int.{ℤ}
use openclaw_rs.Errors.{Result, ok, AppError, ◌>>=◌}
use openclaw_rs.Sql.{Fault, Outcome, submit, ignore, update_where, insert_new}
use openclaw_rs.Payload.{
  Uuid, Time, Serde, EventEnvelope, value_field, uuid_field, text_field, i32_field, reason_field,
}

-- The values that the CHECK of the column `state` allows.
pub data TaskStatus : Type 0 where
  scheduled active verifying passed failed cancelled skipped : TaskStatus

abbrev number : TaskStatus → ℕ
number scheduled = 0
number active = 1
number verifying = 2
number passed = 3
number failed = 4
number cancelled = 5
number skipped = 6

-- `state = '…'` in a WHERE.
unfoldable pub is : TaskStatus → TaskStatus → Bool
is a b = number a == number b

-- A row of `orch_tasks`, in the columns that the orchestrator reads or writes; `V` is the type of a
-- JSONB column.
pub record TaskRow (V : Type 0) : Type 0 where
  pub id : Uuid
  pub cycle_id : Uuid
  pub instance_id : Uuid
  pub task_key : String
  pub phase : String
  pub ordinal : ℤ
  pub state : TaskStatus
  pub active_run_id : Option Uuid
  pub current_attempt : ℕ
  pub title : String
  pub description : String
  pub acceptance : V
  pub max_retries : ℤ
  pub failure_reason : Option String
  pub cancel_reason : Option String
  pub skip_reason : Option String
  pub created_at : Time
  pub updated_at : Time

module _ (J : Serde) where
  open J use {Value}

  abbrev Statement : Type 0
  Statement = Result AppError (List (TaskRow Value) → List (TaskRow Value))

  unfoldable pub task_scheduled : EventEnvelope Value → Statement
  task_scheduled e = do
    task_id ← uuid_field J "task_id" "missing task_id" e.payload
    cycle_id ← uuid_field J "cycle_id" "missing cycle_id" e.payload
    task_key ← text_field J "task_key" "missing task_key" e.payload
    phase ← text_field J "phase" "missing phase" e.payload
    ordinal ← i32_field J "ordinal" "missing ordinal" e.payload
    title ← text_field J "title" "missing title" e.payload
    description ← text_field J "description" "missing description" e.payload
    acceptance ← value_field J "acceptance" "missing acceptance" e.payload
    max_retries ← i32_field J "max_retries" "missing max_retries" e.payload
    ok (
        insert_new (λ r. r.id)
          (record {
            id = task_id;
            cycle_id = cycle_id;
            instance_id = e.instance_id;
            task_key = task_key;
            phase = phase;
            ordinal = ordinal;
            state = scheduled;
            active_run_id = none;
            current_attempt = 0;
            title = title;
            description = description;
            acceptance = acceptance;
            max_retries = max_retries;
            failure_reason = none;
            cancel_reason = none;
            skip_reason = none;
            created_at = e.occurred_at;
            updated_at = e.occurred_at;
          }))

  unfoldable pub task_retry_scheduled : EventEnvelope Value → Statement
  unfolding is
  task_retry_scheduled e = do
    task_id ← uuid_field J "task_id" "missing task_id" e.payload
    ok (
        update_where (λ r. (r.id == task_id) && (is r.state active || is r.state verifying))
          (λ r. record r { state = scheduled; active_run_id = none; updated_at = e.occurred_at }))

  unfoldable pub task_passed : EventEnvelope Value → Statement
  unfolding is
  task_passed e = do
    task_id ← uuid_field J "task_id" "missing task_id" e.payload
    ok (
        update_where (λ r. (r.id == task_id) && is r.state verifying)
          (λ r. record r { state = passed; updated_at = e.occurred_at }))

  unfoldable pub task_failed : EventEnvelope Value → Statement
  unfolding is
  task_failed e = do
    task_id ← uuid_field J "task_id" "missing task_id" e.payload
    let reason = reason_field J "reason" e.payload
    ok (
        update_where (λ r. (r.id == task_id) && (is r.state active || is r.state verifying))
          (λ r. record r {
            state = failed;
            failure_reason = some reason;
            updated_at = e.occurred_at;
          }))

  unfoldable pub task_cancelled : EventEnvelope Value → Statement
  unfolding is
  task_cancelled e = do
    task_id ← uuid_field J "task_id" "missing task_id" e.payload
    let reason = reason_field J "reason" e.payload
    ok (
        update_where (λ r. (r.id == task_id) && (is r.state scheduled || is r.state active))
          (λ r. record r {
            state = cancelled;
            cancel_reason = some reason;
            updated_at = e.occurred_at;
          }))

  unfoldable pub task_skipped : EventEnvelope Value → Statement
  unfolding is
  task_skipped e = do
    task_id ← uuid_field J "task_id" "missing task_id" e.payload
    let reason = reason_field J "reason" e.payload
    ok (
        update_where (λ r. (r.id == task_id) && is r.state scheduled)
          (λ r. record r {
            state = skipped;
            skip_reason = some reason;
            updated_at = e.occurred_at;
          }))

  -- The arms of the `match` on the type of the event.
  unfoldable pub arms :
      EventEnvelope Value
      → List (String × (Fault → List (TaskRow Value) → Outcome (List (TaskRow Value))))
  arms e =
      ("TaskScheduled", submit (task_scheduled e))
      ∷ ("TaskRetryScheduled", submit (task_retry_scheduled e))
      ∷ ("TaskPassed", submit (task_passed e))
      ∷ ("TaskFailed", submit (task_failed e))
      ∷ ("TaskCancelled", submit (task_cancelled e))
      ∷ ("TaskSkipped", submit (task_skipped e))
      ∷ []

  -- `TaskProjector::handle`.
  unfoldable pub handle :
      EventEnvelope Value → Fault → List (TaskRow Value) → Outcome (List (TaskRow Value))
  unfolding arms match_str task_scheduled task_retry_scheduled task_passed task_failed
      task_cancelled task_skipped submit ignore
  handle e = match_str e.event_type (arms e) ignore
