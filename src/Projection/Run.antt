-- ===== src/Projection/Run.antt =====
-- The run projector, crates/openclaw-orchestrator/src/app/run_projector.rs, over the table `orch_runs` of
-- migrations/002_orchestrator.sql.
pub mod Events
pub mod Laws
pub mod Follows
use openclaw_rs.Base.{
  ℕ, String, Bool, Option, none, some, List, [], ◌∷◌, ◌==◌, ◌&&◌, ◌||◌, match_str,
}
use openclaw_rs.Base.Int.{ℤ, pos}
use openclaw_rs.Errors.{Result, ok, AppError, ◌>>=◌}
use openclaw_rs.Sql.{Fault, Outcome, submit, ignore, update_where, insert_new}
use openclaw_rs.Payload.{
  Uuid, Time, Serde, EventEnvelope, uuid_field, i32_field, str_field, reason_field, transpose,
}

-- The values that the CHECK of the column `state` allows.
pub data RunStatus : Type 0 where
  claimed running completed failed timed_out cancelled abandoned : RunStatus

abbrev number : RunStatus → ℕ
number claimed = 0
number running = 1
number completed = 2
number failed = 3
number timed_out = 4
number cancelled = 5
number abandoned = 6

-- `state = '…'` in a WHERE.
unfoldable pub is : RunStatus → RunStatus → Bool
is a b = number a == number b

-- A row of `orch_runs`, in the columns that the orchestrator reads or writes; `V` is the type of a
-- JSONB column.
pub record RunRow (V : Type 0) : Type 0 where
  pub id : Uuid
  pub task_id : Uuid
  pub instance_id : Uuid
  pub run_number : ℤ
  pub state : RunStatus
  pub worker_session_id : Uuid
  pub branch : Option String
  pub worktree_path : Option String
  pub prompt_sent : Option String
  pub output_json : Option V
  pub exit_code : Option ℤ
  pub cost_cents : ℤ
  pub failure_category : Option String
  pub cancel_reason : Option String
  pub abandon_reason : Option String
  pub lease_until : Option Time
  pub started_at : Time
  pub finished_at : Option Time

module _ (J : Serde) where
  open J use {Value}

  abbrev Statement : Type 0
  Statement = Result AppError (List (RunRow Value) → List (RunRow Value))

  -- `.unwrap_or(0)`
  abbrev int_or_zero : Option ℤ → ℤ
  int_or_zero none = pos 0
  int_or_zero (some n) = n

  unfoldable pub run_claimed : EventEnvelope Value → Statement
  run_claimed e = do
    run_id ← uuid_field J "run_id" "missing run_id" e.payload
    task_id ← uuid_field J "task_id" "missing task_id" e.payload
    run_number ← i32_field J "run_number" "missing run_number" e.payload
    worker_session_id ← uuid_field J "worker_session_id" "missing worker_session_id" e.payload
    let branch = str_field J "branch" e.payload
    let worktree_path = str_field J "worktree_path" e.payload
    let prompt_sent = str_field J "prompt_sent" e.payload
    lease_until ← transpose J.to_time (J.get e.payload "lease_until")
    ok (
        insert_new (λ r. r.id)
          (record {
            id = run_id;
            task_id = task_id;
            instance_id = e.instance_id;
            run_number = run_number;
            state = claimed;
            worker_session_id = worker_session_id;
            branch = branch;
            worktree_path = worktree_path;
            prompt_sent = prompt_sent;
            output_json = none;
            exit_code = none;
            cost_cents = pos 0;
            failure_category = none;
            cancel_reason = none;
            abandon_reason = none;
            lease_until = lease_until;
            started_at = e.occurred_at;
            finished_at = none;
          }))

  unfoldable pub run_started : EventEnvelope Value → Statement
  unfolding is
  run_started e = do
    run_id ← uuid_field J "run_id" "missing run_id" e.payload
    ok (
        update_where (λ r. (r.id == run_id) && is r.state claimed)
          (λ r. record r { state = running }))

  unfoldable pub run_completed : EventEnvelope Value → Statement
  unfolding is
  run_completed e = do
    run_id ← uuid_field J "run_id" "missing run_id" e.payload
    exit_code ← transpose J.to_i32 (J.get e.payload "exit_code")
    let output_json = J.get e.payload "output_json"
    cost ← transpose J.to_i64 (J.get e.payload "cost_cents")
    ok (
        update_where (λ r. (r.id == run_id) && is r.state running)
          (λ r. record r {
            state = completed;
            exit_code = exit_code;
            output_json = output_json;
            cost_cents = int_or_zero cost;
            finished_at = some e.occurred_at;
          }))

  unfoldable pub run_failed : EventEnvelope Value → Statement
  unfolding is
  run_failed e = do
    run_id ← uuid_field J "run_id" "missing run_id" e.payload
    let failure_category = reason_field J "failure_category" e.payload
    ok (
        update_where (λ r. (r.id == run_id) && (is r.state claimed || is r.state running))
          (λ r. record r {
            state = failed;
            failure_category = some failure_category;
            finished_at = some e.occurred_at;
          }))

  unfoldable pub run_timed_out : EventEnvelope Value → Statement
  unfolding is
  run_timed_out e = do
    run_id ← uuid_field J "run_id" "missing run_id" e.payload
    ok (
        update_where (λ r. (r.id == run_id) && is r.state running)
          (λ r. record r { state = timed_out; finished_at = some e.occurred_at }))

  unfoldable pub run_cancelled : EventEnvelope Value → Statement
  unfolding is
  run_cancelled e = do
    run_id ← uuid_field J "run_id" "missing run_id" e.payload
    let reason = reason_field J "reason" e.payload
    ok (
        update_where (λ r. (r.id == run_id) && (is r.state claimed || is r.state running))
          (λ r. record r {
            state = cancelled;
            cancel_reason = some reason;
            finished_at = some e.occurred_at;
          }))

  unfoldable pub run_abandoned : EventEnvelope Value → Statement
  unfolding is
  run_abandoned e = do
    run_id ← uuid_field J "run_id" "missing run_id" e.payload
    let reason = reason_field J "reason" e.payload
    ok (
        update_where (λ r. (r.id == run_id) && is r.state running)
          (λ r. record r {
            state = abandoned;
            abandon_reason = some reason;
            finished_at = some e.occurred_at;
          }))

  -- The arms of the `match` on the type of the event.
  unfoldable pub arms :
      EventEnvelope Value
      → List (String × (Fault → List (RunRow Value) → Outcome (List (RunRow Value))))
  arms e =
      ("RunClaimed", submit (run_claimed e))
      ∷ ("RunStarted", submit (run_started e))
      ∷ ("RunCompleted", submit (run_completed e))
      ∷ ("RunFailed", submit (run_failed e))
      ∷ ("RunTimedOut", submit (run_timed_out e))
      ∷ ("RunCancelled", submit (run_cancelled e))
      ∷ ("RunAbandoned", submit (run_abandoned e))
      ∷ []

  -- `RunProjector::handle`.
  unfoldable pub handle :
      EventEnvelope Value → Fault → List (RunRow Value) → Outcome (List (RunRow Value))
  unfolding arms match_str run_claimed run_started run_completed run_failed run_timed_out
      run_cancelled run_abandoned submit ignore
  handle e = match_str e.event_type (arms e) ignore
