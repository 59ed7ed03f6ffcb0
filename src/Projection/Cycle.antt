-- ===== src/Projection/Cycle.antt =====
-- The cycle projector, crates/openclaw-orchestrator/src/app/cycle_projector.rs, over the table `orch_cycles` of
-- migrations/002_orchestrator.sql.
pub mod Events
pub mod Laws
pub mod Follows
use openclaw_rs.Base.{
  ℕ, String, Bool, Option, none, some, List, [], ◌∷◌, ◌==◌, ◌&&◌, ◌||◌, match_str,
}
use openclaw_rs.Errors.{Result, ok, AppError, ◌>>=◌}
use openclaw_rs.Sql.{Fault, Outcome, submit, ignore, update_where, insert_new}
use openclaw_rs.Payload.{
  Uuid, Time, Serde, EventEnvelope, value_field, uuid_field, text_field, reason_field,
}

-- The values that the CHECK of the column `state` allows.
pub data CycleStatus : Type 0 where
  created planning plan_ready approved running blocked completing completed failed cancelled :
      CycleStatus

abbrev number : CycleStatus → ℕ
number created = 0
number planning = 1
number plan_ready = 2
number approved = 3
number running = 4
number blocked = 5
number completing = 6
number completed = 7
number failed = 8
number cancelled = 9

-- `state = '…'` in a WHERE.
unfoldable pub is : CycleStatus → CycleStatus → Bool
is a b = number a == number b

-- A row of `orch_cycles`, in the columns that the orchestrator reads or writes; `V` is the type of a
-- JSONB column.
pub record CycleRow (V : Type 0) : Type 0 where
  pub id : Uuid
  pub instance_id : Uuid
  pub state : CycleStatus
  pub prompt : String
  pub plan : Option V
  pub block_reason : Option String
  pub failure_reason : Option String
  pub cancel_reason : Option String
  pub created_at : Time
  pub updated_at : Time

module _ (J : Serde) where
  open J use {Value}

  abbrev Statement : Type 0
  Statement = Result AppError (List (CycleRow Value) → List (CycleRow Value))

  unfoldable pub cycle_created : EventEnvelope Value → Statement
  cycle_created e = do
    cycle_id ← uuid_field J "cycle_id" "missing cycle_id" e.payload
    prompt ← text_field J "prompt" "missing prompt" e.payload
    ok (
        insert_new (λ r. r.id)
          (record {
            id = cycle_id;
            instance_id = e.instance_id;
            state = created;
            prompt = prompt;
            plan = none;
            block_reason = none;
            failure_reason = none;
            cancel_reason = none;
            created_at = e.occurred_at;
            updated_at = e.occurred_at;
          }))

  unfoldable pub plan_requested : EventEnvelope Value → Statement
  unfolding is
  plan_requested e = do
    cycle_id ← uuid_field J "cycle_id" "missing cycle_id" e.payload
    ok (
        update_where (λ r. (r.id == cycle_id) && is r.state created)
          (λ r. record r { state = planning; updated_at = e.occurred_at }))

  unfoldable pub plan_generated : EventEnvelope Value → Statement
  unfolding is
  plan_generated e = do
    cycle_id ← uuid_field J "cycle_id" "missing cycle_id" e.payload
    plan ← value_field J "plan" "missing plan" e.payload
    ok (
        update_where (λ r. (r.id == cycle_id) && is r.state planning)
          (λ r. record r { state = plan_ready; plan = some plan; updated_at = e.occurred_at }))

  unfoldable pub plan_approved : EventEnvelope Value → Statement
  unfolding is
  plan_approved e = do
    cycle_id ← uuid_field J "cycle_id" "missing cycle_id" e.payload
    ok (
        update_where (λ r. (r.id == cycle_id) && is r.state plan_ready)
          (λ r. record r { state = approved; updated_at = e.occurred_at }))

  unfoldable pub plan_generation_failed : EventEnvelope Value → Statement
  unfolding is
  plan_generation_failed e = do
    cycle_id ← uuid_field J "cycle_id" "missing cycle_id" e.payload
    let reason = reason_field J "reason" e.payload
    ok (
        update_where (λ r. (r.id == cycle_id) && is r.state planning)
          (λ r. record r {
            state = failed;
            failure_reason = some reason;
            updated_at = e.occurred_at;
          }))

  unfoldable pub cycle_running_started : EventEnvelope Value → Statement
  unfolding is
  cycle_running_started e = do
    cycle_id ← uuid_field J "cycle_id" "missing cycle_id" e.payload
    ok (
        update_where (λ r. (r.id == cycle_id) && is r.state approved)
          (λ r. record r { state = running; updated_at = e.occurred_at }))

  unfoldable pub cycle_completing : EventEnvelope Value → Statement
  unfolding is
  cycle_completing e = do
    cycle_id ← uuid_field J "cycle_id" "missing cycle_id" e.payload
    ok (
        update_where (λ r. (r.id == cycle_id) && is r.state running)
          (λ r. record r { state = completing; updated_at = e.occurred_at }))

  unfoldable pub cycle_blocked : EventEnvelope Value → Statement
  unfolding is
  cycle_blocked e = do
    cycle_id ← uuid_field J "cycle_id" "missing cycle_id" e.payload
    let reason = reason_field J "reason" e.payload
    ok (
        update_where (λ r. (r.id == cycle_id) && is r.state running)
          (λ r. record r {
            state = blocked;
            block_reason = some reason;
            updated_at = e.occurred_at;
          }))

  unfoldable pub cycle_unblocked : EventEnvelope Value → Statement
  unfolding is
  cycle_unblocked e = do
    cycle_id ← uuid_field J "cycle_id" "missing cycle_id" e.payload
    ok (
        update_where (λ r. (r.id == cycle_id) && is r.state blocked)
          (λ r. record r { state = running; block_reason = none; updated_at = e.occurred_at }))

  unfoldable pub cycle_completed : EventEnvelope Value → Statement
  unfolding is
  cycle_completed e = do
    cycle_id ← uuid_field J "cycle_id" "missing cycle_id" e.payload
    ok (
        update_where (λ r. (r.id == cycle_id) && is r.state completing)
          (λ r. record r { state = completed; updated_at = e.occurred_at }))

  unfoldable pub cycle_failed : EventEnvelope Value → Statement
  unfolding is
  cycle_failed e = do
    cycle_id ← uuid_field J "cycle_id" "missing cycle_id" e.payload
    let reason = reason_field J "reason" e.payload
    ok (
        update_where (λ r. (r.id == cycle_id) && (is r.state running || is r.state completing))
          (λ r. record r {
            state = failed;
            failure_reason = some reason;
            updated_at = e.occurred_at;
          }))

  unfoldable pub cycle_cancelled : EventEnvelope Value → Statement
  unfolding is
  cycle_cancelled e = do
    cycle_id ← uuid_field J "cycle_id" "missing cycle_id" e.payload
    let reason = reason_field J "reason" e.payload
    ok (
        update_where (λ r. (r.id == cycle_id) && (is r.state plan_ready || is r.state running))
          (λ r. record r {
            state = cancelled;
            cancel_reason = some reason;
            updated_at = e.occurred_at;
          }))

  -- The arms of the `match` on the type of the event.
  unfoldable pub arms :
      EventEnvelope Value
      → List (String × (Fault → List (CycleRow Value) → Outcome (List (CycleRow Value))))
  arms e =
      ("CycleCreated", submit (cycle_created e))
      ∷ ("PlanRequested", submit (plan_requested e))
      ∷ ("PlanGenerated", submit (plan_generated e))
      ∷ ("PlanApproved", submit (plan_approved e))
      ∷ ("PlanGenerationFailed", submit (plan_generation_failed e))
      ∷ ("CycleRunningStarted", submit (cycle_running_started e))
      ∷ ("CycleCompleting", submit (cycle_completing e))
      ∷ ("CycleBlocked", submit (cycle_blocked e))
      ∷ ("CycleUnblocked", submit (cycle_unblocked e))
      ∷ ("CycleCompleted", submit (cycle_completed e))
      ∷ ("CycleFailed", submit (cycle_failed e))
      ∷ ("CycleCancelled", submit (cycle_cancelled e))
      ∷ []

  -- `CycleProjector::handle`.
  unfoldable pub handle :
      EventEnvelope Value → Fault → List (CycleRow Value) → Outcome (List (CycleRow Value))
  unfolding arms match_str cycle_created plan_requested plan_generated plan_approved
      plan_generation_failed cycle_running_started cycle_completing cycle_blocked cycle_unblocked
      cycle_completed cycle_failed cycle_cancelled submit ignore
  handle e = match_str e.event_type (arms e) ignore
