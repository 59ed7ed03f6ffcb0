-- ===== src/Projection/Budget.antt =====
-- The budget projector, crates/openclaw-orchestrator/src/app/budget_projector.rs, over the ledger
-- `orch_budget_ledger` of migrations/002_orchestrator.sql.
pub mod Ledger
pub mod Laws
pub mod Balance
use openclaw_rs.Base.{String, Option, none, some, List, [], ◌∷◌, match_str}
use openclaw_rs.Base.Int.{ℤ, pos}
use openclaw_rs.Errors.{Result, ok, err, AppError, ◌>>=◌}
use openclaw_rs.Sql.{Fault, Outcome, ignore}
use openclaw_rs.Payload.{Uuid, Serde, EventEnvelope, uuid_field, i64_field}
use openclaw_rs.Projection.Budget.Ledger.{Draft, LedgerRow, insert_ledger}

-- The values of a statement are read first; the first that is missing or of the wrong type is the
-- handler's error, and nothing is sent.
unfoldable pub submit_draft :
    String → Result AppError Draft → Fault → List LedgerRow → Outcome (List LedgerRow)
unfolding insert_ledger
submit_draft overflow (ok draft) = insert_ledger overflow draft
submit_draft overflow (err e) = λ fault rows. (rows, err e)

module _ (J : Serde) where
  open J use {Value}

  -- What every entry takes from the event.
  unfoldable pub entry : EventEnvelope Value → (cycle_id run_id : Option Uuid) → ℤ → Draft
  entry e cycle_id run_id amount_cents = record {
    id = e.event_id;
    instance_id = e.instance_id;
    cycle_id = cycle_id;
    run_id = run_id;
    event_type = e.event_type;
    amount_cents = amount_cents;
    created_at = e.occurred_at;
  }

  unfoldable pub plan_budget_reserved : EventEnvelope Value → Result AppError Draft
  unfolding entry
  plan_budget_reserved e = do
    cycle_id ← uuid_field J "cycle_id" "missing cycle_id" e.payload
    amount_cents ← i64_field J "amount_cents" "missing amount_cents" e.payload
    ok (entry e (some cycle_id) none amount_cents)

  unfoldable pub run_budget_reserved : EventEnvelope Value → Result AppError Draft
  unfolding entry
  run_budget_reserved e = do
    cycle_id ← uuid_field J "cycle_id" "missing cycle_id" e.payload
    run_id ← uuid_field J "run_id" "missing run_id" e.payload
    amount_cents ← i64_field J "amount_cents" "missing amount_cents" e.payload
    ok (entry e (some cycle_id) (some run_id) amount_cents)

  unfoldable pub run_cost_observed : EventEnvelope Value → Result AppError Draft
  unfolding entry
  run_cost_observed e = do
    cycle_id ← uuid_field J "cycle_id" "missing cycle_id" e.payload
    run_id ← uuid_field J "run_id" "missing run_id" e.payload
    amount_cents ← i64_field J "amount_cents" "missing amount_cents" e.payload
    ok (entry e (some cycle_id) (some run_id) amount_cents)

  unfoldable pub run_budget_settled : EventEnvelope Value → Result AppError Draft
  unfolding entry
  run_budget_settled e = do
    cycle_id ← uuid_field J "cycle_id" "missing cycle_id" e.payload
    run_id ← uuid_field J "run_id" "missing run_id" e.payload
    amount_cents ← i64_field J "amount_cents" "missing amount_cents" e.payload
    ok (entry e (some cycle_id) (some run_id) amount_cents)

  unfoldable pub cycle_budget_settled : EventEnvelope Value → Result AppError Draft
  unfolding entry
  cycle_budget_settled e = do
    cycle_id ← uuid_field J "cycle_id" "missing cycle_id" e.payload
    amount_cents ← i64_field J "amount_cents" "missing amount_cents" e.payload
    ok (entry e (some cycle_id) none amount_cents)

  unfoldable pub global_budget_cap_hit : EventEnvelope Value → Result AppError Draft
  unfolding entry
  global_budget_cap_hit e = ok (entry e none none (pos 0))

  -- The arms of the `match` on the type of the event. `overflow` is the database's message for a
  -- sum that `bigint` cannot hold.
  unfoldable pub arms :
      String
      → EventEnvelope Value
      → List (String × (Fault → List LedgerRow → Outcome (List LedgerRow)))
  arms overflow e =
      ("PlanBudgetReserved", submit_draft overflow (plan_budget_reserved e))
      ∷ ("RunBudgetReserved", submit_draft overflow (run_budget_reserved e))
      ∷ ("RunCostObserved", submit_draft overflow (run_cost_observed e))
      ∷ ("RunBudgetSettled", submit_draft overflow (run_budget_settled e))
      ∷ ("CycleBudgetSettled", submit_draft overflow (cycle_budget_settled e))
      ∷ ("GlobalBudgetCapHit", submit_draft overflow (global_budget_cap_hit e))
      ∷ []

  -- `BudgetProjector::handle`.
  unfoldable pub handle :
      String → EventEnvelope Value → Fault → List LedgerRow → Outcome (List LedgerRow)
  unfolding arms match_str submit_draft ignore plan_budget_reserved run_budget_reserved
      run_cost_observed run_budget_settled cycle_budget_settled global_budget_cap_hit
  handle overflow e = match_str e.event_type (arms overflow e) ignore
