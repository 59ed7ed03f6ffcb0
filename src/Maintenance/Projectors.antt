-- ===== src/Maintenance/Projectors.antt =====
-- The five projectors of app/*_projector.rs with the types that their `handles` lists, as the rebuild of
-- app/maintenance_service.rs takes them.
use openclaw_rs.Base.{String, List, [], ◌∷◌}
use openclaw_rs.Sql.{Fault, Outcome}
use openclaw_rs.Payload.{Serde, EventEnvelope}
use openclaw_rs.Projection.Instance as InstanceTable
use openclaw_rs.Projection.Cycle as CycleTable
use openclaw_rs.Projection.Task as TaskTable
use openclaw_rs.Projection.Run as RunTable
use openclaw_rs.Projection.Budget as BudgetTable
use openclaw_rs.Maintenance.{Tables, Projector}

-- A handler of one table, as a handler of all.
abbrev pub on_table :
    {V R : Type 0}
    → (Tables V → List R)
    → (List R → Tables V → Tables V)
    → (EventEnvelope V → Fault → List R → Outcome (List R))
    → EventEnvelope V
    → Fault
    → Tables V
    → Outcome (Tables V)
on_table get set handle e fault db =
    (set (handle e fault (get db)).0 db, (handle e fault (get db)).1)

module _ (J : Serde) (overflow : String) where
  open J use {Value}

  -- The projectors of the orchestrator, with the types that their `handles` lists.
  abbrev pub instance_projector : Projector Value
  instance_projector = record {
    handles =
        "InstanceCreated" ∷ "InstanceProvisioned" ∷ "InstanceProvisioningFailed" ∷ "InstanceBlocked"
        ∷ "InstanceUnblocked" ∷ "InstanceSuspended" ∷ "InstanceResumed" ∷ [];
    handle =
        on_table (λ db. db.instances) (λ rows db. record db { instances = rows })
          (InstanceTable.handle J);
  }

  abbrev pub cycle_projector : Projector Value
  cycle_projector = record {
    handles =
        "CycleCreated" ∷ "PlanRequested" ∷ "PlanGenerated" ∷ "PlanApproved" ∷ "PlanGenerationFailed"
        ∷ "CycleRunningStarted" ∷ "CycleCompleting" ∷ "CycleBlocked" ∷ "CycleUnblocked"
        ∷ "CycleCompleted" ∷ "CycleFailed" ∷ "CycleCancelled" ∷ [];
    handle =
        on_table (λ db. db.cycles) (λ rows db. record db { cycles = rows }) (CycleTable.handle J);
  }

  abbrev pub task_projector : Projector Value
  task_projector = record {
    handles =
        "TaskScheduled" ∷ "TaskRetryScheduled" ∷ "TaskPassed" ∷ "TaskFailed" ∷ "TaskCancelled"
        ∷ "TaskSkipped" ∷ [];
    handle = on_table (λ db. db.tasks) (λ rows db. record db { tasks = rows }) (TaskTable.handle J);
  }

  abbrev pub run_projector_of : Projector Value
  run_projector_of = record {
    handles =
        "RunClaimed" ∷ "RunStarted" ∷ "RunCompleted" ∷ "RunFailed" ∷ "RunTimedOut" ∷ "RunCancelled"
        ∷ "RunAbandoned" ∷ [];
    handle = on_table (λ db. db.runs) (λ rows db. record db { runs = rows }) (RunTable.handle J);
  }

  abbrev pub budget_projector : Projector Value
  budget_projector = record {
    handles =
        "PlanBudgetReserved" ∷ "RunBudgetReserved" ∷ "RunCostObserved" ∷ "RunBudgetSettled"
        ∷ "CycleBudgetSettled" ∷ "GlobalBudgetCapHit" ∷ [];
    handle =
        on_table (λ db. db.ledger) (λ rows db. record db { ledger = rows })
          (BudgetTable.handle J overflow);
  }

  abbrev pub projectors : List (Projector Value)
  projectors =
      instance_projector ∷ cycle_projector ∷ task_projector ∷ run_projector_of ∷ budget_projector
      ∷ []
