-- ===== src/Projection/Together.antt =====
-- The four projectors of the state machines side by side: app/{instance,cycle,task,run}_projector.rs of
-- crates/openclaw-orchestrator/src.
use openclaw_rs.Base.{ℕ, String, ◌≡◌, true, none, some, List, get_elem?}
use openclaw_rs.Sql.{Fault}
use openclaw_rs.Sql.Handlers.{deliver}
use openclaw_rs.Payload.{Serde, EventEnvelope}
use openclaw_rs.States.Debug.{Debug}
use openclaw_rs.States.Instance.{InstanceState, InstanceTrigger}
use openclaw_rs.States.Instance
use openclaw_rs.States.Cycle.{CycleState, CycleTrigger}
use openclaw_rs.States.Cycle
use openclaw_rs.States.Task.{TaskState, TaskTrigger}
use openclaw_rs.States.Task
use openclaw_rs.States.Run.{RunState, RunTrigger, FailureCategory}
use openclaw_rs.States.Run
use openclaw_rs.Projection.Instance as InstanceTable
use openclaw_rs.Projection.Instance.{InstanceRow}
use openclaw_rs.Projection.Instance.Laws as InstanceLaws
use openclaw_rs.Projection.Instance.Laws.{instance_handle_idem, instance_terminal-frozen}
use openclaw_rs.Projection.Cycle as CycleTable
use openclaw_rs.Projection.Cycle.{CycleRow}
use openclaw_rs.Projection.Cycle.Laws as CycleLaws
use openclaw_rs.Projection.Cycle.Laws.{cycle_handle_idem, cycle_terminal-frozen}
use openclaw_rs.Projection.Task as TaskTable
use openclaw_rs.Projection.Task.{TaskRow}
use openclaw_rs.Projection.Task.Laws as TaskLaws
use openclaw_rs.Projection.Task.Laws.{task_handle_idem, task_terminal-frozen}
use openclaw_rs.Projection.Run as RunTable
use openclaw_rs.Projection.Run.{RunRow}
use openclaw_rs.Projection.Run.Laws as RunLaws
use openclaw_rs.Projection.Run.Laws.{run_handle_idem, run_terminal-frozen}

module _ (J : Serde) (di : Debug InstanceState InstanceTrigger) (dc : Debug CycleState CycleTrigger)
    (dt : Debug TaskState TaskTrigger) (dr : Debug RunState RunTrigger)
    (category : String → FailureCategory) where
  -- An event that is delivered again at once to the instance, cycle, task or run projector changes
  -- nothing in its table, if the database refuses neither delivery.
  pub handle_idem :
      (e : EventEnvelope (Serde.Value J)) (instances : List (InstanceRow (Serde.Value J)))
      (cycles : List (CycleRow (Serde.Value J))) (tasks : List (TaskRow (Serde.Value J)))
      (runs : List (RunRow (Serde.Value J)))
      → ((InstanceTable.handle J e none (InstanceTable.handle J e none instances).0).0
          ≡ (InstanceTable.handle J e none instances).0)
        × ((CycleTable.handle J e none (CycleTable.handle J e none cycles).0).0
            ≡ (CycleTable.handle J e none cycles).0)
        × ((TaskTable.handle J e none (TaskTable.handle J e none tasks).0).0
            ≡ (TaskTable.handle J e none tasks).0)
        × ((RunTable.handle J e none (RunTable.handle J e none runs).0).0
            ≡ (RunTable.handle J e none runs).0)
  handle_idem e instances cycles tasks runs = (
    instance_handle_idem J di e instances,
    cycle_handle_idem J dc e cycles,
    task_handle_idem J dt e tasks,
    run_handle_idem J dr category e runs,
  )

  -- The row of an instance, a cycle, a task or a run in a terminal state stays in its place, in every
  -- column, through any sequence of events that are delivered to its projector, over a database that
  -- may refuse any of them.
  pub terminal-frozen :
      (es : List (EventEnvelope (Serde.Value J) × Fault))
      (instances : List (InstanceRow (Serde.Value J))) (cycles : List (CycleRow (Serde.Value J)))
      (tasks : List (TaskRow (Serde.Value J))) (runs : List (RunRow (Serde.Value J))) (i j k l : ℕ)
      (a : InstanceRow (Serde.Value J)) (b : CycleRow (Serde.Value J)) (c : TaskRow (Serde.Value J))
      (d : RunRow (Serde.Value J))
      → get_elem? instances i ≡ some a
      → Instance.is_terminal (InstanceLaws.abstract a) ≡ true
      → get_elem? cycles j ≡ some b
      → Cycle.is_terminal (CycleLaws.abstract b) ≡ true
      → get_elem? tasks k ≡ some c
      → Task.is_terminal (TaskLaws.abstract c) ≡ true
      → get_elem? runs l ≡ some d
      → Run.is_terminal (RunLaws.abstract category d) ≡ true
      → (get_elem? (deliver (InstanceTable.handle J) es instances) i ≡ some a)
        × (get_elem? (deliver (CycleTable.handle J) es cycles) j ≡ some b)
        × (get_elem? (deliver (TaskTable.handle J) es tasks) k ≡ some c)
        × (get_elem? (deliver (RunTable.handle J) es runs) l ≡ some d)
  terminal-frozen es instances cycles tasks runs i j k l a b c d ha ta hb tb hc tc hd td = (
    instance_terminal-frozen J di es instances i a ha ta,
    cycle_terminal-frozen J dc es cycles j b hb tb,
    task_terminal-frozen J dt es tasks k c hc tc,
    run_terminal-frozen J dr category es runs l d hd td,
  )
