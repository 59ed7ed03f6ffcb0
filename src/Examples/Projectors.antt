-- ===== src/Examples/Projectors.antt =====
-- The projectors at concrete events and rows.
use openclaw_rs.Base.{String, ◌≡◌, refl, none, some, List, [], ◌∷◌, get_elem?, match_str}
use openclaw_rs.Base.Int.{pos}
use openclaw_rs.Errors.{◌>>=◌}
use openclaw_rs.Sql.{Fault}
use openclaw_rs.Sql.Rows.{Evolves}
use openclaw_rs.Sql.Handlers.{deliver}
use openclaw_rs.Payload.{
  EventEnvelope, from_serde, or_missing, transpose, value_field, uuid_field, str_field,
  reason_field,
}
use openclaw_rs.States.Instance
use openclaw_rs.States.Instance.{InstanceState}
use openclaw_rs.Projection.Instance as InstanceProjector
use openclaw_rs.Projection.Instance.{InstanceStatus, InstanceRow}
use openclaw_rs.Projection.Instance.Events.{Kind as InstanceEvent}
use openclaw_rs.Projection.Instance.Laws as InstanceLaws
use openclaw_rs.Projection.Instance.Laws.{instance_handle-Evolves}
use openclaw_rs.Projection.Instance.Follows.{instance_handle-follows}
use openclaw_rs.States.Cycle
use openclaw_rs.States.Cycle.{CycleState}
use openclaw_rs.Projection.Cycle as CycleProjector
use openclaw_rs.Projection.Cycle.{CycleStatus, CycleRow}
use openclaw_rs.Projection.Cycle.Events.{Kind as CycleEvent}
use openclaw_rs.Projection.Cycle.Laws as CycleLaws
use openclaw_rs.Projection.Cycle.Laws.{cycle_handle-Evolves}
use openclaw_rs.Projection.Cycle.Follows.{cycle_handle-follows}
use openclaw_rs.States.Task
use openclaw_rs.States.Task.{TaskState}
use openclaw_rs.Projection.Task as TaskProjector
use openclaw_rs.Projection.Task.{TaskStatus, TaskRow}
use openclaw_rs.Projection.Task.Events.{Kind as TaskEvent}
use openclaw_rs.Projection.Task.Laws as TaskLaws
use openclaw_rs.Projection.Task.Laws.{task_handle-Evolves}
use openclaw_rs.Projection.Task.Follows.{task_handle-follows}
use openclaw_rs.States.Run
use openclaw_rs.States.Run.{RunState, FailureCategory}
use openclaw_rs.Projection.Run as RunProjector
use openclaw_rs.Projection.Run.{RunStatus, RunRow}
use openclaw_rs.Projection.Run.Events.{Kind as RunEvent}
use openclaw_rs.Projection.Run.Laws as RunLaws
use openclaw_rs.Projection.Run.Laws.{run_handle-Evolves}
use openclaw_rs.Projection.Run.Follows.{run_handle-follows}
use openclaw_rs.Projection.Together.{handle_idem, terminal-frozen}
use openclaw_rs.Examples.Fixtures.{
  Json, leaf, text, int, uuid, get_json, json, labels, event, an_instance, a_cycle, a_task, a_run,
}

abbrev category : String → FailureCategory
category s = FailureCategory.permanent

abbrev instance_event : EventEnvelope Json
instance_event = event 5 "InstanceBlocked" (("reason", text "cost") ∷ [])

abbrev instance_rows : List (InstanceRow Json)
instance_rows = an_instance InstanceStatus.active ∷ []

instance_handle-Evolves_example :
    Evolves
      (InstanceLaws.Step labels)
      (InstanceLaws.Born labels)
      instance_rows
      (InstanceProjector.handle json instance_event none instance_rows).0
instance_handle-Evolves_example =
    instance_handle-Evolves json labels instance_event none instance_rows

instance_handle-follows_example :
    (r' : InstanceRow Json) × (get_elem?
        (InstanceProjector.handle json instance_event none instance_rows).0
        0
      ≡ some r')
    × (InstanceLaws.abstract r' ≡ InstanceState.blocked "cost")
unfolding uuid_field value_field or_missing from_serde transpose str_field reason_field get_json
    match_str ◌>>=◌ Instance.transition
instance_handle-follows_example =
    instance_handle-follows json labels instance_event instance_rows 0
      (an_instance InstanceStatus.active) refl refl InstanceEvent.instance_blocked refl

abbrev cycle_event : EventEnvelope Json
cycle_event = event 5 "PlanGenerated" (("cycle_id", uuid 7) ∷ ("plan", text "p") ∷ [])

abbrev cycle_rows : List (CycleRow Json)
cycle_rows = a_cycle CycleStatus.planning ∷ []

cycle_handle-Evolves_example :
    Evolves
      (CycleLaws.Step labels)
      (CycleLaws.Born labels)
      cycle_rows
      (CycleProjector.handle json cycle_event none cycle_rows).0
cycle_handle-Evolves_example = cycle_handle-Evolves json labels cycle_event none cycle_rows

cycle_handle-follows_example :
    (r' : CycleRow Json) × (get_elem? (CycleProjector.handle json cycle_event none cycle_rows).0 0
      ≡ some r')
    × (CycleLaws.abstract r' ≡ CycleState.plan_ready)
unfolding uuid_field value_field or_missing from_serde transpose str_field reason_field get_json
    match_str ◌>>=◌ Cycle.transition
cycle_handle-follows_example =
    cycle_handle-follows json labels cycle_event cycle_rows 0 (a_cycle CycleStatus.planning) refl
      refl CycleEvent.plan_generated refl (leaf (text "p"), refl)

abbrev task_event : EventEnvelope Json
task_event = event 5 "TaskFailed" (("task_id", uuid 8) ∷ ("reason", text "tests") ∷ [])

abbrev task_rows : List (TaskRow Json)
task_rows = a_task TaskStatus.verifying ∷ []

task_handle-Evolves_example :
    Evolves
      (TaskLaws.Step labels)
      (TaskLaws.Born labels)
      task_rows
      (TaskProjector.handle json task_event none task_rows).0
task_handle-Evolves_example = task_handle-Evolves json labels task_event none task_rows

task_handle-follows_example :
    (r' : TaskRow Json) × (get_elem? (TaskProjector.handle json task_event none task_rows).0 0
      ≡ some r')
    × (TaskLaws.abstract r' ≡ TaskState.failed "tests" 1)
unfolding uuid_field value_field or_missing from_serde transpose str_field reason_field get_json
    match_str ◌>>=◌ Task.transition
task_handle-follows_example =
    task_handle-follows json labels task_event task_rows 0 (a_task TaskStatus.verifying) refl refl
      TaskEvent.task_failed refl

abbrev run_event : EventEnvelope Json
run_event = event 5 "RunCompleted" (("run_id", uuid 9) ∷ ("exit_code", int (pos 3)) ∷ [])

abbrev run_rows : List (RunRow Json)
run_rows = a_run RunStatus.running ∷ []

run_handle-Evolves_example :
    Evolves
      (RunLaws.Step labels category)
      (RunLaws.Born labels category)
      run_rows
      (RunProjector.handle json run_event none run_rows).0
run_handle-Evolves_example = run_handle-Evolves json labels category run_event none run_rows

run_handle-follows_example :
    (r' : RunRow Json) × (get_elem? (RunProjector.handle json run_event none run_rows).0 0
      ≡ some r')
    × (RunLaws.abstract category r' ≡ RunState.completed (pos 3))
unfolding uuid_field value_field or_missing from_serde transpose str_field reason_field get_json
    match_str ◌>>=◌ Run.transition
run_handle-follows_example =
    run_handle-follows json labels category run_event run_rows 0 (a_run RunStatus.running) refl refl
      RunEvent.run_completed refl (some (pos 3), none, refl, refl)

abbrev twice : List (EventEnvelope Json × Fault)
twice = (cycle_event, none) ∷ (run_event, some "lost") ∷ (run_event, none) ∷ []

handle_idem_example :
    ((InstanceProjector.handle json task_event none
        (InstanceProjector.handle json task_event none instance_rows).0).0
      ≡ (InstanceProjector.handle json task_event none instance_rows).0)
    × ((CycleProjector.handle json task_event none
          (CycleProjector.handle json task_event none cycle_rows).0).0
        ≡ (CycleProjector.handle json task_event none cycle_rows).0)
    × ((TaskProjector.handle json task_event none
          (TaskProjector.handle json task_event none task_rows).0).0
        ≡ (TaskProjector.handle json task_event none task_rows).0)
    × ((RunProjector.handle json task_event none
          (RunProjector.handle json task_event none run_rows).0).0
        ≡ (RunProjector.handle json task_event none run_rows).0)
handle_idem_example =
    handle_idem json labels labels labels labels category task_event instance_rows cycle_rows
      task_rows run_rows

terminal-frozen_example :
    (get_elem?
        (deliver
          (InstanceProjector.handle json)
          twice
          (an_instance InstanceStatus.provisioning_failed ∷ []))
        0
      ≡ some (an_instance InstanceStatus.provisioning_failed))
    × (get_elem? (deliver (CycleProjector.handle json) twice (a_cycle CycleStatus.completed ∷ [])) 0
        ≡ some (a_cycle CycleStatus.completed))
    × (get_elem? (deliver (TaskProjector.handle json) twice (a_task TaskStatus.passed ∷ [])) 0
        ≡ some (a_task TaskStatus.passed))
    × (get_elem? (deliver (RunProjector.handle json) twice (a_run RunStatus.timed_out ∷ [])) 0
        ≡ some (a_run RunStatus.timed_out))
unfolding Instance.is_terminal Cycle.is_terminal Task.is_terminal Run.is_terminal
terminal-frozen_example =
    terminal-frozen json labels labels labels labels category twice
      (an_instance InstanceStatus.provisioning_failed ∷ []) (a_cycle CycleStatus.completed ∷ [])
      (a_task TaskStatus.passed ∷ []) (a_run RunStatus.timed_out ∷ []) 0 0 0 0
      (an_instance InstanceStatus.provisioning_failed) (a_cycle CycleStatus.completed)
      (a_task TaskStatus.passed) (a_run RunStatus.timed_out) refl refl refl refl refl refl refl refl
