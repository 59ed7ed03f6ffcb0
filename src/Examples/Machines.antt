-- ===== src/Examples/Machines.antt =====
-- The state machines at concrete triggers.
use openclaw_rs.Base.{◌≡◌, refl, ◌+◌, true, List, [], ◌∷◌, ◌++◌, ◌↔◌}
use openclaw_rs.Errors.{ok, ◌>>=◌}
use openclaw_rs.States.Instance
use openclaw_rs.States.Instance.{InstanceState}
use openclaw_rs.States.Cycle
use openclaw_rs.States.Cycle.{CycleState, CycleTrigger}
use openclaw_rs.States.Task
use openclaw_rs.States.Task.{TaskState, TaskTrigger}
use openclaw_rs.States.Run
use openclaw_rs.States.Run.{RunState}
use openclaw_rs.States.Merge
use openclaw_rs.States.Merge.{MergeState, MergeTrigger}
use openclaw_rs.States.Laws.Terminal.{Stuck, terminal_iff_Stuck}
use openclaw_rs.States.Laws.Histories.{
  drive, sum_of, is_claim, is_retry, is_attempt, is_setback, claims-retries, attempts-setbacks,
}
use openclaw_rs.States.Laws.Completion.{Pauses, opening, closing, completed_iff}
use openclaw_rs.Examples.Fixtures.{labels}

terminal_iff_Stuck_example :
    ((Instance.is_terminal InstanceState.suspended ≡ true)
      ↔ Stuck (Instance.transition labels) InstanceState.suspended)
    × ((Cycle.is_terminal CycleState.completed ≡ true)
        ↔ Stuck (Cycle.transition labels) CycleState.completed)
    × ((Task.is_terminal (TaskState.passed 9) ≡ true)
        ↔ Stuck (Task.transition labels) (TaskState.passed 9))
    × ((Run.is_terminal RunState.running ≡ true) ↔ Stuck (Run.transition labels) RunState.running)
    × ((Merge.is_terminal (MergeState.conflicted 1) ≡ true)
        ↔ Stuck (Merge.transition labels) (MergeState.conflicted 1))
terminal_iff_Stuck_example =
    terminal_iff_Stuck labels labels labels labels labels InstanceState.suspended
      CycleState.completed (TaskState.passed 9) RunState.running (MergeState.conflicted 1)

-- A run that fails and is retried, and a second that passes.
abbrev retried : List TaskTrigger
retried =
    TaskTrigger.claim 9 1
    ∷ TaskTrigger.retry_scheduled
    ∷ TaskTrigger.claim 10 2
    ∷ TaskTrigger.run_completed 10
    ∷ TaskTrigger.pass 10
    ∷ []

claims-retries_example : sum_of is_claim retried ≡ sum_of is_retry retried + 1
unfolding drive ◌>>=◌ Task.transition
claims-retries_example = claims-retries labels retried (TaskState.passed 10) refl tt

abbrev merged : List MergeTrigger
merged =
    MergeTrigger.attempt
    ∷ MergeTrigger.conflict 2
    ∷ MergeTrigger.attempt
    ∷ MergeTrigger.succeed
    ∷ []

attempts-setbacks_example : sum_of is_attempt merged ≡ sum_of is_setback merged + 1
unfolding drive ◌>>=◌ Merge.transition
attempts-setbacks_example = attempts-setbacks labels merged refl

abbrev paused_once : List CycleTrigger
paused_once = opening (CycleTrigger.block "budget" ∷ CycleTrigger.unblock ∷ closing)

completed_iff_example :
    (drive (Cycle.transition labels) CycleState.created paused_once ≡ ok CycleState.completed)
    ↔ ((ps : List CycleTrigger) × Pauses ps × (paused_once ≡ opening (ps ++ closing)))
completed_iff_example = completed_iff labels paused_once
