-- ===== src/States/Laws/Terminal.antt =====
-- `is_terminal` of each machine against its `transition`.
use openclaw_rs.Base.{◌≡◌, refl, true, ◌↔◌}
use openclaw_rs.Errors.{Result, err, DomainError}
use openclaw_rs.States.Debug.{Debug}
use openclaw_rs.States.Instance
use openclaw_rs.States.Instance.{InstanceState, InstanceTrigger}
use openclaw_rs.States.Cycle
use openclaw_rs.States.Cycle.{CycleState, CycleTrigger}
use openclaw_rs.States.Task
use openclaw_rs.States.Task.{TaskState, TaskTrigger}
use openclaw_rs.States.Run
use openclaw_rs.States.Run.{FailureCategory, RunState, RunTrigger}
use openclaw_rs.States.Merge
use openclaw_rs.States.Merge.{MergeState, MergeTrigger}

-- A state that refuses every trigger.
abbrev pub Stuck : {S T : Type 0} → (S → T → Result DomainError S) → S → Type 0
Stuck {S} {T} step s = (t : T) → (e : DomainError) × (step s t ≡ err e)

instance_terminal_iff :
    (d : Debug InstanceState InstanceTrigger) (s : InstanceState)
    → (Instance.is_terminal s ≡ true) ↔ Stuck (Instance.transition d) s
unfolding Instance.transition Instance.is_terminal
instance_terminal_iff d (InstanceState.provisioning_failed r) = (λ _ t. (_, refl), λ _. refl)
instance_terminal_iff d InstanceState.provisioning =
    (λ h. cc, λ h. cc (h InstanceTrigger.provisioned).1)
instance_terminal_iff d InstanceState.active = (λ h. cc, λ h. cc (h InstanceTrigger.suspend).1)
instance_terminal_iff d InstanceState.suspended = (λ h. cc, λ h. cc (h InstanceTrigger.resume).1)
instance_terminal_iff d (InstanceState.blocked r) = (λ h. cc, λ h. cc (h InstanceTrigger.unblock).1)

cycle_terminal_iff :
    (d : Debug CycleState CycleTrigger) (s : CycleState)
    → (Cycle.is_terminal s ≡ true) ↔ Stuck (Cycle.transition d) s
unfolding Cycle.transition Cycle.is_terminal
cycle_terminal_iff d CycleState.created = (λ h. cc, λ h. cc (h CycleTrigger.plan_requested).1)
cycle_terminal_iff d CycleState.planning = (λ h. cc, λ h. cc (h CycleTrigger.plan_generated).1)
cycle_terminal_iff d CycleState.plan_ready = (λ h. cc, λ h. cc (h CycleTrigger.plan_approved).1)
cycle_terminal_iff d CycleState.approved = (λ h. cc, λ h. cc (h CycleTrigger.start).1)
cycle_terminal_iff d CycleState.running = (λ h. cc, λ h. cc (h CycleTrigger.begin_completing).1)
cycle_terminal_iff d (CycleState.blocked r) = (λ h. cc, λ h. cc (h CycleTrigger.unblock).1)
cycle_terminal_iff d CycleState.completing = (λ h. cc, λ h. cc (h CycleTrigger.complete).1)
cycle_terminal_iff d CycleState.completed = (λ _ t. (_, refl), λ _. refl)
cycle_terminal_iff d (CycleState.failed r) = (λ _ t. (_, refl), λ _. refl)
cycle_terminal_iff d (CycleState.cancelled r) = (λ _ t. (_, refl), λ _. refl)

task_terminal_iff :
    (d : Debug TaskState TaskTrigger) (s : TaskState)
    → (Task.is_terminal s ≡ true) ↔ Stuck (Task.transition d) s
unfolding Task.transition Task.is_terminal
task_terminal_iff d TaskState.scheduled = (λ h. cc, λ h. cc (h (TaskTrigger.skip "")).1)
task_terminal_iff d (TaskState.active r a) = (λ h. cc, λ h. cc (h TaskTrigger.retry_scheduled).1)
task_terminal_iff d (TaskState.verifying r) = (λ h. cc, λ h. cc (h TaskTrigger.retry_scheduled).1)
task_terminal_iff d (TaskState.passed r) = (λ _ t. (_, refl), λ _. refl)
task_terminal_iff d (TaskState.failed r n) = (λ _ t. (_, refl), λ _. refl)
task_terminal_iff d (TaskState.cancelled r) = (λ _ t. (_, refl), λ _. refl)
task_terminal_iff d (TaskState.skipped r) = (λ _ t. (_, refl), λ _. refl)

run_terminal_iff :
    (d : Debug RunState RunTrigger) (s : RunState)
    → (Run.is_terminal s ≡ true) ↔ Stuck (Run.transition d) s
unfolding Run.transition Run.is_terminal
run_terminal_iff d RunState.claimed = (λ h. cc, λ h. cc (h RunTrigger.start).1)
run_terminal_iff d RunState.running = (λ h. cc, λ h. cc (h RunTrigger.time_out).1)
run_terminal_iff d (RunState.completed c) = (λ _ t. (_, refl), λ _. refl)
run_terminal_iff d (RunState.failed c) = (λ _ t. (_, refl), λ _. refl)
run_terminal_iff d RunState.timed_out = (λ _ t. (_, refl), λ _. refl)
run_terminal_iff d (RunState.cancelled r) = (λ _ t. (_, refl), λ _. refl)
run_terminal_iff d (RunState.abandoned r) = (λ _ t. (_, refl), λ _. refl)

merge_terminal_iff :
    (d : Debug MergeState MergeTrigger) (s : MergeState)
    → (Merge.is_terminal s ≡ true) ↔ Stuck (Merge.transition d) s
unfolding Merge.transition Merge.is_terminal
merge_terminal_iff d MergeState.pending = (λ h. cc, λ h. cc (h MergeTrigger.attempt).1)
merge_terminal_iff d MergeState.attempted = (λ h. cc, λ h. cc (h MergeTrigger.succeed).1)
merge_terminal_iff d MergeState.succeeded = (λ _ t. (_, refl), λ _. refl)
merge_terminal_iff d (MergeState.conflicted n) = (λ h. cc, λ h. cc (h MergeTrigger.attempt).1)
merge_terminal_iff d (MergeState.failed_transient c) = (λ h. cc, λ h. cc (h MergeTrigger.attempt).1)
merge_terminal_iff d (MergeState.failed_permanent c) = (λ _ t. (_, refl), λ _. refl)
merge_terminal_iff d (MergeState.skipped r) = (λ _ t. (_, refl), λ _. refl)

-- In each of the five machines a state is terminal, as `is_terminal` has it, exactly when
-- `transition` refuses every trigger from it.
pub terminal_iff_Stuck :
    (di : Debug InstanceState InstanceTrigger) (dc : Debug CycleState CycleTrigger)
    (dt : Debug TaskState TaskTrigger) (dr : Debug RunState RunTrigger)
    (dm : Debug MergeState MergeTrigger) (i : InstanceState) (c : CycleState) (t : TaskState)
    (r : RunState) (m : MergeState)
    → ((Instance.is_terminal i ≡ true) ↔ Stuck (Instance.transition di) i)
      × ((Cycle.is_terminal c ≡ true) ↔ Stuck (Cycle.transition dc) c)
      × ((Task.is_terminal t ≡ true) ↔ Stuck (Task.transition dt) t)
      × ((Run.is_terminal r ≡ true) ↔ Stuck (Run.transition dr) r)
      × ((Merge.is_terminal m ≡ true) ↔ Stuck (Merge.transition dm) m)
terminal_iff_Stuck di dc dt dr dm i c t r m = (
  instance_terminal_iff di i,
  cycle_terminal_iff dc c,
  task_terminal_iff dt t,
  run_terminal_iff dr r,
  merge_terminal_iff dm m,
)
