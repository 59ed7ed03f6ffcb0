-- ===== src/Projection/Cycle/Events.antt =====
-- The events that update a row of `orch_cycles`, with the trigger of `CycleState` that each stands for.
use openclaw_rs.Base.{String, Bool, true, false}
use openclaw_rs.Errors.{Result, ok, err, DomainError}
use openclaw_rs.States.Debug.{Debug}
use openclaw_rs.States.Cycle
use openclaw_rs.States.Cycle.{CycleState, CycleTrigger}

pub data Kind : Type 0 where
  plan_requested plan_generated plan_approved plan_generation_failed cycle_running_started
        cycle_completing cycle_blocked cycle_unblocked cycle_completed cycle_failed
        cycle_cancelled :
      Kind

-- `event_type`.
abbrev pub name : Kind → String
name plan_requested = "PlanRequested"
name plan_generated = "PlanGenerated"
name plan_approved = "PlanApproved"
name plan_generation_failed = "PlanGenerationFailed"
name cycle_running_started = "CycleRunningStarted"
name cycle_completing = "CycleCompleting"
name cycle_blocked = "CycleBlocked"
name cycle_unblocked = "CycleUnblocked"
name cycle_completed = "CycleCompleted"
name cycle_failed = "CycleFailed"
name cycle_cancelled = "CycleCancelled"

abbrev pub trigger_for : Kind → String → CycleTrigger
trigger_for plan_requested reason = CycleTrigger.plan_requested
trigger_for plan_generated reason = CycleTrigger.plan_generated
trigger_for plan_approved reason = CycleTrigger.plan_approved
trigger_for plan_generation_failed reason = CycleTrigger.fail reason
trigger_for cycle_running_started reason = CycleTrigger.start
trigger_for cycle_completing reason = CycleTrigger.begin_completing
trigger_for cycle_blocked reason = CycleTrigger.block reason
trigger_for cycle_unblocked reason = CycleTrigger.unblock
trigger_for cycle_completed reason = CycleTrigger.complete
trigger_for cycle_failed reason = CycleTrigger.fail reason
trigger_for cycle_cancelled reason = CycleTrigger.cancel reason

abbrev pub or_stay : Result DomainError CycleState → CycleState → CycleState
or_stay (ok t) s = t
or_stay (err x) s = s

-- The machine fails by one trigger from three states; of the two events that stand for it, each is
-- taken only from its own: `PlanGenerationFailed` from `planning`, `CycleFailed` from the others.
abbrev exempt : Kind → CycleState → Bool
exempt cycle_failed CycleState.planning = true
exempt plan_generation_failed CycleState.running = true
exempt plan_generation_failed CycleState.completing = true
exempt k s = false

-- What an event is to make of a state: the transition, where there is one.
abbrev pub expected : Debug CycleState CycleTrigger → Kind → String → CycleState → CycleState
expected d k reason s = elim (exempt k s) [
  | true ↦ s
  | false ↦ or_stay (Cycle.transition d s (trigger_for k reason)) s
]
