-- ===== src/Projection/Task/Events.antt =====
-- The events that update a row of `orch_tasks`, with the trigger of `TaskState` that each stands for.
use openclaw_rs.Base.{ℕ, String}
use openclaw_rs.Errors.{Result, ok, err, DomainError}
use openclaw_rs.States.Debug.{Debug}
use openclaw_rs.States.Task
use openclaw_rs.States.Task.{TaskState, TaskTrigger}

pub data Kind : Type 0 where
  task_retry_scheduled task_passed task_failed task_cancelled task_skipped : Kind

-- `event_type`.
abbrev pub name : Kind → String
name task_retry_scheduled = "TaskRetryScheduled"
name task_passed = "TaskPassed"
name task_failed = "TaskFailed"
name task_cancelled = "TaskCancelled"
name task_skipped = "TaskSkipped"

-- The run and the attempts are those of the row.
abbrev pub trigger_for : Kind → String → (run attempts : ℕ) → TaskTrigger
trigger_for task_retry_scheduled reason run attempts = TaskTrigger.retry_scheduled
trigger_for task_passed reason run attempts = TaskTrigger.pass run
trigger_for task_failed reason run attempts = TaskTrigger.fail reason attempts
trigger_for task_cancelled reason run attempts = TaskTrigger.cancel reason
trigger_for task_skipped reason run attempts = TaskTrigger.skip reason

abbrev pub or_stay : Result DomainError TaskState → TaskState → TaskState
or_stay (ok t) s = t
or_stay (err x) s = s

-- What an event is to make of a state: the transition, where there is one.
abbrev pub expected :
    Debug TaskState TaskTrigger → Kind → String → (run attempts : ℕ) → TaskState → TaskState
expected d k reason run attempts s =
    or_stay (Task.transition d s (trigger_for k reason run attempts)) s
