-- ===== src/Projection/Run/Events.antt =====
-- The events that update a row of `orch_runs`, with the trigger of `RunState` that each stands for.
use openclaw_rs.Base.{String, Option, none, some}
use openclaw_rs.Base.Int.{ℤ, pos}
use openclaw_rs.States.Run.{FailureCategory}
use openclaw_rs.Errors.{Result, ok, err, AppError, DomainError}
use openclaw_rs.States.Debug.{Debug}
use openclaw_rs.States.Run
use openclaw_rs.States.Run.{RunState, RunTrigger}

pub data Kind : Type 0 where
  run_started run_completed run_failed run_timed_out run_cancelled run_abandoned : Kind

-- `event_type`.
abbrev pub name : Kind → String
name run_started = "RunStarted"
name run_completed = "RunCompleted"
name run_failed = "RunFailed"
name run_timed_out = "RunTimedOut"
name run_cancelled = "RunCancelled"
name run_abandoned = "RunAbandoned"

abbrev pub trigger_for : Kind → String → FailureCategory → ℤ → RunTrigger
trigger_for run_started reason category exit = RunTrigger.start
trigger_for run_completed reason category exit = RunTrigger.complete exit
trigger_for run_failed reason category exit = RunTrigger.fail category
trigger_for run_timed_out reason category exit = RunTrigger.time_out
trigger_for run_cancelled reason category exit = RunTrigger.cancel reason
trigger_for run_abandoned reason category exit = RunTrigger.abandon reason

abbrev pub or_stay : Result DomainError RunState → RunState → RunState
or_stay (ok t) s = t
or_stay (err x) s = s

-- What an event is to make of a state: the transition, where there is one.
abbrev pub expected :
    Debug RunState RunTrigger → Kind → String → FailureCategory → ℤ → RunState → RunState
expected d k reason category exit s =
    or_stay (Run.transition d s (trigger_for k reason category exit)) s

-- The exit code that the payload of `RunCompleted` gives; 0 where it gives none.
abbrev pub exit_of : Result AppError (Option ℤ) → ℤ
exit_of (ok (some n)) = n
exit_of (ok none) = pos 0
exit_of (err x) = pos 0
