-- ===== src/States/Run.antt =====
-- `FailureCategory` and `RunState` of crates/openclaw-orchestrator/src/domain/states.rs.
use openclaw_rs.Base.{String, Bool, true, false}
use openclaw_rs.Base.Int.{ℤ}
use openclaw_rs.Errors.{Result, ok, err, DomainError}
use openclaw_rs.States.Debug.{Debug, invalid}

pub data FailureCategory : Type 0 where
  transient permanent resource_exhausted timeout security_violation : FailureCategory
  spawn_failure : FailureCategory

pub data RunState : Type 0 where
  claimed running : RunState
  completed : (exit_code : ℤ) → RunState
  failed : FailureCategory → RunState
  timed_out : RunState
  cancelled abandoned : String → RunState

pub data RunTrigger : Type 0 where
  start : RunTrigger
  complete : (exit_code : ℤ) → RunTrigger
  fail : FailureCategory → RunTrigger
  time_out : RunTrigger
  cancel abandon : String → RunTrigger

module _ (d : Debug RunState RunTrigger) where
  unfoldable pub transition : RunState → RunTrigger → Result DomainError RunState
  transition claimed start = ok running
  transition claimed (fail cat) = ok (failed cat)
  transition claimed (cancel reason) = ok (cancelled reason)
  transition running (complete exit_code) = ok (completed exit_code)
  transition running (fail cat) = ok (failed cat)
  transition running time_out = ok timed_out
  transition running (cancel reason) = ok (cancelled reason)
  transition running (abandon reason) = ok (abandoned reason)
  transition s t = err (invalid d "RunState" s t)

unfoldable pub is_terminal : RunState → Bool
is_terminal (completed _) = true
is_terminal (failed _) = true
is_terminal timed_out = true
is_terminal (cancelled _) = true
is_terminal (abandoned _) = true
is_terminal _ = false
