-- ===== src/States/Task.antt =====
-- `TaskState` of crates/openclaw-orchestrator/src/domain/states.rs.
use openclaw_rs.Base.{ℕ, String, Bool, true, false}
use openclaw_rs.Errors.{Result, ok, err, DomainError}
use openclaw_rs.States.Debug.{Debug, invalid}

pub data TaskState : Type 0 where
  scheduled : TaskState
  active : (active_run_id attempt : ℕ) → TaskState
  verifying : (run_id : ℕ) → TaskState
  passed : (evidence_run_id : ℕ) → TaskState
  failed : (reason : String) (total_attempts : ℕ) → TaskState
  cancelled skipped : String → TaskState

pub data TaskTrigger : Type 0 where
  claim : (run_id attempt : ℕ) → TaskTrigger
  run_completed : (run_id : ℕ) → TaskTrigger
  retry_scheduled : TaskTrigger
  pass : (evidence_run_id : ℕ) → TaskTrigger
  fail : (reason : String) (total_attempts : ℕ) → TaskTrigger
  cancel skip : String → TaskTrigger

module _ (d : Debug TaskState TaskTrigger) where
  unfoldable pub transition : TaskState → TaskTrigger → Result DomainError TaskState
  transition scheduled (claim run_id attempt) = ok (active run_id attempt)
  transition (active _ _) (run_completed run_id) = ok (verifying run_id)
  transition (active _ _) retry_scheduled = ok scheduled
  transition (active _ _) (fail reason total_attempts) = ok (failed reason total_attempts)
  transition (active _ _) (cancel reason) = ok (cancelled reason)
  transition (verifying _) (pass evidence_run_id) = ok (passed evidence_run_id)
  transition (verifying _) retry_scheduled = ok scheduled
  transition (verifying _) (fail reason total_attempts) = ok (failed reason total_attempts)
  transition scheduled (cancel reason) = ok (cancelled reason)
  transition scheduled (skip reason) = ok (skipped reason)
  transition s t = err (invalid d "TaskState" s t)

unfoldable pub is_terminal : TaskState → Bool
is_terminal (passed _) = true
is_terminal (failed _ _) = true
is_terminal (cancelled _) = true
is_terminal (skipped _) = true
is_terminal _ = false
