-- ===== src/States/Merge.antt =====
-- `MergeState` of crates/openclaw-orchestrator/src/domain/states.rs.
use openclaw_rs.Base.{ℕ, String, Bool, true, false}
use openclaw_rs.Errors.{Result, ok, err, DomainError}
use openclaw_rs.States.Debug.{Debug, invalid}
use openclaw_rs.States.Run.{FailureCategory}

pub data MergeState : Type 0 where
  pending attempted succeeded : MergeState
  conflicted : (conflict_count : ℕ) → MergeState
  failed_transient failed_permanent : (category : FailureCategory) → MergeState
  skipped : String → MergeState

pub data MergeTrigger : Type 0 where
  attempt succeed : MergeTrigger
  conflict : (conflict_count : ℕ) → MergeTrigger
  fail_transient fail_permanent : (category : FailureCategory) → MergeTrigger
  skip : String → MergeTrigger

module _ (d : Debug MergeState MergeTrigger) where
  unfoldable pub transition : MergeState → MergeTrigger → Result DomainError MergeState
  transition pending attempt = ok attempted
  transition pending (skip reason) = ok (skipped reason)
  transition attempted succeed = ok succeeded
  transition attempted (conflict conflict_count) = ok (conflicted conflict_count)
  transition attempted (fail_transient category) = ok (failed_transient category)
  transition attempted (fail_permanent category) = ok (failed_permanent category)
  transition (failed_transient _) attempt = ok attempted
  transition (conflicted _) attempt = ok attempted
  transition s t = err (invalid d "MergeState" s t)

unfoldable pub is_terminal : MergeState → Bool
is_terminal succeeded = true
is_terminal (failed_permanent _) = true
is_terminal (skipped _) = true
is_terminal _ = false
