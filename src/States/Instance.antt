-- ===== src/States/Instance.antt =====
-- `InstanceState` of crates/openclaw-orchestrator/src/domain/states.rs.
use openclaw_rs.Base.{String, Bool, true, false}
use openclaw_rs.Errors.{Result, ok, err, DomainError}
use openclaw_rs.States.Debug.{Debug, invalid}

pub data InstanceState : Type 0 where
  provisioning active : InstanceState
  blocked : String → InstanceState
  suspended : InstanceState
  provisioning_failed : String → InstanceState

pub data InstanceTrigger : Type 0 where
  provisioned : InstanceTrigger
  fail_provisioning block : String → InstanceTrigger
  suspend unblock resume : InstanceTrigger

module _ (d : Debug InstanceState InstanceTrigger) where
  unfoldable pub transition : InstanceState → InstanceTrigger → Result DomainError InstanceState
  transition provisioning provisioned = ok active
  transition provisioning (fail_provisioning reason) = ok (provisioning_failed reason)
  transition active (block reason) = ok (blocked reason)
  transition active suspend = ok suspended
  transition (blocked _) unblock = ok active
  transition suspended resume = ok active
  transition s t = err (invalid d "InstanceState" s t)

unfoldable pub is_terminal : InstanceState → Bool
is_terminal (provisioning_failed _) = true
is_terminal _ = false
