-- ===== src/States/Cycle.antt =====
-- `CycleState` of crates/openclaw-orchestrator/src/domain/states.rs.
use openclaw_rs.Base.{String, Bool, true, false}
use openclaw_rs.Errors.{Result, ok, err, DomainError}
use openclaw_rs.States.Debug.{Debug, invalid}

pub data CycleState : Type 0 where
  created planning plan_ready approved running : CycleState
  blocked : String → CycleState
  completing completed : CycleState
  failed cancelled : String → CycleState

pub data CycleTrigger : Type 0 where
  plan_requested plan_generated plan_approved : CycleTrigger
  cancel : String → CycleTrigger
  start : CycleTrigger
  block : String → CycleTrigger
  unblock begin_completing complete : CycleTrigger
  fail : String → CycleTrigger

module _ (d : Debug CycleState CycleTrigger) where
  unfoldable pub transition : CycleState → CycleTrigger → Result DomainError CycleState
  transition created plan_requested = ok planning
  transition planning plan_generated = ok plan_ready
  transition planning (fail reason) = ok (failed reason)
  transition plan_ready plan_approved = ok approved
  transition plan_ready (cancel reason) = ok (cancelled reason)
  transition approved start = ok running
  transition running (block reason) = ok (blocked reason)
  transition running begin_completing = ok completing
  transition running (fail reason) = ok (failed reason)
  transition running (cancel reason) = ok (cancelled reason)
  transition (blocked _) unblock = ok running
  transition completing complete = ok completed
  transition completing (fail reason) = ok (failed reason)
  transition s t = err (invalid d "CycleState" s t)

unfoldable pub is_terminal : CycleState → Bool
is_terminal completed = true
is_terminal (failed _) = true
is_terminal (cancelled _) = true
is_terminal _ = false
