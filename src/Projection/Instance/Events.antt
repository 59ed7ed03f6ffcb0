-- ===== src/Projection/Instance/Events.antt =====
-- The events that update a row of `orch_instances`, with the trigger of `InstanceState` that each stands for.
use openclaw_rs.Base.{String}
use openclaw_rs.Errors.{Result, ok, err, DomainError}
use openclaw_rs.States.Debug.{Debug}
use openclaw_rs.States.Instance
use openclaw_rs.States.Instance.{InstanceState, InstanceTrigger}

pub data Kind : Type 0 where
  instance_provisioned instance_provisioning_failed instance_blocked instance_unblocked
        instance_suspended instance_resumed :
      Kind

-- `event_type`.
abbrev pub name : Kind → String
name instance_provisioned = "InstanceProvisioned"
name instance_provisioning_failed = "InstanceProvisioningFailed"
name instance_blocked = "InstanceBlocked"
name instance_unblocked = "InstanceUnblocked"
name instance_suspended = "InstanceSuspended"
name instance_resumed = "InstanceResumed"

abbrev pub trigger_for : Kind → String → InstanceTrigger
trigger_for instance_provisioned reason = InstanceTrigger.provisioned
trigger_for instance_provisioning_failed reason = InstanceTrigger.fail_provisioning reason
trigger_for instance_blocked reason = InstanceTrigger.block reason
trigger_for instance_unblocked reason = InstanceTrigger.unblock
trigger_for instance_suspended reason = InstanceTrigger.suspend
trigger_for instance_resumed reason = InstanceTrigger.resume

abbrev pub or_stay : Result DomainError InstanceState → InstanceState → InstanceState
or_stay (ok t) s = t
or_stay (err x) s = s

-- What an event is to make of a state: the transition, where there is one.
abbrev pub expected :
    Debug InstanceState InstanceTrigger → Kind → String → InstanceState → InstanceState
expected d k reason s = or_stay (Instance.transition d s (trigger_for k reason)) s
