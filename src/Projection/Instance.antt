-- ===== src/Projection/Instance.antt =====
-- The instance projector, crates/openclaw-orchestrator/src/app/instance_projector.rs, over the table `orch_instances` of
-- migrations/002_orchestrator.sql.
pub mod Events
pub mod Laws
pub mod Follows
use openclaw_rs.Base.{
  ℕ, String, Bool, Option, none, some, List, [], ◌∷◌, ◌==◌, ◌&&◌, ◌||◌, match_str,
}
use openclaw_rs.Errors.{Result, ok, AppError, ◌>>=◌}
use openclaw_rs.Sql.{Fault, Outcome, submit, ignore, update_where, insert_new}
use openclaw_rs.Payload.{Uuid, Time, Serde, EventEnvelope, uuid_field, text_field, reason_field}

-- The values that the CHECK of the column `state` allows.
pub data InstanceStatus : Type 0 where
  provisioning active blocked suspended provisioning_failed : InstanceStatus

abbrev number : InstanceStatus → ℕ
number provisioning = 0
number active = 1
number blocked = 2
number suspended = 3
number provisioning_failed = 4

-- `state = '…'` in a WHERE.
unfoldable pub is : InstanceStatus → InstanceStatus → Bool
is a b = number a == number b

-- A row of `orch_instances`, in the columns that the orchestrator reads or writes; `V` is the type of a
-- JSONB column.
pub record InstanceRow (V : Type 0) : Type 0 where
  pub id : Uuid
  pub project_id : Uuid
  pub name : String
  pub state : InstanceStatus
  pub block_reason : Option String
  pub data_dir : String
  pub token_hash : String
  pub started_at : Time
  pub last_heartbeat : Time

module _ (J : Serde) where
  open J use {Value}

  abbrev Statement : Type 0
  Statement = Result AppError (List (InstanceRow Value) → List (InstanceRow Value))

  unfoldable pub instance_created : EventEnvelope Value → Statement
  instance_created e = do
    project_id ← uuid_field J "project_id" "missing project_id" e.payload
    name ← text_field J "name" "missing name" e.payload
    data_dir ← text_field J "data_dir" "missing data_dir" e.payload
    token_hash ← text_field J "token_hash" "missing token_hash" e.payload
    ok (
        insert_new (λ r. r.id)
          (record {
            id = e.instance_id;
            project_id = project_id;
            name = name;
            state = provisioning;
            block_reason = none;
            data_dir = data_dir;
            token_hash = token_hash;
            started_at = e.occurred_at;
            last_heartbeat = e.occurred_at;
          }))

  unfoldable pub instance_provisioned : EventEnvelope Value → Statement
  unfolding is
  instance_provisioned e = ok (
      update_where (λ r. (r.id == e.instance_id) && is r.state provisioning)
        (λ r. record r { state = active }))

  unfoldable pub instance_provisioning_failed : EventEnvelope Value → Statement
  unfolding is
  instance_provisioning_failed e = do
    let reason = reason_field J "reason" e.payload
    ok (
        update_where (λ r. (r.id == e.instance_id) && is r.state provisioning)
          (λ r. record r { state = provisioning_failed; block_reason = some reason }))

  unfoldable pub instance_blocked : EventEnvelope Value → Statement
  unfolding is
  instance_blocked e = do
    let reason = reason_field J "reason" e.payload
    ok (
        update_where (λ r. (r.id == e.instance_id) && is r.state active)
          (λ r. record r { state = blocked; block_reason = some reason }))

  unfoldable pub instance_unblocked : EventEnvelope Value → Statement
  unfolding is
  instance_unblocked e = ok (
      update_where (λ r. (r.id == e.instance_id) && is r.state blocked)
        (λ r. record r { state = active; block_reason = none }))

  unfoldable pub instance_suspended : EventEnvelope Value → Statement
  unfolding is
  instance_suspended e = ok (
      update_where (λ r. (r.id == e.instance_id) && is r.state active)
        (λ r. record r { state = suspended }))

  unfoldable pub instance_resumed : EventEnvelope Value → Statement
  unfolding is
  instance_resumed e = ok (
      update_where (λ r. (r.id == e.instance_id) && is r.state suspended)
        (λ r. record r { state = active }))

  -- The arms of the `match` on the type of the event.
  unfoldable pub arms :
      EventEnvelope Value
      → List (String × (Fault → List (InstanceRow Value) → Outcome (List (InstanceRow Value))))
  arms e =
      ("InstanceCreated", submit (instance_created e))
      ∷ ("InstanceProvisioned", submit (instance_provisioned e))
      ∷ ("InstanceProvisioningFailed", submit (instance_provisioning_failed e))
      ∷ ("InstanceBlocked", submit (instance_blocked e))
      ∷ ("InstanceUnblocked", submit (instance_unblocked e))
      ∷ ("InstanceSuspended", submit (instance_suspended e))
      ∷ ("InstanceResumed", submit (instance_resumed e))
      ∷ []

  -- `InstanceProjector::handle`.
  unfoldable pub handle :
      EventEnvelope Value → Fault → List (InstanceRow Value) → Outcome (List (InstanceRow Value))
  unfolding arms match_str instance_created instance_provisioned instance_provisioning_failed
      instance_blocked instance_unblocked instance_suspended instance_resumed submit ignore
  handle e = match_str e.event_type (arms e) ignore
