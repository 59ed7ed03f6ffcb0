-- ===== src/Workers/Ticks.antt =====
-- The two ticks of crates/openclaw-orchestrator/src/app/tick_coordinator.rs.
use openclaw_rs.Base.{
  ℕ, suc, ◌+◌, ◌*◌, String, Bool, Option, none, some, List, [], ◌∷◌, ◌==◌, ◌&&◌, if◌then◌else◌,
  str_eq, ltb,
}
use openclaw_rs.Errors.{infra, database}
use openclaw_rs.Sql.{Fault}
use openclaw_rs.Payload.{Uuid, Time, EventEnvelope}
use openclaw_rs.Projection.Instance.{InstanceStatus, InstanceRow}
use openclaw_rs.Projection.Task.{TaskRow}
use openclaw_rs.Projection.Run as RunTable
use openclaw_rs.Projection.Run.{RunStatus, RunRow}
use openclaw_rs.Schedule.Rows.{ClaimResult}
use openclaw_rs.Act.{Act, return, fail, attempt, query, ◌>>=◌}
use openclaw_rs.Wire.{id, text, Wire, Fresh, envelope}
use openclaw_rs.Port.{EventStore, emit_event}
use openclaw_rs.Workers.{WorkerManager, spawn_worker}
use openclaw_rs.Workers.Reconcile.{abandon_key, reconcile_active_runs}
use Prim.Native.String.{◌++◌}

abbrev pub claim_timeout_secs : ℕ
claim_timeout_secs = 300

pub record StaleClaim : Type 0 where
  pub run_id : Uuid
  pub task_id : Uuid
  pub instance_id : Uuid

-- The values of the column `state`, as they are read into a `String`.
unfoldable pub state_text : InstanceStatus → String
state_text InstanceStatus.provisioning = "provisioning"
state_text InstanceStatus.active = "active"
state_text InstanceStatus.blocked = "blocked"
state_text InstanceStatus.suspended = "suspended"
state_text InstanceStatus.provisioning_failed = "provisioning_failed"

unfoldable pub is_maintenance_mode : String → Bool
is_maintenance_mode state = str_eq state "blocked"

unfoldable pub is_instance_active : String → Bool
is_instance_active state = str_eq state "active"

module _ {V : Type 0} where
  -- SELECT state FROM orch_instances WHERE id = $1
  unfoldable pub state_of : Uuid → List (InstanceRow V) → Option String
  unfolding state_text
  state_of i [] = none
  state_of i (r ∷ rows) =
      let rest = state_of i rows in if r.id == i then some (state_text r.state) else rest

  -- SELECT description FROM orch_tasks WHERE id = $1 AND instance_id = $2
  unfoldable pub description_of : (task_id i : Uuid) → List (TaskRow V) → Option String
  description_of task_id i [] = none
  description_of task_id i (t ∷ rows) =
      let rest = description_of task_id i rows in
      if (t.id == task_id) && (t.instance_id == i) then some t.description else rest

  -- WHERE instance_id = $1 AND state = 'claimed' AND started_at < NOW() - 300 s; a time counts
  -- microseconds.
  unfoldable pub stale_claims : Uuid → Time → List (RunRow V) → List StaleClaim
  unfolding RunTable.is
  stale_claims i now [] = []
  stale_claims i now (r ∷ rows) =
      let rest = stale_claims i now rows in
      if (r.instance_id == i)
        && RunTable.is r.state RunStatus.claimed
        && ltb (r.started_at + claim_timeout_secs * 1000000) now
      then record { run_id = r.id; task_id = r.task_id; instance_id = r.instance_id } ∷ rest
      else rest

-- `fetch_optional`, and the error for a row that is not there.
unfoldable pub found : {S A : Type 0} → String → Option A → Act S A
unfolding return fail
found message (some a) = return a
found message none = fail (infra (database message))

-- What a tick takes from outside: the tables as its queries find them (other processes write them in
-- between), the database's answers, its clock, the worker manager, and the ids and times of new events.
pub record TickInput (V : Type 0) : Type 0 where
  pub instances : List (InstanceRow V)
  pub instances_fault : Fault
  pub runs : List (RunRow V)
  pub runs_fault : Fault
  pub later_runs : List (RunRow V)
  pub later_runs_fault : Fault
  pub tasks : List (TaskRow V)
  pub tasks_fault : ℕ → Fault
  pub now : Time
  pub manager : WorkerManager
  pub data_dir : String
  pub fresh : ℕ → Fresh
  pub later_fresh : ℕ → Fresh

module _ {V : Type 0} (W : Wire V) where
  unfoldable pub build_stale_claim_event : Fresh → StaleClaim → EventEnvelope V
  unfolding envelope abandon_key
  build_stale_claim_event fresh stale =
      envelope fresh stale.instance_id "RunFailed"
        (W.object (
          ("run_id", id stale.run_id)
          ∷ ("task_id", id stale.task_id)
          ∷ ("failure_category", text "SpawnFailure")
          ∷ (
            "error_message",
            text (
                "run "
                ++ W.show_uuid stale.run_id
                ++ " stuck in claimed state for over "
                ++ W.show_nat claim_timeout_secs
                ++ " seconds"),
          )
          ∷ []))
        (abandon_key W stale.run_id)

  module _ (E : EventStore V) where
    unfoldable pub query_instance_state : TickInput V → Uuid → Act E.State String
    unfolding state_of query found ◌>>=◌
    query_instance_state o i = query (λ e. e) o.instances_fault (state_of i o.instances) >>= λ row.
        found ("instance " ++ W.show_uuid i ++ " not found") row

    unfoldable pub query_task_description :
        TickInput V → ℕ → (task_id i : Uuid) → Act E.State String
    unfolding description_of query found ◌>>=◌
    query_task_description o k task_id i =
        query (λ e. e) (o.tasks_fault k) (description_of task_id i o.tasks) >>= λ row.
        found ("task " ++ W.show_uuid task_id ++ " not found for instance " ++ W.show_uuid i) row

    unfoldable pub detect_stale_claims : TickInput V → Uuid → Act E.State (List StaleClaim)
    unfolding stale_claims query
    detect_stale_claims o i = query (λ e. e) o.later_runs_fault (stale_claims i o.now o.later_runs)

    -- The loop over the stale claims; a refused event is logged, and the loop goes on.
    unfoldable pub fail_stale : (ℕ → Fresh) → ℕ → List StaleClaim → Act E.State (Unit {0})
    unfolding build_stale_claim_event emit_event attempt return ◌>>=◌
    fail_stale fresh k [] = return tt
    fail_stale fresh k (stale ∷ rest) =
        attempt (emit_event E W "" (build_stale_claim_event (fresh k) stale)) >>= λ _.
        fail_stale fresh (suc k) rest

    -- `reconciler_tick`, once it has the state of the instance.
    unfoldable pub reconcile_in : TickInput V → Uuid → String → Act E.State (Unit {0})
    unfolding is_maintenance_mode is_instance_active detect_stale_claims reconcile_active_runs
        fail_stale attempt return ◌>>=◌
    reconcile_in o i state =
        if is_maintenance_mode state
        then (attempt (detect_stale_claims o i) >>= λ _. return tt)
        else (if is_instance_active state
            then (reconcile_active_runs W E o.manager.reattach o.fresh o.runs_fault o.runs i
                >>= λ _. detect_stale_claims o i >>= λ stale. fail_stale o.later_fresh 0 stale)
            else return tt)

    unfoldable pub reconciler_tick : TickInput V → Uuid → Act E.State (Unit {0})
    unfolding query_instance_state reconcile_in ◌>>=◌
    reconciler_tick o i = query_instance_state o i >>= λ state. reconcile_in o i state

    -- The claim at place `k` of the tick.
    unfoldable pub spawn_for_claim : TickInput V → ℕ → ClaimResult → Act E.State (Unit {0})
    unfolding query_task_description spawn_worker ◌>>=◌
    spawn_for_claim o k claim =
        query_task_description o k claim.task_id claim.instance_id >>= λ prompt.
        spawn_worker W E o.manager (o.fresh k) claim prompt
          (o.data_dir ++ "/" ++ W.show_uuid claim.instance_id ++ "/" ++ W.show_uuid claim.run_id)

    -- The loop over the claims; a worker that is not spawned is logged, and the loop goes on.
    unfoldable pub spawn_all : TickInput V → ℕ → List ClaimResult → Act E.State (Unit {0})
    unfolding spawn_for_claim attempt return ◌>>=◌
    spawn_all o k [] = return tt
    spawn_all o k (claim ∷ claims) =
        attempt (spawn_for_claim o k claim) >>= λ _. spawn_all o (suc k) claims

    -- `scheduler_tick`; `schedule` is the scheduler's `tick`.
    unfoldable pub scheduler_tick :
        (Uuid → Act E.State (List ClaimResult)) → TickInput V → Uuid → Act E.State (Unit {0})
    unfolding query_instance_state is_instance_active spawn_all return ◌>>=◌
    scheduler_tick schedule o i = query_instance_state o i >>= λ state.
        if is_instance_active state
        then (schedule i >>= λ claims. spawn_all o 0 claims)
        else return tt
