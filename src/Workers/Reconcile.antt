-- ===== src/Workers/Reconcile.antt =====
-- The reconciler, crates/openclaw-orchestrator/src/app/reconciler.rs.
use openclaw_rs.Base.{
  ℕ, suc, ◌+◌, ◌%◌, ◌^◌, String, Option, none, some, List, [], ◌∷◌, ◌==◌, ◌&&◌, ◌||◌, if◌then◌else◌,
}
use openclaw_rs.Errors.{Result, ok, err}
use openclaw_rs.Sql.{Fault}
use openclaw_rs.Payload.{Uuid, EventEnvelope}
use openclaw_rs.Projection.Run.{RunStatus, RunRow, is}
use openclaw_rs.Act.{Act, return, query, ◌>>=◌}
use openclaw_rs.Wire.{id, text, Wire, Fresh, envelope}
use openclaw_rs.Port.{EventStore, emit_event}
use openclaw_rs.Workers.{WorkerHandle, WorkerError}
use Prim.Native.String.{◌++◌}

pub record ActiveRun : Type 0 where
  pub id : Uuid
  pub task_id : Uuid
  pub instance_id : Uuid
  pub worker_session_id : Uuid
  pub state : RunStatus

module _ {V : Type 0} where
  -- SELECT … FROM orch_runs WHERE instance_id = $1 AND state IN ('running', 'claimed')
  unfoldable pub active_runs : Uuid → List (RunRow V) → List ActiveRun
  unfolding is
  active_runs i [] = []
  active_runs i (r ∷ rows) =
      let rest = active_runs i rows in
      if (r.instance_id == i) && (is r.state RunStatus.running || is r.state RunStatus.claimed)
      then record {
        id = r.id;
        task_id = r.task_id;
        instance_id = r.instance_id;
        worker_session_id = r.worker_session_id;
        state = r.state;
      }
        ∷ rest
      else rest

module _ {V : Type 0} (W : Wire V) where
  -- The key that the reconciler and the detection of stale claims share.
  unfoldable pub abandon_key : Uuid → String
  abandon_key run_id = "reconcile-abandon-" ++ W.show_uuid run_id

  unfoldable pub build_dead_worker_event : Fresh → ActiveRun → EventEnvelope V
  unfolding envelope abandon_key is
  build_dead_worker_event fresh run =
      if is run.state RunStatus.claimed
      then envelope fresh run.instance_id "RunFailed"
          (W.object (
            ("run_id", id run.id)
            ∷ ("task_id", id run.task_id)
            ∷ ("failure_category", text "SpawnFailure")
            ∷ (
              "error_message",
              text "worker not reachable after restart (claimed but never started)",
            )
            ∷ []))
          (abandon_key run.id)
      else envelope fresh run.instance_id "RunAbandoned"
          (W.object
            (("run_id", id run.id) ∷ ("reason", text "worker not reachable after restart") ∷ []))
          (abandon_key run.id)

  module _ (E : EventStore V) where
    -- One round of the loop; `abandoned_count` is a `u32`.
    unfoldable pub reconcile_run :
        Fresh → ActiveRun → ℕ → Result WorkerError (Option WorkerHandle) → Act E.State ℕ
    unfolding build_dead_worker_event emit_event return ◌>>=◌
    reconcile_run fresh run count (ok (some handle)) = return count
    reconcile_run fresh run count (ok none) =
        emit_event E W ("emit event for dead worker run " ++ W.show_uuid run.id ++ ": ")
          (build_dead_worker_event fresh run)
        >>= λ _. return ((count + 1) % 2 ^ 32)
    reconcile_run fresh run count (err e) = return count

    -- The loop of `reconcile_runs` from round `k` on, which returns the count at its end.
    unfoldable pub reconcile_runs :
        ((session_id run_id : Uuid) → Result WorkerError (Option WorkerHandle))
        → (ℕ → Fresh)
        → ℕ
        → ℕ
        → List ActiveRun
        → Act E.State ℕ
    unfolding reconcile_run return ◌>>=◌
    reconcile_runs reattach fresh k count [] = return count
    reconcile_runs reattach fresh k count (run ∷ runs) =
        reconcile_run (fresh k) run count (reattach run.worker_session_id run.id) >>= λ count.
        reconcile_runs reattach fresh (suc k) count runs

    unfoldable pub reconcile_active_runs :
        ((session_id run_id : Uuid) → Result WorkerError (Option WorkerHandle))
        → (ℕ → Fresh)
        → Fault
        → List (RunRow V)
        → Uuid
        → Act E.State ℕ
    unfolding active_runs query reconcile_runs ◌>>=◌
    reconcile_active_runs reattach fresh fault rows i =
        query (λ e. e) fault (active_runs i rows) >>= λ runs. reconcile_runs reattach fresh 0 0 runs
