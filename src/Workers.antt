-- ===== src/Workers.antt =====
-- Worker processes: crates/openclaw-orchestrator/src/domain/worker.rs, the port `WorkerManager` of
-- domain/ports.rs, and `spawn_worker` of app/worker_service.rs. What a worker manager answers is an
-- input: the processes are not modelled.
pub mod Reconcile
pub mod Ticks
pub mod Counted
pub mod Live
pub mod Over
pub mod Reported
pub mod Dead
pub mod Once
use openclaw_rs.Base.{ℕ, String, Option, none, some, List, [], ◌∷◌}
use openclaw_rs.Base.Int.{ℤ}
use openclaw_rs.Errors.{Result, ok, err, AppError, infra, io}
use openclaw_rs.Payload.{Uuid, EventEnvelope}
use openclaw_rs.Schedule.Rows.{ClaimResult}
use openclaw_rs.Act.{Act, return, fail, attempt, ◌>>=◌}
use openclaw_rs.Wire.{Item, id, text, Wire, Fresh, envelope}
use openclaw_rs.Port.{EventStore, emit_event}
use Prim.Native.String.{◌++◌}

-- The durations are in seconds; the environment is the map's insertions, in order.
pub record WorkerSpawnConfig : Type 0 where
  pub run_id : Uuid
  pub task_id : Uuid
  pub instance_id : Uuid
  pub session_id : Uuid
  pub prompt : String
  pub timeout : ℕ
  pub heartbeat_interval : ℕ
  pub worktree_path : String
  pub environment : List (String × String)

pub record WorkerHandle : Type 0 where
  pub session_id : Uuid
  pub run_id : Uuid
  pub log_stdout : String
  pub log_stderr : String

pub data WorkerError : Type 0 where
  spawn_failed : String → WorkerError
  not_found already_running : Uuid → WorkerError
  io_error : String → WorkerError

-- The answers to `spawn` and `reattach`, the two operations that the services call.
pub record WorkerManager : Type 0 where
  pub spawn : WorkerSpawnConfig → Result WorkerError WorkerHandle
  pub reattach : (session_id run_id : Uuid) → Result WorkerError (Option WorkerHandle)

abbrev default_timeout_secs : ℕ
default_timeout_secs = 3600

abbrev default_heartbeat_interval_secs : ℕ
default_heartbeat_interval_secs = 30

module _ {V : Type 0} (W : Wire V) where
  -- `Display` of `WorkerError`.
  unfoldable pub show_worker : WorkerError → String
  show_worker (spawn_failed message) = "worker spawn failed: " ++ message
  show_worker (not_found session) = "worker not found: " ++ W.show_uuid session
  show_worker (already_running session) = "worker already running: " ++ W.show_uuid session
  show_worker (io_error message) = "worker IO error: " ++ message

  unfoldable pub spawn_config : ClaimResult → String → String → WorkerSpawnConfig
  spawn_config claim prompt worktree_path = record {
    run_id = claim.run_id;
    task_id = claim.task_id;
    instance_id = claim.instance_id;
    session_id = claim.worker_session_id;
    prompt = prompt;
    timeout = default_timeout_secs;
    heartbeat_interval = default_heartbeat_interval_secs;
    worktree_path = worktree_path;
    environment =
        ("OPENCLAW_SESSION_ID", W.show_uuid claim.worker_session_id)
        ∷ ("OPENCLAW_RUN_ID", W.show_uuid claim.run_id)
        ∷ ("OPENCLAW_INSTANCE_ID", W.show_uuid claim.instance_id)
        ∷ [];
  }

  unfoldable pub started_event : Fresh → ClaimResult → WorkerHandle → EventEnvelope V
  unfolding envelope
  started_event fresh claim handle =
      envelope fresh claim.instance_id "RunStarted"
        (W.object (
          ("run_id", id claim.run_id)
          ∷ ("task_id", id claim.task_id)
          ∷ ("worker_session_id", id claim.worker_session_id)
          ∷ ("log_stdout", text handle.log_stdout)
          ∷ ("log_stderr", text handle.log_stderr)
          ∷ []))
        ("run-started-" ++ W.show_uuid claim.run_id)

  unfoldable pub spawn_failed_event : Fresh → ClaimResult → WorkerError → EventEnvelope V
  unfolding envelope show_worker
  spawn_failed_event fresh claim e =
      envelope fresh claim.instance_id "RunFailed"
        (W.object (
          ("run_id", id claim.run_id)
          ∷ ("task_id", id claim.task_id)
          ∷ ("failure_category", text "SpawnFailure")
          ∷ ("error_message", text (show_worker e))
          ∷ []))
        ("run-failed-" ++ W.show_uuid claim.run_id)

  unfoldable pub spawn_error : ClaimResult → WorkerError → AppError
  unfolding show_worker
  spawn_error claim e =
      infra
        (io ("worker spawn failed for run " ++ W.show_uuid claim.run_id ++ ": " ++ show_worker e))

  module _ (E : EventStore V) where
    -- What `spawn_worker` does with the answer of the worker manager.
    unfoldable pub spawned :
        Fresh → ClaimResult → Result WorkerError WorkerHandle → Act E.State (Unit {0})
    unfolding started_event spawn_failed_event ◌>>=◌ return fail attempt emit_event spawn_error
    spawned fresh claim (ok handle) =
        emit_event E W "emit RunStarted: " (started_event fresh claim handle)
    spawned fresh claim (err e) =
        attempt (emit_event E W "" (spawn_failed_event fresh claim e)) >>= λ _.
        fail (spawn_error claim e)

    unfoldable pub spawn_worker :
        WorkerManager → Fresh → ClaimResult → String → String → Act E.State (Unit {0})
    unfolding spawn_config spawned
    spawn_worker manager fresh claim prompt worktree_path =
        spawned fresh claim (manager.spawn (spawn_config claim prompt worktree_path))
