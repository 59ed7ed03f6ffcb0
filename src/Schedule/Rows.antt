-- ===== src/Schedule/Rows.antt =====
-- The rows of app/scheduler.rs, and what a tick takes from outside.
use openclaw_rs.Base.{ℕ, ◌-◌, ◌^◌, String, Bool, none, some, List, if◌then◌else◌, ltb}
use openclaw_rs.Base.Int.{ℤ, pos, negsuc}
use openclaw_rs.Errors.{Result, ok, err, AppError, infra, database}
use openclaw_rs.Sql.{Fault}
use openclaw_rs.Payload.{Uuid, Time}
use openclaw_rs.Projection.Cycle.{CycleStatus, CycleRow}
use openclaw_rs.Projection.Task.{TaskRow}
use openclaw_rs.Projection.Run.{RunRow}
use openclaw_rs.Store.Rows.{EventRow}

-- A result of `i32` arithmetic, which wraps around.
abbrev pub wrap_i32 : ℤ → ℤ
wrap_i32 (pos n) = if ltb n (2 ^ 31) then pos n else negsuc (2 ^ 32 - 1 - n)
wrap_i32 (negsuc n) = if ltb n (2 ^ 31) then negsuc n else pos (2 ^ 32 - 1 - n)

-- `CapacityRow`, with the key of `orch_server_capacity`.
pub record CapacityRow : Type 0 where
  pub instance_id : Uuid
  pub active_runs : ℤ
  pub max_concurrent : ℤ

pub record ClaimableTask : Type 0 where
  pub id : Uuid
  pub cycle_id : Uuid
  pub current_attempt : ℕ
  pub cycle_state : CycleStatus

pub record ClaimResult : Type 0 where
  pub task_id : Uuid
  pub run_id : Uuid
  pub cycle_id : Uuid
  pub instance_id : Uuid
  pub run_number : ℤ
  pub worker_session_id : Uuid

-- The tables.
pub record Tables (V : Type 0) : Type 0 where
  pub capacity : List CapacityRow
  pub tasks : List (TaskRow V)
  pub cycles : List (CycleRow V)
  pub runs : List (RunRow V)
  pub events : List (EventRow V)

-- What a tick takes from outside: the clock; the ids of `Uuid::new_v4`, by the task's place in the tick
-- and the call's place in the loop; the rows that other transactions have locked; the two payloads;
-- and the database's answers. A refused statement ends the transaction whichever it is, so there is
-- one answer for the statements before the loop, one for each round of it, and one for the commit.
pub record Outside (V : Type 0) : Type 0 where
  pub now : Time
  pub new_v4 : ℕ → ℕ → Uuid
  pub is_locked : Uuid → Bool
  pub started_payload : Uuid → V
  pub claimed_payload : (run_id task_id cycle_id : Uuid) → ℤ → (worker_session_id : Uuid) → V
  pub duplicate : String
  pub opening : Fault
  pub round : ℕ → Fault
  pub commit : Fault

abbrev pub default_max_concurrent : ℤ
default_max_concurrent = pos 3

-- `.map_err(|e| AppError::Infra(InfraError::Database(…)))?`
unfoldable pub answer : Fault → Result AppError (Unit {0})
answer none = ok tt
answer (some message) = err (infra (database message))
