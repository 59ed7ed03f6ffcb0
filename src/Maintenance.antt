-- ===== src/Maintenance.antt =====
-- Maintenance of an instance: crates/openclaw-orchestrator/src/app/maintenance_service.rs, with the trait
-- `Projector` of app/projector.rs over the tables of the projectors.
pub mod Mode
pub mod Projectors
pub mod Rebuild
pub mod Guard
use openclaw_rs.Base.{
  ℕ, suc, ◌/◌, ◌%◌, ◌^◌, String, Bool, true, false, Option, none, some, List, [], ◌∷◌, ◌==◌, ◌&&◌,
  if◌then◌else◌, any, not, str_eq, length,
}
use openclaw_rs.Base.Int.{pos}
use openclaw_rs.Errors.{
  Result, ok, err, AppError, DomainError, domain, precondition, not_found, infra, database,
}
use openclaw_rs.Sql.{Fault, Outcome}
use openclaw_rs.Payload.{Uuid, Serde, EventEnvelope}
use openclaw_rs.Projection.Instance as InstanceTable
use openclaw_rs.Projection.Instance.{InstanceRow}
use openclaw_rs.Projection.Cycle as CycleTable
use openclaw_rs.Projection.Cycle.{CycleRow}
use openclaw_rs.Projection.Task as TaskTable
use openclaw_rs.Projection.Task.{TaskRow}
use openclaw_rs.Projection.Run as RunTable
use openclaw_rs.Projection.Run.{RunRow}
use openclaw_rs.Projection.Budget as BudgetTable
use openclaw_rs.Projection.Budget.Ledger.{LedgerRow}
use openclaw_rs.Schedule.Rows.{CapacityRow}
use openclaw_rs.Store as Store
use openclaw_rs.Store.Rows.{EventRow}
use openclaw_rs.Workers.Ticks.{state_text, state_of}
use openclaw_rs.Act.{Act, return, fail, query, ◌>>=◌}
use openclaw_rs.Wire.{Item, text, actor, Wire, Fresh, envelope, show_domain}
use openclaw_rs.Port.{EventStore, emit_event}
use Prim.Native.String.{◌++◌}

-- The tables that a rebuild reads or writes.
pub record Tables (V : Type 0) : Type 0 where
  pub capacity : List CapacityRow
  pub runs : List (RunRow V)
  pub tasks : List (TaskRow V)
  pub cycles : List (CycleRow V)
  pub instances : List (InstanceRow V)
  pub ledger : List LedgerRow

pub record Projector (V : Type 0) : Type 0 where
  pub handles : List String
  pub handle : EventEnvelope V → Fault → Tables V → Outcome (Tables V)

-- The answers of the database to the statements of a rebuild, in their order, and to the handlers, by
-- the places of the event and of the projector.
pub record RebuildAnswers : Type 0 where
  pub begin : Fault
  pub lock : Fault
  pub read : Fault
  pub capacity : Fault
  pub runs : Fault
  pub tasks : Fault
  pub cycles : Fault
  pub commit : Fault
  pub replay : Fault
  pub handle : ℕ → ℕ → Fault

unfoldable pub check_maintenance_mode : String → Option String → Bool
check_maintenance_mode state reason =
    str_eq state "blocked" && (elim reason [ none ↦ false | some r ↦ str_eq r "Maintenance" ])

-- DELETE FROM … WHERE instance_id = $1
unfoldable pub delete_where : {R : Type 0} → (R → Bool) → List R → List R
delete_where test [] = []
delete_where test (r ∷ rows) =
    let rest = delete_where test rows in if test r then rest else r ∷ rest

module _ {V : Type 0} where
  -- SELECT state, block_reason FROM orch_instances WHERE id = $1
  unfoldable pub maintenance_row : Uuid → List (InstanceRow V) → Option (String × Option String)
  unfolding state_text
  maintenance_row i [] = none
  maintenance_row i (r ∷ rows) =
      let rest = maintenance_row i rows in
      if r.id == i then some (state_text r.state, r.block_reason) else rest

  unfoldable pub truncated : Uuid → Tables V → Tables V
  unfolding delete_where
  truncated i db = record db {
    capacity = delete_where (λ c. c.instance_id == i) db.capacity;
    runs = delete_where (λ r. r.instance_id == i) db.runs;
    tasks = delete_where (λ t. t.instance_id == i) db.tasks;
    cycles = delete_where (λ c. c.instance_id == i) db.cycles;
  }

  -- Up to here a transaction has only been prepared: its effect comes with the commit.
  unfoldable pub commit : Fault → (Tables V → Tables V) → Act (Tables V) (Unit {0})
  commit none effect db = (effect db, ok tt)
  commit (some message) effect db = (db, err (infra (database message)))

  unfoldable pub run_projector : Projector V → EventEnvelope V → Fault → Act (Tables V) (Unit {0})
  run_projector p e fault db =
      let done = p.handle e fault db in
      if any (λ t. str_eq e.event_type t) p.handles then done else (db, ok tt)

  -- The inner loop, from projector `j` on.
  unfoldable pub dispatch :
      (ℕ → Fault) → ℕ → EventEnvelope V → List (Projector V) → Act (Tables V) (Unit {0})
  unfolding run_projector return ◌>>=◌
  dispatch faults j e [] = return tt
  dispatch faults j e (p ∷ ps) = run_projector p e (faults j) >>= λ _. dispatch faults (suc j) e ps

  -- The outer loop, from event `k` on.
  unfoldable pub replay_events :
      (ℕ → ℕ → Fault) → ℕ → List (EventEnvelope V) → List (Projector V) → Act (Tables V) (Unit {0})
  unfolding dispatch return ◌>>=◌
  replay_events faults k [] ps = return tt
  replay_events faults k (e ∷ es) ps =
      dispatch (faults k) 0 e ps >>= λ _. replay_events faults (suc k) es ps

module _ {V : Type 0} (W : Wire V) where
  unfoldable pub require_maintenance :
      {S : Type 0} → Uuid → Option (String × Option String) → Act S (Unit {0})
  unfolding check_maintenance_mode return fail
  require_maintenance i none = fail (domain (not_found "Instance" (W.show_uuid i)))
  require_maintenance i (some (state, reason)) =
      if check_maintenance_mode state reason
      then return tt
      else fail (domain (precondition "projection rebuild requires maintenance mode"))

  unfoldable pub from_store : {S A : Type 0} → Result DomainError A → Act S A
  unfolding show_domain return fail
  from_store (ok a) = return a
  from_store (err e) =
      fail (infra (database ("event store replay for rebuild: " ++ show_domain W e)))

  -- The replay, once the events are there; `events_replayed` is a `u64`.
  unfoldable pub rebuild_from :
      RebuildAnswers → List (Projector V) → List (EventEnvelope V) → Act (Tables V) ℕ
  unfolding replay_events return ◌>>=◌
  rebuild_from a projectors events =
      replay_events a.handle 0 events projectors >>= λ _. return (length events % 2 ^ 64)

  -- The transaction of the rebuild.
  unfoldable pub truncate_projections : RebuildAnswers → Uuid → Act (Tables V) (Unit {0})
  unfolding truncated commit query ◌>>=◌
  truncate_projections a i =
      query (λ e. "truncate orch_server_capacity: " ++ e) a.capacity tt >>= λ _.
      query (λ e. "truncate orch_runs: " ++ e) a.runs tt >>= λ _.
      query (λ e. "truncate orch_tasks: " ++ e) a.tasks tt >>= λ _.
      query (λ e. "truncate orch_cycles: " ++ e) a.cycles tt >>= λ _. commit a.commit (truncated i)

  unfoldable pub open_rebuild : RebuildAnswers → Uuid → Act (Tables V) (Unit {0})
  unfolding maintenance_row require_maintenance query ◌>>=◌
  open_rebuild a i db =
      (query (λ e. e) a.begin tt >>= λ _. query (λ e. e) a.lock tt >>= λ _.
      query (λ e. e) a.read (maintenance_row i db.instances) >>= λ row. require_maintenance i row)
        db

  unfoldable pub rebuild_projections :
      RebuildAnswers → List (Projector V) → List (EventRow V) → Uuid → Act (Tables V) ℕ
  unfolding open_rebuild truncate_projections from_store rebuild_from ◌>>=◌
  rebuild_projections a projectors stored i = open_rebuild a i >>= λ _.
      truncate_projections a i >>= λ _.
      from_store (Store.replay i (pos 0) a.replay stored) >>= λ events.
      rebuild_from a projectors events
