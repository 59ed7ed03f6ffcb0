-- ===== src/Workers/Once.antt =====
-- Ticks of the reconciler, app/reconciler.rs and app/tick_coordinator.rs: what they add to the events.
use openclaw_rs.Base.{
  ℕ, suc, String, inl, inr, Bool, true, false, Option, none, some, List, [], ◌∷◌, All,
  if◌then◌else◌,
}
use openclaw_rs.Errors.{infra, database, Result, ok, err}
use openclaw_rs.Payload.{Uuid, EventEnvelope}
use openclaw_rs.Act.{
  Act, Moves, Moves-return, Moves-fail, Moves-query, Moves-attempt, Moves-bind, Moves-query-bind,
}
use openclaw_rs.Wire.{Wire, Fresh}
use openclaw_rs.Port.Log.{Records}
use openclaw_rs.Port.{EventStore, Grows, Grows-stay, Grows-join, emit_event-Grows}
use openclaw_rs.Workers.{WorkerHandle, WorkerError}
use openclaw_rs.Workers.Reconcile.{
  ActiveRun, build_dead_worker_event, reconcile_run, reconcile_runs, reconcile_active_runs,
}
use openclaw_rs.Workers.Ticks.{
  StaleClaim, TickInput, build_stale_claim_event, found, query_instance_state, detect_stale_claims,
  fail_stale, reconcile_in, reconciler_tick, is_maintenance_mode, is_instance_active,
}
use openclaw_rs.Workers.Dead.{
  ReportsOne, Taken, Stale, active_runs-Taken, stale_claims-Stale, dead-ReportsIn, Stale-ReportsIn,
}

pub found-Moves :
    {S A : Type 0} (R : S → S → Type 0) (stay : (s : S) → R s s) (message : String) (row : Option A)
    → Moves R (found message row)
unfolding found
found-Moves R stay message none = Moves-fail R stay (infra (database message))
found-Moves R stay message (some a) = Moves-return R stay a

-- The loop of the reconciler adds events that satisfy `P`, if the events of runs that satisfy `Q` do.
module _ {V : Type 0} (W : Wire V) (E : EventStore V) (P : EventEnvelope V → Type 0)
    (Q : ActiveRun → Type 0)
    (holds : (fresh : Fresh) (run : ActiveRun) (r : EventEnvelope V)
      → Q run
      → Records (build_dead_worker_event W fresh run) r
      → P r) where
  run-Moves :
      (run : ActiveRun) (fresh : Fresh) (count : ℕ)
      (answer : Result WorkerError (Option WorkerHandle))
      → Q run
      → Moves (Grows E P) (reconcile_run W E fresh run count answer)
  unfolding reconcile_run
  run-Moves run fresh count (ok (some handle)) q = Moves-return (Grows E P) (Grows-stay E P) count
  run-Moves run fresh count (err e) q = Moves-return (Grows E P) (Grows-stay E P) count
  run-Moves run fresh count (ok none) q =
      Moves-bind (Grows E P) (Grows-join E P) _ _
        (emit_event-Grows E W _ (build_dead_worker_event W fresh run) P
          (λ r h. holds fresh run r q h))
        (λ u. Moves-return (Grows E P) (Grows-stay E P) _)

  pub reconcile_runs-Moves :
      (reattach : (session_id run_id : Uuid) → Result WorkerError (Option WorkerHandle))
      (fresh : ℕ → Fresh) (k count : ℕ) (runs : List ActiveRun)
      → All Q runs
      → Moves (Grows E P) (reconcile_runs W E reattach fresh k count runs)
  unfolding reconcile_runs
  reconcile_runs-Moves reattach fresh k count [] h = Moves-return (Grows E P) (Grows-stay E P) count
  reconcile_runs-Moves reattach fresh k count (run ∷ runs) (q, h) =
      Moves-bind (Grows E P) (Grows-join E P) _ _ (run-Moves run (fresh k) count _ q)
        (λ n. reconcile_runs-Moves reattach fresh (suc k) n runs h)

-- A tick adds events that satisfy `P`, if the reports of dead runs and of stale claims do.
module _ {V : Type 0} (W : Wire V) (i : Uuid) (E : EventStore V) (o : TickInput V)
    (P : EventEnvelope V → Type 0)
    (dead : (fresh : Fresh) (run : ActiveRun) (r : EventEnvelope V)
      → Taken i o.runs run
      → Records (build_dead_worker_event W fresh run) r
      → P r)
    (late : (fresh : Fresh) (stale : StaleClaim) (r : EventEnvelope V)
      → Stale i o.later_runs stale
      → Records (build_stale_claim_event W fresh stale) r
      → P r) where
  abbrev Step : {A : Type 0} → Act E.State A → Type 0
  Step m = Moves (Grows E P) m

  active-Step : Step (reconcile_active_runs W E o.manager.reattach o.fresh o.runs_fault o.runs i)
  unfolding reconcile_active_runs
  active-Step =
      Moves-query-bind (Grows E P) (Grows-stay E P) _ o.runs_fault _
        (reconcile_runs W E o.manager.reattach o.fresh 0 0)
        (reconcile_runs-Moves W E P (Taken i o.runs) dead o.manager.reattach o.fresh 0 0 _
          (active_runs-Taken i o.runs))

  stale-Step :
      (fresh : ℕ → Fresh) (k : ℕ) (claims : List StaleClaim)
      → All (Stale i o.later_runs) claims
      → Step (fail_stale W E fresh k claims)
  unfolding fail_stale
  stale-Step fresh k [] h = Moves-return (Grows E P) (Grows-stay E P) tt
  stale-Step fresh k (stale ∷ claims) (t, h) =
      Moves-bind (Grows E P) (Grows-join E P) _ _
        (Moves-attempt (Grows E P) (Grows-stay E P) _ (
          emit_event-Grows E W "" (build_stale_claim_event W (fresh k) stale) P
            (λ r got. late (fresh k) stale r t got)))
        (λ u. stale-Step fresh (suc k) claims h)

  if-Step :
      {A : Type 0} (b : Bool) (m n : Act E.State A) → Step m → Step n → Step (if b then m else n)
  if-Step true m n p q = p
  if-Step false m n p q = q

  in-Step : (state : String) → Step (reconcile_in W E o i state)
  unfolding reconcile_in detect_stale_claims
  in-Step state =
      if-Step (is_maintenance_mode state) _ _
        (Moves-bind (Grows E P) (Grows-join E P) _ _
          (Moves-attempt (Grows E P) (Grows-stay E P) _
            (Moves-query (Grows E P) (Grows-stay E P) _ o.later_runs_fault _))
          (λ u. Moves-return (Grows E P) (Grows-stay E P) tt))
        (if-Step (is_instance_active state) _ _
          (Moves-bind (Grows E P) (Grows-join E P) _ _ active-Step (λ n.
            Moves-query-bind (Grows E P) (Grows-stay E P) _ o.later_runs_fault _
              (fail_stale W E o.later_fresh 0)
              (stale-Step o.later_fresh 0 _ (stale_claims-Stale i o.now o.later_runs))))
          (Moves-return (Grows E P) (Grows-stay E P) tt))

  pub tick-Step : Step (reconciler_tick W E o i)
  unfolding reconciler_tick query_instance_state
  tick-Step =
      Moves-bind (Grows E P) (Grows-join E P) _ _
        (Moves-bind (Grows E P) (Grows-join E P) _ _
          (Moves-query (Grows E P) (Grows-stay E P) _ o.instances_fault _)
          (λ row. found-Moves (Grows E P) (Grows-stay E P) _ row))
        in-Step

-- Whatever the database, the worker manager and the clock answer, a tick of the reconciler adds to the
-- events of any event store only reports on runs of its instance: RunFailed for one whose row is
-- claimed and RunAbandoned for one whose row is running, each under the key of its run, which no
-- event of the instance had before.
pub reconciler_tick-Grows :
    {V : Type 0} (W : Wire V) (E : EventStore V) (o : TickInput V) (i : Uuid) (s : E.State)
    → Grows E (ReportsOne W o i) s (reconciler_tick W E o i s).0
reconciler_tick-Grows W E o i s =
    (tick-Step W i E o (ReportsOne W o i)
        (λ fresh run r t h.
          let (row, mem, reports) = dead-ReportsIn W i fresh o.runs run r t h in
          (row, inl mem, reports))
        (λ fresh stale r t h.
          let (row, mem, reports) = Stale-ReportsIn W i fresh o.later_runs stale r t h in
          (row, inr mem, reports))).moves
      s
