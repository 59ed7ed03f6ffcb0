-- ===== src/Workers/Live.antt =====
-- What `scheduler_tick` of app/tick_coordinator.rs does for the claims of the scheduler.
use openclaw_rs.Base.{
  ℕ, suc, String, ◌≡◌, refl, ◌⊎◌, inl, inr, true, none, some, List, [], ◌∷◌, All,
}
use openclaw_rs.Base.Int.{ℤ}
use openclaw_rs.Errors.{Result, ok, err, DomainError}
use openclaw_rs.Payload.{Uuid, EventEnvelope}
use openclaw_rs.Schedule.Rows.{ClaimResult}
use openclaw_rs.Act.{
  Act, Moves, Moves-return, Moves-fail, Moves-query, Moves-attempt, Moves-bind, return, fail, query,
  attempt, continue, ◌>>=◌,
}
use openclaw_rs.Wire.{Wire, Fresh, envelope}
use openclaw_rs.Port.Log.{has_key, Appends-has_key}
use openclaw_rs.Port.{
  EventStore, Grows, Grows-stay, Grows-join, mapped, emit_event, emit_event-Grows,
  emit_event-has_key,
}
use openclaw_rs.Workers.{
  WorkerHandle, WorkerError, started_event, spawn_failed_event, spawned, spawn_worker, spawn_error,
}
use openclaw_rs.Workers.Ticks.{
  TickInput, found, description_of, state_of, query_task_description, query_instance_state,
  is_instance_active, spawn_for_claim, spawn_all, scheduler_tick,
}
use openclaw_rs.Workers.Once.{found-Moves}
use Prim.Native.String.{◌++◌}

-- A store that refuses no event.
abbrev pub Accepts : {V : Type 0} → EventStore V → Type 0
Accepts {V} E = (e : EventEnvelope V) (s : E.State) → (n : ℤ) × ((E.emit e s).1 ≡ ok n)

module _ {V : Type 0} (W : Wire V) (E : EventStore V) where
  -- The events tell what came of the claim: its worker started, or it failed.
  abbrev pub Told : E.State → ClaimResult → Type 0
  Told s claim =
      (has_key claim.instance_id (some ("run-started-" ++ W.show_uuid claim.run_id)) (E.log s)
        ≡ true)
      ⊎ (has_key claim.instance_id (some ("run-failed-" ++ W.show_uuid claim.run_id)) (E.log s)
          ≡ true)

  Told-later :
      (a b : E.State) (claim : ClaimResult) → Grows E (λ r. Unit) a b → Told a claim → Told b claim
  Told-later a b claim g (inl h) = inl (Appends-has_key claim.instance_id _ g h)
  Told-later a b claim g (inr h) = inr (Appends-has_key claim.instance_id _ g h)

  mapped-accepts :
      (text : String) (p : E.State × Result DomainError ℤ)
      → (n : ℤ) × (p.1 ≡ ok n)
      → (mapped E W text p).1 ≡ ok tt
  unfolding mapped
  mapped-accepts text (s, ok n) h = refl
  mapped-accepts text (s, err x) (n, h) = absurd (cc)

  emitted :
      (text : String) (e : EventEnvelope V) (s : E.State)
      → Accepts E
      → (emit_event E W text e s).1 ≡ ok tt
  unfolding emit_event
  emitted text e s accepts = mapped-accepts text (E.emit e s) (accepts e s)

  any-Grows :
      (text : String) (e : EventEnvelope V) → Moves (Grows E (λ r. Unit)) (emit_event E W text e)
  any-Grows text e = emit_event-Grows E W text e (λ r. Unit) (λ r h. tt)

  spawned-Moves :
      (fresh : Fresh) (claim : ClaimResult) (answer : Result WorkerError WorkerHandle)
      → Moves (Grows E (λ r. Unit)) (spawned W E fresh claim answer)
  unfolding spawned
  spawned-Moves fresh claim (ok handle) = any-Grows _ _
  spawned-Moves fresh claim (err e) =
      Moves-bind (Grows E (λ r. Unit)) (Grows-join E (λ r. Unit)) _ _
        (Moves-attempt (Grows E (λ r. Unit)) (Grows-stay E (λ r. Unit)) _ (any-Grows _ _))
        (λ u. Moves-fail (Grows E (λ r. Unit)) (Grows-stay E (λ r. Unit)) (spawn_error W claim e))

  spawned-Told :
      (fresh : Fresh) (claim : ClaimResult) (answer : Result WorkerError WorkerHandle) (s : E.State)
      → Accepts E
      → Told (spawned W E fresh claim answer s).0 claim
  unfolding spawned started_event spawn_failed_event envelope attempt fail continue ◌>>=◌
  spawned-Told fresh claim (ok handle) s accepts = inl (
      emit_event-has_key E W _ (started_event W fresh claim handle) _ s refl
        (emitted _ _ s accepts))
  spawned-Told fresh claim (err e) s accepts = inr (
      emit_event-has_key E W _ (spawn_failed_event W fresh claim e) _ s refl
        (emitted _ _ s accepts))

  module _ (o : TickInput V) where
    description-Moves :
        (k : ℕ) (task_id i : Uuid)
        → Moves (Grows E (λ r. Unit)) (query_task_description W E o k task_id i)
    unfolding query_task_description
    description-Moves k task_id i =
        Moves-bind (Grows E (λ r. Unit)) (Grows-join E (λ r. Unit)) _ _
          (Moves-query (Grows E (λ r. Unit)) (Grows-stay E (λ r. Unit)) _ (o.tasks_fault k) _)
          (λ row. found-Moves (Grows E (λ r. Unit)) (Grows-stay E (λ r. Unit)) _ row)

    spawn-Moves :
        (fresh : Fresh) (claim : ClaimResult) (prompt path : String)
        → Moves (Grows E (λ r. Unit)) (spawn_worker W E o.manager fresh claim prompt path)
    unfolding spawn_worker
    spawn-Moves fresh claim prompt path = spawned-Moves fresh claim _

    for-Moves :
        (k : ℕ) (claim : ClaimResult) → Moves (Grows E (λ r. Unit)) (spawn_for_claim W E o k claim)
    unfolding spawn_for_claim
    for-Moves k claim =
        Moves-bind (Grows E (λ r. Unit)) (Grows-join E (λ r. Unit)) _ _
          (description-Moves k claim.task_id claim.instance_id)
          (λ prompt. spawn-Moves (o.fresh k) claim prompt _)

    -- The database answers, and the task of the claim is there.
    abbrev pub Described : ClaimResult → Type 0
    Described claim =
        (d : String) × (description_of claim.task_id claim.instance_id o.tasks ≡ some d)

    for-Told :
        (k : ℕ) (claim : ClaimResult) (s : E.State)
        → Accepts E
        → o.tasks_fault k ≡ none
        → Described claim
        → Told (spawn_for_claim W E o k claim s).0 claim
    unfolding spawn_for_claim query_task_description spawn_worker query found return continue ◌>>=◌
    for-Told k claim s accepts clear (d, h) =
        rw (clear, h) (spawned-Told (o.fresh k) claim _ s accepts)

    all-Moves :
        (k : ℕ) (claims : List ClaimResult) → Moves (Grows E (λ r. Unit)) (spawn_all W E o k claims)
    unfolding spawn_all
    all-Moves k [] = Moves-return (Grows E (λ r. Unit)) (Grows-stay E (λ r. Unit)) tt
    all-Moves k (claim ∷ claims) =
        Moves-bind (Grows E (λ r. Unit)) (Grows-join E (λ r. Unit)) _ _
          (Moves-attempt (Grows E (λ r. Unit)) (Grows-stay E (λ r. Unit)) _ (for-Moves k claim))
          (λ u. all-Moves (suc k) claims)

    All-Told :
        (k : ℕ) (claims : List ClaimResult) (s : E.State)
        → Accepts E
        → ((k : ℕ) → o.tasks_fault k ≡ none)
        → All Described claims
        → ((spawn_all W E o k claims s).1 ≡ ok tt)
          × All (Told (spawn_all W E o k claims s).0) claims
    unfolding spawn_all attempt return continue ◌>>=◌
    All-Told k [] s accepts clear h = (refl, tt)
    All-Told k (claim ∷ claims) s accepts clear (d, h) =
        let t = (spawn_for_claim W E o k claim s).0 in
        let (done, rest) = All-Told (suc k) claims t accepts clear h in
        (
          done,
          (
            Told-later t _ claim ((all-Moves (suc k) claims).moves t)
                (for-Told k claim s accepts (clear k) d),
            rest,
          ),
        )

-- When a scheduler tick finds its instance active, the scheduler gives claims, the tasks of the claims
-- are there, and the event store refuses nothing, the tick succeeds and the events then tell of every
-- claim that its worker started or that its run failed, whatever the worker manager answers to each:
-- a worker that does not start neither ends the tick nor leaves a later claim untold.
pub scheduler_tick-Told :
    {V : Type 0} (W : Wire V) (E : EventStore V) (o : TickInput V)
    (schedule : Uuid → Act E.State (List ClaimResult)) (i : Uuid) (s t : E.State)
    (claims : List ClaimResult)
    → Accepts E
    → o.instances_fault ≡ none
    → state_of i o.instances ≡ some "active"
    → schedule i s ≡ (t, ok claims)
    → ((k : ℕ) → o.tasks_fault k ≡ none)
    → All (Described W E o) claims
    → ((scheduler_tick W E schedule o i s).1 ≡ ok tt)
      × All (Told W E (scheduler_tick W E schedule o i s).0) claims
unfolding scheduler_tick query_instance_state query found return continue is_instance_active ◌>>=◌
scheduler_tick-Told W E o schedule i s t claims accepts answered active given clear described =
    rw (answered, active, given) (All-Told W E o 0 claims t accepts clear described)
