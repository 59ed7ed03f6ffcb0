-- ===== src/Workers/Counted.antt =====
-- What `reconcile_active_runs` of app/reconciler.rs has done when it succeeds.
use openclaw_rs.Base.{
  ℕ, suc, ◌+◌, ◌%◌, ◌^◌, ◌<◌, String, ◌≡◌, refl, ◌∙◌, Bool, true, false, Option, none, some, List,
  [], ◌∷◌, All, length, arith, if◌then◌else◌, Bool-cases, inl, inr, sym, subst, ap,
}
use openclaw_rs.Errors.{Result, ok, err}
use openclaw_rs.Sql.{Fault}
use openclaw_rs.Payload.{Uuid}
use openclaw_rs.Projection.Run.{RunRow}
use openclaw_rs.Act.{>>=-eq-ok, then_return-eq-ok, return, query, ◌>>=◌, continue}
use openclaw_rs.Wire.{Wire, Fresh}
use openclaw_rs.Port.Log.{has_key, Appends-has_key}
use openclaw_rs.Port.{EventStore, emit_event, emit_event-has_key}
use openclaw_rs.Workers.{WorkerHandle, WorkerError}
use openclaw_rs.Workers.Reconcile.{
  ActiveRun, active_runs, abandon_key, build_dead_worker_event, reconcile_run, reconcile_runs,
  reconcile_active_runs,
}
use Prim.Native.String.{◌++◌}
use openclaw_rs.Workers.Dead.{dead_names}
use openclaw_rs.Workers.Once.{reconcile_runs-Moves}

abbrev gone : Result WorkerError (Option WorkerHandle) → Bool
gone (ok none) = true
gone (ok (some handle)) = false
gone (err e) = false

-- The runs whose worker is gone, by the answers to `reattach`.
abbrev pub dead :
    ((session_id run_id : Uuid) → Result WorkerError (Option WorkerHandle))
    → List ActiveRun
    → List ActiveRun
dead reattach [] = []
dead reattach (run ∷ runs) =
    let rest = dead reattach runs in
    if gone (reattach run.worker_session_id run.id) then run ∷ rest else rest

All-unit : (runs : List ActiveRun) → All (λ r. Unit {0}) runs
All-unit [] = tt
All-unit (r ∷ runs) = (tt, All-unit runs)

module _ {V : Type 0} (W : Wire V) (E : EventStore V) where
  -- The instance of the run has the key that says that the run is over.
  abbrev pub Noted : E.State → ActiveRun → Type 0
  Noted s run = has_key run.instance_id (some (abandon_key W run.id)) (E.log s) ≡ true

  dead-key :
      (fresh : Fresh) (run : ActiveRun) (s : E.State) (text : String)
      → (emit_event E W text (build_dead_worker_event W fresh run) s).1 ≡ ok tt
      → Noted (emit_event E W text (build_dead_worker_event W fresh run) s).0 run
  dead-key fresh run s text h =
      let (own, key) = dead_names W run.instance_id fresh run in
      let e = build_dead_worker_event W fresh run in
      subst
        (λ j. has_key j (some (abandon_key W run.id)) (E.log (emit_event E W text e s).0) ≡ true)
        own (emit_event-has_key E W text e (abandon_key W run.id) s key h)

  -- One round: what it counts, and what it leaves of the run.
  round-ok :
      (fresh : Fresh) (run : ActiveRun) (count n : ℕ) (s : E.State)
      (answer : Result WorkerError (Option WorkerHandle))
      → (reconcile_run W E fresh run count answer s).1 ≡ ok n
      → (n ≡ (if gone answer then (count + 1) % 2 ^ 32 else count))
        × (gone answer ≡ true → Noted (reconcile_run W E fresh run count answer s).0 run)
  unfolding reconcile_run return
  round-ok fresh run count n s (ok (some handle)) h = (cc, λ no. absurd (cc))
  round-ok fresh run count n s (err e) h = (cc, λ no. absurd (cc))
  round-ok fresh run count n s (ok none) h =
      let message = "emit event for dead worker run " ++ W.show_uuid run.id ++ ": " in
      let m = emit_event E W message (build_dead_worker_event W fresh run) in
      let (done, counted, state) = then_return-eq-ok m ((count + 1) % 2 ^ 32) n s h in
      (counted, λ hit. subst (λ t. Noted t run) (sym state) (dead-key fresh run s message done))

  stays :
      (reattach : (session_id run_id : Uuid) → Result WorkerError (Option WorkerHandle))
      (fresh : ℕ → Fresh) (k count : ℕ) (runs : List ActiveRun) (s : E.State) (run : ActiveRun)
      → Noted s run
      → Noted (reconcile_runs W E reattach fresh k count runs s).0 run
  stays reattach fresh k count runs s run h =
      Appends-has_key run.instance_id (some (abandon_key W run.id))
        ((reconcile_runs-Moves W E (λ r. Unit) (λ r. Unit) (λ f r t q g. tt) reattach fresh k count
            runs (All-unit runs)).moves
          s)
        h

  small_if : (b : Bool) (n : ℕ) → n < 2 ^ 32 → (if b then (n + 1) % 2 ^ 32 else n) < 2 ^ 32
  small_if true n h = omega arith
  small_if false n h = h

  -- The loop, from any round and count on.
  loop-ok :
      (reattach : (session_id run_id : Uuid) → Result WorkerError (Option WorkerHandle))
      (fresh : ℕ → Fresh) (k count : ℕ) (runs : List ActiveRun) (n : ℕ) (s : E.State)
      → count < 2 ^ 32
      → (reconcile_runs W E reattach fresh k count runs s).1 ≡ ok n
      → (n ≡ (count + length (dead reattach runs)) % 2 ^ 32)
        × All (Noted (reconcile_runs W E reattach fresh k count runs s).0) (dead reattach runs)
  unfolding reconcile_runs return
  loop-ok reattach fresh k count [] n s small h =
      let same : n ≡ count = cc in (omega (arith, same, small), tt)
  loop-ok reattach fresh k count (run ∷ runs) n s small h =
      let answer = reattach run.worker_session_id run.id in
      let c =
        >>=-eq-ok (reconcile_run W E (fresh k) run count answer)
          (λ m. reconcile_runs W E reattach fresh (suc k) m runs) s n h in
      let (counted, noted) = round-ok (fresh k) run count c.value s answer (rw c.first refl) in
      let bound : c.value < 2 ^ 32 = rw counted (small_if (gone answer) count small) in
      let (sum, rest) = loop-ok reattach fresh (suc k) c.value runs n c.middle bound c.second in
      let skipped : gone answer ≡ false → c.value ≡ count = λ b. counted ∙ rw b refl in
      let added : gone answer ≡ true → c.value ≡ (count + 1) % 2 ^ 32 = λ b. counted ∙ rw b refl in
      elim (Bool-cases (gone answer)) [
        | inr alive ↦ rw alive (
          omega (arith, sum, skipped alive),
          subst (λ t. All (Noted t) (dead reattach runs)) (sym c.state) rest,
        )
        | inl lost ↦ rw lost (
          omega (arith, sum, added lost),
          (
            subst (λ t. Noted t run) (sym c.state)
                (stays reattach fresh (suc k) c.value runs c.middle run
                  (subst (λ t. Noted t run) (ap (λ p. p.0) c.first) (noted lost))),
            subst (λ t. All (Noted t) (dead reattach runs)) (sym c.state) rest,
          ),
        )
      ]

-- When the reconciliation of an instance succeeds, its count is the number of the active runs whose
-- worker is gone, modulo 2^32, and each of these runs has a report under its key in the events,
-- whatever the event store and the other workers answer.
pub reconcile_active_runs-counts :
    {V : Type 0} (W : Wire V) (E : EventStore V)
    (reattach : (session_id run_id : Uuid) → Result WorkerError (Option WorkerHandle))
    (fresh : ℕ → Fresh) (fault : Fault) (rows : List (RunRow V)) (i : Uuid) (n : ℕ) (s : E.State)
    → (reconcile_active_runs W E reattach fresh fault rows i s).1 ≡ ok n
    → (n ≡ length (dead reattach (active_runs i rows)) % 2 ^ 32)
      × All
          (Noted W E (reconcile_active_runs W E reattach fresh fault rows i s).0)
          (dead reattach (active_runs i rows))
unfolding reconcile_active_runs query ◌>>=◌ continue
reconcile_active_runs-counts W E reattach fresh none rows i n s h =
    let (sum, noted) = loop-ok W E reattach fresh 0 0 (active_runs i rows) n s (omega arith) h in
    (omega (arith, sum), noted)
reconcile_active_runs-counts W E reattach fresh (some m) rows i n s h = absurd (cc)
