-- ===== src/States/Laws/Completion.antt =====
-- The sequences of triggers by which a cycle is completed.
use openclaw_rs.Base.{String, ◌≡◌, refl, ap, List, [], ◌∷◌, ◌++◌, ◌↔◌}
use openclaw_rs.Errors.{ok, ◌>>=◌}
use openclaw_rs.States.Debug.{Debug}
use openclaw_rs.States.Cycle
use openclaw_rs.States.Cycle.{CycleState, CycleTrigger}
use openclaw_rs.States.Laws.Histories.{drive}

-- Blocks of a running cycle, each lifted.
pub data Pauses : List CycleTrigger → Type 0 where
  no_pause : Pauses []
  pause :
      (reason : String) (ts : List CycleTrigger)
      → Pauses ts
      → Pauses (CycleTrigger.block reason ∷ CycleTrigger.unblock ∷ ts)

abbrev pub closing : List CycleTrigger
closing = CycleTrigger.begin_completing ∷ CycleTrigger.complete ∷ []

abbrev pub opening : List CycleTrigger → List CycleTrigger
opening rest =
    CycleTrigger.plan_requested ∷ CycleTrigger.plan_generated ∷ CycleTrigger.plan_approved
    ∷ CycleTrigger.start ∷ rest

module _ (d : Debug CycleState CycleTrigger) where
  abbrev Completes : CycleState → List CycleTrigger → Type 0
  Completes s ts = drive (Cycle.transition d) s ts ≡ ok CycleState.completed

  failed_for_good : (r : String) (ts : List CycleTrigger) → Completes (CycleState.failed r) ts → ⊥
  unfolding drive ◌>>=◌ Cycle.transition
  failed_for_good r [] h = cc
  failed_for_good r (t ∷ ts) h = cc

  cancelled_for_good :
      (r : String) (ts : List CycleTrigger) → Completes (CycleState.cancelled r) ts → ⊥
  unfolding drive ◌>>=◌ Cycle.transition
  cancelled_for_good r [] h = cc
  cancelled_for_good r (t ∷ ts) h = cc

  from_completed : (ts : List CycleTrigger) → Completes CycleState.completed ts → ts ≡ []
  unfolding drive ◌>>=◌ Cycle.transition
  from_completed [] h = refl
  from_completed (t ∷ ts) h = cc

  from_completing :
      (ts : List CycleTrigger)
      → Completes CycleState.completing ts
      → ts ≡ CycleTrigger.complete ∷ []
  unfolding drive ◌>>=◌ Cycle.transition
  from_completing [] h = cc
  from_completing (CycleTrigger.complete ∷ ts) h =
      ap (λ us. CycleTrigger.complete ∷ us) (from_completed ts h)
  from_completing (CycleTrigger.fail r ∷ ts) h = absurd (failed_for_good r ts h)
  from_completing (_ ∷ ts) h = cc

  abbrev Paused : List CycleTrigger → Type 0
  Paused ts = (ps : List CycleTrigger) × Pauses ps × (ts ≡ ps ++ closing)

  add_pause :
      (r : String) (ts : List CycleTrigger)
      → Paused ts
      → Paused (CycleTrigger.block r ∷ CycleTrigger.unblock ∷ ts)
  add_pause r ts (ps, p, e) = (
    CycleTrigger.block r ∷ CycleTrigger.unblock ∷ ps,
    pause r ps p,
    ap (λ us. CycleTrigger.block r ∷ CycleTrigger.unblock ∷ us) e,
  )

  from_running : (ts : List CycleTrigger) → Completes CycleState.running ts → Paused ts
  unfolding drive ◌>>=◌ Cycle.transition
  from_running [] h = cc
  from_running (CycleTrigger.begin_completing ∷ ts) h =
      ([], no_pause, ap (λ us. CycleTrigger.begin_completing ∷ us) (from_completing ts h))
  from_running (CycleTrigger.fail r ∷ ts) h = absurd (failed_for_good r ts h)
  from_running (CycleTrigger.cancel r ∷ ts) h = absurd (cancelled_for_good r ts h)
  from_running (CycleTrigger.block r ∷ []) h = absurd (cc)
  from_running (CycleTrigger.block r ∷ CycleTrigger.unblock ∷ ts) h =
      add_pause r ts (from_running ts h)
  from_running (CycleTrigger.block r ∷ _ ∷ ts) h = absurd (cc)
  from_running (_ ∷ ts) h = absurd (cc)

  from_approved :
      (ts : List CycleTrigger)
      → Completes CycleState.approved ts
      → (us : List CycleTrigger) × (ts ≡ CycleTrigger.start ∷ us) × Paused us
  unfolding drive ◌>>=◌ Cycle.transition
  from_approved [] h = absurd (cc)
  from_approved (CycleTrigger.start ∷ ts) h = (ts, refl, from_running ts h)
  from_approved (_ ∷ ts) h = absurd (cc)

  from_plan_ready :
      (ts : List CycleTrigger)
      → Completes CycleState.plan_ready ts
      → (us : List CycleTrigger) × (ts ≡ CycleTrigger.plan_approved ∷ CycleTrigger.start ∷ us)
        × Paused us
  unfolding drive ◌>>=◌ Cycle.transition
  from_plan_ready [] h = absurd (cc)
  from_plan_ready (CycleTrigger.plan_approved ∷ ts) h =
      let (us, e, p) = from_approved ts h in (us, ap (λ vs. CycleTrigger.plan_approved ∷ vs) e, p)
  from_plan_ready (CycleTrigger.cancel r ∷ ts) h = absurd (cancelled_for_good r ts h)
  from_plan_ready (_ ∷ ts) h = absurd (cc)

  from_planning :
      (ts : List CycleTrigger)
      → Completes CycleState.planning ts
      → (us : List CycleTrigger) × (ts
          ≡ CycleTrigger.plan_generated ∷ CycleTrigger.plan_approved ∷ CycleTrigger.start ∷ us)
        × Paused us
  unfolding drive ◌>>=◌ Cycle.transition
  from_planning [] h = absurd (cc)
  from_planning (CycleTrigger.plan_generated ∷ ts) h =
      let (us, e, p) = from_plan_ready ts h in
      (us, ap (λ vs. CycleTrigger.plan_generated ∷ vs) e, p)
  from_planning (CycleTrigger.fail r ∷ ts) h = absurd (failed_for_good r ts h)
  from_planning (_ ∷ ts) h = absurd (cc)

  running-Pauses :
      (ps : List CycleTrigger) → Pauses ps → Completes CycleState.running (ps ++ closing)
  unfolding drive ◌>>=◌ Cycle.transition
  running-Pauses _ no_pause = refl
  running-Pauses _ (pause r ts p) = running-Pauses ts p

  -- The triggers that take a created cycle to completed, each accepted, are exactly these: request,
  -- generation and approval of a plan, start, then blocks that are each lifted at once by an
  -- unblock, then the beginning and the end of completion.
  pub completed_iff :
      (ts : List CycleTrigger)
      → (drive (Cycle.transition d) CycleState.created ts ≡ ok CycleState.completed)
        ↔ ((ps : List CycleTrigger) × Pauses ps × (ts ≡ opening (ps ++ closing)))
  unfolding drive ◌>>=◌ Cycle.transition
  completed_iff ts = (forth ts, λ (ps, p, e). rw e (running-Pauses ps p))
    where
      forth :
          (ts : List CycleTrigger)
          → Completes CycleState.created ts
          → (ps : List CycleTrigger) × Pauses ps × (ts ≡ opening (ps ++ closing))
      forth [] h = absurd (cc)
      forth (CycleTrigger.plan_requested ∷ ts) h =
          let (us, e, (ps, p, f)) = from_planning ts h in (ps, p, cc)
      forth (_ ∷ ts) h = absurd (cc)
