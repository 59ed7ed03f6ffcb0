-- ===== src/Projection/Cycle/Laws.antt =====
-- The cycle projector against `CycleState` of domain/states.rs: what it does to a row is a transition.
use openclaw_rs.Base.{
  ℕ, String, ◌≡◌, refl, ◌⊎◌, inl, inr, true, Option, none, some, List, arith, get_elem?,
  match_str-elim, done, ◌also◌,
}
use openclaw_rs.Errors.{AppError, ok, err}
use openclaw_rs.States.Debug.{Debug}
use openclaw_rs.States.Cycle
use openclaw_rs.States.Cycle.{CycleState, CycleTrigger}
use openclaw_rs.Sql.{Fault, ignore}
use openclaw_rs.Sql.Rows.{Evolves}
use openclaw_rs.Sql.Handlers.{
  Yields, Yields-bind, Yields-update, Yields-insert, Handles, submit-Handles, ignore-Handles,
  deliver, deliver-frozen,
}
use openclaw_rs.Payload.{Serde, EventEnvelope, reason_field}
use openclaw_rs.Projection.Cycle.{
  CycleStatus, created, planning, plan_ready, approved, running, blocked, completing, completed,
  failed, cancelled, is, CycleRow, cycle_created, plan_requested, plan_generated, plan_approved,
  plan_generation_failed, cycle_running_started, cycle_completing, cycle_blocked, cycle_unblocked,
  cycle_completed, cycle_failed, cycle_cancelled, arms, handle,
}

abbrev text_of : Option String → String
text_of none = ""
text_of (some s) = s

abbrev state_of : CycleStatus → (block failure cancel : Option String) → CycleState
state_of created b f c = CycleState.created
state_of planning b f c = CycleState.planning
state_of plan_ready b f c = CycleState.plan_ready
state_of approved b f c = CycleState.approved
state_of running b f c = CycleState.running
state_of blocked b f c = CycleState.blocked (text_of b)
state_of completing b f c = CycleState.completing
state_of completed b f c = CycleState.completed
state_of failed b f c = CycleState.failed (text_of f)
state_of cancelled b f c = CycleState.cancelled (text_of c)

-- The state of the domain that a row stands for.
abbrev pub abstract : {V : Type 0} → CycleRow V → CycleState
abstract r = state_of r.state r.block_reason r.failure_reason r.cancel_reason

-- The columns that no event changes.
abbrev pub SameRow : {V : Type 0} → CycleRow V → CycleRow V → Type 0
SameRow r s =
    (s.id ≡ r.id)
    × (s.instance_id ≡ r.instance_id)
    × (s.prompt ≡ r.prompt)
    × (s.created_at ≡ r.created_at)

module _ (d : Debug CycleState CycleTrigger) where
  -- A row is left alone, or makes one transition of the state machine and keeps those columns.
  abbrev pub Step : {V : Type 0} → CycleRow V → CycleRow V → Type 0
  Step r s =
      (s ≡ r)
      ⊎ ((t : CycleTrigger) × (Cycle.transition d (abstract r) t ≡ ok (abstract s)) × SameRow r s)

  -- A new row stands for the state in which the machine starts.
  abbrev pub Born : {V : Type 0} → CycleRow V → Type 0
  Born r = abstract r ≡ CycleState.created

  stay : {V : Type 0} (r : CycleRow V) → Step r r
  stay r = inl refl

  -- A terminal row has no step but to stay.
  fixed : {V : Type 0} (r s : CycleRow V) → Step r s → Cycle.is_terminal (abstract r) ≡ true → s ≡ r
  unfolding Cycle.transition Cycle.is_terminal
  fixed r s (inl same) h = same
  fixed r s (inr (t, moved, kept)) h = ground arith

module _ (J : Serde) (d : Debug CycleState CycleTrigger) (e : EventEnvelope (Serde.Value J)) where
  cycle_created-Yields : Yields (Step d) (Born d) (cycle_created J e)
  unfolding cycle_created
  cycle_created-Yields =
      Yields-bind _ _ λ cycle_id. Yields-bind _ _ λ prompt. Yields-insert (stay d) _ _ refl

  plan_requested-Yields : Yields (Step d) (Born d) (plan_requested J e)
  unfolding plan_requested is Cycle.transition
  plan_requested-Yields = Yields-bind _ _ λ cycle_id.
      Yields-update (stay d) _ _
        (λ r h. inr (CycleTrigger.plan_requested, ground arith, (refl, refl, refl, refl)))
        (λ r h. ground arith)

  plan_generated-Yields : Yields (Step d) (Born d) (plan_generated J e)
  unfolding plan_generated is Cycle.transition
  plan_generated-Yields = Yields-bind _ _ λ cycle_id. Yields-bind _ _ λ plan.
      Yields-update (stay d) _ _
        (λ r h. inr (CycleTrigger.plan_generated, ground arith, (refl, refl, refl, refl)))
        (λ r h. ground arith)

  plan_approved-Yields : Yields (Step d) (Born d) (plan_approved J e)
  unfolding plan_approved is Cycle.transition
  plan_approved-Yields = Yields-bind _ _ λ cycle_id.
      Yields-update (stay d) _ _
        (λ r h. inr (CycleTrigger.plan_approved, ground arith, (refl, refl, refl, refl)))
        (λ r h. ground arith)

  plan_generation_failed-Yields : Yields (Step d) (Born d) (plan_generation_failed J e)
  unfolding plan_generation_failed is Cycle.transition
  plan_generation_failed-Yields = Yields-bind _ _ λ cycle_id.
      Yields-update (stay d) _ _
        (λ r h. inr (
          CycleTrigger.fail (reason_field J "reason" e.payload),
          ground arith,
          (refl, refl, refl, refl),
        ))
        (λ r h. ground arith)

  cycle_running_started-Yields : Yields (Step d) (Born d) (cycle_running_started J e)
  unfolding cycle_running_started is Cycle.transition
  cycle_running_started-Yields = Yields-bind _ _ λ cycle_id.
      Yields-update (stay d) _ _
        (λ r h. inr (CycleTrigger.start, ground arith, (refl, refl, refl, refl)))
        (λ r h. ground arith)

  cycle_completing-Yields : Yields (Step d) (Born d) (cycle_completing J e)
  unfolding cycle_completing is Cycle.transition
  cycle_completing-Yields = Yields-bind _ _ λ cycle_id.
      Yields-update (stay d) _ _
        (λ r h. inr (CycleTrigger.begin_completing, ground arith, (refl, refl, refl, refl)))
        (λ r h. ground arith)

  cycle_blocked-Yields : Yields (Step d) (Born d) (cycle_blocked J e)
  unfolding cycle_blocked is Cycle.transition
  cycle_blocked-Yields = Yields-bind _ _ λ cycle_id.
      Yields-update (stay d) _ _
        (λ r h. inr (
          CycleTrigger.block (reason_field J "reason" e.payload),
          ground arith,
          (refl, refl, refl, refl),
        ))
        (λ r h. ground arith)

  cycle_unblocked-Yields : Yields (Step d) (Born d) (cycle_unblocked J e)
  unfolding cycle_unblocked is Cycle.transition
  cycle_unblocked-Yields = Yields-bind _ _ λ cycle_id.
      Yields-update (stay d) _ _
        (λ r h. inr (CycleTrigger.unblock, ground arith, (refl, refl, refl, refl)))
        (λ r h. ground arith)

  cycle_completed-Yields : Yields (Step d) (Born d) (cycle_completed J e)
  unfolding cycle_completed is Cycle.transition
  cycle_completed-Yields = Yields-bind _ _ λ cycle_id.
      Yields-update (stay d) _ _
        (λ r h. inr (CycleTrigger.complete, ground arith, (refl, refl, refl, refl)))
        (λ r h. ground arith)

  cycle_failed-Yields : Yields (Step d) (Born d) (cycle_failed J e)
  unfolding cycle_failed is Cycle.transition
  cycle_failed-Yields = Yields-bind _ _ λ cycle_id.
      Yields-update (stay d) _ _
        (λ r h. inr (
          CycleTrigger.fail (reason_field J "reason" e.payload),
          ground arith,
          (refl, refl, refl, refl),
        ))
        (λ r h. ground arith)

  cycle_cancelled-Yields : Yields (Step d) (Born d) (cycle_cancelled J e)
  unfolding cycle_cancelled is Cycle.transition
  cycle_cancelled-Yields = Yields-bind _ _ λ cycle_id.
      Yields-update (stay d) _ _
        (λ r h. inr (
          CycleTrigger.cancel (reason_field J "reason" e.payload),
          ground arith,
          (refl, refl, refl, refl),
        ))
        (λ r h. ground arith)

  -- Every arm is sound, so the `match` is.
  pub handle-Handles : Handles (Step d) (Born d) (handle J e)
  unfolding handle
  handle-Handles =
      match_str-elim (Handles (Step d) (Born d)) e.event_type (arms J e) ignore
        (submit-Handles (stay d) _ cycle_created-Yields
          also submit-Handles (stay d) _ plan_requested-Yields
          also submit-Handles (stay d) _ plan_generated-Yields
          also submit-Handles (stay d) _ plan_approved-Yields
          also submit-Handles (stay d) _ plan_generation_failed-Yields
          also submit-Handles (stay d) _ cycle_running_started-Yields
          also submit-Handles (stay d) _ cycle_completing-Yields
          also submit-Handles (stay d) _ cycle_blocked-Yields
          also submit-Handles (stay d) _ cycle_unblocked-Yields
          also submit-Handles (stay d) _ cycle_completed-Yields
          also submit-Handles (stay d) _ cycle_failed-Yields
          also submit-Handles (stay d) _ cycle_cancelled-Yields
          also done)
        (ignore-Handles (stay d))

  -- Whatever the event and whatever the database answers, the cycle projector leaves each row
  -- alone or moves it by one transition that `CycleState::transition` allows, keeping the columns
  -- of `SameRow`; it adds at most one row, at the end, which stands for the state `created`.
  pub cycle_handle-Evolves :
      (fault : Fault) (rows : List (CycleRow (Serde.Value J)))
      → Evolves (Step d) (Born d) rows (handle J e fault rows).0
  cycle_handle-Evolves = handle-Handles.evolves

  -- An event that is delivered to the cycle projector again at once changes nothing, if the
  -- database refuses neither.
  pub cycle_handle_idem :
      (rows : List (CycleRow (Serde.Value J)))
      → (handle J e none (handle J e none rows).0).0 ≡ (handle J e none rows).0
  cycle_handle_idem = handle-Handles.idem

  -- An event that ends in an error has changed no cycle.
  pub cycle_handle-refused :
      (fault : Fault) (rows : List (CycleRow (Serde.Value J))) (x : AppError)
      → (handle J e fault rows).1 ≡ err x
      → (handle J e fault rows).0 ≡ rows
  cycle_handle-refused fault rows x = handle-Handles.refused fault rows

-- The row of a cycle in a terminal state stays in its place, in every column, through any
-- sequence of events that are delivered to the cycle projector, over a database that may refuse
-- any of them.
pub cycle_terminal-frozen :
    (J : Serde) (d : Debug CycleState CycleTrigger)
    (es : List (EventEnvelope (Serde.Value J) × Fault)) (rows : List (CycleRow (Serde.Value J)))
    (i : ℕ) (r : CycleRow (Serde.Value J))
    → get_elem? rows i ≡ some r
    → Cycle.is_terminal (abstract r) ≡ true
    → get_elem? (deliver (handle J) es rows) i ≡ some r
cycle_terminal-frozen J d =
    deliver-frozen (handle J) (λ r. Cycle.is_terminal (abstract r) ≡ true) (fixed d)
      (handle-Handles J d)
