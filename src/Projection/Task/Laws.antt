-- ===== src/Projection/Task/Laws.antt =====
-- The task projector against `TaskState` of domain/states.rs: what it does to a row is a transition.
use openclaw_rs.Base.{
  ℕ, String, ◌≡◌, refl, ◌⊎◌, inl, inr, true, Option, none, some, List, arith, get_elem?,
  match_str-elim, done, ◌also◌,
}
use openclaw_rs.Errors.{AppError, ok, err}
use openclaw_rs.States.Debug.{Debug}
use openclaw_rs.States.Task
use openclaw_rs.States.Task.{TaskState, TaskTrigger}
use openclaw_rs.Sql.{Fault, ignore}
use openclaw_rs.Sql.Rows.{Evolves}
use openclaw_rs.Sql.Handlers.{
  Yields, Yields-bind, Yields-update, Yields-insert, Handles, submit-Handles, ignore-Handles,
  deliver, deliver-frozen,
}
use openclaw_rs.Payload.{Serde, EventEnvelope, reason_field}
use openclaw_rs.Projection.Task.{
  TaskStatus, scheduled, active, verifying, passed, failed, cancelled, skipped, is, TaskRow,
  task_scheduled, task_retry_scheduled, task_passed, task_failed, task_cancelled, task_skipped,
  arms, handle,
}

abbrev text_of : Option String → String
text_of none = ""
text_of (some s) = s

abbrev pub run_of : Option ℕ → ℕ
run_of none = 0
run_of (some run) = run

abbrev state_of :
    TaskStatus → (run : Option ℕ) (attempts : ℕ) (failure cancel skip : Option String) → TaskState
state_of scheduled run n f c s = TaskState.scheduled
state_of active run n f c s = TaskState.active (run_of run) n
state_of verifying run n f c s = TaskState.verifying (run_of run)
state_of passed run n f c s = TaskState.passed (run_of run)
state_of failed run n f c s = TaskState.failed (text_of f) n
state_of cancelled run n f c s = TaskState.cancelled (text_of c)
state_of skipped run n f c s = TaskState.skipped (text_of s)

-- The state of the domain that a row stands for: the run at work or in evidence is the row's
-- `active_run_id`, and the attempts are its `current_attempt`.
abbrev pub abstract : {V : Type 0} → TaskRow V → TaskState
abstract r =
    state_of r.state r.active_run_id r.current_attempt r.failure_reason r.cancel_reason
      r.skip_reason

-- The columns that no event changes.
abbrev pub SameRow : {V : Type 0} → TaskRow V → TaskRow V → Type 0
SameRow r s =
    (s.id ≡ r.id)
    × (s.cycle_id ≡ r.cycle_id)
    × (s.instance_id ≡ r.instance_id)
    × (s.task_key ≡ r.task_key)
    × (s.ordinal ≡ r.ordinal)
    × (s.current_attempt ≡ r.current_attempt)
    × (s.max_retries ≡ r.max_retries)

module _ (d : Debug TaskState TaskTrigger) where
  -- A row is left alone, or makes one transition of the state machine and keeps those columns.
  abbrev pub Step : {V : Type 0} → TaskRow V → TaskRow V → Type 0
  Step r s =
      (s ≡ r)
      ⊎ ((t : TaskTrigger) × (Task.transition d (abstract r) t ≡ ok (abstract s)) × SameRow r s)

  -- A new row stands for the state in which the machine starts.
  abbrev pub Born : {V : Type 0} → TaskRow V → Type 0
  Born r = abstract r ≡ TaskState.scheduled

  stay : {V : Type 0} (r : TaskRow V) → Step r r
  stay r = inl refl

  -- A terminal row has no step but to stay.
  fixed : {V : Type 0} (r s : TaskRow V) → Step r s → Task.is_terminal (abstract r) ≡ true → s ≡ r
  unfolding Task.transition Task.is_terminal
  fixed r s (inl same) h = same
  fixed r s (inr (t, moved, kept)) h = ground arith

module _ (J : Serde) (d : Debug TaskState TaskTrigger) (e : EventEnvelope (Serde.Value J)) where
  task_scheduled-Yields : Yields (Step d) (Born d) (task_scheduled J e)
  unfolding task_scheduled
  task_scheduled-Yields = Yields-bind _ _ λ task_id. Yields-bind _ _ λ cycle_id.
      Yields-bind _ _ λ task_key. Yields-bind _ _ λ phase. Yields-bind _ _ λ ordinal.
        Yields-bind _ _ λ title. Yields-bind _ _ λ description.
          Yields-bind _ _
            λ acceptance. Yields-bind _ _ λ max_retries. Yields-insert (stay d) _ _ refl

  task_retry_scheduled-Yields : Yields (Step d) (Born d) (task_retry_scheduled J e)
  unfolding task_retry_scheduled is Task.transition
  task_retry_scheduled-Yields = Yields-bind _ _ λ task_id.
      Yields-update (stay d) _ _
        (λ r h.
          inr
            (TaskTrigger.retry_scheduled, ground arith, (refl, refl, refl, refl, refl, refl, refl)))
        (λ r h. ground arith)

  task_passed-Yields : Yields (Step d) (Born d) (task_passed J e)
  unfolding task_passed is Task.transition
  task_passed-Yields = Yields-bind _ _ λ task_id.
      Yields-update (stay d) _ _
        (λ r h. inr (
          TaskTrigger.pass (run_of r.active_run_id),
          ground arith,
          (refl, refl, refl, refl, refl, refl, refl),
        ))
        (λ r h. ground arith)

  task_failed-Yields : Yields (Step d) (Born d) (task_failed J e)
  unfolding task_failed is Task.transition
  task_failed-Yields = Yields-bind _ _ λ task_id.
      Yields-update (stay d) _ _
        (λ r h. inr (
          TaskTrigger.fail (reason_field J "reason" e.payload) r.current_attempt,
          ground arith,
          (refl, refl, refl, refl, refl, refl, refl),
        ))
        (λ r h. ground arith)

  task_cancelled-Yields : Yields (Step d) (Born d) (task_cancelled J e)
  unfolding task_cancelled is Task.transition
  task_cancelled-Yields = Yields-bind _ _ λ task_id.
      Yields-update (stay d) _ _
        (λ r h. inr (
          TaskTrigger.cancel (reason_field J "reason" e.payload),
          ground arith,
          (refl, refl, refl, refl, refl, refl, refl),
        ))
        (λ r h. ground arith)

  task_skipped-Yields : Yields (Step d) (Born d) (task_skipped J e)
  unfolding task_skipped is Task.transition
  task_skipped-Yields = Yields-bind _ _ λ task_id.
      Yields-update (stay d) _ _
        (λ r h. inr (
          TaskTrigger.skip (reason_field J "reason" e.payload),
          ground arith,
          (refl, refl, refl, refl, refl, refl, refl),
        ))
        (λ r h. ground arith)

  -- Every arm is sound, so the `match` is.
  pub handle-Handles : Handles (Step d) (Born d) (handle J e)
  unfolding handle
  handle-Handles =
      match_str-elim (Handles (Step d) (Born d)) e.event_type (arms J e) ignore
        (submit-Handles (stay d) _ task_scheduled-Yields
          also submit-Handles (stay d) _ task_retry_scheduled-Yields
          also submit-Handles (stay d) _ task_passed-Yields
          also submit-Handles (stay d) _ task_failed-Yields
          also submit-Handles (stay d) _ task_cancelled-Yields
          also submit-Handles (stay d) _ task_skipped-Yields
          also done)
        (ignore-Handles (stay d))

  -- Whatever the event and whatever the database answers, the task projector leaves each row
  -- alone or moves it by one transition that `TaskState::transition` allows, keeping the columns
  -- of `SameRow`; it adds at most one row, at the end, which stands for the state `scheduled`.
  pub task_handle-Evolves :
      (fault : Fault) (rows : List (TaskRow (Serde.Value J)))
      → Evolves (Step d) (Born d) rows (handle J e fault rows).0
  task_handle-Evolves = handle-Handles.evolves

  -- An event that is delivered to the task projector again at once changes nothing, if the
  -- database refuses neither.
  pub task_handle_idem :
      (rows : List (TaskRow (Serde.Value J)))
      → (handle J e none (handle J e none rows).0).0 ≡ (handle J e none rows).0
  task_handle_idem = handle-Handles.idem

  -- An event that ends in an error has changed no task.
  pub task_handle-refused :
      (fault : Fault) (rows : List (TaskRow (Serde.Value J))) (x : AppError)
      → (handle J e fault rows).1 ≡ err x
      → (handle J e fault rows).0 ≡ rows
  task_handle-refused fault rows x = handle-Handles.refused fault rows

-- The row of a task in a terminal state stays in its place, in every column, through any sequence
-- of events that are delivered to the task projector, over a database that may refuse any of
-- them.
pub task_terminal-frozen :
    (J : Serde) (d : Debug TaskState TaskTrigger)
    (es : List (EventEnvelope (Serde.Value J) × Fault)) (rows : List (TaskRow (Serde.Value J)))
    (i : ℕ) (r : TaskRow (Serde.Value J))
    → get_elem? rows i ≡ some r
    → Task.is_terminal (abstract r) ≡ true
    → get_elem? (deliver (handle J) es rows) i ≡ some r
task_terminal-frozen J d =
    deliver-frozen (handle J) (λ r. Task.is_terminal (abstract r) ≡ true) (fixed d)
      (handle-Handles J d)
