-- ===== src/Projection/Run/Laws.antt =====
-- The run projector against `RunState` of domain/states.rs: what it does to a row is a transition.
use openclaw_rs.Base.{
  ℕ, String, ◌≡◌, refl, ◌⊎◌, inl, inr, true, Option, none, some, List, arith, get_elem?,
  match_str-elim, done, ◌also◌,
}
use openclaw_rs.Base.Int.{ℤ, pos}
use openclaw_rs.States.Run.{FailureCategory}
use openclaw_rs.Errors.{AppError, ok, err}
use openclaw_rs.States.Debug.{Debug}
use openclaw_rs.States.Run
use openclaw_rs.States.Run.{RunState, RunTrigger}
use openclaw_rs.Sql.{Fault, ignore}
use openclaw_rs.Sql.Rows.{Evolves}
use openclaw_rs.Sql.Handlers.{
  Yields, Yields-bind, Yields-update, Yields-insert, Handles, submit-Handles, ignore-Handles,
  deliver, deliver-frozen,
}
use openclaw_rs.Payload.{Serde, EventEnvelope, reason_field}
use openclaw_rs.Projection.Run.{
  RunStatus, claimed, running, completed, failed, timed_out, cancelled, abandoned, is, RunRow,
  run_claimed, run_started, run_completed, run_failed, run_timed_out, run_cancelled, run_abandoned,
  arms, handle,
}

abbrev text_of : Option String → String
text_of none = ""
text_of (some s) = s

abbrev pub int_of : Option ℤ → ℤ
int_of none = pos 0
int_of (some n) = n

abbrev state_of :
    (String → FailureCategory)
    → RunStatus
    → (exit : Option ℤ) (category cancel abandon : Option String) → RunState
state_of k claimed x f c a = RunState.claimed
state_of k running x f c a = RunState.running
state_of k completed x f c a = RunState.completed (int_of x)
state_of k failed x f c a = RunState.failed (k (text_of f))
state_of k timed_out x f c a = RunState.timed_out
state_of k cancelled x f c a = RunState.cancelled (text_of c)
state_of k abandoned x f c a = RunState.abandoned (text_of a)

-- The state of the domain that a row stands for. The column `failure_category` is free text, and
-- the source has no reader of it: the first argument is any way to read a category from it.
abbrev pub abstract : {V : Type 0} → (String → FailureCategory) → RunRow V → RunState
abstract k r = state_of k r.state r.exit_code r.failure_category r.cancel_reason r.abandon_reason

-- The columns that no event changes.
abbrev pub SameRow : {V : Type 0} → RunRow V → RunRow V → Type 0
SameRow r s =
    (s.id ≡ r.id)
    × (s.task_id ≡ r.task_id)
    × (s.instance_id ≡ r.instance_id)
    × (s.run_number ≡ r.run_number)
    × (s.worker_session_id ≡ r.worker_session_id)
    × (s.started_at ≡ r.started_at)

module _ (d : Debug RunState RunTrigger) (c : String → FailureCategory) where
  -- A row is left alone, or makes one transition of the state machine and keeps those columns.
  abbrev pub Step : {V : Type 0} → RunRow V → RunRow V → Type 0
  Step r s =
      (s ≡ r)
      ⊎ ((t : RunTrigger) × (Run.transition d (abstract c r) t ≡ ok (abstract c s)) × SameRow r s)

  -- A new row stands for the state in which the machine starts.
  abbrev pub Born : {V : Type 0} → RunRow V → Type 0
  Born r = abstract c r ≡ RunState.claimed

  stay : {V : Type 0} (r : RunRow V) → Step r r
  stay r = inl refl

  -- A terminal row has no step but to stay.
  fixed : {V : Type 0} (r s : RunRow V) → Step r s → Run.is_terminal (abstract c r) ≡ true → s ≡ r
  unfolding Run.transition Run.is_terminal
  fixed r s (inl same) h = same
  fixed r s (inr (t, moved, kept)) h = ground arith

module _ (J : Serde) (d : Debug RunState RunTrigger) (c : String → FailureCategory)
    (e : EventEnvelope (Serde.Value J)) where
  run_claimed-Yields : Yields (Step d c) (Born d c) (run_claimed J e)
  unfolding run_claimed
  run_claimed-Yields = Yields-bind _ _ λ run_id. Yields-bind _ _ λ task_id.
      Yields-bind _ _ λ run_number.
        Yields-bind _ _
          λ worker_session_id. Yields-bind _ _ λ lease_until. Yields-insert (stay d c) _ _ refl

  run_started-Yields : Yields (Step d c) (Born d c) (run_started J e)
  unfolding run_started is Run.transition
  run_started-Yields = Yields-bind _ _ λ run_id.
      Yields-update (stay d c) _ _
        (λ r h. inr (RunTrigger.start, ground arith, (refl, refl, refl, refl, refl, refl)))
        (λ r h. ground arith)

  run_completed-Yields : Yields (Step d c) (Born d c) (run_completed J e)
  unfolding run_completed is Run.transition
  run_completed-Yields = Yields-bind _ _ λ run_id. Yields-bind _ _ λ exit_code.
      Yields-bind _ _ λ cost.
        Yields-update (stay d c) _ _
          (λ r h. inr (
            RunTrigger.complete (int_of exit_code),
            ground arith,
            (refl, refl, refl, refl, refl, refl),
          ))
          (λ r h. ground arith)

  run_failed-Yields : Yields (Step d c) (Born d c) (run_failed J e)
  unfolding run_failed is Run.transition
  run_failed-Yields = Yields-bind _ _ λ run_id.
      Yields-update (stay d c) _ _
        (λ r h. inr (
          RunTrigger.fail (c (reason_field J "failure_category" e.payload)),
          ground arith,
          (refl, refl, refl, refl, refl, refl),
        ))
        (λ r h. ground arith)

  run_timed_out-Yields : Yields (Step d c) (Born d c) (run_timed_out J e)
  unfolding run_timed_out is Run.transition
  run_timed_out-Yields = Yields-bind _ _ λ run_id.
      Yields-update (stay d c) _ _
        (λ r h. inr (RunTrigger.time_out, ground arith, (refl, refl, refl, refl, refl, refl)))
        (λ r h. ground arith)

  run_cancelled-Yields : Yields (Step d c) (Born d c) (run_cancelled J e)
  unfolding run_cancelled is Run.transition
  run_cancelled-Yields = Yields-bind _ _ λ run_id.
      Yields-update (stay d c) _ _
        (λ r h. inr (
          RunTrigger.cancel (reason_field J "reason" e.payload),
          ground arith,
          (refl, refl, refl, refl, refl, refl),
        ))
        (λ r h. ground arith)

  run_abandoned-Yields : Yields (Step d c) (Born d c) (run_abandoned J e)
  unfolding run_abandoned is Run.transition
  run_abandoned-Yields = Yields-bind _ _ λ run_id.
      Yields-update (stay d c) _ _
        (λ r h. inr (
          RunTrigger.abandon (reason_field J "reason" e.payload),
          ground arith,
          (refl, refl, refl, refl, refl, refl),
        ))
        (λ r h. ground arith)

  -- Every arm is sound, so the `match` is.
  pub handle-Handles : Handles (Step d c) (Born d c) (handle J e)
  unfolding handle
  handle-Handles =
      match_str-elim (Handles (Step d c) (Born d c)) e.event_type (arms J e) ignore
        (submit-Handles (stay d c) _ run_claimed-Yields
          also submit-Handles (stay d c) _ run_started-Yields
          also submit-Handles (stay d c) _ run_completed-Yields
          also submit-Handles (stay d c) _ run_failed-Yields
          also submit-Handles (stay d c) _ run_timed_out-Yields
          also submit-Handles (stay d c) _ run_cancelled-Yields
          also submit-Handles (stay d c) _ run_abandoned-Yields
          also done)
        (ignore-Handles (stay d c))

  -- Whatever the event and whatever the database answers, the run projector leaves each row alone
  -- or moves it by one transition that `RunState::transition` allows, keeping the columns of
  -- `SameRow`; it adds at most one row, at the end, which stands for the state `claimed`.
  pub run_handle-Evolves :
      (fault : Fault) (rows : List (RunRow (Serde.Value J)))
      → Evolves (Step d c) (Born d c) rows (handle J e fault rows).0
  run_handle-Evolves = handle-Handles.evolves

  -- An event that is delivered to the run projector again at once changes nothing, if the
  -- database refuses neither.
  pub run_handle_idem :
      (rows : List (RunRow (Serde.Value J)))
      → (handle J e none (handle J e none rows).0).0 ≡ (handle J e none rows).0
  run_handle_idem = handle-Handles.idem

  -- An event that ends in an error has changed no run.
  pub run_handle-refused :
      (fault : Fault) (rows : List (RunRow (Serde.Value J))) (x : AppError)
      → (handle J e fault rows).1 ≡ err x
      → (handle J e fault rows).0 ≡ rows
  run_handle-refused fault rows x = handle-Handles.refused fault rows

-- The row of a run in a terminal state stays in its place, in every column, through any sequence
-- of events that are delivered to the run projector, over a database that may refuse any of them.
pub run_terminal-frozen :
    (J : Serde) (d : Debug RunState RunTrigger) (c : String → FailureCategory)
    (es : List (EventEnvelope (Serde.Value J) × Fault)) (rows : List (RunRow (Serde.Value J)))
    (i : ℕ) (r : RunRow (Serde.Value J))
    → get_elem? rows i ≡ some r
    → Run.is_terminal (abstract c r) ≡ true
    → get_elem? (deliver (handle J) es rows) i ≡ some r
run_terminal-frozen J d c =
    deliver-frozen (handle J) (λ r. Run.is_terminal (abstract c r) ≡ true) (fixed d c)
      (handle-Handles J d c)
