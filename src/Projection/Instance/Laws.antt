-- ===== src/Projection/Instance/Laws.antt =====
-- The instance projector against `InstanceState` of domain/states.rs: what it does to a row is a transition.
use openclaw_rs.Base.{
  ℕ, String, ◌≡◌, refl, ◌⊎◌, inl, inr, true, Option, none, some, List, arith, get_elem?,
  match_str-elim, done, ◌also◌,
}
use openclaw_rs.Errors.{AppError, ok, err}
use openclaw_rs.States.Debug.{Debug}
use openclaw_rs.States.Instance
use openclaw_rs.States.Instance.{InstanceState, InstanceTrigger}
use openclaw_rs.Sql.{Fault, ignore}
use openclaw_rs.Sql.Rows.{Evolves}
use openclaw_rs.Sql.Handlers.{
  Yields, Yields-bind, Yields-update, Yields-insert, Handles, submit-Handles, ignore-Handles,
  deliver, deliver-frozen,
}
use openclaw_rs.Payload.{Serde, EventEnvelope, reason_field}
use openclaw_rs.Projection.Instance.{
  InstanceStatus, provisioning, active, blocked, suspended, provisioning_failed, is, InstanceRow,
  instance_created, instance_provisioned, instance_provisioning_failed, instance_blocked,
  instance_unblocked, instance_suspended, instance_resumed, arms, handle,
}

abbrev text_of : Option String → String
text_of none = ""
text_of (some s) = s

abbrev state_of : InstanceStatus → (block : Option String) → InstanceState
state_of provisioning b = InstanceState.provisioning
state_of active b = InstanceState.active
state_of blocked b = InstanceState.blocked (text_of b)
state_of suspended b = InstanceState.suspended
state_of provisioning_failed b = InstanceState.provisioning_failed (text_of b)

-- The state of the domain that a row stands for.
abbrev pub abstract : {V : Type 0} → InstanceRow V → InstanceState
abstract r = state_of r.state r.block_reason

-- The columns that no event changes.
abbrev pub SameRow : {V : Type 0} → InstanceRow V → InstanceRow V → Type 0
SameRow r s =
    (s.id ≡ r.id)
    × (s.project_id ≡ r.project_id)
    × (s.name ≡ r.name)
    × (s.data_dir ≡ r.data_dir)
    × (s.token_hash ≡ r.token_hash)

module _ (d : Debug InstanceState InstanceTrigger) where
  -- A row is left alone, or makes one transition of the state machine and keeps those columns.
  abbrev pub Step : {V : Type 0} → InstanceRow V → InstanceRow V → Type 0
  Step r s =
      (s ≡ r)
      ⊎ ((t : InstanceTrigger) × (Instance.transition d (abstract r) t ≡ ok (abstract s))
          × SameRow r s)

  -- A new row stands for the state in which the machine starts.
  abbrev pub Born : {V : Type 0} → InstanceRow V → Type 0
  Born r = abstract r ≡ InstanceState.provisioning

  stay : {V : Type 0} (r : InstanceRow V) → Step r r
  stay r = inl refl

  -- A terminal row has no step but to stay.
  fixed :
      {V : Type 0} (r s : InstanceRow V)
      → Step r s
      → Instance.is_terminal (abstract r) ≡ true
      → s ≡ r
  unfolding Instance.transition Instance.is_terminal
  fixed r s (inl same) h = same
  fixed r s (inr (t, moved, kept)) h = ground arith

module _ (J : Serde) (d : Debug InstanceState InstanceTrigger)
    (e : EventEnvelope (Serde.Value J)) where
  instance_created-Yields : Yields (Step d) (Born d) (instance_created J e)
  unfolding instance_created
  instance_created-Yields = Yields-bind _ _ λ project_id. Yields-bind _ _ λ name.
      Yields-bind _ _ λ data_dir. Yields-bind _ _ λ token_hash. Yields-insert (stay d) _ _ refl

  instance_provisioned-Yields : Yields (Step d) (Born d) (instance_provisioned J e)
  unfolding instance_provisioned is Instance.transition
  instance_provisioned-Yields =
      Yields-update (stay d) _ _
        (λ r h. inr (InstanceTrigger.provisioned, ground arith, (refl, refl, refl, refl, refl)))
        (λ r h. ground arith)

  instance_provisioning_failed-Yields : Yields (Step d) (Born d) (instance_provisioning_failed J e)
  unfolding instance_provisioning_failed is Instance.transition
  instance_provisioning_failed-Yields =
      Yields-update (stay d) _ _
        (λ r h. inr (
          InstanceTrigger.fail_provisioning (reason_field J "reason" e.payload),
          ground arith,
          (refl, refl, refl, refl, refl),
        ))
        (λ r h. ground arith)

  instance_blocked-Yields : Yields (Step d) (Born d) (instance_blocked J e)
  unfolding instance_blocked is Instance.transition
  instance_blocked-Yields =
      Yields-update (stay d) _ _
        (λ r h. inr (
          InstanceTrigger.block (reason_field J "reason" e.payload),
          ground arith,
          (refl, refl, refl, refl, refl),
        ))
        (λ r h. ground arith)

  instance_unblocked-Yields : Yields (Step d) (Born d) (instance_unblocked J e)
  unfolding instance_unblocked is Instance.transition
  instance_unblocked-Yields =
      Yields-update (stay d) _ _
        (λ r h. inr (InstanceTrigger.unblock, ground arith, (refl, refl, refl, refl, refl)))
        (λ r h. ground arith)

  instance_suspended-Yields : Yields (Step d) (Born d) (instance_suspended J e)
  unfolding instance_suspended is Instance.transition
  instance_suspended-Yields =
      Yields-update (stay d) _ _
        (λ r h. inr (InstanceTrigger.suspend, ground arith, (refl, refl, refl, refl, refl)))
        (λ r h. ground arith)

  instance_resumed-Yields : Yields (Step d) (Born d) (instance_resumed J e)
  unfolding instance_resumed is Instance.transition
  instance_resumed-Yields =
      Yields-update (stay d) _ _
        (λ r h. inr (InstanceTrigger.resume, ground arith, (refl, refl, refl, refl, refl)))
        (λ r h. ground arith)

  -- Every arm is sound, so the `match` is.
  pub handle-Handles : Handles (Step d) (Born d) (handle J e)
  unfolding handle
  handle-Handles =
      match_str-elim (Handles (Step d) (Born d)) e.event_type (arms J e) ignore
        (submit-Handles (stay d) _ instance_created-Yields
          also submit-Handles (stay d) _ instance_provisioned-Yields
          also submit-Handles (stay d) _ instance_provisioning_failed-Yields
          also submit-Handles (stay d) _ instance_blocked-Yields
          also submit-Handles (stay d) _ instance_unblocked-Yields
          also submit-Handles (stay d) _ instance_suspended-Yields
          also submit-Handles (stay d) _ instance_resumed-Yields
          also done)
        (ignore-Handles (stay d))

  -- Whatever the event and whatever the database answers, the instance projector leaves each row
  -- alone or moves it by one transition that `InstanceState::transition` allows, keeping the
  -- columns of `SameRow`; it adds at most one row, at the end, which stands for the state
  -- `provisioning`.
  pub instance_handle-Evolves :
      (fault : Fault) (rows : List (InstanceRow (Serde.Value J)))
      → Evolves (Step d) (Born d) rows (handle J e fault rows).0
  instance_handle-Evolves = handle-Handles.evolves

  -- An event that is delivered to the instance projector again at once changes nothing, if the
  -- database refuses neither.
  pub instance_handle_idem :
      (rows : List (InstanceRow (Serde.Value J)))
      → (handle J e none (handle J e none rows).0).0 ≡ (handle J e none rows).0
  instance_handle_idem = handle-Handles.idem

  -- An event that ends in an error has changed no instance.
  pub instance_handle-refused :
      (fault : Fault) (rows : List (InstanceRow (Serde.Value J))) (x : AppError)
      → (handle J e fault rows).1 ≡ err x
      → (handle J e fault rows).0 ≡ rows
  instance_handle-refused fault rows x = handle-Handles.refused fault rows

-- The row of an instance in a terminal state stays in its place, in every column, through any
-- sequence of events that are delivered to the instance projector, over a database that may
-- refuse any of them.
pub instance_terminal-frozen :
    (J : Serde) (d : Debug InstanceState InstanceTrigger)
    (es : List (EventEnvelope (Serde.Value J) × Fault)) (rows : List (InstanceRow (Serde.Value J)))
    (i : ℕ) (r : InstanceRow (Serde.Value J))
    → get_elem? rows i ≡ some r
    → Instance.is_terminal (abstract r) ≡ true
    → get_elem? (deliver (handle J) es rows) i ≡ some r
instance_terminal-frozen J d =
    deliver-frozen (handle J) (λ r. Instance.is_terminal (abstract r) ≡ true) (fixed d)
      (handle-Handles J d)
