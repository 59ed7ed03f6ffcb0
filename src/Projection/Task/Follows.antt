-- ===== src/Projection/Task/Follows.antt =====
-- The task projector as the state machine: what it makes of a row is the transition, where there is one.
use openclaw_rs.Base.{ℕ, ◌≡◌, sym, subst, none, some, List, arith, get_elem?, match_str}
use openclaw_rs.Errors.{Result, AppError, ok}
use openclaw_rs.States.Debug.{Debug}
use openclaw_rs.States.Task
use openclaw_rs.States.Task.{TaskState, TaskTrigger}
use openclaw_rs.Sql.{submit, ignore}
use openclaw_rs.Sql.Targets.{Makes, Makes-bind, Makes-update}
use openclaw_rs.Payload.{Serde, EventEnvelope, uuid_field, reason_field}
use openclaw_rs.Projection.Task.{
  TaskRow, is, task_retry_scheduled, task_passed, task_failed, task_cancelled, task_skipped, arms,
  handle,
}
use openclaw_rs.Projection.Task.Laws.{abstract, run_of}
use openclaw_rs.Projection.Task.Events.{Kind, name, expected}

module _ (J : Serde) (d : Debug TaskState TaskTrigger) (e : EventEnvelope (Serde.Value J))
    (rows : List (TaskRow (Serde.Value J))) (i : ℕ) (r : TaskRow (Serde.Value J))
    (named : uuid_field J "task_id" "missing task_id" e.payload ≡ ok r.id)
    (at : get_elem? rows i ≡ some r) where
  -- The row in the place of `r` stands for the state `s`.
  abbrev Becomes : List (TaskRow (Serde.Value J)) → TaskState → Type 0
  Becomes after s =
      (r' : TaskRow (Serde.Value J)) × (get_elem? after i ≡ some r') × (abstract r' ≡ s)

  becomes :
      {s : TaskState}
      {d' : Result AppError (List (TaskRow (Serde.Value J)) → List (TaskRow (Serde.Value J)))}
      → Makes (abstract) rows i s d'
      → Becomes (submit d' none rows).0 s
  becomes m = (m.row, m.at, m.state)

  abbrev target : Kind → TaskState
  target k =
      expected d k (reason_field J "reason" e.payload) (run_of r.active_run_id) r.current_attempt
        (abstract r)

  task_retry_scheduled-follows :
      Makes (abstract) rows i (target Kind.task_retry_scheduled) (task_retry_scheduled J e)
  unfolding task_retry_scheduled is Task.transition
  task_retry_scheduled-follows =
      Makes-bind _ _ r.id named (λ id same. Makes-update _ _ r at (λ b tested. ground arith))

  task_passed-follows : Makes (abstract) rows i (target Kind.task_passed) (task_passed J e)
  unfolding task_passed is Task.transition
  task_passed-follows =
      Makes-bind _ _ r.id named (λ id same. Makes-update _ _ r at (λ b tested. ground arith))

  task_failed-follows : Makes (abstract) rows i (target Kind.task_failed) (task_failed J e)
  unfolding task_failed is Task.transition
  task_failed-follows =
      Makes-bind _ _ r.id named (λ id same. Makes-update _ _ r at (λ b tested. ground arith))

  task_cancelled-follows : Makes (abstract) rows i (target Kind.task_cancelled) (task_cancelled J e)
  unfolding task_cancelled is Task.transition
  task_cancelled-follows =
      Makes-bind _ _ r.id named (λ id same. Makes-update _ _ r at (λ b tested. ground arith))

  task_skipped-follows : Makes (abstract) rows i (target Kind.task_skipped) (task_skipped J e)
  unfolding task_skipped is Task.transition
  task_skipped-follows =
      Makes-bind _ _ r.id named (λ id same. Makes-update _ _ r at (λ b tested. ground arith))

  -- An event that updates a task, names the task of row `r`, and is done by the database, leaves in
  -- the place of `r` a row that stands for the state after the event's trigger, or for the same
  -- state where the machine refuses the trigger.
  pub task_handle-follows :
      (k : Kind) → e.event_type ≡ name k → Becomes (handle J e none rows).0 (target k)
  unfolding handle
  task_handle-follows Kind.task_retry_scheduled ty =
      subst
        (λ s.
          Becomes (match_str s (arms J e) ignore none rows).0 (target Kind.task_retry_scheduled))
        (sym ty) (becomes task_retry_scheduled-follows)
  task_handle-follows Kind.task_passed ty =
      subst (λ s. Becomes (match_str s (arms J e) ignore none rows).0 (target Kind.task_passed))
        (sym ty) (becomes task_passed-follows)
  task_handle-follows Kind.task_failed ty =
      subst (λ s. Becomes (match_str s (arms J e) ignore none rows).0 (target Kind.task_failed))
        (sym ty) (becomes task_failed-follows)
  task_handle-follows Kind.task_cancelled ty =
      subst (λ s. Becomes (match_str s (arms J e) ignore none rows).0 (target Kind.task_cancelled))
        (sym ty) (becomes task_cancelled-follows)
  task_handle-follows Kind.task_skipped ty =
      subst (λ s. Becomes (match_str s (arms J e) ignore none rows).0 (target Kind.task_skipped))
        (sym ty) (becomes task_skipped-follows)
