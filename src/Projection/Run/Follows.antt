-- ===== src/Projection/Run/Follows.antt =====
-- The run projector as the state machine: what it makes of a row is the transition, where there is one.
use openclaw_rs.Base.{
  ℕ, String, ◌≡◌, sym, subst, Option, none, some, List, arith, get_elem?, match_str,
}
use openclaw_rs.Base.Int.{ℤ}
use openclaw_rs.States.Run.{FailureCategory}
use openclaw_rs.Errors.{Result, AppError, ok}
use openclaw_rs.States.Debug.{Debug}
use openclaw_rs.States.Run
use openclaw_rs.States.Run.{RunState, RunTrigger}
use openclaw_rs.Sql.{submit, ignore}
use openclaw_rs.Sql.Targets.{Makes, Makes-bind, Makes-update}
use openclaw_rs.Payload.{Serde, EventEnvelope, uuid_field, reason_field, transpose}
use openclaw_rs.Projection.Run.{
  RunRow, is, run_started, run_completed, run_failed, run_timed_out, run_cancelled, run_abandoned,
  arms, handle,
}
use openclaw_rs.Projection.Run.Laws.{abstract}
use openclaw_rs.Projection.Run.Events.{Kind, name, expected, exit_of}

module _ (J : Serde) (d : Debug RunState RunTrigger) (c : String → FailureCategory)
    (e : EventEnvelope (Serde.Value J)) (rows : List (RunRow (Serde.Value J))) (i : ℕ)
    (r : RunRow (Serde.Value J))
    (named : uuid_field J "run_id" "missing run_id" e.payload ≡ ok r.id)
    (at : get_elem? rows i ≡ some r) where
  -- The row in the place of `r` stands for the state `s`.
  abbrev Becomes : List (RunRow (Serde.Value J)) → RunState → Type 0
  Becomes after s =
      (r' : RunRow (Serde.Value J)) × (get_elem? after i ≡ some r') × (abstract c r' ≡ s)

  becomes :
      {s : RunState}
      {d' : Result AppError (List (RunRow (Serde.Value J)) → List (RunRow (Serde.Value J)))}
      → Makes (abstract c) rows i s d'
      → Becomes (submit d' none rows).0 s
  becomes m = (m.row, m.at, m.state)

  abbrev target : Kind → RunState
  target k =
      expected d k (reason_field J "reason" e.payload)
        (c (reason_field J "failure_category" e.payload))
        (exit_of (transpose J.to_i32 (J.get e.payload "exit_code"))) (abstract c r)

  -- The numbers of `RunCompleted`, where it has them, are to be readable.
  abbrev Carries : Kind → Type 0
  Carries Kind.run_completed =
      (exit : Option ℤ) × (cost : Option ℤ) × (transpose J.to_i32 (J.get e.payload "exit_code")
        ≡ ok exit)
      × (transpose J.to_i64 (J.get e.payload "cost_cents") ≡ ok cost)
  Carries k = Unit

  run_started-follows : Makes (abstract c) rows i (target Kind.run_started) (run_started J e)
  unfolding run_started is Run.transition
  run_started-follows =
      Makes-bind _ _ r.id named (λ id same. Makes-update _ _ r at (λ b tested. ground arith))

  run_completed-follows :
      Carries Kind.run_completed
      → Makes (abstract c) rows i (target Kind.run_completed) (run_completed J e)
  unfolding run_completed is Run.transition
  run_completed-follows (exit, cost, hx, hc) = Makes-bind _ _ r.id named (λ id same.
      (Makes-bind _ _ exit hx (λ v same_exit.
        Makes-bind _ _ cost hc (λ w same_cost. Makes-update _ _ r at (λ b tested. ground arith)))))

  run_failed-follows : Makes (abstract c) rows i (target Kind.run_failed) (run_failed J e)
  unfolding run_failed is Run.transition
  run_failed-follows =
      Makes-bind _ _ r.id named (λ id same. Makes-update _ _ r at (λ b tested. ground arith))

  run_timed_out-follows : Makes (abstract c) rows i (target Kind.run_timed_out) (run_timed_out J e)
  unfolding run_timed_out is Run.transition
  run_timed_out-follows =
      Makes-bind _ _ r.id named (λ id same. Makes-update _ _ r at (λ b tested. ground arith))

  run_cancelled-follows : Makes (abstract c) rows i (target Kind.run_cancelled) (run_cancelled J e)
  unfolding run_cancelled is Run.transition
  run_cancelled-follows =
      Makes-bind _ _ r.id named (λ id same. Makes-update _ _ r at (λ b tested. ground arith))

  run_abandoned-follows : Makes (abstract c) rows i (target Kind.run_abandoned) (run_abandoned J e)
  unfolding run_abandoned is Run.transition
  run_abandoned-follows =
      Makes-bind _ _ r.id named (λ id same. Makes-update _ _ r at (λ b tested. ground arith))

  -- An event that updates a run, names the run of row `r`, has readable numbers if it is
  -- `RunCompleted`, and is done by the database, leaves in the place of `r` a row that stands for
  -- the state after the event's trigger, or for the same state where the machine refuses the
  -- trigger.
  pub run_handle-follows :
      (k : Kind) → e.event_type ≡ name k → Carries k → Becomes (handle J e none rows).0 (target k)
  unfolding handle
  run_handle-follows Kind.run_started ty h =
      subst (λ s. Becomes (match_str s (arms J e) ignore none rows).0 (target Kind.run_started))
        (sym ty) (becomes run_started-follows)
  run_handle-follows Kind.run_completed ty h =
      subst (λ s. Becomes (match_str s (arms J e) ignore none rows).0 (target Kind.run_completed))
        (sym ty) (becomes (run_completed-follows h))
  run_handle-follows Kind.run_failed ty h =
      subst (λ s. Becomes (match_str s (arms J e) ignore none rows).0 (target Kind.run_failed))
        (sym ty) (becomes run_failed-follows)
  run_handle-follows Kind.run_timed_out ty h =
      subst (λ s. Becomes (match_str s (arms J e) ignore none rows).0 (target Kind.run_timed_out))
        (sym ty) (becomes run_timed_out-follows)
  run_handle-follows Kind.run_cancelled ty h =
      subst (λ s. Becomes (match_str s (arms J e) ignore none rows).0 (target Kind.run_cancelled))
        (sym ty) (becomes run_cancelled-follows)
  run_handle-follows Kind.run_abandoned ty h =
      subst (λ s. Becomes (match_str s (arms J e) ignore none rows).0 (target Kind.run_abandoned))
        (sym ty) (becomes run_abandoned-follows)
