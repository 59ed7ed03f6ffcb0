-- ===== src/Projection/Cycle/Follows.antt =====
-- The cycle projector as the state machine: what it makes of a row is the transition, where there is one.
use openclaw_rs.Base.{ℕ, ◌≡◌, sym, subst, none, some, List, arith, get_elem?, match_str}
use openclaw_rs.Errors.{Result, AppError, ok}
use openclaw_rs.States.Debug.{Debug}
use openclaw_rs.States.Cycle
use openclaw_rs.States.Cycle.{CycleState, CycleTrigger}
use openclaw_rs.Sql.{submit, ignore}
use openclaw_rs.Sql.Targets.{Makes, Makes-bind, Makes-update}
use openclaw_rs.Payload.{Serde, EventEnvelope, value_field, uuid_field, reason_field}
use openclaw_rs.Projection.Cycle.{
  CycleRow, is, plan_requested, plan_generated, plan_approved, plan_generation_failed,
  cycle_running_started, cycle_completing, cycle_blocked, cycle_unblocked, cycle_completed,
  cycle_failed, cycle_cancelled, arms, handle,
}
use openclaw_rs.Projection.Cycle.Laws.{abstract}
use openclaw_rs.Projection.Cycle.Events.{Kind, name, expected}

module _ (J : Serde) (d : Debug CycleState CycleTrigger) (e : EventEnvelope (Serde.Value J))
    (rows : List (CycleRow (Serde.Value J))) (i : ℕ) (r : CycleRow (Serde.Value J))
    (named : uuid_field J "cycle_id" "missing cycle_id" e.payload ≡ ok r.id)
    (at : get_elem? rows i ≡ some r) where
  -- The row in the place of `r` stands for the state `s`.
  abbrev Becomes : List (CycleRow (Serde.Value J)) → CycleState → Type 0
  Becomes after s =
      (r' : CycleRow (Serde.Value J)) × (get_elem? after i ≡ some r') × (abstract r' ≡ s)

  becomes :
      {s : CycleState}
      {d' : Result AppError (List (CycleRow (Serde.Value J)) → List (CycleRow (Serde.Value J)))}
      → Makes (abstract) rows i s d'
      → Becomes (submit d' none rows).0 s
  becomes m = (m.row, m.at, m.state)

  abbrev target : Kind → CycleState
  target k = expected d k (reason_field J "reason" e.payload) (abstract r)

  -- The plan that `PlanGenerated` is to carry.
  abbrev Carries : Kind → Type 0
  Carries Kind.plan_generated =
      (plan : Serde.Value J) × (value_field J "plan" "missing plan" e.payload ≡ ok plan)
  Carries k = Unit

  plan_requested-follows : Makes (abstract) rows i (target Kind.plan_requested) (plan_requested J e)
  unfolding plan_requested is Cycle.transition
  plan_requested-follows =
      Makes-bind _ _ r.id named (λ id same. Makes-update _ _ r at (λ b tested. ground arith))

  plan_generated-follows :
      Carries Kind.plan_generated
      → Makes (abstract) rows i (target Kind.plan_generated) (plan_generated J e)
  unfolding plan_generated is Cycle.transition
  plan_generated-follows (plan, h) =
      Makes-bind _ _ r.id named (λ id same.
        (Makes-bind _ _ plan h (λ v _. Makes-update _ _ r at (λ b tested. ground arith))))

  plan_approved-follows : Makes (abstract) rows i (target Kind.plan_approved) (plan_approved J e)
  unfolding plan_approved is Cycle.transition
  plan_approved-follows =
      Makes-bind _ _ r.id named (λ id same. Makes-update _ _ r at (λ b tested. ground arith))

  plan_generation_failed-follows :
      Makes (abstract) rows i (target Kind.plan_generation_failed) (plan_generation_failed J e)
  unfolding plan_generation_failed is Cycle.transition
  plan_generation_failed-follows =
      Makes-bind _ _ r.id named (λ id same. Makes-update _ _ r at (λ b tested. ground arith))

  cycle_running_started-follows :
      Makes (abstract) rows i (target Kind.cycle_running_started) (cycle_running_started J e)
  unfolding cycle_running_started is Cycle.transition
  cycle_running_started-follows =
      Makes-bind _ _ r.id named (λ id same. Makes-update _ _ r at (λ b tested. ground arith))

  cycle_completing-follows :
      Makes (abstract) rows i (target Kind.cycle_completing) (cycle_completing J e)
  unfolding cycle_completing is Cycle.transition
  cycle_completing-follows =
      Makes-bind _ _ r.id named (λ id same. Makes-update _ _ r at (λ b tested. ground arith))

  cycle_blocked-follows : Makes (abstract) rows i (target Kind.cycle_blocked) (cycle_blocked J e)
  unfolding cycle_blocked is Cycle.transition
  cycle_blocked-follows =
      Makes-bind _ _ r.id named (λ id same. Makes-update _ _ r at (λ b tested. ground arith))

  cycle_unblocked-follows :
      Makes (abstract) rows i (target Kind.cycle_unblocked) (cycle_unblocked J e)
  unfolding cycle_unblocked is Cycle.transition
  cycle_unblocked-follows =
      Makes-bind _ _ r.id named (λ id same. Makes-update _ _ r at (λ b tested. ground arith))

  cycle_completed-follows :
      Makes (abstract) rows i (target Kind.cycle_completed) (cycle_completed J e)
  unfolding cycle_completed is Cycle.transition
  cycle_completed-follows =
      Makes-bind _ _ r.id named (λ id same. Makes-update _ _ r at (λ b tested. ground arith))

  cycle_failed-follows : Makes (abstract) rows i (target Kind.cycle_failed) (cycle_failed J e)
  unfolding cycle_failed is Cycle.transition
  cycle_failed-follows =
      Makes-bind _ _ r.id named (λ id same. Makes-update _ _ r at (λ b tested. ground arith))

  cycle_cancelled-follows :
      Makes (abstract) rows i (target Kind.cycle_cancelled) (cycle_cancelled J e)
  unfolding cycle_cancelled is Cycle.transition
  cycle_cancelled-follows =
      Makes-bind _ _ r.id named (λ id same. Makes-update _ _ r at (λ b tested. ground arith))

  -- An event that updates a cycle, names the cycle of row `r`, carries a plan if it is
  -- `PlanGenerated`, and is done by the database, leaves in the place of `r` a row that stands for
  -- the state after the event's trigger, or for the same state where the machine refuses the
  -- trigger; but `CycleFailed` leaves a cycle that is planning as it is, and
  -- `PlanGenerationFailed` one that is running or completing.
  pub cycle_handle-follows :
      (k : Kind) → e.event_type ≡ name k → Carries k → Becomes (handle J e none rows).0 (target k)
  unfolding handle
  cycle_handle-follows Kind.plan_requested ty h =
      subst (λ s. Becomes (match_str s (arms J e) ignore none rows).0 (target Kind.plan_requested))
        (sym ty) (becomes plan_requested-follows)
  cycle_handle-follows Kind.plan_generated ty h =
      subst (λ s. Becomes (match_str s (arms J e) ignore none rows).0 (target Kind.plan_generated))
        (sym ty) (becomes (plan_generated-follows h))
  cycle_handle-follows Kind.plan_approved ty h =
      subst (λ s. Becomes (match_str s (arms J e) ignore none rows).0 (target Kind.plan_approved))
        (sym ty) (becomes plan_approved-follows)
  cycle_handle-follows Kind.plan_generation_failed ty h =
      subst
        (λ s.
          Becomes (match_str s (arms J e) ignore none rows).0 (target Kind.plan_generation_failed))
        (sym ty) (becomes plan_generation_failed-follows)
  cycle_handle-follows Kind.cycle_running_started ty h =
      subst
        (λ s.
          Becomes (match_str s (arms J e) ignore none rows).0 (target Kind.cycle_running_started))
        (sym ty) (becomes cycle_running_started-follows)
  cycle_handle-follows Kind.cycle_completing ty h =
      subst
        (λ s. Becomes (match_str s (arms J e) ignore none rows).0 (target Kind.cycle_completing))
        (sym ty) (becomes cycle_completing-follows)
  cycle_handle-follows Kind.cycle_blocked ty h =
      subst (λ s. Becomes (match_str s (arms J e) ignore none rows).0 (target Kind.cycle_blocked))
        (sym ty) (becomes cycle_blocked-follows)
  cycle_handle-follows Kind.cycle_unblocked ty h =
      subst (λ s. Becomes (match_str s (arms J e) ignore none rows).0 (target Kind.cycle_unblocked))
        (sym ty) (becomes cycle_unblocked-follows)
  cycle_handle-follows Kind.cycle_completed ty h =
      subst (λ s. Becomes (match_str s (arms J e) ignore none rows).0 (target Kind.cycle_completed))
        (sym ty) (becomes cycle_completed-follows)
  cycle_handle-follows Kind.cycle_failed ty h =
      subst (λ s. Becomes (match_str s (arms J e) ignore none rows).0 (target Kind.cycle_failed))
        (sym ty) (becomes cycle_failed-follows)
  cycle_handle-follows Kind.cycle_cancelled ty h =
      subst (λ s. Becomes (match_str s (arms J e) ignore none rows).0 (target Kind.cycle_cancelled))
        (sym ty) (becomes cycle_cancelled-follows)
