-- ===== src/Projection/Instance/Follows.antt =====
-- The instance projector as the state machine: what it makes of a row is the transition, where there is one.
use openclaw_rs.Base.{ℕ, ◌≡◌, sym, subst, none, some, List, arith, get_elem?, match_str}
use openclaw_rs.Errors.{Result, AppError}
use openclaw_rs.States.Debug.{Debug}
use openclaw_rs.States.Instance
use openclaw_rs.States.Instance.{InstanceState, InstanceTrigger}
use openclaw_rs.Sql.{submit, ignore}
use openclaw_rs.Sql.Targets.{Makes, Makes-update}
use openclaw_rs.Payload.{Serde, EventEnvelope, reason_field}
use openclaw_rs.Projection.Instance.{
  InstanceRow, is, instance_provisioned, instance_provisioning_failed, instance_blocked,
  instance_unblocked, instance_suspended, instance_resumed, arms, handle,
}
use openclaw_rs.Projection.Instance.Laws.{abstract}
use openclaw_rs.Projection.Instance.Events.{Kind, name, expected}

module _ (J : Serde) (d : Debug InstanceState InstanceTrigger) (e : EventEnvelope (Serde.Value J))
    (rows : List (InstanceRow (Serde.Value J))) (i : ℕ) (r : InstanceRow (Serde.Value J))
    (named : e.instance_id ≡ r.id) (at : get_elem? rows i ≡ some r) where
  -- The row in the place of `r` stands for the state `s`.
  abbrev Becomes : List (InstanceRow (Serde.Value J)) → InstanceState → Type 0
  Becomes after s =
      (r' : InstanceRow (Serde.Value J)) × (get_elem? after i ≡ some r') × (abstract r' ≡ s)

  becomes :
      {s : InstanceState}
      {d' : Result AppError
        (List (InstanceRow (Serde.Value J)) → List (InstanceRow (Serde.Value J)))}
      → Makes (abstract) rows i s d'
      → Becomes (submit d' none rows).0 s
  becomes m = (m.row, m.at, m.state)

  abbrev target : Kind → InstanceState
  target k = expected d k (reason_field J "reason" e.payload) (abstract r)

  instance_provisioned-follows :
      Makes (abstract) rows i (target Kind.instance_provisioned) (instance_provisioned J e)
  unfolding instance_provisioned is Instance.transition
  instance_provisioned-follows = Makes-update _ _ r at (λ b tested. ground arith)

  instance_provisioning_failed-follows :
      Makes
        (abstract)
        rows
        i
        (target Kind.instance_provisioning_failed)
        (instance_provisioning_failed J e)
  unfolding instance_provisioning_failed is Instance.transition
  instance_provisioning_failed-follows = Makes-update _ _ r at (λ b tested. ground arith)

  instance_blocked-follows :
      Makes (abstract) rows i (target Kind.instance_blocked) (instance_blocked J e)
  unfolding instance_blocked is Instance.transition
  instance_blocked-follows = Makes-update _ _ r at (λ b tested. ground arith)

  instance_unblocked-follows :
      Makes (abstract) rows i (target Kind.instance_unblocked) (instance_unblocked J e)
  unfolding instance_unblocked is Instance.transition
  instance_unblocked-follows = Makes-update _ _ r at (λ b tested. ground arith)

  instance_suspended-follows :
      Makes (abstract) rows i (target Kind.instance_suspended) (instance_suspended J e)
  unfolding instance_suspended is Instance.transition
  instance_suspended-follows = Makes-update _ _ r at (λ b tested. ground arith)

  instance_resumed-follows :
      Makes (abstract) rows i (target Kind.instance_resumed) (instance_resumed J e)
  unfolding instance_resumed is Instance.transition
  instance_resumed-follows = Makes-update _ _ r at (λ b tested. ground arith)

  -- An event that updates the instance of row `r`, and is done by the database, leaves in the place
  -- of `r` a row that stands for the state after the event's trigger, or for the same state where
  -- the machine refuses the trigger.
  pub instance_handle-follows :
      (k : Kind) → e.event_type ≡ name k → Becomes (handle J e none rows).0 (target k)
  unfolding handle
  instance_handle-follows Kind.instance_provisioned ty =
      subst
        (λ s.
          Becomes (match_str s (arms J e) ignore none rows).0 (target Kind.instance_provisioned))
        (sym ty) (becomes instance_provisioned-follows)
  instance_handle-follows Kind.instance_provisioning_failed ty =
      subst
        (λ s.
          Becomes (match_str s (arms J e) ignore none rows).0
            (target Kind.instance_provisioning_failed))
        (sym ty) (becomes instance_provisioning_failed-follows)
  instance_handle-follows Kind.instance_blocked ty =
      subst
        (λ s. Becomes (match_str s (arms J e) ignore none rows).0 (target Kind.instance_blocked))
        (sym ty) (becomes instance_blocked-follows)
  instance_handle-follows Kind.instance_unblocked ty =
      subst
        (λ s. Becomes (match_str s (arms J e) ignore none rows).0 (target Kind.instance_unblocked))
        (sym ty) (becomes instance_unblocked-follows)
  instance_handle-follows Kind.instance_suspended ty =
      subst
        (λ s. Becomes (match_str s (arms J e) ignore none rows).0 (target Kind.instance_suspended))
        (sym ty) (becomes instance_suspended-follows)
  instance_handle-follows Kind.instance_resumed ty =
      subst
        (λ s. Becomes (match_str s (arms J e) ignore none rows).0 (target Kind.instance_resumed))
        (sym ty) (becomes instance_resumed-follows)
