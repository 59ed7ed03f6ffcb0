-- ===== src/Planning/Service.antt =====
-- `PlannerService` of app/planner.rs.
use openclaw_rs.Base.{
  ℕ, ◌%◌, ◌^◌, String, Bool, none, some, List, [], ◌∷◌, ◌&&◌, ◌||◌, if◌then◌else◌, any, not, str_eq,
  length,
}
use openclaw_rs.Errors.{
  Result, ok, err, domain, precondition, infra, serialization, concurrency_conflict,
}
use openclaw_rs.Sql.{Fault}
use openclaw_rs.Payload.{Uuid, EventEnvelope}
use openclaw_rs.Projection.Instance.{InstanceRow}
use openclaw_rs.Act.{Act, return, fail, query, ◌>>=◌}
use openclaw_rs.Wire.{id, text, number, cents, actor, value, Wire, Fresh, envelope}
use openclaw_rs.Port.{EventStore, emit_event}
use openclaw_rs.Merging.Attempts.{text_is, check_instance_active}
use openclaw_rs.Planning.{
  PlanError, PlanningContext, PlanProposal, Planner, show_plan_error, category,
}
use Prim.Native.String.{◌++◌}

-- What the service takes from outside: the instances, the database's answers to the two guards, the
-- planner, the JSON of a proposal, and the id and time of the event.
pub record PlanInput (V : Type 0) : Type 0 where
  pub instances : List (InstanceRow V)
  pub instances_fault : Fault
  pub in_flight_fault : Fault
  pub planner : Planner
  pub to_value : PlanProposal → Result String V
  pub fresh : Fresh

module _ {V : Type 0} (W : Wire V) where
  -- A PlanGenerated or PlanGenerationFailed of the cycle.
  unfoldable pub is_plan_end : Uuid → EventEnvelope V → Bool
  unfolding text_is
  is_plan_end cycle_id e =
      (str_eq e.event_type "PlanGenerated" || str_eq e.event_type "PlanGenerationFailed")
      && text_is W e.payload "cycle_id" (W.show_uuid cycle_id)

  unfoldable pub is_pending_request : Uuid → List (EventEnvelope V) → EventEnvelope V → Bool
  unfolding text_is is_plan_end
  is_pending_request cycle_id log e =
      str_eq e.event_type "PlanRequested"
      && text_is W e.payload "cycle_id" (W.show_uuid cycle_id)
      && not (any (is_plan_end cycle_id) log)

  unfoldable pub requested_event : Fresh → (i cycle_id : Uuid) → PlanningContext → EventEnvelope V
  unfolding envelope
  requested_event fresh i cycle_id context =
      envelope fresh i "PlanRequested"
        (W.object (
          ("cycle_id", id cycle_id)
          ∷ ("objective", text context.objective)
          ∷ ("context_hash", text context.context_hash)
          ∷ ("actor", actor "System" none)
          ∷ []))
        ("plan-requested-" ++ W.show_uuid cycle_id)

  unfoldable pub generated_event :
      Fresh → (i cycle_id : Uuid) → V → PlanProposal → ℕ → EventEnvelope V
  unfolding envelope
  generated_event fresh i cycle_id plan proposal attempt =
      envelope fresh i "PlanGenerated"
        (W.object (
          ("cycle_id", id cycle_id)
          ∷ ("plan", value plan)
          ∷ ("task_count", number (length proposal.tasks % 2 ^ 32))
          ∷ ("estimated_cost", cents proposal.estimated_cost)
          ∷ ("summary", text proposal.summary)
          ∷ ("actor", actor "Planner" none)
          ∷ []))
        ("plan-generated-" ++ W.show_uuid cycle_id ++ "-" ++ W.show_nat attempt)

  unfoldable pub generation_failed_event :
      Fresh → (i cycle_id : Uuid) → PlanError → ℕ → EventEnvelope V
  unfolding envelope category show_plan_error
  generation_failed_event fresh i cycle_id e attempt =
      envelope fresh i "PlanGenerationFailed"
        (W.object (
          ("cycle_id", id cycle_id)
          ∷ ("category", text (category e))
          ∷ ("reason", text (show_plan_error W e))
          ∷ ("actor", actor "Planner" none)
          ∷ []))
        ("plan-generation-failed-" ++ W.show_uuid cycle_id ++ "-" ++ W.show_nat attempt)

  -- `serde_json::to_value(&proposal)?`
  unfoldable pub from_value : {S A : Type 0} → Result String A → Act S A
  unfolding return fail
  from_value (ok a) = return a
  from_value (err e) = fail (infra (serialization e))

  module _ (E : EventStore V) where
    unfoldable pub request_plan_core :
        Fresh → (i cycle_id : Uuid) → PlanningContext → Act E.State (Unit {0})
    unfolding requested_event emit_event
    request_plan_core fresh i cycle_id context =
        emit_event E W "emit PlanRequested: " (requested_event fresh i cycle_id context)

    unfoldable pub request_plan :
        PlanInput V → (i cycle_id : Uuid) → PlanningContext → Act E.State (Unit {0})
    unfolding check_instance_active request_plan_core ◌>>=◌
    request_plan o i cycle_id context =
        check_instance_active W E o.instances_fault o.instances i >>= λ _.
        request_plan_core o.fresh i cycle_id context

    -- The arms of the `match` on the planner's answer.
    unfoldable pub conclude_plan :
        PlanInput V
        → (i cycle_id : Uuid) → ℕ
        → Result PlanError PlanProposal
        → Act E.State PlanProposal
    unfolding from_value generated_event generation_failed_event show_plan_error emit_event return
        fail ◌>>=◌
    conclude_plan o i cycle_id attempt (ok proposal) = from_value (o.to_value proposal) >>= λ plan.
        emit_event E W "emit PlanGenerated: "
          (generated_event o.fresh i cycle_id plan proposal attempt)
        >>= λ _. return proposal
    conclude_plan o i cycle_id attempt (err e) =
        emit_event E W "emit PlanGenerationFailed: "
          (generation_failed_event o.fresh i cycle_id e attempt)
        >>= λ _. fail (domain (precondition (show_plan_error W e)))

    unfoldable pub generate_plan_core :
        PlanInput V → (i cycle_id : Uuid) → PlanningContext → ℕ → Act E.State PlanProposal
    unfolding conclude_plan
    generate_plan_core o i cycle_id context attempt =
        conclude_plan o i cycle_id attempt (o.planner context)

    unfoldable pub check_in_flight_generation : Fault → Uuid → Act E.State (Unit {0})
    unfolding is_pending_request query return fail ◌>>=◌
    check_in_flight_generation fault cycle_id s =
        (query (λ e. "check in-flight plan generation: " ++ e) fault
              (any (is_pending_request cycle_id (E.log s)) (E.log s))
            >>= λ found.
                if found
                then fail (
                    concurrency_conflict
                      ("plan generation already in-flight for cycle " ++ W.show_uuid cycle_id))
                else return tt)
          s

    unfoldable pub generate_plan :
        PlanInput V → (i cycle_id : Uuid) → PlanningContext → ℕ → Act E.State PlanProposal
    unfolding check_instance_active check_in_flight_generation generate_plan_core ◌>>=◌
    generate_plan o i cycle_id context attempt =
        check_instance_active W E o.instances_fault o.instances i >>= λ _.
        check_in_flight_generation o.in_flight_fault cycle_id >>= λ _.
        generate_plan_core o i cycle_id context attempt

    unfoldable pub approve_plan : Fresh → (i cycle_id : Uuid) → String → Act E.State (Unit {0})
    unfolding envelope emit_event
    approve_plan fresh i cycle_id approved_by = emit_event E W "emit PlanApproved: " (
        envelope fresh i "PlanApproved"
          (W.object (
            ("cycle_id", id cycle_id)
            ∷ ("approved_by", text approved_by)
            ∷ ("actor", actor "Human" (some ("actor_id", approved_by)))
            ∷ []))
          ("plan-approved-" ++ W.show_uuid cycle_id))
