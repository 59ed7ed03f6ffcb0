-- ===== src/Planning/Requested.antt =====
-- A plan that was asked for, and the guard of `generate_plan`, app/planner.rs.
use text.Mathlib.TextPositions.{eq_refl}
use openclaw_rs.Base.{
  ℕ, String, ◌≡◌, refl, sym, ◌∙◌, subst, Bool, true, false, none, some, List, [], ◌∷◌, ◌++◌, ◌||◌,
  any, str_eq, arith,
}
use openclaw_rs.Errors.{ok, err, concurrency_conflict}
use openclaw_rs.Payload.{Uuid, EventEnvelope}
use openclaw_rs.Workers.Ticks.{state_of}
use openclaw_rs.Act.{query, return, fail, continue, ◌>>=◌}
use openclaw_rs.Wire.{Item, id, Wire, IsWire, Fresh, envelope, field}
use openclaw_rs.Port.Log.{Records, has_key}
use openclaw_rs.Port.{EventStore, emit_event, emit_event-added}
use openclaw_rs.Merging.Attempts.{text_is, check_instance_active, require_active}
use openclaw_rs.Planning.{PlanningContext}
use openclaw_rs.Planning.Service.{
  PlanInput, is_plan_end, is_pending_request, requested_event, request_plan_core,
  check_in_flight_generation, generate_plan,
}
use Prim.Native.String.{◌++◌ as append}

any-last :
    {A : Type 0} (p : A → Bool) (xs : List A) (y : A) → any p (xs ++ y ∷ []) ≡ (any p xs || p y)
any-last p [] y = ground arith
any-last p (x ∷ xs) y = ground (arith, any-last p xs y)

module _ {V : Type 0} (W : Wire V) (cycle_id : Uuid) where
  text_is-object :
      (fields : List (String × Item V)) (key : String) (u : Uuid)
      → IsWire W
      → field key fields ≡ some (id u)
      → text_is W (W.object fields) key (W.show_uuid u) ≡ true
  unfolding text_is
  text_is-object fields key u law h =
      rw (text_is, law.text_at-object fields key u h) (eq_refl (W.show_uuid u))

  -- The event of a request is one, and no end of a plan.
  request_kind :
      (fresh : Fresh) (i : Uuid) (context : PlanningContext) (r : EventEnvelope V)
      → IsWire W
      → Records (requested_event W fresh i cycle_id context) r
      → (str_eq r.event_type "PlanRequested" ≡ true)
        × (text_is W r.payload "cycle_id" (W.show_uuid cycle_id) ≡ true)
        × (is_plan_end W cycle_id r ≡ false)
  unfolding requested_event envelope text_is is_plan_end field
  request_kind fresh i context r law records = (
    rw records.event_type refl,
    subst (λ v. text_is W v "cycle_id" (W.show_uuid cycle_id) ≡ true) (sym records.payload)
        (text_is-object _ "cycle_id" cycle_id law refl),
    rw records.event_type refl,
  )

  -- With the request at the end of events that have no end of the plan, the guard finds it.
  pending :
      (log : List (EventEnvelope V)) (r : EventEnvelope V)
      → str_eq r.event_type "PlanRequested" ≡ true
      → text_is W r.payload "cycle_id" (W.show_uuid cycle_id) ≡ true
      → is_plan_end W cycle_id r ≡ false
      → any (is_plan_end W cycle_id) log ≡ false
      → any (is_pending_request W cycle_id (log ++ r ∷ [])) (log ++ r ∷ []) ≡ true
  unfolding is_pending_request
  pending log r kind named ends none_yet =
      let clear : any (is_plan_end W cycle_id) (log ++ r ∷ []) ≡ false =
        any-last (is_plan_end W cycle_id) log r ∙ ground (arith, ends, none_yet) in
      let own : is_pending_request W cycle_id (log ++ r ∷ []) r ≡ true =
        ground (arith, kind, named, clear) in
      any-last (is_pending_request W cycle_id (log ++ r ∷ [])) log r ∙ ground (arith, own)

  module _ (E : EventStore V) where
    blocked :
        (o : PlanInput V) (i : Uuid) (context : PlanningContext) (attempt : ℕ) (t : E.State)
        → o.instances_fault ≡ none
        → o.in_flight_fault ≡ none
        → state_of i o.instances ≡ some "active"
        → any (is_pending_request W cycle_id (E.log t)) (E.log t) ≡ true
        → generate_plan W E o i cycle_id context attempt t ≡ (
          t,
          err (
              concurrency_conflict
                (append "plan generation already in-flight for cycle " (W.show_uuid cycle_id))),
        )
    unfolding generate_plan check_instance_active require_active check_in_flight_generation query
        return fail continue ◌>>=◌
    blocked o i context attempt t answered looked active found =
        rw (answered, active, looked, found) refl

-- When request_plan_core succeeds for a cycle whose request key is new and for which there is no
-- PlanGenerated and no PlanGenerationFailed, a generate_plan for the cycle that finds the instance
-- active, with no database error, ends in a ConcurrencyConflict and leaves the event store as it was:
-- the guard takes the request itself for a plan in flight. The event store, the planner and the
-- attempt's number are arbitrary; a UUID written into an object is read back as its text.
pub request_plan-generate_plan :
    {V : Type 0} (W : Wire V) (E : EventStore V) (o : PlanInput V) (fresh : Fresh)
    (i cycle_id : Uuid) (context later : PlanningContext) (attempt : ℕ) (s : E.State)
    → IsWire W
    → o.instances_fault ≡ none
    → o.in_flight_fault ≡ none
    → state_of i o.instances ≡ some "active"
    → has_key i (some (append "plan-requested-" (W.show_uuid cycle_id))) (E.log s) ≡ false
    → any (is_plan_end W cycle_id) (E.log s) ≡ false
    → (request_plan_core W E fresh i cycle_id context s).1 ≡ ok tt
    → generate_plan W E o i cycle_id later attempt
        (request_plan_core W E fresh i cycle_id context s).0
      ≡ (
        (request_plan_core W E fresh i cycle_id context s).0,
        err (
            concurrency_conflict
              (append "plan generation already in-flight for cycle " (W.show_uuid cycle_id))),
      )
unfolding request_plan_core requested_event envelope
request_plan-generate_plan W E o fresh i cycle_id context later attempt s law answered looked active
      new none_yet done =
    let e = requested_event W fresh i cycle_id context in
    let (r, grown, records) = emit_event-added E W "emit PlanRequested: " e s done new in
    let (kind, named, ends) = request_kind W cycle_id fresh i context r law records in
    blocked W cycle_id E o i later attempt (emit_event E W "emit PlanRequested: " e s).0 answered
      looked active (rw grown (pending W cycle_id (E.log s) r kind named ends none_yet))
