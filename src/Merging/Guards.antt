-- ===== src/Merging/Guards.antt =====
-- The guards of app/merge_service.rs: what has to hold before a merge touches the events.
use openclaw_rs.Base.{
  ℕ, String, ◌≡◌, ◌≢◌, refl, Option, none, some, ◌⊎◌, inl, inr, List, str_eq, Bool-cases, ap,
}
use text.Mathlib.TextEquality.{eq_iff}
use openclaw_rs.Errors.{Result, ok, err, AppError, concurrency_conflict}
use openclaw_rs.Sql.{Fault}
use openclaw_rs.Payload.{Uuid}
use openclaw_rs.Projection.Instance.{InstanceRow}
use openclaw_rs.Workers.Ticks.{state_of}
use openclaw_rs.Act.{Act, return, fail, query, continue, ◌>>=◌}
use openclaw_rs.Wire.{Wire}
use openclaw_rs.Port.{EventStore}
use openclaw_rs.Merging.{MergeParams}
use openclaw_rs.Merging.Attempts.{
  MergeInput, in_flight, require_active, check_instance_active, check_in_flight_merge, check_guards,
  attempt_merge, attempt_merge_core, retry, attempt_merge_with_retry,
}
use openclaw_rs.Merging.Flight.{Busy, Free, in_flight-Busy, in_flight-Free}
use Prim.Native.String.{◌++◌}

-- A test leaves the state alone: it ends in an error that satisfies `No`, or `Yes` holds.
abbrev Tested :
    {S : Type 0} → (AppError → Type 0) → Type 0 → S → S × Result AppError (Unit {0}) → Type 0
Tested No Yes s r = ((x : AppError) × (r ≡ (s, err x)) × No x) ⊎ ((r ≡ (s, ok tt)) × Yes)

-- What runs behind a test is not reached, or is all that happens.
abbrev pub Guarded :
    {S A : Type 0}
    → (AppError → Type 0)
    → Type 0
    → S
    → S × Result AppError A
    → S × Result AppError A
    → Type 0
Guarded No Yes s inner r = ((x : AppError) × (r ≡ (s, err x)) × No x) ⊎ ((r ≡ inner) × Yes)

Tested-Guarded :
    {S A : Type 0} (No : AppError → Type 0) (Yes : Type 0) (s : S)
    (r : S × Result AppError (Unit {0})) (f : Act S A)
    → Tested No Yes s r
    → Guarded No Yes s (f s) (continue (λ u. f) r)
unfolding continue
Tested-Guarded No Yes s r f (inl (x, e, why)) = inl (x, rw e refl, why)
Tested-Guarded No Yes s r f (inr (e, holds)) = inr (rw e refl, holds)

module _ {V : Type 0} (W : Wire V) (E : EventStore V) where
  -- The first guard fails.
  abbrev Inactive : Fault → Option String → Type 0
  Inactive fault state = ((m : String) × (fault ≡ some m)) ⊎ (state ≢ some "active")

  abbrev Active : Fault → Option String → Type 0
  Active fault state = (fault ≡ none) × (state ≡ some "active")

  -- The second guard fails: the database does not answer, or another merge is in flight.
  abbrev Held : Fault → (cycle_id task_id : Uuid) → E.State → AppError → Type 0
  Held fault cycle_id task_id s x =
      ((m : String) × (fault ≡ some m))
      ⊎ ((x
            ≡ concurrency_conflict
                ("another merge is in-flight for cycle " ++ W.show_uuid cycle_id))
          × Busy W cycle_id task_id (E.log s))

  abbrev Clear : Fault → (cycle_id task_id : Uuid) → E.State → Type 0
  Clear fault cycle_id task_id s = (fault ≡ none) × Free W cycle_id task_id (E.log s)

  abbrev pub Blocked : MergeInput V → MergeParams → E.State → AppError → Type 0
  Blocked o p s x =
      Inactive o.instances_fault (state_of p.instance_id o.instances)
      ⊎ Held o.in_flight_fault p.cycle_id p.task_id s x

  abbrev pub Passed : MergeInput V → MergeParams → E.State → Type 0
  Passed o p s =
      Active o.instances_fault (state_of p.instance_id o.instances)
      × Clear o.in_flight_fault p.cycle_id p.task_id s

  active-Tested :
      (i : Uuid) (state : Option String) (s : E.State)
      → Tested (λ x. state ≢ some "active") (state ≡ some "active") s (require_active W E i state s)
  unfolding require_active return fail
  active-Tested i none s = inl (_, refl, λ same. absurd (cc (same)))
  active-Tested i (some state) s = elim (Bool-cases (str_eq state "active")) [
    | inl here ↦ rw here (inr (refl, ap some ((eq_iff state "active").0 here)))
    | inr there ↦ rw there (
        inl (
          _,
          refl,
          λ same.
              let is : state ≡ "active" = ap (λ x. elim x [ none ↦ state | some t ↦ t ]) same in
              absurd (cc ((eq_iff state "active").1 is, there)),
        ))
  ]

  instance-Tested :
      (fault : Fault) (rows : List (InstanceRow V)) (i : Uuid) (s : E.State)
      → Tested
          (λ x. Inactive fault (state_of i rows))
          (Active fault (state_of i rows))
          s
          (check_instance_active W E fault rows i s)
  unfolding check_instance_active query continue ◌>>=◌
  instance-Tested (some m) rows i s = inl (_, refl, inl (m, refl))
  instance-Tested none rows i s = elim (active-Tested i (state_of i rows) s) [
    | inl (x, e, why) ↦ inl (x, e, inr why)
    | inr (e, holds) ↦ inr (e, (refl, holds))
  ]

  flight-Tested :
      (fault : Fault) (cycle_id task_id : Uuid) (s : E.State)
      → Tested
          (Held fault cycle_id task_id s)
          (Clear fault cycle_id task_id s)
          s
          (check_in_flight_merge W E fault cycle_id task_id s)
  unfolding check_in_flight_merge query continue ◌>>=◌ return fail
  flight-Tested (some m) cycle_id task_id s = inl (_, refl, inl (m, refl))
  flight-Tested none cycle_id task_id s =
      elim (Bool-cases (in_flight W cycle_id task_id (E.log s))) [
        | inl busy ↦
            rw busy (inl (_, refl, inr (refl, in_flight-Busy W cycle_id task_id (E.log s) busy)))
        | inr free ↦ rw free (inr (refl, (refl, in_flight-Free W cycle_id task_id (E.log s) free)))
      ]

  check_guards-Tested :
      (o : MergeInput V) (p : MergeParams) (s : E.State)
      → Tested (Blocked o p s) (Passed o p s) s (check_guards W E o p s)
  unfolding check_guards ◌>>=◌ continue
  check_guards-Tested o p s = elim (instance-Tested o.instances_fault o.instances p.instance_id s) [
    | inl (x, e, why) ↦ rw e (inl (x, refl, inl why))
    | inr (e, holds) ↦ rw e (elim (flight-Tested o.in_flight_fault p.cycle_id p.task_id s) [
      | inl (x, e2, why) ↦ inl (x, e2, inr why)
      | inr (e2, clear) ↦ inr (e2, (holds, clear))
    ])
  ]

-- A merge, with retries or without, does one of two things. Either it ends in an error with the event
-- store as it was, and the database did not answer one of the two guards, or the instance is not
-- active, or the error is the conflict of two merges and the events have a MergeAttempted of another
-- task of the cycle and no event that a merge of that task succeeded, conflicted, failed or was
-- skipped. Or it does exactly what the attempt, or the loop from attempt 1, does from the same state:
-- then both guards were answered, the instance is active, and for every MergeAttempted of another task
-- of the cycle the events have such an end of a merge of that task, be it before or after the attempt.
pub attempt_merge-Passed :
    {V : Type 0} (W : Wire V) (E : EventStore V) (o : MergeInput V) (p : MergeParams)
    (attempt max_retries fuel : ℕ) (s : E.State)
    → Guarded
        (Blocked W E o p s)
        (Passed W E o p s)
        s
        (attempt_merge_core W E o p attempt s)
        (attempt_merge W E o p attempt s)
      × Guarded
          (Blocked W E o p s)
          (Passed W E o p s)
          s
          (retry W E o p max_retries fuel 1 s)
          (attempt_merge_with_retry W E o p max_retries fuel s)
unfolding attempt_merge attempt_merge_with_retry ◌>>=◌
attempt_merge-Passed W E o p attempt max_retries fuel s =
    let tested = check_guards-Tested W E o p s in
    (
      Tested-Guarded (Blocked W E o p s) (Passed W E o p s) s (check_guards W E o p s)
          (attempt_merge_core W E o p attempt) tested,
      Tested-Guarded (Blocked W E o p s) (Passed W E o p s) s (check_guards W E o p s)
          (retry W E o p max_retries fuel 1) tested,
    )
