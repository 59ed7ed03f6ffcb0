-- ===== src/Merging/Attempts.antt =====
-- `attempt_merge` and `attempt_merge_with_retry` of app/merge_service.rs.
use openclaw_rs.Base.{
  ℕ, zero, suc, ◌+◌, ◌%◌, ◌^◌, String, Bool, false, Option, none, some, List, [], ◌∷◌, ◌&&◌, ◌||◌,
  if◌then◌else◌, any, not, str_eq, leb, length,
}
use openclaw_rs.Errors.{
  Result, ok, err, domain, precondition, infra, io, database, concurrency_conflict,
}
use openclaw_rs.Sql.{Fault}
use openclaw_rs.Payload.{Uuid, EventEnvelope}
use openclaw_rs.Projection.Instance.{InstanceRow}
use openclaw_rs.Workers.Ticks.{state_of}
use openclaw_rs.Act.{Act, return, fail, query, ◌>>=◌}
use openclaw_rs.Wire.{id, text, actor, Wire, Fresh, envelope}
use openclaw_rs.Port.{EventStore, emit_event}
use openclaw_rs.Merging.{
  MergeResult, DiffStat, GitError, GitProvider, MergeParams, MergeOutcome, succeeded, conflicted,
  retryable, show_git, classify_failure_transient, attempted_event, succeeded_event,
  conflicted_event, failed_event,
}
use Prim.Native.String.{◌++◌}

-- What the service takes from outside: the instances, the database's answers to the two guards, git,
-- and the ids and times of the events, by the attempt and the event's place in it.
pub record MergeInput (V : Type 0) : Type 0 where
  pub instances : List (InstanceRow V)
  pub instances_fault : Fault
  pub in_flight_fault : Fault
  pub git : GitProvider
  pub fresh : ℕ → ℕ → Fresh

abbrev no_diff : DiffStat
no_diff = record { files_changed = 0; insertions = 0; deletions = 0 }

-- `.unwrap_or(DiffStat { 0, 0, 0 })`
abbrev pub diff_or_zero : Result GitError DiffStat → DiffStat
diff_or_zero (ok diff) = diff
diff_or_zero (err e) = no_diff

module _ {V : Type 0} (W : Wire V) where
  -- `payload->>'key'` is there and equal, or there and different; NULL is neither.
  unfoldable pub text_is : V → String → String → Bool
  text_is payload key s = elim (W.text_at payload key) [ none ↦ false | some t ↦ str_eq t s ]

  unfoldable pub text_differs : V → String → String → Bool
  text_differs payload key s = elim (W.text_at payload key) [
    | none ↦ false
    | some t ↦ not (str_eq t s)
  ]

  abbrev pub same_task : V → V → Bool
  same_task a b = elim (W.text_at b "task_id") [ none ↦ false | some t ↦ text_is a "task_id" t ]

  abbrev pub is_terminal : String → Bool
  is_terminal event_type =
      str_eq event_type "MergeSucceeded"
      || str_eq event_type "MergeConflicted"
      || str_eq event_type "MergeFailed"
      || str_eq event_type "MergeSkipped"

  -- A MergeAttempted of another task of the cycle, with no end of a merge of that task in the events.
  unfoldable pub in_flight_event :
      (cycle_id task_id : Uuid) → List (EventEnvelope V) → EventEnvelope V → Bool
  unfolding text_is text_differs
  in_flight_event cycle_id task_id log attempted =
      str_eq attempted.event_type "MergeAttempted"
      && text_is attempted.payload "cycle_id" (W.show_uuid cycle_id)
      && text_differs attempted.payload "task_id" (W.show_uuid task_id)
      && not (
          any
            (λ terminal.
              is_terminal terminal.event_type && same_task terminal.payload attempted.payload)
            log)

  -- SELECT COUNT(*) … is greater than 0 when there is one.
  unfoldable pub in_flight : (cycle_id task_id : Uuid) → List (EventEnvelope V) → Bool
  unfolding in_flight_event
  in_flight cycle_id task_id log = any (in_flight_event cycle_id task_id log) log

  -- A result of git under `?`.
  unfoldable pub from_git : {S A : Type 0} → Result GitError A → Act S A
  unfolding return fail show_git
  from_git (ok a) = return a
  from_git (err e) = fail (infra (io ("git merge error: " ++ show_git W e)))

  module _ (E : EventStore V) where
    -- `check_instance_active` from the state that is read.
    unfoldable pub require_active : Uuid → Option String → Act E.State (Unit {0})
    unfolding return fail
    require_active i (some state) =
        if str_eq state "active"
        then return tt
        else fail (
            domain (
              precondition (
                "instance "
                ++ W.show_uuid i
                ++ " is in '"
                ++ state
                ++ "' state, operations blocked")))
    require_active i none = fail (infra (database ("instance " ++ W.show_uuid i ++ " not found")))

    unfoldable pub check_instance_active :
        Fault → List (InstanceRow V) → Uuid → Act E.State (Unit {0})
    unfolding state_of query require_active ◌>>=◌
    check_instance_active fault instances i =
        query (λ e. "maintenance guard query: " ++ e) fault (state_of i instances) >>= λ state.
        require_active i state

    unfoldable pub check_in_flight_merge :
        Fault → (cycle_id task_id : Uuid) → Act E.State (Unit {0})
    unfolding in_flight query return fail ◌>>=◌
    check_in_flight_merge fault cycle_id task_id s =
        (query (λ e. "check in-flight merge: " ++ e) fault (in_flight cycle_id task_id (E.log s))
            >>= λ found.
                if found
                then fail (
                    concurrency_conflict
                      ("another merge is in-flight for cycle " ++ W.show_uuid cycle_id))
                else return tt)
          s

    -- The arms of the `match` on the result of git.
    unfoldable pub conclude :
        MergeInput V → MergeParams → ℕ → MergeResult → Act E.State MergeOutcome
    unfolding succeeded_event conflicted_event failed_event classify_failure_transient emit_event
        return ◌>>=◌
    conclude o p attempt (MergeResult.success merge_sha) =
        let diff =
          diff_or_zero (o.git.diff_stat attempt p.repo_path p.target_branch p.source_branch) in
        emit_event E W "emit MergeSucceeded: "
          (succeeded_event W (o.fresh attempt 1) p attempt merge_sha diff)
        >>= λ _. return (succeeded merge_sha diff)
    conclude o p attempt (MergeResult.conflict files) =
        let count = length files % 2 ^ 32 in
        emit_event E W "emit MergeConflicted: "
          (conflicted_event W (o.fresh attempt 1) p attempt files count)
        >>= λ _. return (conflicted files count)
    conclude o p attempt (MergeResult.failed reason) =
        let is_transient = classify_failure_transient W reason in
        emit_event E W "emit MergeFailed: "
          (failed_event W (o.fresh attempt 1) p attempt reason is_transient)
        >>= λ _. return (MergeOutcome.failed reason is_transient)

    unfoldable pub attempt_merge_core : MergeInput V → MergeParams → ℕ → Act E.State MergeOutcome
    unfolding attempted_event emit_event from_git conclude ◌>>=◌
    attempt_merge_core o p attempt =
        emit_event E W "emit MergeAttempted: " (attempted_event W (o.fresh attempt 0) p attempt)
        >>= λ _.
            from_git (o.git.merge attempt p.repo_path p.source_branch p.target_branch) >>= λ result.
            conclude o p attempt result

    -- The two guards, in the order of the source.
    unfoldable pub check_guards : MergeInput V → MergeParams → Act E.State (Unit {0})
    unfolding check_instance_active check_in_flight_merge ◌>>=◌
    check_guards o p = check_instance_active o.instances_fault o.instances p.instance_id >>= λ _.
        check_in_flight_merge o.in_flight_fault p.cycle_id p.task_id

    unfoldable pub attempt_merge : MergeInput V → MergeParams → ℕ → Act E.State MergeOutcome
    unfolding check_guards attempt_merge_core ◌>>=◌
    attempt_merge o p attempt = check_guards o p >>= λ _. attempt_merge_core o p attempt

    -- The loop, `none` when the fuel is spent; `attempt` is a `u32`.
    unfoldable pub retry :
        MergeInput V → MergeParams → ℕ → ℕ → ℕ → Act E.State (Option MergeOutcome)
    unfolding attempt_merge_core return ◌>>=◌
    retry o p max_retries zero attempt = return none
    retry o p max_retries (suc fuel) attempt = attempt_merge_core o p attempt >>= λ outcome.
        if retryable outcome && leb attempt max_retries
        then retry o p max_retries fuel ((attempt + 1) % 2 ^ 32)
        else return (some outcome)

    unfoldable pub attempt_merge_with_retry :
        MergeInput V → MergeParams → ℕ → ℕ → Act E.State (Option MergeOutcome)
    unfolding check_guards retry ◌>>=◌
    attempt_merge_with_retry o p max_retries fuel =
        check_guards o p >>= λ _. retry o p max_retries fuel 1

    unfoldable pub skip_merge :
        Fresh → (task_id run_id i cycle_id : Uuid) → String → Act E.State (Unit {0})
    unfolding envelope emit_event
    skip_merge fresh task_id run_id i cycle_id reason = emit_event E W "emit MergeSkipped: " (
        envelope fresh i "MergeSkipped"
          (W.object (
            ("task_id", id task_id)
            ∷ ("run_id", id run_id)
            ∷ ("cycle_id", id cycle_id)
            ∷ ("reason", text reason)
            ∷ ("actor", actor "System" none)
            ∷ []))
          ("merge-skipped-" ++ W.show_uuid task_id))
