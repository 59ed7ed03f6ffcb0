-- ===== src/Merging/Cycle.antt =====
-- `check_cycle_completion` of app/merge_service.rs.
use openclaw_rs.Base.{
  ◌≡◌, refl, sym, subst, ◌⊎◌, inl, inr, Bool, true, false, none, some, List, [], ◌∷◌, ◌==◌, ◌&&◌,
  ◌||◌, if◌then◌else◌, any, any-none, not, str_eq, arith,
}
use mathlib.Core.List.{Memᴰ}
use openclaw_rs.Errors.{ok}
use openclaw_rs.Sql.{Fault}
use openclaw_rs.Payload.{Uuid, EventEnvelope}
use openclaw_rs.Projection.Task.{TaskStatus, TaskRow, is}
use openclaw_rs.Act.{Act, then_return-eq-ok, query_bind-ok, return, query, ◌>>=◌}
use openclaw_rs.Wire.{id, actor, Wire, Fresh, envelope}
use openclaw_rs.Port.Log.{has_key}
use openclaw_rs.Port.{EventStore, emit_event, emit_event-has_key}
use openclaw_rs.Merging.Attempts.{text_is}
use Prim.Native.String.{◌++◌}

-- The tasks as the two queries find them, the database's answers, and the id and time of the event.
pub record CycleInput (V : Type 0) : Type 0 where
  pub tasks : List (TaskRow V)
  pub tasks_fault : Fault
  pub later_tasks : List (TaskRow V)
  pub merges_fault : Fault
  pub fresh : Fresh

module _ {V : Type 0} where
  -- cycle_id = $1 AND instance_id = $2
  unfoldable pub in_cycle : (cycle_id i : Uuid) → TaskRow V → Bool
  in_cycle cycle_id i t = (t.cycle_id == cycle_id) && (t.instance_id == i)

  unfoldable pub is_incomplete : (cycle_id i : Uuid) → TaskRow V → Bool
  unfolding in_cycle is
  is_incomplete cycle_id i t =
      in_cycle cycle_id i t
      && not (is t.state TaskStatus.passed)
      && not (is t.state TaskStatus.skipped)

module _ {V : Type 0} (W : Wire V) where
  -- The event says that the task's merge succeeded or was skipped.
  unfoldable pub is_merge_of : TaskRow V → EventEnvelope V → Bool
  unfolding text_is
  is_merge_of t e =
      (e.instance_id == t.instance_id)
      && (str_eq e.event_type "MergeSucceeded" || str_eq e.event_type "MergeSkipped")
      && text_is W e.payload "task_id" (W.show_uuid t.id)

  unfoldable pub is_unmerged : (cycle_id i : Uuid) → List (EventEnvelope V) → TaskRow V → Bool
  unfolding in_cycle is_merge_of
  is_unmerged cycle_id i log t = in_cycle cycle_id i t && not (any (is_merge_of t) log)

  unfoldable pub cycle_completed_event : Fresh → (cycle_id i : Uuid) → EventEnvelope V
  unfolding envelope
  cycle_completed_event fresh cycle_id i =
      envelope fresh i "CycleCompleted"
        (W.object (("cycle_id", id cycle_id) ∷ ("actor", actor "System" none) ∷ []))
        ("cycle-completed-" ++ W.show_uuid cycle_id)

  module _ (E : EventStore V) where
    -- From the second query on. COUNT(*) is greater than 0 when there is such a row.
    unfoldable pub complete_merged : CycleInput V → (cycle_id i : Uuid) → Act E.State Bool
    unfolding is_unmerged cycle_completed_event emit_event query return ◌>>=◌
    complete_merged o cycle_id i s =
        (query (λ e. "check cycle completion (merges): " ++ e) o.merges_fault
              (any (is_unmerged cycle_id i (E.log s)) o.later_tasks)
            >>= λ unmerged.
                if unmerged
                then return false
                else (emit_event E W "emit CycleCompleted: "
                      (cycle_completed_event o.fresh cycle_id i)
                    >>= λ _. return true))
          s

    unfoldable pub check_cycle_completion : CycleInput V → (cycle_id i : Uuid) → Act E.State Bool
    unfolding is_incomplete query complete_merged return ◌>>=◌
    check_cycle_completion o cycle_id i =
        query (λ e. "check cycle completion (tasks): " ++ e) o.tasks_fault
          (any (is_incomplete cycle_id i) o.tasks)
        >>= λ incomplete. if incomplete then return false else complete_merged o cycle_id i

module _ {V : Type 0} (W : Wire V) (E : EventStore V) (o : CycleInput V) (cycle_id i : Uuid) where
  -- The tasks of the cycle are done, and their merges are in the events.
  pub record Complete (s : E.State) : Type 0 where
    pub done :
        (t : TaskRow V)
        → Memᴰ t o.tasks
        → in_cycle cycle_id i t ≡ true
        → (is t.state TaskStatus.passed || is t.state TaskStatus.skipped) ≡ true
    pub merged :
        (t : TaskRow V)
        → Memᴰ t o.later_tasks
        → in_cycle cycle_id i t ≡ true
        → any (is_merge_of W t) (E.log s) ≡ true

  -- What an answer says of the state before and of the state after.
  abbrev pub Decided : Bool → E.State → E.State → Type 0
  Decided true s t =
      Complete s × (has_key i (some ("cycle-completed-" ++ W.show_uuid cycle_id)) (E.log t) ≡ true)
  Decided false s t =
      (t ≡ s)
      × ((any (is_incomplete cycle_id i) o.tasks ≡ true)
          ⊎ (any (is_unmerged W cycle_id i (E.log s)) o.later_tasks ≡ true))

  complete :
      (s : E.State)
      → any (is_incomplete cycle_id i) o.tasks ≡ false
      → any (is_unmerged W cycle_id i (E.log s)) o.later_tasks ≡ false
      → Complete s
  unfolding is_incomplete is_unmerged
  complete s tasks merges = record {
    done = λ t mem inside.
        let test = any-none (is_incomplete cycle_id i) o.tasks tasks t mem in
        ground (arith, test, inside);
    merged = λ t mem inside.
        let test = any-none (is_unmerged W cycle_id i (E.log s)) o.later_tasks merges t mem in
        ground (arith, test, inside);
  }

  abbrev emit_completed : Act E.State (Unit {0})
  emit_completed =
      emit_event E W "emit CycleCompleted: " (cycle_completed_event W o.fresh cycle_id i)

  completed-key :
      (s : E.State)
      → (emit_completed s).1 ≡ ok tt
      → has_key i (some ("cycle-completed-" ++ W.show_uuid cycle_id)) (E.log (emit_completed s).0)
        ≡ true
  unfolding cycle_completed_event envelope
  completed-key s done =
      emit_event-has_key E W "emit CycleCompleted: " (cycle_completed_event W o.fresh cycle_id i)
        ("cycle-completed-" ++ W.show_uuid cycle_id) s refl done

  abbrev after_merges : Bool → Act E.State Bool
  after_merges unmerged = if unmerged then return false else (emit_completed >>= λ u. return true)

  after_merges-Decided :
      (s : E.State) (unmerged b : Bool)
      → any (is_incomplete cycle_id i) o.tasks ≡ false
      → any (is_unmerged W cycle_id i (E.log s)) o.later_tasks ≡ unmerged
      → (after_merges unmerged s).1 ≡ ok b
      → Decided b s (after_merges unmerged s).0
  unfolding return
  after_merges-Decided s true true tasks merges h = absurd (cc)
  after_merges-Decided s true false tasks merges h = (refl, inr merges)
  after_merges-Decided s false false tasks merges h =
      let (done, value, state) = then_return-eq-ok emit_completed true false s h in absurd (cc)
  after_merges-Decided s false true tasks merges h =
      let (done, value, state) = then_return-eq-ok emit_completed true true s h in
      (complete s tasks merges, rw state (completed-key s done))

  after_tasks-Decided :
      (s : E.State) (incomplete b : Bool)
      → any (is_incomplete cycle_id i) o.tasks ≡ incomplete
      → ((if incomplete then return false else complete_merged W E o cycle_id i) s).1 ≡ ok b
      → Decided b s ((if incomplete then return false else complete_merged W E o cycle_id i) s).0
  unfolding return complete_merged
  after_tasks-Decided s true true tasks h = absurd (cc)
  after_tasks-Decided s true false tasks h = (refl, inl tasks)
  after_tasks-Decided s false b tasks h =
      let whole =
        query_bind-ok (λ e. "check cycle completion (merges): " ++ e) o.merges_fault
          (any (is_unmerged W cycle_id i (E.log s)) o.later_tasks) after_merges s b h in
      subst (λ p. Decided b s p.0) (sym whole)
        (after_merges-Decided s (any (is_unmerged W cycle_id i (E.log s)) o.later_tasks) b tasks
          refl (subst (λ p. p.1 ≡ ok b) whole h))

-- When the check answers true, every task of the cycle that its first query found is passed or skipped,
-- every one that its second query found has an event of its instance that its merge succeeded or was
-- skipped, and afterwards the events have the key of the cycle's CycleCompleted; when it answers false,
-- the store is as it was, and there is a task of the cycle that is not done or not merged. The tables,
-- the database's answers and the event store are arbitrary.
pub check_cycle_completion-Decided :
    {V : Type 0} (W : Wire V) (E : EventStore V) (o : CycleInput V) (cycle_id i : Uuid)
    (s : E.State) (b : Bool)
    → (check_cycle_completion W E o cycle_id i s).1 ≡ ok b
    → Decided W E o cycle_id i b s (check_cycle_completion W E o cycle_id i s).0
unfolding check_cycle_completion
check_cycle_completion-Decided W E o cycle_id i s b h =
    let whole =
      query_bind-ok (λ e. "check cycle completion (tasks): " ++ e) o.tasks_fault
        (any (is_incomplete cycle_id i) o.tasks)
        (λ incomplete. if incomplete then return false else complete_merged W E o cycle_id i) s b
        h in
    subst (λ p. Decided W E o cycle_id i b s p.0) (sym whole)
      (after_tasks-Decided W E o cycle_id i s (any (is_incomplete cycle_id i) o.tasks) b refl
        (subst (λ p. p.1 ≡ ok b) whole h))
