-- ===== src/Schedule/Queries.antt =====
-- The statements of app/scheduler.rs.
use openclaw_rs.Base.{
  ℕ, String, Bool, true, false, Option, none, some, List, [], ◌∷◌, ◌++◌, ◌==◌, ◌&&◌, ◌||◌,
  if◌then◌else◌, any, take, not,
}
use openclaw_rs.Base.Int.{ℤ, pos, negsuc, ◌+ℤ◌, ◌-ℤ◌, leb_ℤ}
use openclaw_rs.Errors.{Result, ok, err, AppError, infra, database}
use openclaw_rs.Sql.{update_where}
use openclaw_rs.Payload.{Uuid, Time}
use openclaw_rs.Projection.Cycle.{CycleStatus, CycleRow}
use openclaw_rs.Projection.Task.{TaskStatus, TaskRow}
use openclaw_rs.Projection.Run.{RunRow}
use openclaw_rs.Store.Rows.{EventRow}
use openclaw_rs.Store.{max_seq, unwrap_or_zero, greater, wrap_i64, eqb_ℤ}
use openclaw_rs.Schedule.Rows.{wrap_i32, CapacityRow, ClaimableTask, Tables, default_max_concurrent}

-- SELECT active_runs, max_concurrent … WHERE instance_id = $1
unfoldable pub find_capacity : Uuid → List CapacityRow → Option CapacityRow
find_capacity i [] = none
find_capacity i (c ∷ rows) =
    let rest = find_capacity i rows in if c.instance_id == i then some c else rest

-- max_conc - active, with the default where there is no row.
unfoldable pub available : Option CapacityRow → ℤ
available none = wrap_i32 (default_max_concurrent -ℤ pos 0)
available (some c) = wrap_i32 (c.max_concurrent -ℤ c.active_runs)

-- UPDATE orch_server_capacity SET active_runs = active_runs + 1 … WHERE instance_id = $1
unfoldable pub count_run : Uuid → List CapacityRow → List CapacityRow
count_run i =
    update_where (λ c. c.instance_id == i) (λ c. record c { active_runs = c.active_runs +ℤ pos 1 })

abbrev pub is_claimable_cycle : CycleStatus → Bool
is_claimable_cycle CycleStatus.approved = true
is_claimable_cycle CycleStatus.running = true
is_claimable_cycle s = false

abbrev pub is_approved : CycleStatus → Bool
is_approved CycleStatus.approved = true
is_approved s = false

abbrev pub is_scheduled : TaskStatus → Bool
is_scheduled TaskStatus.scheduled = true
is_scheduled s = false

module _ {V : Type 0} where
  -- The rows of the join that belong to one task, with the task's ordinal.
  unfoldable pub join_cycles : Uuid → TaskRow V → List (CycleRow V) → List (ℤ × ClaimableTask)
  join_cycles i t [] = []
  join_cycles i t (c ∷ cycles) =
      let rest = join_cycles i t cycles in
      if (c.id == t.cycle_id) && (c.instance_id == t.instance_id) && is_claimable_cycle c.state
      then (
        t.ordinal,
        record {
          id = t.id;
          cycle_id = t.cycle_id;
          current_attempt = t.current_attempt;
          cycle_state = c.state;
        },
      )
        ∷ rest
      else rest

  -- WHERE t.instance_id = $1 AND t.state = 'scheduled' AND …, SKIP LOCKED
  unfoldable pub join_tasks :
      Uuid → (Uuid → Bool) → List (CycleRow V) → List (TaskRow V) → List (ℤ × ClaimableTask)
  unfolding join_cycles
  join_tasks i is_locked cycles [] = []
  join_tasks i is_locked cycles (t ∷ tasks) =
      let rest = join_tasks i is_locked cycles tasks in
      if (t.instance_id == i) && is_scheduled t.state && not (is_locked t.id)
      then join_cycles i t cycles ++ rest
      else rest

-- ORDER BY t.ordinal ASC; rows of one ordinal, whose order SQL leaves open, keep that of the table.
unfoldable pub insert_by_ordinal :
    ℤ × ClaimableTask → List (ℤ × ClaimableTask) → List (ℤ × ClaimableTask)
insert_by_ordinal p [] = p ∷ []
insert_by_ordinal p (q ∷ ps) =
    let rest = insert_by_ordinal p ps in if leb_ℤ p.0 q.0 then p ∷ q ∷ ps else q ∷ rest

unfoldable pub sort_by_ordinal : List (ℤ × ClaimableTask) → List (ℤ × ClaimableTask)
unfolding insert_by_ordinal
sort_by_ordinal [] = []
sort_by_ordinal (p ∷ ps) = insert_by_ordinal p (sort_by_ordinal ps)

abbrev pub seconds : List (ℤ × ClaimableTask) → List ClaimableTask
seconds [] = []
seconds (p ∷ ps) = p.1 ∷ seconds ps

-- LIMIT $2, of a number above 0.
abbrev pub to_limit : ℤ → ℕ
to_limit (pos n) = n
to_limit (negsuc n) = 0

unfoldable pub claimable : {V : Type 0} → Uuid → (Uuid → Bool) → ℤ → Tables V → List ClaimableTask
unfolding join_tasks sort_by_ordinal
claimable i is_locked limit db =
    take (to_limit limit) (seconds (sort_by_ordinal (join_tasks i is_locked db.cycles db.tasks)))

module _ {V : Type 0} where
  -- `next_event_seq`.
  unfoldable pub next_event_seq : Uuid → List (EventRow V) → ℤ
  next_event_seq i events = wrap_i64 (unwrap_or_zero (max_seq i events) +ℤ pos 1)

  -- SELECT MAX(run_number) FROM orch_runs WHERE task_id = $1
  unfoldable pub max_run_number : Uuid → List (RunRow V) → Option ℤ
  max_run_number t [] = none
  max_run_number t (r ∷ runs) =
      greater (if r.task_id == t then some r.run_number else none) (max_run_number t runs)

  -- `next_run_number`.
  unfoldable pub next_run_number : Uuid → List (RunRow V) → ℤ
  next_run_number t runs = wrap_i32 (unwrap_or_zero (max_run_number t runs) +ℤ pos 1)

  -- INSERT INTO orch_events …, with the unique keys of the table; the idempotency key is NULL.
  unfoldable pub insert_plain :
      String → EventRow V → List (EventRow V) → Result AppError (List (EventRow V))
  insert_plain duplicate e events =
      if any
        (λ r. (r.event_id == e.event_id) || ((r.instance_id == e.instance_id) && eqb_ℤ r.seq e.seq))
        events
      then err (infra (database duplicate))
      else ok (events ++ e ∷ [])

  unfoldable pub new_event : Uuid → Uuid → ℤ → String → V → Time → EventRow V
  new_event event_id i seq event_type payload now = record {
    event_id = event_id;
    instance_id = i;
    seq = seq;
    event_type = event_type;
    event_version = pos 1;
    payload = payload;
    idempotency_key = none;
    correlation_id = none;
    causation_id = none;
    occurred_at = now;
    recorded_at = now;
  }
