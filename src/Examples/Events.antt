-- ===== src/Examples/Events.antt =====
-- The event store at concrete events.
use openclaw_rs.Base.{ℕ, ◌≡◌, refl, none, some, List, [], ◌∷◌, ◌++◌, map, arith, All}
use openclaw_rs.Base.Int.{pos, ◌+ℤ◌}
use openclaw_rs.Errors.{ok}
use openclaw_rs.Sql.Handlers.{deliver}
use openclaw_rs.Payload.{EventEnvelope}
use openclaw_rs.Projection.Task as TaskProjector
use openclaw_rs.Projection.Task.{TaskStatus, TaskRow}
use openclaw_rs.Projection.Task.Rebuild.{Idle, deliver-Idle}
use openclaw_rs.Store.Rows.{EventRow, to_row, from_row}
use openclaw_rs.Store.{
  Messages, State, max_seq, next_seq, insert_event, read_seq, publish, settle, write, write_read,
  emit, replay,
}
use openclaw_rs.Store.Numbering.{Numbered, stop, mine}
use openclaw_rs.Store.Interleaving.{World, Reached, empty, reads, writes, Reached-Numbered}
use openclaw_rs.Store.Keys.{answering, emit_same_key}
use openclaw_rs.Store.Replay.{later_than, replay_in_order, emit-replay}
use openclaw_rs.Examples.Fixtures.{Json, uuid, event, json, a_task}

abbrev texts : Messages
texts = record { duplicate = "duplicate key"; not_found = "no rows" }

abbrev nothing : State Json
nothing = record { rows = []; sent = [] }

abbrev first_event : EventEnvelope Json
first_event = record (event 11 "CycleCreated" (("cycle_id", uuid 7) ∷ [])) {
  idempotency_key = some "k";
}

abbrev second_event : EventEnvelope Json
second_event = event 12 "PlanRequested" (("cycle_id", uuid 7) ∷ [])

-- Both emitters read the number 1; the second then meets the first's row.
abbrev after_first : State Json
after_first = (write texts (answering 20) first_event (pos 1) nothing).0

abbrev after_both : State Json
after_both = (write texts (answering 21) second_event (pos 1) after_first).0

abbrev raced : World Json
raced = record { state = after_both; waiting = [] }

raced-Reached : Reached texts raced
unfolding read_seq next_seq max_seq ◌+ℤ◌
raced-Reached = writes after_first second_event (pos 1) [] [] (answering 21) (
    writes nothing first_event (pos 1) ((second_event, pos 1) ∷ []) [] (answering 20) (
      reads (record { state = nothing; waiting = (first_event, pos 1) ∷ [] }) second_event none
        (pos 1)
        (reads (record { state = nothing; waiting = [] }) first_event none (pos 1) empty refl)
        refl))

Reached-Numbered_example : (m : ℕ) × Numbered 1 0 raced.state.rows m
unfolding write insert_event to_row settle publish
Reached-Numbered_example = Reached-Numbered texts 1 raced raced-Reached (omega arith)

emit_same_key_example :
    ((emit texts
        (answering 30)
        (record second_event { idempotency_key = some "k" })
        (record {
          rows =
              (emit texts (answering 20) first_event nothing).0.rows
              ++ to_row second_event (pos 2) 25 ∷ [];
          sent = [];
        })).1
      ≡ ok (pos 1))
    × ((emit texts
          (answering 30)
          (record second_event { idempotency_key = some "k" })
          (record {
            rows =
                (emit texts (answering 20) first_event nothing).0.rows
                ++ to_row second_event (pos 2) 25 ∷ [];
            sent = [];
          })).0.rows
        ≡ (emit texts (answering 20) first_event nothing).0.rows
          ++ to_row second_event (pos 2) 25 ∷ [])
unfolding emit read_seq next_seq max_seq ◌+ℤ◌ write_read write insert_event settle publish
emit_same_key_example =
    emit_same_key texts (answering 20) first_event
      (record second_event { idempotency_key = some "k" }) nothing "k" (pos 1)
      (to_row second_event (pos 2) 25 ∷ []) [] 30 refl refl refl refl

abbrev two_rows : List (EventRow Json)
two_rows = to_row first_event (pos 1) 20 ∷ to_row second_event (pos 2) 21 ∷ []

two_rows-Numbered : Numbered 1 0 two_rows 2
unfolding to_row
two_rows-Numbered = mine refl refl (mine refl refl (stop 2))

replay_in_order_example :
    replay 1 (pos 1) none two_rows ≡ ok (map from_row (later_than 1 (pos 1) two_rows))
replay_in_order_example = replay_in_order 1 (pos 1) 2 two_rows two_rows-Numbered

emit-replay_example :
    ((emit texts
        (answering 30)
        (event 13 "PlanApproved" [])
        (record { rows = two_rows; sent = [] })).1
      ≡ ok (pos 3))
    × (replay 1
          (pos 2)
          none
          (emit texts
            (answering 30)
            (event 13 "PlanApproved" [])
            (record { rows = two_rows; sent = [] })).0.rows
        ≡ ok (record (event 13 "PlanApproved" []) { seq = pos 3; recorded_at = 30 } ∷ []))
unfolding to_row
emit-replay_example =
    emit-replay (event 13 "PlanApproved" []) texts 30 (record { rows = two_rows; sent = [] }) 2
      two_rows-Numbered (omega arith) (omega arith) refl refl

-- A task that has been scheduled, and the event of its passing.
deliver-Idle_example : All Idle (
    deliver
      (TaskProjector.handle json)
      ((event 14 "TaskPassed" (("task_id", uuid 8) ∷ []), none) ∷ [])
      (a_task TaskStatus.scheduled ∷ []))
deliver-Idle_example =
    deliver-Idle json ((event 14 "TaskPassed" (("task_id", uuid 8) ∷ []), none) ∷ [])
      (a_task TaskStatus.scheduled ∷ []) (refl, tt)
