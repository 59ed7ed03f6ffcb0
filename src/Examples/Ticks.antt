-- ===== src/Examples/Ticks.antt =====
-- A tick of the scheduler at concrete tables.
use openclaw_rs.Base.{All, ℕ, ◌+◌, ◌*◌, ◌≤◌, ◌≡◌, refl, false, none, List, [], ◌∷◌, arith}
use openclaw_rs.Base.Int.{pos, ◌-ℤ◌, ◌+ℤ◌}
use openclaw_rs.Errors.{ok, ◌>>=◌}
use openclaw_rs.Projection.Cycle.{CycleStatus}
use openclaw_rs.Projection.Task.{TaskStatus}
use openclaw_rs.Store.{max_seq}
use openclaw_rs.Store.Numbering.{Numbered, stop}
use openclaw_rs.Schedule.Rows.{ClaimResult, Tables, Outside}
use openclaw_rs.Schedule.Queries.{find_capacity, max_run_number}
use openclaw_rs.Schedule.{tick}
use openclaw_rs.Schedule.Capacity.{Counts, tick-Counts}
use openclaw_rs.Schedule.Eligible.{Free, tick-Free}
use openclaw_rs.Schedule.Uncounted.{tick-AtMostThree}
use openclaw_rs.Schedule.Numbers.{tick-Numbered}
use openclaw_rs.Examples.Fixtures.{Json, object, uuid, a_cycle, a_task}

abbrev quiet : Outside Json
quiet = record {
  now = 50;
  new_v4 = λ k n. 100 + 10 * k + n;
  is_locked = λ t. false;
  started_payload = λ c. object (("cycle_id", uuid c) ∷ []);
  claimed_payload = λ r t c n w. object (("run_id", uuid r) ∷ ("task_id", uuid t) ∷ []);
  duplicate = "duplicate key";
  opening = none;
  round = λ k. none;
  commit = none;
}

abbrev tables : Tables Json
tables = record {
  capacity = record { instance_id = 1; active_runs = pos 2; max_concurrent = pos 3 } ∷ [];
  tasks = a_task TaskStatus.scheduled ∷ [];
  cycles = a_cycle CycleStatus.approved ∷ [];
  runs = [];
  events = [];
}

-- What the tick gives for the one task.
abbrev claimed_one : List ClaimResult
claimed_one =
    record {
      task_id = 8;
      run_id = 101;
      cycle_id = 7;
      instance_id = 1;
      run_number = pos 1;
      worker_session_id = 102;
    }
    ∷ []

tick_once : (tick quiet 1 tables).1 ≡ ok claimed_one
unfolding tick ◌>>=◌ ◌-ℤ◌ ◌+ℤ◌ max_seq max_run_number
tick_once = refl

-- Two runs are at work, of at most three.
two_of_three : Counts 1 tables.capacity 2 3
unfolding find_capacity
two_of_three = record {
  row = record { instance_id = 1; active_runs = pos 2; max_concurrent = pos 3 };
  found = refl;
  active = refl;
  most = refl;
}

tick-Counts_example : Counts 1 (tick quiet 1 tables).0.capacity (2 + 1) 3 × (2 + 1 ≤ 3)
tick-Counts_example =
    tick-Counts quiet 1 tables 2 3 claimed_one two_of_three (omega arith) (omega arith) tick_once

tick-Numbered_example : (n : ℕ) × Numbered 1 0 (tick quiet 1 tables).0.events n × (n ≤ 0 + 2 * 1)
tick-Numbered_example =
    tick-Numbered quiet 1 1 tables 0 claimed_one (stop 0) (omega arith) tick_once

tick-Free_example : All (λ r. Free quiet 1 tables r.task_id r.cycle_id) claimed_one
tick-Free_example = tick-Free quiet 1 tables claimed_one tick_once

-- The same tables, with no row that counts the runs.
abbrev uncounted : Tables Json
uncounted = record tables { capacity = [] }

tick_bare : (tick quiet 1 uncounted).1 ≡ ok claimed_one
unfolding tick ◌>>=◌ ◌-ℤ◌ ◌+ℤ◌ max_seq max_run_number
tick_bare = refl

tick-AtMostThree_example : (1 ≤ 3) × (find_capacity 1 (tick quiet 1 uncounted).0.capacity ≡ none)
unfolding find_capacity
tick-AtMostThree_example = tick-AtMostThree quiet 1 uncounted claimed_one refl tick_bare
