-- ===== src/Examples/Fixtures.antt =====
-- A small JSON, labels for the states, and the rows and events of the examples.
use openclaw_rs.Base.{
  String, Option, none, some, List, [], ◌∷◌, match_str, ℕ, ◌-◌, ◌^◌, ltb, if◌then◌else◌,
}
use openclaw_rs.Base.Int.{ℤ, pos, negsuc}
use openclaw_rs.Errors.{Result, ok, err}
use openclaw_rs.States.Debug.{Debug}
use openclaw_rs.Payload.{Uuid, Time, Serde, EventEnvelope}
use openclaw_rs.Projection.Instance.{InstanceStatus, InstanceRow}
use openclaw_rs.Projection.Cycle.{CycleStatus, CycleRow}
use openclaw_rs.Projection.Task.{TaskStatus, TaskRow}
use openclaw_rs.Projection.Run.{RunStatus, RunRow}
use openclaw_rs.Projection.Budget.Ledger.{Draft, LedgerRow}

-- A field of an object: a text, a number, or an identifier.
pub data Leaf : Type 0 where
  text : String → Leaf
  int : ℤ → Leaf
  uuid : ℕ → Leaf

pub data Json : Type 0 where
  leaf : Leaf → Json
  object : List (String × Leaf) → Json

abbrev some_leaf : String × Leaf → String × Option Json
some_leaf (key, l) = (key, some (leaf l))

abbrev optional : List (String × Leaf) → List (String × Option Json)
optional [] = []
optional (f ∷ fields) = some_leaf f ∷ optional fields

unfoldable pub get_json : Json → String → Option Json
unfolding match_str
get_json (object fields) key = match_str key (optional fields) none
get_json (leaf l) key = none

abbrev as_text : Json → Option String
as_text (leaf (text s)) = some s
as_text j = none

abbrev read_uuid : Json → Result String Uuid
read_uuid (leaf (uuid n)) = ok n
read_uuid j = err "expected a UUID"

abbrev read_text : Json → Result String String
read_text (leaf (text s)) = ok s
read_text j = err "expected a string"

-- An integer that fits into as many bits, one of them for the sign.
abbrev read_int : ℕ → Json → Result String ℤ
read_int bits (leaf (int (pos n))) =
    if ltb n (2 ^ (bits - 1)) then ok (pos n) else err "out of range"
read_int bits (leaf (int (negsuc n))) =
    if ltb n (2 ^ (bits - 1)) then ok (negsuc n) else err "out of range"
read_int bits j = err "expected an integer"

abbrev read_time : Json → Result String Time
read_time (leaf (int (pos n))) = ok n
read_time j = err "expected a time"

abbrev pub json : Serde
json = record {
  Value = Json;
  get = get_json;
  as_str = as_text;
  to_uuid = read_uuid;
  to_text = read_text;
  to_i32 = read_int 32;
  to_i64 = read_int 64;
  to_time = read_time;
}

abbrev pub labels : {S T : Type 0} → Debug S T
labels = record { state = λ s. "state"; trigger = λ t. "trigger" }

-- An event of instance 1, with the number that stands for its id and its time.
abbrev pub event : ℕ → String → List (String × Leaf) → EventEnvelope Json
event n ty fields = record {
  event_id = n;
  instance_id = 1;
  seq = pos n;
  event_type = ty;
  event_version = 1;
  payload = object fields;
  idempotency_key = none;
  correlation_id = none;
  causation_id = none;
  occurred_at = n;
  recorded_at = n;
}

abbrev pub an_instance : InstanceStatus → InstanceRow Json
an_instance s = record {
  id = 1;
  project_id = 2;
  name = "first";
  state = s;
  block_reason = none;
  data_dir = "/data";
  token_hash = "hash";
  started_at = 0;
  last_heartbeat = 0;
}

abbrev pub a_cycle : CycleStatus → CycleRow Json
a_cycle s = record {
  id = 7;
  instance_id = 1;
  state = s;
  prompt = "build";
  plan = none;
  block_reason = none;
  failure_reason = none;
  cancel_reason = none;
  created_at = 0;
  updated_at = 0;
}

abbrev pub a_task : TaskStatus → TaskRow Json
a_task s = record {
  id = 8;
  cycle_id = 7;
  instance_id = 1;
  task_key = "t1";
  phase = "core";
  ordinal = pos 0;
  state = s;
  active_run_id = some 9;
  current_attempt = 1;
  title = "t";
  description = "d";
  acceptance = object [];
  max_retries = pos 3;
  failure_reason = none;
  cancel_reason = none;
  skip_reason = none;
  created_at = 0;
  updated_at = 0;
}

abbrev pub a_run : RunStatus → RunRow Json
a_run s = record {
  id = 9;
  task_id = 8;
  instance_id = 1;
  run_number = pos 1;
  state = s;
  worker_session_id = 10;
  branch = none;
  worktree_path = none;
  prompt_sent = none;
  output_json = none;
  exit_code = none;
  cost_cents = pos 0;
  failure_category = none;
  cancel_reason = none;
  abandon_reason = none;
  lease_until = none;
  started_at = 0;
  finished_at = none;
}

-- An entry of instance 1 at the time and with the id `n`.
abbrev pub a_draft : ℕ → ℤ → Draft
a_draft n amount = record {
  id = n;
  instance_id = 1;
  cycle_id = none;
  run_id = none;
  event_type = "RunCostObserved";
  amount_cents = amount;
  created_at = n;
}

abbrev pub an_entry : ℕ → ℤ → ℤ → LedgerRow
an_entry n amount after = record { draft = a_draft n amount; balance_after = after }
