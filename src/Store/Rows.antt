-- ===== src/Store/Rows.antt =====
-- `EventRow` of infra/event_store.rs, and its conversions.
use openclaw_rs.Base.{ℕ, ◌-◌, ◌^◌, ◌%◌, String, Option, if◌then◌else◌, ltb}
use openclaw_rs.Base.Int.{ℤ, pos, negsuc}
use openclaw_rs.Payload.{Uuid, Time, EventEnvelope}

-- `v as i16` of a `u16`, and `v as u16` of an `i16`.
abbrev pub to_i16 : ℕ → ℤ
to_i16 v = if ltb v (2 ^ 15) then pos v else negsuc (2 ^ 16 - 1 - v)

abbrev pub to_u16 : ℤ → ℕ
to_u16 (pos n) = n % 2 ^ 16
to_u16 (negsuc n) = 2 ^ 16 - 1 - n % 2 ^ 16

-- A row of `orch_events`.
pub record EventRow (V : Type 0) : Type 0 where
  pub event_id : Uuid
  pub instance_id : Uuid
  pub seq : ℤ
  pub event_type : String
  pub event_version : ℤ
  pub payload : V
  pub idempotency_key : Option String
  pub correlation_id : Option Uuid
  pub causation_id : Option Uuid
  pub occurred_at : Time
  pub recorded_at : Time

module _ {V : Type 0} where
  -- `From<EventRow> for EventEnvelope`.
  unfoldable pub from_row : EventRow V → EventEnvelope V
  from_row r = record {
    event_id = r.event_id;
    instance_id = r.instance_id;
    seq = r.seq;
    event_type = r.event_type;
    event_version = to_u16 r.event_version;
    payload = r.payload;
    idempotency_key = r.idempotency_key;
    correlation_id = r.correlation_id;
    causation_id = r.causation_id;
    occurred_at = r.occurred_at;
    recorded_at = r.recorded_at;
  }

  -- The values that `emit` binds, with `now()` for `recorded_at`.
  unfoldable pub to_row : EventEnvelope V → ℤ → Time → EventRow V
  to_row e seq now = record {
    event_id = e.event_id;
    instance_id = e.instance_id;
    seq = seq;
    event_type = e.event_type;
    event_version = to_i16 e.event_version;
    payload = e.payload;
    idempotency_key = e.idempotency_key;
    correlation_id = e.correlation_id;
    causation_id = e.causation_id;
    occurred_at = e.occurred_at;
    recorded_at = now;
  }
