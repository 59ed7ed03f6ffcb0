-- ===== src/Payload.antt =====
-- `serde_json` and `uuid` are not part of the repository: what the projectors ask of them is the
-- parameter `Serde`. A `Uuid` is the 128-bit number that it stands for, and a `DateTime<Utc>` the
-- microseconds since the epoch.
use openclaw_rs.Base.{ℕ, String, Option, none, some}
use openclaw_rs.Base.Int.{ℤ}
use openclaw_rs.Errors.{
  Result, ok, err, AppError, domain, infra, precondition, serialization, ◌>>=◌,
}

abbrev pub Uuid : Type 0
Uuid = ℕ

abbrev pub Time : Type 0
Time = ℕ

-- `Value::get`, `Value::as_str`, and `serde_json::from_value` at the types that are read; an `err`
-- carries the text of a `serde_json::Error`.
pub record Serde : Type 1 where
  pub Value : Type 0
  pub get : Value → String → Option Value
  pub as_str : Value → Option String
  pub to_uuid : Value → Result String Uuid
  pub to_text : Value → Result String String
  pub to_i32 : Value → Result String ℤ
  pub to_i64 : Value → Result String ℤ
  pub to_time : Value → Result String Time

-- `EventEnvelope` of crates/openclaw-orchestrator/src/domain/events.rs.
pub record EventEnvelope (V : Type 0) : Type 0 where
  pub event_id : Uuid
  pub instance_id : Uuid
  pub seq : ℤ
  pub event_type : String
  pub event_version : ℕ
  pub payload : V
  pub idempotency_key : Option String
  pub correlation_id : Option Uuid
  pub causation_id : Option Uuid
  pub occurred_at : Time
  pub recorded_at : Time

-- `From<serde_json::Error> for AppError` of app/errors.rs, under `?`.
unfoldable pub from_serde {ℓ} : {A : Type ℓ} → Result String A → Result AppError A
from_serde (ok a) = ok a
from_serde (err e) = err (infra (serialization e))

-- `opt.ok_or_else(|| AppError::Domain(DomainError::Precondition("missing …".into())))?`
unfoldable pub or_missing {ℓ} : {A : Type ℓ} → String → Option A → Result AppError A
or_missing message none = err (domain (precondition message))
or_missing message (some a) = ok a

-- `opt.map(serde_json::from_value).transpose()?`
unfoldable pub transpose {ℓ κ} :
    {A : Type ℓ} {B : Type κ} → (A → Result String B) → Option A → Result AppError (Option B)
unfolding from_serde
transpose read none = ok none
transpose read (some v) = do a ← from_serde (read v); ok (some a)

-- The readers that the projectors repeat. `message` is the source's "missing …".
module _ (J : Serde) where
  open J use {Value, get, as_str, to_uuid, to_text, to_i32, to_i64}

  -- event.payload.get(key).cloned().ok_or_else(…)?
  unfoldable pub value_field : String → String → Value → Result AppError Value
  unfolding or_missing
  value_field key message payload = or_missing message (get payload key)

  -- let x: Uuid = serde_json::from_value(…)?
  unfoldable pub uuid_field : String → String → Value → Result AppError Uuid
  unfolding value_field from_serde
  uuid_field key message payload = do v ← value_field key message payload; from_serde (to_uuid v)

  unfoldable pub text_field : String → String → Value → Result AppError String
  unfolding value_field from_serde
  text_field key message payload = do v ← value_field key message payload; from_serde (to_text v)

  unfoldable pub i32_field : String → String → Value → Result AppError ℤ
  unfolding value_field from_serde
  i32_field key message payload = do v ← value_field key message payload; from_serde (to_i32 v)

  unfoldable pub i64_field : String → String → Value → Result AppError ℤ
  unfolding value_field from_serde
  i64_field key message payload = do v ← value_field key message payload; from_serde (to_i64 v)

  -- payload.get(key).and_then(|v| v.as_str())
  unfoldable pub str_field : String → Value → Option String
  str_field key payload = elim (get payload key) [ none ↦ none | some v ↦ as_str v ]

  -- … .unwrap_or("unknown")
  unfoldable pub reason_field : String → Value → String
  unfolding str_field
  reason_field key payload = elim (str_field key payload) [ none ↦ "unknown" | some s ↦ s ]
