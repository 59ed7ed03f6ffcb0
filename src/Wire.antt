-- ===== src/Wire.antt =====
-- How the services make events. The macro `json!` of serde_json, the operator `->>` of PostgreSQL on a
-- JSONB value, and the texts that `Display` gives for numbers and for UUIDs are not source: they are
-- the parameter `Wire`.
use openclaw_rs.Base.{ℕ, String, ◌≡◌, Option, none, some, List, [], ◌∷◌, str_eq, if◌then◌else◌}
use openclaw_rs.Base.Int.{ℤ, pos}
use openclaw_rs.Errors.{
  DomainError, invalid_transition, invalid_state, not_found, already_exists, budget_exceeded,
  precondition,
}
use openclaw_rs.Payload.{Uuid, Time, EventEnvelope}
use Prim.Native.String.{◌++◌}

-- A field of an object that `json!` writes; `actor` is {"kind": …} with an id, if there is one.
pub data Item (V : Type 0) : Type 0 where
  id : Uuid → Item V
  text : String → Item V
  number : ℕ → Item V
  cents : ℤ → Item V
  texts : List String → Item V
  actor : String → Option (String × String) → Item V
  value : V → Item V

pub record Wire (V : Type 0) : Type 0 where
  pub object : List (String × Item V) → V
  pub text_at : V → String → Option String
  pub show_uuid : Uuid → String
  pub show_nat : ℕ → String
  pub show_int : ℤ → String
  pub lower : String → String

-- The first field of that name.
unfoldable pub field : {V : Type 0} → String → List (String × Item V) → Option (Item V)
field key [] = none
field key ((k, x) ∷ fields) = let rest = field key fields in if str_eq key k then some x else rest

-- What the code relies on: a UUID of an object is read back as its text.
pub record IsWire {V : Type 0} (W : Wire V) : Type 0 where
  pub text_at-object :
      (fields : List (String × Item V)) (key : String) (u : Uuid)
      → field key fields ≡ some (id u)
      → W.text_at (W.object fields) key ≡ some (W.show_uuid u)

-- `Uuid::new_v4()` and `Utc::now()`, as they come out for one event.
pub record Fresh : Type 0 where
  pub event_id : Uuid
  pub now : Time

-- The `EventEnvelope { … }` that the services build.
unfoldable pub envelope : {V : Type 0} → Fresh → Uuid → String → V → String → EventEnvelope V
envelope fresh instance_id event_type payload key = record {
  event_id = fresh.event_id;
  instance_id = instance_id;
  seq = pos 0;
  event_type = event_type;
  event_version = 1;
  payload = payload;
  idempotency_key = some key;
  correlation_id = none;
  causation_id = none;
  occurred_at = fresh.now;
  recorded_at = fresh.now;
}

-- `Display` of `DomainError`.
unfoldable pub show_domain : {V : Type 0} → Wire V → DomainError → String
show_domain W (invalid_transition entity from trigger) =
    "invalid transition: " ++ entity ++ " cannot go from " ++ from ++ " via " ++ trigger
show_domain W (invalid_state message) = "invalid state: " ++ message
show_domain W (not_found entity i) = entity ++ " not found: " ++ i
show_domain W (already_exists entity i) = entity ++ " already exists: " ++ i
show_domain W (budget_exceeded available requested) =
    "budget exceeded: available=" ++ W.show_int available ++ " requested=" ++ W.show_int requested
show_domain W (precondition message) = "precondition failed: " ++ message
