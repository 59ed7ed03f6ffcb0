-- ===== src/Store.antt =====
-- `PgEventStore` of crates/openclaw-orchestrator/src/infra/event_store.rs over the table `orch_events` of
-- migrations/002_orchestrator.sql, with its unique keys.
pub mod Rows
pub mod Numbering
pub mod Interleaving
pub mod Keys
pub mod Replay
use Prim.Native.String.{◌++◌ as append}
use openclaw_rs.Base.{
  ℕ, ◌+◌, ◌-◌, ◌^◌, ◌%◌, String, Bool, true, false, Option, none, some, List, [], ◌∷◌, ◌++◌, map,
  ◌==◌, ◌&&◌, ◌||◌, if◌then◌else◌, any, str_eq, ltb, leb,
}
use openclaw_rs.Base.Int.{ℤ, pos, negsuc, pos_part, neg_part, ◌+ℤ◌, leb_ℤ, ltb_ℤ}
use openclaw_rs.Errors.{Result, ok, err, DomainError, precondition}
use openclaw_rs.Sql.{Fault}
use openclaw_rs.Store.Rows.{EventRow, to_row, from_row}
use openclaw_rs.Payload.{Uuid, Time, EventEnvelope}

-- A sum of `i64` that wraps around: at 2^63 it becomes -2^63.
abbrev pub wrap_i64 : ℤ → ℤ
wrap_i64 (pos n) = if ltb n (2 ^ 63) then pos n else negsuc (2 ^ 64 - 1 - n)
wrap_i64 (negsuc n) = negsuc n

-- The texts that PostgreSQL and sqlx give for a duplicate key, and for a row that is not there.
pub record Messages : Type 0 where
  pub duplicate : String
  pub not_found : String

abbrev pub greater : Option ℤ → Option ℤ → Option ℤ
greater none b = b
greater (some a) none = some a
greater (some a) (some b) = if leb_ℤ a b then some b else some a

abbrev pub unwrap_or_zero : Option ℤ → ℤ
unwrap_or_zero none = pos 0
unwrap_or_zero (some n) = n

abbrev pub eqb_ℤ : ℤ → ℤ → Bool
eqb_ℤ a b = (pos_part a == pos_part b) && (neg_part a == neg_part b)

-- No NULL equals another in SQL.
abbrev pub same_key : Option String → Option String → Bool
same_key none b = false
same_key (some a) none = false
same_key (some a) (some b) = str_eq a b

-- The table, and what was broadcast to the subscribers in this process.
pub record State (V : Type 0) : Type 0 where
  pub rows : List (EventRow V)
  pub sent : List (EventEnvelope V)

-- The answers of the database to the three statements of one `emit`, and its clock.
pub record Answers : Type 0 where
  pub read : Fault
  pub insert : Fault
  pub lookup : Fault
  pub now : Time

unfoldable pub looked_up : Result String ℤ → Result DomainError ℤ
looked_up (ok n) = ok n
looked_up (err message) = err (precondition (append "event store idempotency lookup: " message))

module _ {V : Type 0} where
  -- SELECT MAX(seq) FROM orch_events WHERE instance_id = $1
  unfoldable pub max_seq : Uuid → List (EventRow V) → Option ℤ
  max_seq i [] = none
  max_seq i (r ∷ rows) = greater (if r.instance_id == i then some r.seq else none) (max_seq i rows)

  -- `next_seq`, once the database has answered.
  unfoldable pub next_seq : Uuid → List (EventRow V) → ℤ
  next_seq i rows = wrap_i64 (unwrap_or_zero (max_seq i rows) +ℤ pos 1)

  -- The unique keys of the table: (instance_id, idempotency_key), and event_id or (instance_id, seq).
  abbrev pub key_clash : Uuid → Option String → EventRow V → Bool
  key_clash i key r = (r.instance_id == i) && same_key r.idempotency_key key

  abbrev pub other_clash : EventEnvelope V → ℤ → EventRow V → Bool
  other_clash e seq r =
      (r.event_id == e.event_id) || ((r.instance_id == e.instance_id) && eqb_ℤ r.seq seq)

  -- INSERT … ON CONFLICT (instance_id, idempotency_key) … DO NOTHING RETURNING seq. Only a conflict on
  -- that key is passed over; one on another is an error.
  unfoldable pub insert_event :
      Messages
      → EventEnvelope V
      → ℤ
      → Time
      → Fault
      → List (EventRow V)
      → List (EventRow V) × Result String (Option ℤ)
  unfolding to_row
  insert_event texts e seq now (some message) rows = (rows, err message)
  insert_event texts e seq now none rows =
      if any (key_clash e.instance_id e.idempotency_key) rows
      then (rows, ok none)
      else (if any (other_clash e seq) rows
          then (rows, err texts.duplicate)
          else (rows ++ to_row e seq now ∷ [], ok (some seq)))

  -- SELECT seq … WHERE instance_id = $1 AND idempotency_key = $2, with `fetch_one`.
  unfoldable pub seq_of : String → Uuid → Option String → List (EventRow V) → Result String ℤ
  seq_of not_found i key [] = err not_found
  seq_of not_found i key (r ∷ rows) =
      let rest = seq_of not_found i key rows in if key_clash i key r then ok r.seq else rest

  -- `next_seq(…).await.map_err(|e| DomainError::Precondition(e.to_string()))?`
  unfoldable pub read_seq : Uuid → Fault → List (EventRow V) → Result DomainError ℤ
  read_seq i none rows = ok (next_seq i rows)
  read_seq i (some message) rows = err (precondition (append "database error: " message))

  unfoldable pub lookup :
      Messages → EventEnvelope V → Fault → List (EventRow V) → Result DomainError ℤ
  unfolding looked_up
  lookup texts e (some message) rows = looked_up (err message)
  lookup texts e none rows = looked_up (seq_of texts.not_found e.instance_id e.idempotency_key rows)

  -- The notification and the broadcast; the failures of both are ignored by the source.
  unfoldable pub publish :
      EventEnvelope V
      → List (EventEnvelope V)
      → List (EventRow V)
      → Result DomainError ℤ
      → State V × Result DomainError ℤ
  publish e sent rows (err x) = (record { rows = rows; sent = sent }, err x)
  publish e sent rows (ok n) =
      (record { rows = rows; sent = sent ++ record e { seq = n } ∷ [] }, ok n)

  -- What `emit` does with the answer to its INSERT.
  unfoldable pub settle :
      Messages
      → EventEnvelope V
      → Fault
      → List (EventEnvelope V)
      → List (EventRow V) × Result String (Option ℤ)
      → State V × Result DomainError ℤ
  unfolding publish lookup
  settle texts e fault sent (rows, ok (some n)) = publish e sent rows (ok n)
  settle texts e fault sent (rows, ok none) = publish e sent rows (lookup texts e fault rows)
  settle texts e fault sent (rows, err message) =
      publish e sent rows (err (precondition (append "event store: " message)))

  -- `emit` from its INSERT on.
  unfoldable pub write :
      Messages → Answers → EventEnvelope V → ℤ → State V → State V × Result DomainError ℤ
  unfolding settle insert_event
  write texts a e seq s =
      settle texts e a.lookup s.sent (insert_event texts e seq a.now a.insert s.rows)

  unfoldable pub write_read :
      Messages
      → Answers
      → EventEnvelope V
      → Result DomainError ℤ
      → State V
      → State V × Result DomainError ℤ
  unfolding write
  write_read texts a e (ok seq) s = write texts a e seq s
  write_read texts a e (err x) s = (s, err x)

  -- `emit`, with no other writer in between.
  unfoldable pub emit :
      Messages → Answers → EventEnvelope V → State V → State V × Result DomainError ℤ
  unfolding read_seq write_read
  emit texts a e s = write_read texts a e (read_seq e.instance_id a.read s.rows) s

  -- WHERE instance_id = $1 AND seq > $2 ORDER BY seq ASC
  unfoldable pub insert_by_seq : EventRow V → List (EventRow V) → List (EventRow V)
  insert_by_seq r [] = r ∷ []
  insert_by_seq r (s ∷ rows) =
      let rest = insert_by_seq r rows in if leb_ℤ r.seq s.seq then r ∷ s ∷ rows else s ∷ rest

  unfoldable pub select_since : Uuid → ℤ → List (EventRow V) → List (EventRow V)
  unfolding insert_by_seq
  select_since i since [] = []
  select_since i since (r ∷ rows) =
      let rest = select_since i since rows in
      if (r.instance_id == i) && ltb_ℤ since r.seq then insert_by_seq r rest else rest

  unfoldable pub replay :
      Uuid → ℤ → Fault → List (EventRow V) → Result DomainError (List (EventEnvelope V))
  unfolding select_since from_row
  replay i since (some message) rows = err (precondition (append "event store replay: " message))
  replay i since none rows = ok (map from_row (select_since i since rows))

  unfoldable pub head_seq : Uuid → Fault → List (EventRow V) → Result DomainError ℤ
  head_seq i (some message) rows = err (precondition (append "head_seq query: " message))
  head_seq i none rows = ok (unwrap_or_zero (max_seq i rows))
