-- ===== src/Port/Postgres.antt =====
-- `PgEventStore` as the port `EventStore`.
use Prim.Native.String.{◌++◌ as append}
use openclaw_rs.Base.{
  ℕ, suc, String, ◌≡◌, refl, ap, true, false, Option, none, some, List, [], ◌∷◌, ◌++◌, map, any,
  inl, inr, Bool-cases, arith,
}
use openclaw_rs.Base.Int.{ℤ}
use openclaw_rs.Errors.{Result, ok, err, DomainError, precondition}
use openclaw_rs.Sql.{Fault}
use openclaw_rs.Payload.{Uuid, EventEnvelope}
use openclaw_rs.Store.Rows.{EventRow, from_row, to_row}
use openclaw_rs.Store
use openclaw_rs.Store.{
  Messages, Answers, same_key, key_clash, other_clash, insert_event, read_seq, lookup, publish,
  settle, write, write_read,
}
use openclaw_rs.Port.{EventStore, Emitted, refused, known, added}
use openclaw_rs.Port.Log.{has_key}

-- The store, what the database will answer to each `emit`, and how many there were.
pub record Session (V : Type 0) : Type 0 where
  pub store : Store.State V
  pub answers : ℕ → Answers
  pub asked : ℕ

module _ {V : Type 0} where
  abbrev events_of : List (EventRow V) → List (EventEnvelope V)
  events_of rows = map from_row rows

  events_of-append :
      (rows : List (EventRow V)) (r : EventRow V)
      → events_of (rows ++ r ∷ []) ≡ events_of rows ++ from_row r ∷ []
  events_of-append [] r = refl
  events_of-append (s ∷ rows) r = ap (λ rs. from_row s ∷ rs) (events_of-append rows r)

  events_of-key :
      (i : Uuid) (key : Option String) (rows : List (EventRow V))
      → has_key i key (events_of rows) ≡ any (key_clash i key) rows
  unfolding from_row
  events_of-key i key [] = refl
  events_of-key i key (r ∷ rows) = ground (arith, events_of-key i key rows)

module _ {V : Type 0} (texts : Messages) (e : EventEnvelope V) where
  -- `Emitted`, over the rows and the answer of a part of `emit`.
  abbrev Kept : List (EventRow V) → Store.State V × Result DomainError ℤ → Type 0
  Kept rows p = Emitted e (events_of rows) (events_of p.0.rows) p.1

  publish-refused :
      (sent : List (EventEnvelope V)) (rows : List (EventRow V)) (x : DomainError)
      → Kept rows (publish e sent rows (err x))
  unfolding publish
  publish-refused sent rows x = refused x refl

  publish-known :
      (sent : List (EventEnvelope V)) (rows : List (EventRow V)) (r : Result DomainError ℤ)
      → any (key_clash e.instance_id e.idempotency_key) rows ≡ true
      → Kept rows (publish e sent rows r)
  unfolding publish
  publish-known sent rows (err x) clash = refused x refl
  publish-known sent rows (ok n) clash =
      known n refl (rw (events_of-key e.instance_id e.idempotency_key rows) clash)

  publish-added :
      (sent : List (EventEnvelope V)) (rows : List (EventRow V)) (seq : ℤ) (now : ℕ)
      → any (key_clash e.instance_id e.idempotency_key) rows ≡ false
      → Kept rows (publish e sent (rows ++ to_row e seq now ∷ []) (ok seq))
  unfolding publish to_row from_row
  publish-added sent rows seq now new =
      added seq (from_row (to_row e seq now)) (events_of-append rows (to_row e seq now))
        (record {
          event_id = refl;
          instance_id = refl;
          event_type = refl;
          payload = refl;
          idempotency_key = refl;
        })
        (rw (events_of-key e.instance_id e.idempotency_key rows) new)

  settle-Kept :
      (fault look : Fault) (sent : List (EventEnvelope V)) (seq : ℤ) (now : ℕ)
      (rows : List (EventRow V))
      → Kept rows (settle texts e look sent (insert_event texts e seq now fault rows))
  unfolding settle insert_event
  settle-Kept (some m) look sent seq now rows =
      publish-refused sent rows (precondition (append "event store: " m))
  settle-Kept none look sent seq now rows =
      elim (Bool-cases (any (key_clash e.instance_id e.idempotency_key) rows)) [
        | inl clash ↦ rw clash (publish-known sent rows (lookup texts e look rows) clash)
        | inr new ↦ rw new (elim (Bool-cases (any (other_clash e seq) rows)) [
          | inl old ↦
              rw old
                (publish-refused sent rows (precondition (append "event store: " texts.duplicate)))
          | inr free ↦ rw free (publish-added sent rows seq now new)
        ])
      ]

  write_read-Kept :
      (a : Answers) (r : Result DomainError ℤ) (s : Store.State V)
      → Kept s.rows (write_read texts a e r s)
  unfolding write_read write
  write_read-Kept a (err x) s = refused x refl
  write_read-Kept a (ok seq) s = settle-Kept a.insert a.lookup s.sent seq a.now s.rows

  -- What `emit` of the event store does to the events is what the port promises: it is refused and
  -- they stay, or the key is there and they stay, or the event comes at their end under a new key.
  pub emit-Emitted :
      (a : Answers) (s : Store.State V)
      → Emitted e
          (map from_row s.rows)
          (map from_row (Store.emit texts a e s).0.rows)
          (Store.emit texts a e s).1
  unfolding Store.emit
  emit-Emitted a s = write_read-Kept a (read_seq e.instance_id a.read s.rows) s

abbrev pub postgres : {V : Type 0} → Messages → EventStore V
postgres {V} texts = record {
  State = Session V;
  log = λ s. map from_row s.store.rows;
  emit = λ e s. (
    record s { store = (Store.emit texts (s.answers s.asked) e s.store).0; asked = suc s.asked },
    (Store.emit texts (s.answers s.asked) e s.store).1,
  );
  emit-Emitted = λ e s. emit-Emitted texts e (s.answers s.asked) s.store;
}
