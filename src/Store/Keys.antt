-- ===== src/Store/Keys.antt =====
-- The idempotency keys of `emit`.
use text.Mathlib.TextPositions.{eq_refl}
use openclaw_rs.Base.{
  ℕ, String, ◌≡◌, refl, subst, inl, inr, true, false, Option, none, some, List, [], ◌∷◌, ◌++◌, any,
  arith, Bool-cases, eq→==,
}
use openclaw_rs.Base.Int.{ℤ}
use openclaw_rs.Errors.{Result, ok, err, DomainError}
use openclaw_rs.Sql.{Fault}
use openclaw_rs.Payload.{Uuid, EventEnvelope}
use openclaw_rs.Store.Rows.{EventRow, to_row}
use openclaw_rs.Store.{
  Messages, Answers, State, key_clash, other_clash, insert_event, seq_of, looked_up, lookup,
  read_seq, publish, settle, write, write_read, emit,
}

module _ {V : Type 0} (not_found : String) (i : Uuid) (key : Option String) where
  -- A row that is found is found again when more follow.
  seq_of-append :
      (rows more : List (EventRow V)) (n : ℤ)
      → seq_of not_found i key rows ≡ ok n
      → seq_of not_found i key (rows ++ more) ≡ ok n
  unfolding seq_of
  seq_of-append [] more n h = absurd (cc)
  seq_of-append (r ∷ rows) more n h = elim (Bool-cases (key_clash i key r)) [
    | inl hit ↦ rw hit (cc (h, hit))
    | inr miss ↦ rw miss (seq_of-append rows more n (cc (h, miss)))
  ]

  seq_of-clash :
      (rows : List (EventRow V)) (n : ℤ)
      → seq_of not_found i key rows ≡ ok n
      → any (key_clash i key) rows ≡ true
  unfolding seq_of
  seq_of-clash [] n h = absurd (cc)
  seq_of-clash (r ∷ rows) n h = elim (Bool-cases (key_clash i key r)) [
    | inl hit ↦ ground (arith, hit)
    | inr miss ↦ let rest = seq_of-clash rows n (cc (h, miss)) in ground (arith, rest)
  ]

  seq_of-last :
      (rows : List (EventRow V)) (r : EventRow V)
      → any (key_clash i key) rows ≡ false
      → key_clash i key r ≡ true
      → seq_of not_found i key (rows ++ r ∷ []) ≡ ok r.seq
  unfolding seq_of
  seq_of-last [] r new own = rw own refl
  seq_of-last (s ∷ rows) r new own = elim (Bool-cases (key_clash i key s)) [
    | inl hit ↦ absurd (cc)
    | inr miss ↦ rw miss (seq_of-last rows r (ground (arith, new, miss)) own)
  ]

-- A database that does every statement.
abbrev pub answering : ℕ → Answers
answering now = record { read = none; insert = none; lookup = none; now = now }

looked_up-ok : (r : Result String ℤ) (n : ℤ) → looked_up r ≡ ok n → r ≡ ok n
unfolding looked_up
looked_up-ok (ok m) n h = cc
looked_up-ok (err x) n h = absurd (cc)

module _ {V : Type 0} (texts : Messages) (e : EventEnvelope V) where
  -- The event's key is in the table, under the number `n`.
  abbrev Known : List (EventRow V) → ℤ → Type 0
  Known rows n = seq_of texts.not_found e.instance_id e.idempotency_key rows ≡ ok n

  lookup-Known :
      (fault : Fault) (rows : List (EventRow V)) (n : ℤ)
      → lookup texts e fault rows ≡ ok n
      → Known rows n
  unfolding lookup looked_up
  lookup-Known (some m) rows n h = absurd (cc)
  lookup-Known none rows n h = looked_up-ok _ n h

  abbrev Good : List (EventRow V) × Result String (Option ℤ) → Type 0
  Good (rows, ok (some n)) = Known rows n
  Good (rows, r) = Unit

  publish-result :
      (sent : List (EventEnvelope V)) (rows : List (EventRow V)) (r : Result DomainError ℤ)
      → (publish e sent rows r ≡ ((publish e sent rows r).0, r))
        × ((publish e sent rows r).0.rows ≡ rows)
  unfolding publish
  publish-result sent rows (ok n) = (refl, refl)
  publish-result sent rows (err x) = (refl, refl)

  settle-Known :
      (fault : Fault) (sent : List (EventEnvelope V))
      (answer : List (EventRow V) × Result String (Option ℤ)) (n : ℤ)
      → Good answer
      → (settle texts e fault sent answer).1 ≡ ok n
      → Known (settle texts e fault sent answer).0.rows n
  unfolding settle publish
  settle-Known fault sent (rows, ok (some m)) n good h = cc (good, h)
  settle-Known fault sent (rows, ok none) n good h =
      let (is, same) = publish-result sent rows (lookup texts e fault rows) in
      rw same (lookup-Known fault rows n (cc (h, is)))
  settle-Known fault sent (rows, err m) n good h = absurd (cc)

  insert_event-Good :
      (seq : ℤ) (now : ℕ) (fault : Fault) (rows : List (EventRow V)) (key : String)
      → e.idempotency_key ≡ some key
      → Good (insert_event texts e seq now fault rows)
  unfolding insert_event to_row
  insert_event-Good seq now (some m) rows key has = tt
  insert_event-Good seq now none rows key has =
      elim (Bool-cases (any (key_clash e.instance_id e.idempotency_key) rows)) [
        | inl old ↦ rw old tt
        | inr new ↦ rw new (elim (Bool-cases (any (other_clash e seq) rows)) [
          | inl clash ↦ rw clash tt
          | inr free ↦ rw free (
              seq_of-last texts.not_found e.instance_id e.idempotency_key rows (to_row e seq now)
                new own)
        ])
      ]
    where
      own : key_clash e.instance_id e.idempotency_key (to_row e seq now) ≡ true
      own = rw has (
          let k = eq_refl key in
          let i = eq→== e.instance_id e.instance_id refl in ground (arith, k, i))

  write_read-Known :
      (a : Answers) (r : Result DomainError ℤ) (s : State V) (key : String) (n : ℤ)
      → e.idempotency_key ≡ some key
      → (write_read texts a e r s).1 ≡ ok n
      → Known (write_read texts a e r s).0.rows n
  unfolding write_read write
  write_read-Known a (err x) s key n has h = absurd (cc)
  write_read-Known a (ok seq) s key n has h =
      settle-Known a.lookup s.sent (insert_event texts e seq a.now a.insert s.rows) n
        (insert_event-Good seq a.now a.insert s.rows key has) h

  emit-Known :
      (a : Answers) (s : State V) (key : String) (n : ℤ)
      → e.idempotency_key ≡ some key
      → (emit texts a e s).1 ≡ ok n
      → Known (emit texts a e s).0.rows n
  unfolding emit
  emit-Known a s key n has h =
      write_read-Known a (read_seq e.instance_id a.read s.rows) s key n has h

  -- A known key: the table stays, and the number of the first event is given.
  Known-emit :
      (now : ℕ) (s : State V) (n : ℤ)
      → Known s.rows n
      → ((emit texts (answering now) e s).1 ≡ ok n)
        × ((emit texts (answering now) e s).0.rows ≡ s.rows)
  unfolding emit read_seq write_read write insert_event settle publish lookup looked_up
  Known-emit now s n known =
      let old = seq_of-clash texts.not_found e.instance_id e.idempotency_key s.rows n known in
      rw (old, known) (refl, refl)

-- Once an event with an idempotency key has been emitted with the number `n`, then, whatever rows have
-- come after it, an event of the same instance with the same key adds no row and gives `n` again, over
-- a database that refuses no statement.
pub emit_same_key :
    {V : Type 0} (texts : Messages) (a : Answers) (e e' : EventEnvelope V) (s : State V)
    (key : String) (n : ℤ) (more : List (EventRow V)) (sent : List (EventEnvelope V)) (now : ℕ)
    → e.idempotency_key ≡ some key
    → e'.idempotency_key ≡ some key
    → e'.instance_id ≡ e.instance_id
    → (emit texts a e s).1 ≡ ok n
    → ((emit texts
          (answering now)
          e'
          (record { rows = (emit texts a e s).0.rows ++ more; sent = sent })).1
        ≡ ok n)
      × ((emit texts
            (answering now)
            e'
            (record { rows = (emit texts a e s).0.rows ++ more; sent = sent })).0.rows
          ≡ (emit texts a e s).0.rows ++ more)
emit_same_key texts a e e' s key n more sent now has has' same h =
    let first = emit-Known texts e a s key n has h in
    let later =
      seq_of-append texts.not_found e.instance_id e.idempotency_key (emit texts a e s).0.rows more n
        first in
    Known-emit texts e' now (record { rows = (emit texts a e s).0.rows ++ more; sent = sent }) n
      (rw (same, has')
        (subst
          (λ k. seq_of texts.not_found e.instance_id k ((emit texts a e s).0.rows ++ more) ≡ ok n)
          has later))
