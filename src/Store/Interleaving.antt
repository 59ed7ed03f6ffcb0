-- ===== src/Store/Interleaving.antt =====
-- Several emitters at once: each reads its number first and inserts later.
use Prim.Native.String.{◌++◌ as append}
use openclaw_rs.Base.{
  ℕ, suc, ◌+◌, ◌^◌, ◌≤◌, ◌<◌, String, ◌≡◌, refl, sym, ltb, ltb→lt, ltb→le, ◌∙◌, ap, subst, ◌⊎◌, inl,
  inr, false, Option, none, some, List, [], ◌∷◌, ◌++◌, ◌==◌, any, arith, length, length-append, All,
  Bool-cases, ==→eq,
}
use openclaw_rs.Base.Int.{ℤ, pos}
use openclaw_rs.Errors.{Result, ok, err, DomainError, precondition}
use openclaw_rs.Sql.{Fault}
use openclaw_rs.Payload.{Uuid, EventEnvelope}
use openclaw_rs.Store.Rows.{EventRow, to_row}
use openclaw_rs.Store.{
  Messages, Answers, State, key_clash, other_clash, insert_event, read_seq, lookup, publish, settle,
  write,
}
use openclaw_rs.Store.Numbering.{
  Numbered, stop, Numbered-le, Numbered-next_seq, Numbered-clash, Numbered-append,
  Numbered-append_other,
}

-- The store, and the emitters that have read a number and not yet inserted.
pub record World (V : Type 0) : Type 0 where
  pub state : State V
  pub waiting : List (EventEnvelope V × ℤ)

-- The worlds that emitters can bring about from an empty store, in any order of their steps.
pub data Reached {V : Type 0} (texts : Messages) : World V → Type 0 where
  empty : Reached texts (record { state = record { rows = []; sent = [] }; waiting = [] })
  reads :
      (w : World V) (e : EventEnvelope V) (fault : Fault) (seq : ℤ)
      → Reached texts w
      → read_seq e.instance_id fault w.state.rows ≡ ok seq
      → Reached texts (record { state = w.state; waiting = (e, seq) ∷ w.waiting })
  writes :
      (s : State V) (e : EventEnvelope V) (seq : ℤ) (before after : List (EventEnvelope V × ℤ))
      (a : Answers)
      → Reached texts (record { state = s; waiting = before ++ (e, seq) ∷ after })
      → Reached texts (record { state = (write texts a e seq s).0; waiting = before ++ after })

module _ {A : Type 0} (P : A → Type 0) where
  All-middle : (xs ys : List A) (x : A) → All P (xs ++ x ∷ ys) → P x × All P (xs ++ ys)
  All-middle [] ys x h = h
  All-middle (y ∷ xs) ys x (h, hs) = let (p, rest) = All-middle xs ys x hs in (p, (h, rest))

  All-weaken : (Q : A → Type 0) → ((a : A) → P a → Q a) → (xs : List A) → All P xs → All Q xs
  All-weaken Q f [] h = tt
  All-weaken Q f (x ∷ xs) (h, hs) = (f x h, All-weaken Q f xs hs)

module _ {V : Type 0} (texts : Messages) where
  publish-rows :
      (e : EventEnvelope V) (sent : List (EventEnvelope V)) (rows : List (EventRow V))
      (r : Result DomainError ℤ)
      → (publish e sent rows r).0.rows ≡ rows
  unfolding publish
  publish-rows e sent rows (ok n) = refl
  publish-rows e sent rows (err x) = refl

  settle-rows :
      (e : EventEnvelope V) (fault : Fault) (sent : List (EventEnvelope V))
      (answer : List (EventRow V) × Result String (Option ℤ))
      → (settle texts e fault sent answer).0.rows ≡ answer.0
  unfolding settle
  settle-rows e fault sent (rows, ok none) = publish-rows e sent rows (lookup texts e fault rows)
  settle-rows e fault sent (rows, ok (some n)) = publish-rows e sent rows (ok n)
  settle-rows e fault sent (rows, err m) =
      publish-rows e sent rows (err (precondition (append "event store: " m)))

  -- The table after an insertion.
  abbrev Grown : EventEnvelope V → ℤ → (rows after : List (EventRow V)) → Type 0
  Grown e seq rows after =
      (after ≡ rows)
      ⊎ ((r : EventRow V) × (after ≡ rows ++ r ∷ [])
          × (r.instance_id ≡ e.instance_id)
          × (r.seq ≡ seq)
          × (any (other_clash e seq) rows ≡ false))

  insert_event-Grown :
      (e : EventEnvelope V) (seq : ℤ) (now : ℕ) (fault : Fault) (rows : List (EventRow V))
      → Grown e seq rows (insert_event texts e seq now fault rows).0
  unfolding insert_event to_row
  insert_event-Grown e seq now (some message) rows = inl refl
  insert_event-Grown e seq now none rows =
      elim (Bool-cases (any (key_clash e.instance_id e.idempotency_key) rows)) [
        | inl h ↦ rw h (inl refl)
        | inr h ↦ rw h (elim (Bool-cases (any (other_clash e seq) rows)) [
          | inl old ↦ rw old (inl refl)
          | inr new ↦ rw new (inr (to_row e seq now, refl, refl, refl, refl))
        ])
      ]

  write-Grown :
      (a : Answers) (e : EventEnvelope V) (seq : ℤ) (s : State V)
      → Grown e seq s.rows (write texts a e seq s).0.rows
  unfolding write
  write-Grown a e seq s =
      subst (Grown e seq s.rows)
        (sym (settle-rows e a.lookup s.sent (insert_event texts e seq a.now a.insert s.rows)))
        (insert_event-Grown e seq a.now a.insert s.rows)

-- An emitter of the instance waits with a number that is given already, or with the next.
abbrev Waits : {V : Type 0} → Uuid → ℕ → EventEnvelope V × ℤ → Type 0
Waits i m (e, seq) = e.instance_id ≡ i → (k : ℕ) × (seq ≡ pos (suc k)) × (k ≤ m)

abbrev Orderly : {V : Type 0} → Uuid → World V → Type 0
Orderly i w = (m : ℕ) × Numbered i 0 w.state.rows m × All (Waits i m) w.waiting

module _ {V : Type 0} (texts : Messages) (i : Uuid) where
  later : (m : ℕ) (p : EventEnvelope V × ℤ) → Waits i m p → Waits i (suc m) p
  later m (e, seq) h same = let (k, is, le) = h same in (k, is, omega (arith, le))

  last_number :
      (e : EventEnvelope V) (rows : List (EventRow V)) (k m : ℕ)
      → Numbered i 0 rows m
      → e.instance_id ≡ i
      → any (other_clash e (pos (suc k))) rows ≡ false
      → k ≤ m
      → k ≡ m
  last_number e rows k m d same new le = elim (Bool-cases (ltb k m)) [
    | inl lt ↦
        let clash = Numbered-clash e (suc k) d same (omega arith) (omega (arith, ltb→lt k m lt)) in
        absurd (cc)
    | inr ge ↦ omega (arith, le, ltb→le k m ge)
  ]

  reads-Orderly :
      (w : World V) (e : EventEnvelope V) (fault : Fault) (seq : ℤ)
      → Orderly i w
      → read_seq e.instance_id fault w.state.rows ≡ ok seq
      → length w.state.rows + 1 < 2 ^ 63
      → Orderly i (record { state = w.state; waiting = (e, seq) ∷ w.waiting })
  unfolding read_seq
  reads-Orderly w e (some message) seq inv h small = absurd (cc)
  reads-Orderly w e none seq (m, d, ws) h small =
      let room : suc m < 2 ^ 63 = omega (arith, Numbered-le d, small) in
      (m, d, ((λ same. (m, at same room, omega arith)), ws))
    where
      at : e.instance_id ≡ i → suc m < 2 ^ 63 → seq ≡ pos (suc m)
      at same room = let next = Numbered-next_seq d room in cc (h, same, next)

  Grown-Orderly :
      (w : World V) (e : EventEnvelope V) (seq : ℤ) (rows : List (EventRow V))
      (sent : List (EventEnvelope V)) (m : ℕ)
      → Grown texts e seq w.state.rows rows
      → Numbered i 0 w.state.rows m
      → Waits i m (e, seq)
      → All (Waits i m) w.waiting
      → Orderly i (record { state = record { rows = rows; sent = sent }; waiting = w.waiting })
  Grown-Orderly w e seq rows sent m (inl same) d wait ws =
      (m, subst (λ t. Numbered i 0 t m) (sym same) d, ws)
  Grown-Orderly w e seq rows sent m (inr (r, grown, own, is, new)) d wait ws =
      elim (Bool-cases (r.instance_id == i)) [
        | inr other ↦
            (m, subst (λ t. Numbered i 0 t m) (sym grown) (Numbered-append_other r d other), ws)
        | inl mine ↦
            let same : e.instance_id ≡ i = sym own ∙ ==→eq r.instance_id i mine in
            let (k, seq_is, le) = wait same in
            let last : k ≡ m =
              last_number e w.state.rows k m d same
                (subst (λ q. any (other_clash e q) w.state.rows ≡ false) seq_is new) le in
            (
              suc m,
              subst (λ t. Numbered i 0 t (suc m)) (sym grown)
                  (Numbered-append r d mine (is ∙ seq_is ∙ ap (λ n. pos (suc n)) last)),
              All-weaken (Waits i m) (Waits i (suc m)) (later m) w.waiting ws,
            )
      ]

  -- No insertion makes the table shorter.
  Grown-length :
      (e : EventEnvelope V) (seq : ℤ) (rows after : List (EventRow V))
      → Grown texts e seq rows after
      → length rows ≤ length after
  Grown-length e seq rows after (inl same) = rw same (omega arith)
  Grown-length e seq rows after (inr (r, grown, own, is, new)) =
      rw grown (omega (arith, length-append rows (r ∷ [])))

  Reached-Orderly : (w : World V) → Reached texts w → length w.state.rows + 1 < 2 ^ 63 → Orderly i w
  Reached-Orderly _ empty small = (0, stop 0, tt)
  Reached-Orderly _ (reads w e fault seq path h) small =
      reads-Orderly w e fault seq (Reached-Orderly w path small) h small
  Reached-Orderly _ (writes s e seq before after a path) small =
      let grown = write-Grown texts a e seq s in
      let shorter = Grown-length e seq s.rows (write texts a e seq s).0.rows grown in
      let (m, d, ws) =
        Reached-Orderly (record { state = s; waiting = before ++ (e, seq) ∷ after }) path
          (omega (arith, shorter, small)) in
      let (wait, rest) = All-middle (Waits i m) before after (e, seq) ws in
      Grown-Orderly (record { state = s; waiting = before ++ after }) e seq
        (write texts a e seq s).0.rows (write texts a e seq s).0.sent m grown d wait rest

  -- Whatever the order in which any number of emitters read their numbers and insert, from an empty
  -- store and over a database that may refuse any statement, the events of an instance have the
  -- numbers 1, 2, …, m in the order in which they were inserted; the table is to have fewer than
  -- 2^63 - 1 rows.
  pub Reached-Numbered :
      (w : World V)
      → Reached texts w
      → length w.state.rows + 1 < 2 ^ 63
      → (m : ℕ) × Numbered i 0 w.state.rows m
  Reached-Numbered w path small = let (m, d, ws) = Reached-Orderly w path small in (m, d)
