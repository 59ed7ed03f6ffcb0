-- ===== src/Store/Replay.antt =====
-- `replay` against the order of the table, and against `emit`.
use openclaw_rs.Base.{
  ℕ, suc, ◌^◌, ◌≤◌, ◌<◌, ◌≡◌, refl, ap, inl, inr, true, false, none, List, [], ◌∷◌, ◌++◌, map, ◌==◌,
  ◌&&◌, if◌then◌else◌, any, arith, Bool-cases, eq→==,
}
use openclaw_rs.Base.Int.{ℤ, pos, ltb_ℤ}
use openclaw_rs.Errors.{ok}
use openclaw_rs.Payload.{Uuid, EventEnvelope}
use openclaw_rs.Store.Rows.{EventRow, to_i16, to_u16, from_row, to_row}
use openclaw_rs.Store.{
  Messages, State, key_clash, other_clash, insert_event, read_seq, publish, settle, write,
  write_read, emit, insert_by_seq, select_since, replay,
}
use openclaw_rs.Store.Numbering.{
  Numbered, stop, other, mine, Numbered-ge, Numbered-next_seq, Numbered-append,
}
use openclaw_rs.Store.Keys.{answering}

module _ {V : Type 0} (i : Uuid) where
  -- The rows of the instance with a number above `since`, in the order of the table.
  unfoldable pub later_than : ℤ → List (EventRow V) → List (EventRow V)
  later_than since [] = []
  later_than since (r ∷ rows) =
      let rest = later_than since rows in
      if (r.instance_id == i) && ltb_ℤ since r.seq then r ∷ rest else rest

  -- The first row, if there is one, has a number above `n`.
  abbrev Above : ℕ → List (EventRow V) → Type 0
  Above n [] = Unit
  Above n (r ∷ rows) = (k : ℕ) × (r.seq ≡ pos k) × (n < k)

  Above-weaken : (n : ℕ) (rows : List (EventRow V)) → Above (suc n) rows → Above n rows
  Above-weaken n [] h = tt
  Above-weaken n (r ∷ rows) (k, is, lt) = (k, is, omega (arith, lt))

  insert_by_seq-first :
      (r : EventRow V) (n : ℕ) (rows : List (EventRow V))
      → r.seq ≡ pos n
      → Above n rows
      → insert_by_seq r rows ≡ r ∷ rows
  unfolding insert_by_seq
  insert_by_seq-first r n [] is h = refl
  insert_by_seq-first r n (s ∷ rows) is (k, above, lt) = ground (arith, is, above, lt)

  in_order :
      (since : ℤ) {n m : ℕ} {rows : List (EventRow V)}
      → Numbered i n rows m
      → (select_since i since rows ≡ later_than since rows) × Above n (later_than since rows)
  unfolding select_since later_than
  in_order since (stop n) = (refl, tt)
  in_order since (other o d) = let (same, above) = in_order since d in (rw o same, rw o above)
  in_order since {n} (mine {r = r} {rows = rows} o s d) =
      let (same, above) = in_order since d in
      elim (Bool-cases (ltb_ℤ since r.seq)) [
        | inl hit ↦
            rw (o, hit)
              (
                rw same (insert_by_seq-first r (suc n) (later_than since rows) s above),
                (suc n, s, omega arith),
              )
        | inr miss ↦ rw (o, miss) (same, Above-weaken n (later_than since rows) above)
      ]

  -- Nothing stands after the last number.
  later_than-last :
      {n m : ℕ} {rows : List (EventRow V)} (k : ℕ) (r : EventRow V)
      → Numbered i n rows m
      → m ≤ k
      → (r.instance_id == i) ≡ true
      → r.seq ≡ pos (suc k)
      → later_than (pos k) (rows ++ r ∷ []) ≡ r ∷ []
  unfolding later_than
  later_than-last k r (stop n) le own is = rw own (ground (arith, is))
  later_than-last k r (other o d) le own is = rw o (later_than-last k r d le own is)
  later_than-last {n} k r (mine {r = s} {rows = rows} o at d) le own is =
      let small = Numbered-ge d in
      let miss : ltb_ℤ (pos k) s.seq ≡ false = ground (arith, at, small, le) in
      rw (o, miss) (later_than-last k r d le own is)

  -- Over a table whose rows of the instance are numbered in their order, `replay` gives the rows of
  -- the instance that have a number above `since`, in the order of the table.
  pub replay_in_order :
      (since : ℤ) (m : ℕ) (rows : List (EventRow V))
      → Numbered i 0 rows m
      → replay i since none rows ≡ ok (map from_row (later_than since rows))
  unfolding replay
  replay_in_order since m rows d = let (same, above) = in_order since d in rw same refl

-- A version of 16 bits survives the two casts.
to_u16-to_i16 : (v : ℕ) → v < 2 ^ 16 → to_u16 (to_i16 v) ≡ v
to_u16-to_i16 v h = ground (arith, h)

module _ {V : Type 0} (e : EventEnvelope V) where
  -- A new id with the next number clashes with nothing.
  no_clash :
      {n m : ℕ} {rows : List (EventRow V)} (k : ℕ)
      → Numbered e.instance_id n rows m
      → m ≤ k
      → any (λ r. r.event_id == e.event_id) rows ≡ false
      → any (other_clash e (pos (suc k))) rows ≡ false
  no_clash k (stop n) le new = refl
  no_clash k (other {rows = rows} o d) le new =
      let rest = no_clash k d le (ground (arith, new)) in ground (arith, o, new, rest)
  no_clash k (mine {rows = rows} o at d) le new =
      let rest = no_clash k d le (ground (arith, new)) in
      let small = Numbered-ge d in ground (arith, at, small, le, new, rest)

  stored :
      (m now : ℕ)
      → e.event_version < 2 ^ 16
      → from_row (to_row e (pos m) now) ≡ record e { seq = pos m; recorded_at = now }
  unfolding from_row to_row
  stored m now small =
      ap (λ v. record e { seq = pos m; event_version = v; recorded_at = now })
        (to_u16-to_i16 e.event_version small)

  -- An event of a version below 2^16, with a new id and no key that the instance has used, emitted
  -- over a table whose rows of the instance are numbered 1 to m, m + 1 below 2^63, by a database that
  -- refuses no statement, gets the number m + 1; and a replay from m on gives that one event, with
  -- its number and the time of recording.
  pub emit-replay :
      (texts : Messages) (now : ℕ) (s : State V) (m : ℕ)
      → Numbered e.instance_id 0 s.rows m
      → suc m < 2 ^ 63
      → e.event_version < 2 ^ 16
      → any (key_clash e.instance_id e.idempotency_key) s.rows ≡ false
      → any (λ r. r.event_id == e.event_id) s.rows ≡ false
      → ((emit texts (answering now) e s).1 ≡ ok (pos (suc m)))
        × (replay e.instance_id (pos m) none (emit texts (answering now) e s).0.rows
            ≡ ok (record e { seq = pos (suc m); recorded_at = now } ∷ []))
  unfolding emit read_seq write_read write insert_event settle publish replay to_row
  emit-replay texts now s m d room version key new =
      let next = Numbered-next_seq d room in
      let free = no_clash m d (omega arith) new in
      let row : EventRow V = to_row e (pos (suc m)) now in
      let own : (row.instance_id == e.instance_id) ≡ true =
        eq→== e.instance_id e.instance_id refl in
      let (same, above) = in_order e.instance_id (pos m) (Numbered-append row d own refl) in
      let last = later_than-last e.instance_id m row d (omega arith) own refl in
      rw (next, key, free)
        (refl, rw (same, last) (ap (λ x. ok (x ∷ [])) (stored (suc m) now version)))
