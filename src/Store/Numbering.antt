-- ===== src/Store/Numbering.antt =====
-- The numbers of an instance's events.
use openclaw_rs.Base.{
  ℕ, suc, ◌+◌, ◌^◌, ◌≤◌, ◌<◌, ◌≡◌, true, false, Option, none, some, List, [], ◌∷◌, ◌++◌, ◌==◌,
  if◌then◌else◌, any, arith, length, Bool-cases, inl, inr,
}
use openclaw_rs.Base.Int.{ℤ, pos, ◌+ℤ◌}
use openclaw_rs.Payload.{Uuid, EventEnvelope}
use openclaw_rs.Store.Rows.{EventRow}
use openclaw_rs.Store.{max_seq, next_seq, other_clash}

-- From `n` on, the rows of the instance have the numbers n + 1, n + 2, …, m, in the order of the table.
pub data Numbered {V : Type 0} (i : Uuid) : ℕ → List (EventRow V) → ℕ → Type 0 where
  stop : (n : ℕ) → Numbered i n [] n
  other :
      {n m : ℕ} {r : EventRow V} {rows : List (EventRow V)}
      → (r.instance_id == i) ≡ false
      → Numbered i n rows m
      → Numbered i n (r ∷ rows) m
  mine :
      {n m : ℕ} {r : EventRow V} {rows : List (EventRow V)}
      → (r.instance_id == i) ≡ true
      → r.seq ≡ pos (suc n)
      → Numbered i (suc n) rows m
      → Numbered i n (r ∷ rows) m

abbrev last_of : ℕ → ℕ → Option ℤ
last_of n m = if n == m then none else some (pos m)

module _ {V : Type 0} {i : Uuid} where
  pub Numbered-le : {n m : ℕ} {rows : List (EventRow V)} → Numbered i n rows m → m ≤ n + length rows
  Numbered-le (stop n) = omega arith
  Numbered-le (other o d) = omega (arith, Numbered-le d)
  Numbered-le (mine o s d) = omega (arith, Numbered-le d)

  pub Numbered-ge : {n m : ℕ} {rows : List (EventRow V)} → Numbered i n rows m → n ≤ m
  Numbered-ge (stop n) = omega arith
  Numbered-ge (other o d) = Numbered-ge d
  Numbered-ge (mine o s d) = omega (arith, Numbered-ge d)

  Numbered-max_seq :
      {n m : ℕ} {rows : List (EventRow V)} → Numbered i n rows m → max_seq i rows ≡ last_of n m
  unfolding max_seq
  Numbered-max_seq (stop n) = ground arith
  Numbered-max_seq (other o d) = rw (o, Numbered-max_seq d)
  Numbered-max_seq {n} {m} (mine o s d) =
      let le = Numbered-ge d in rw (o, Numbered-max_seq d) (ground (arith, le, s))

  -- The next number, where there is room for it.
  pub Numbered-next_seq :
      {m : ℕ} {rows : List (EventRow V)}
      → Numbered i 0 rows m
      → suc m < 2 ^ 63
      → next_seq i rows ≡ pos (suc m)
  unfolding next_seq ◌+ℤ◌
  Numbered-next_seq d small = rw (Numbered-max_seq d) (ground arith)

  -- A number that is given already clashes.
  pub Numbered-clash :
      {n m : ℕ} {rows : List (EventRow V)} (e : EventEnvelope V) (k : ℕ)
      → Numbered i n rows m
      → e.instance_id ≡ i
      → n < k
      → k ≤ m
      → any (other_clash e (pos k)) rows ≡ true
  Numbered-clash e k (stop n) same lo hi = absurd (omega arith)
  Numbered-clash e k (other o d) same lo hi =
      let rest = Numbered-clash e k d same lo hi in ground (arith, rest)
  Numbered-clash {n} e k (mine o s d) same lo hi = elim (Bool-cases (k == suc n)) [
    | inl h ↦ rw s (ground arith)
    | inr h ↦ let rest = Numbered-clash e k d same (ground arith) hi in ground (arith, rest)
  ]

  pub Numbered-append :
      {n m : ℕ} {rows : List (EventRow V)} (r : EventRow V)
      → Numbered i n rows m
      → (r.instance_id == i) ≡ true
      → r.seq ≡ pos (suc m)
      → Numbered i n (rows ++ r ∷ []) (suc m)
  Numbered-append r (stop n) own s = mine own s (stop (suc n))
  Numbered-append r (other o d) own s = other o (Numbered-append r d own s)
  Numbered-append r (mine o t d) own s = mine o t (Numbered-append r d own s)

  pub Numbered-append_other :
      {n m : ℕ} {rows : List (EventRow V)} (r : EventRow V)
      → Numbered i n rows m
      → (r.instance_id == i) ≡ false
      → Numbered i n (rows ++ r ∷ []) m
  Numbered-append_other r (stop n) h = other h (stop n)
  Numbered-append_other r (other o d) h = other o (Numbered-append_other r d h)
  Numbered-append_other r (mine o t d) h = mine o t (Numbered-append_other r d h)
