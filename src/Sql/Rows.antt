-- ===== src/Sql/Rows.antt =====
-- How a table changes under the statements, row by row.
use openclaw_rs.Base.{
  ℕ, zero, suc, ◌≡◌, refl, ap, Bool, true, false, some, List, [], ◌∷◌, ◌++◌, ◌==◌, if◌then◌else◌,
  any, arith, Bool-cases, inl, inr, get_elem?, sym, subst, ◌∙◌,
}
use openclaw_rs.Sql.{update_where, insert_new}

-- The rows of the second table are those of the first, each kept or moved by a `Step`, and perhaps
-- one more that is `Born`.
pub data Evolves {R : Type 0} (Step : R → R → Type 0) (Born : R → Type 0)
    : List R → List R → Type 0 where
  stop : Evolves Step Born [] []
  born : (r : R) → Born r → Evolves Step Born [] (r ∷ [])
  row :
      {r s : R} {rows rows' : List R}
      → Step r s
      → Evolves Step Born rows rows'
      → Evolves Step Born (r ∷ rows) (s ∷ rows')

module _ {R : Type 0} {Step : R → R → Type 0} {Born : R → Type 0} (stay : (r : R) → Step r r) where
  pub Evolves-refl : (rows : List R) → Evolves Step Born rows rows
  Evolves-refl [] = stop
  Evolves-refl (r ∷ rows) = row (stay r) (Evolves-refl rows)

  pub Evolves-update_where :
      (test : R → Bool) (set : R → R)
      → ((r : R) → test r ≡ true → Step r (set r))
      → (rows : List R) → Evolves Step Born rows (update_where test set rows)
  unfolding update_where
  Evolves-update_where test set moves [] = stop
  Evolves-update_where test set moves (r ∷ rows) = elim (Bool-cases (test r)) [
    | inl h ↦ rw h (row (moves r h) (Evolves-update_where test set moves rows))
    | inr h ↦ rw h (row (stay r) (Evolves-update_where test set moves rows))
  ]

  Evolves-append : (r : R) → Born r → (rows : List R) → Evolves Step Born rows (rows ++ r ∷ [])
  Evolves-append r b [] = born r b
  Evolves-append r b (s ∷ rows) = row (stay s) (Evolves-append r b rows)

  pub Evolves-insert_new :
      (id : R → ℕ) (r : R)
      → Born r
      → (rows : List R) → Evolves Step Born rows (insert_new id r rows)
  unfolding insert_new
  Evolves-insert_new id r b rows = elim (Bool-cases (any (λ s. id s == id r) rows)) [
    | inl h ↦ rw h (Evolves-refl rows)
    | inr h ↦ rw h (Evolves-append r b rows)
  ]

-- A row that no step moves stays where it is.
pub Evolves-frozen :
    {R : Type 0} {Step : R → R → Type 0} {Born : R → Type 0} (Done : R → Type 0)
    → ((r s : R) → Step r s → Done r → s ≡ r)
    → {rows rows' : List R} → Evolves Step Born rows rows'
    → (i : ℕ) (r : R) → get_elem? rows i ≡ some r
    → Done r
    → get_elem? rows' i ≡ some r
Evolves-frozen Done fixed stop i r at d = at
Evolves-frozen Done fixed (born s b) i r at d = absurd (cc)
Evolves-frozen Done fixed (row {r = r'} {s = s} st e) zero r at d =
    let same : r' ≡ r = cc in ap some (fixed r' s st (subst Done (sym same) d) ∙ same)
Evolves-frozen Done fixed (row st e) (suc i) r at d = Evolves-frozen Done fixed e i r at d

-- Statements that, done twice, change nothing the second time.
module _ {R : Type 0} where
  pub update_where_idem :
      (test : R → Bool) (set : R → R)
      → ((r : R) → test r ≡ true → test (set r) ≡ false)
      → (rows : List R)
      → update_where test set (update_where test set rows) ≡ update_where test set rows
  unfolding update_where
  update_where_idem test set once [] = refl
  update_where_idem test set once (r ∷ rows) = elim (Bool-cases (test r)) [
    | inl h ↦ rw h (rw (once r h) (ap (λ rs. set r ∷ rs) (update_where_idem test set once rows)))
    | inr h ↦ rw (h, h) (ap (λ rs. r ∷ rs) (update_where_idem test set once rows))
  ]

  any_last : (p : R → Bool) (r : R) → p r ≡ true → (rows : List R) → any p (rows ++ r ∷ []) ≡ true
  any_last p r h [] = rw h
  any_last p r h (s ∷ rows) = ground (arith, any_last p r h rows)

  pub insert_new_idem :
      (id : R → ℕ) (r : R) (rows : List R)
      → insert_new id r (insert_new id r rows) ≡ insert_new id r rows
  unfolding insert_new
  insert_new_idem id r rows = elim (Bool-cases (any (λ s. id s == id r) rows)) [
    | inl h ↦ rw (h, h)
    | inr h ↦ rw h (rw (any_last (λ s. id s == id r) r (ground arith) rows))
  ]

-- The row at a place after an UPDATE.
pub update_where-at :
    {R : Type 0} (test : R → Bool) (set : R → R) (rows : List R) (i : ℕ) (r : R)
    → get_elem? rows i ≡ some r
    → get_elem? (update_where test set rows) i ≡ some (if test r then set r else r)
unfolding update_where
update_where-at test set [] i r h = absurd (cc)
update_where-at test set (s ∷ rows) zero r h =
    let same : s ≡ r = cc in ap (λ t. some (if test t then set t else t)) same
update_where-at test set (s ∷ rows) (suc i) r h = update_where-at test set rows i r h
