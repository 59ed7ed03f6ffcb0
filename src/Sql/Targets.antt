-- ===== src/Sql/Targets.antt =====
-- What a statement makes of the row that it is about.
use openclaw_rs.Base.{ℕ, ◌≡◌, refl, Bool, none, some, List, get_elem?, if◌then◌else◌}
use openclaw_rs.Errors.{Result, ok, err, AppError, ◌>>=◌}
use openclaw_rs.Sql.{submit, update_where}
use openclaw_rs.Sql.Rows.{update_where-at}

-- The statement that `d` reads, done on `rows`, leaves at place `i` a row that `abs` takes to `s`.
pub record Makes {R S : Type 0} (abs : R → S) (rows : List R) (i : ℕ) (s : S)
    (d : Result AppError (List R → List R)) : Type 0 where
  pub row : R
  pub at : get_elem? (submit d none rows).0 i ≡ some row
  pub state : abs row ≡ s

module _ {R S A : Type 0} {abs : R → S} {rows : List R} {i : ℕ} {s : S} where
  pub Makes-bind :
      (r : Result AppError A) (f : A → Result AppError (List R → List R)) (a : A)
      → r ≡ ok a
      → ((b : A) → b ≡ a → Makes abs rows i s (f b))
      → Makes abs rows i s (r >>= f)
  unfolding ◌>>=◌
  Makes-bind (ok b) f a h m = m b (cc)
  Makes-bind (err x) f a h m = absurd (cc)

module _ {R S : Type 0} {abs : R → S} {rows : List R} {i : ℕ} {s : S} where
  pub Makes-update :
      (test : R → Bool) (set : R → R) (r : R)
      → get_elem? rows i ≡ some r
      → ((b : Bool) → test r ≡ b → abs (if b then set r else r) ≡ s)
      → Makes abs rows i s (ok (update_where test set))
  unfolding submit
  Makes-update test set r at state = record {
    row = if test r then set r else r;
    at = update_where-at test set rows i r at;
    state = state (test r) refl;
  }
