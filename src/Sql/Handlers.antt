-- ===== src/Sql/Handlers.antt =====
-- Handlers of events that send at most one statement.
use openclaw_rs.Base.{ℕ, ◌≡◌, refl, Bool, true, false, none, some, List, [], ◌∷◌, get_elem?}
use openclaw_rs.Errors.{Result, ok, err, AppError, Holds, ◌>>=◌}
use openclaw_rs.Sql.{Fault, Outcome, submit, ignore, update_where, insert_new}
use openclaw_rs.Sql.Rows.{
  Evolves, Evolves-refl, Evolves-update_where, Evolves-insert_new, Evolves-frozen,
  update_where_idem, insert_new_idem,
}

-- What every statement of a projector is to satisfy: rows only move by steps, and a statement that
-- is done again at once changes nothing.
pub record IsSound {R : Type 0} (Step : R → R → Type 0) (Born : R → Type 0) (f : List R → List R)
    : Type 0 where
  pub evolves : (rows : List R) → Evolves Step Born rows (f rows)
  pub idem : (rows : List R) → f (f rows) ≡ f rows

-- A reader of a statement: if it yields one, that one is sound.
pub record Yields {R : Type 0} (Step : R → R → Type 0) (Born : R → Type 0)
    (d : Result AppError (List R → List R)) : Type 0 where
  pub sound : Holds (IsSound Step Born) d

module _ {R A : Type 0} {Step : R → R → Type 0} {Born : R → Type 0} where
  pub Yields-bind :
      (r : Result AppError A) (f : A → Result AppError (List R → List R))
      → ((a : A) → Yields Step Born (f a))
      → Yields Step Born (r >>= f)
  unfolding ◌>>=◌
  Yields-bind (ok a) f h = h a
  Yields-bind (err e) f h = record { sound = tt }

module _ {R : Type 0} {Step : R → R → Type 0} {Born : R → Type 0} (stay : (r : R) → Step r r) where
  pub Yields-update :
      (test : R → Bool) (set : R → R)
      → ((r : R) → test r ≡ true → Step r (set r))
      → ((r : R) → test r ≡ true → test (set r) ≡ false)
      → Yields Step Born (ok (update_where test set))
  Yields-update test set moves once = record {
    sound = record {
      evolves = Evolves-update_where stay test set moves;
      idem = update_where_idem test set once;
    };
  }

  pub Yields-insert : (id : R → ℕ) (r : R) → Born r → Yields Step Born (ok (insert_new id r))
  Yields-insert id r b = record {
    sound = record { evolves = Evolves-insert_new stay id r b; idem = insert_new_idem id r };
  }

-- A handler of one event, over a database that may refuse a statement.
pub record Handles {R : Type 0} (Step : R → R → Type 0) (Born : R → Type 0)
    (h : Fault → List R → Outcome (List R)) : Type 0 where
  pub evolves : (fault : Fault) (rows : List R) → Evolves Step Born rows (h fault rows).0
  pub idem : (rows : List R) → (h none (h none rows).0).0 ≡ (h none rows).0
  pub refused :
      (fault : Fault) (rows : List R) {x : AppError}
      → (h fault rows).1 ≡ err x
      → (h fault rows).0 ≡ rows

submit_refused :
    {R : Type 0} (d : Result AppError (List R → List R)) (fault : Fault) (rows : List R)
    {x : AppError}
    → (submit d fault rows).1 ≡ err x
    → (submit d fault rows).0 ≡ rows
unfolding submit
submit_refused (ok f) none rows h = cc
submit_refused (ok f) (some m) rows h = refl
submit_refused (err e) fault rows h = refl

module _ {R : Type 0} {Step : R → R → Type 0} {Born : R → Type 0} (stay : (r : R) → Step r r) where
  submit-Evolves :
      (d : Result AppError (List R → List R)) (fault : Fault) (rows : List R)
      → Yields Step Born d
      → Evolves Step Born rows (submit d fault rows).0
  unfolding submit
  submit-Evolves (ok f) none rows y = y.sound.evolves rows
  submit-Evolves (ok f) (some m) rows y = Evolves-refl stay rows
  submit-Evolves (err e) fault rows y = Evolves-refl stay rows

  submit_idem :
      (d : Result AppError (List R → List R)) (rows : List R)
      → Yields Step Born d
      → (submit d none (submit d none rows).0).0 ≡ (submit d none rows).0
  unfolding submit
  submit_idem (ok f) rows y = y.sound.idem rows
  submit_idem (err e) rows y = refl

  pub submit-Handles :
      (d : Result AppError (List R → List R)) → Yields Step Born d → Handles Step Born (submit d)
  submit-Handles d y = record {
    evolves = λ fault rows. submit-Evolves d fault rows y;
    idem = λ rows. submit_idem d rows y;
    refused = λ fault rows h. submit_refused d fault rows h;
  }

  pub ignore-Handles : Handles Step Born ignore
  unfolding ignore
  ignore-Handles = record {
    evolves = λ fault rows. Evolves-refl stay rows;
    idem = λ rows. refl;
    refused = λ fault rows h. refl;
  }

-- Any sequence of deliveries, each on a database that may refuse it.
module _ {E R : Type 0} (handle : E → Fault → List R → Outcome (List R)) where
  unfoldable pub deliver : List (E × Fault) → List R → List R
  deliver [] rows = rows
  deliver ((e, fault) ∷ es) rows = deliver es (handle e fault rows).0

  pub deliver-frozen :
      {Step : R → R → Type 0} {Born : R → Type 0} (Done : R → Type 0)
      → ((r s : R) → Step r s → Done r → s ≡ r)
      → ((e : E) → Handles Step Born (handle e))
      → (es : List (E × Fault)) (rows : List R) (i : ℕ) (r : R) → get_elem? rows i ≡ some r
      → Done r
      → get_elem? (deliver es rows) i ≡ some r
  unfolding deliver
  deliver-frozen Done fixed sound [] rows i r at d = at
  deliver-frozen Done fixed sound ((e, fault) ∷ es) rows i r at d =
      deliver-frozen Done fixed sound es (handle e fault rows).0 i r
        (Evolves-frozen Done fixed ((sound e).evolves fault rows) i r at d) d
