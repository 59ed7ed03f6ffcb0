-- ===== src/Sql.antt =====
-- The statements that the source sends to PostgreSQL, over a table as a list of rows. The database
-- answers a statement by doing it, or refuses it (a constraint, a lost connection) with a message
-- and does nothing: `Fault` is its answer, an input of each operation.
pub mod Rows
pub mod Handlers
pub mod Targets
use openclaw_rs.Base.{
  ℕ, String, Bool, Option, none, some, List, [], ◌∷◌, ◌++◌, ◌==◌, if◌then◌else◌, any,
}
use openclaw_rs.Errors.{Result, ok, err, AppError, infra, database}

abbrev pub Fault : Type 0
Fault = Option String

abbrev pub Outcome : Type 0 → Type 0
Outcome T = T × Result AppError (Unit {0})

-- `sqlx::query(…).execute(pool).await.map_err(|e| AppError::Infra(InfraError::Database(…)))?`,
-- then `Ok(())`.
unfoldable pub execute : {T : Type 0} → (T → T) → Fault → T → Outcome T
execute statement none t = (statement t, ok tt)
execute statement (some message) t = (t, err (infra (database message)))

-- The values of a statement are read first; the first that is missing or of the wrong type is the
-- handler's error, and nothing is sent.
unfoldable pub submit : {T : Type 0} → Result AppError (T → T) → Fault → T → Outcome T
unfolding execute
submit (ok statement) fault t = execute statement fault t
submit (err e) fault t = (t, err e)

-- `Ok(())` with no statement sent.
unfoldable pub ignore : {T : Type 0} → Fault → T → Outcome T
ignore fault t = (t, ok tt)

module _ {R : Type 0} where
  -- UPDATE … SET `set` WHERE `test`
  unfoldable pub update_where : (R → Bool) → (R → R) → List R → List R
  update_where test set [] = []
  update_where test set (r ∷ rows) = (if test r then set r else r) ∷ update_where test set rows

  -- INSERT … ON CONFLICT (id) DO NOTHING
  unfoldable pub insert_new : (R → ℕ) → R → List R → List R
  insert_new id r rows = if any (λ s. id s == id r) rows then rows else rows ++ r ∷ []
