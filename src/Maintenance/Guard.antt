-- ===== src/Maintenance/Guard.antt =====
-- The guard of `rebuild_projections`, app/maintenance_service.rs.
use text.Mathlib.TextEquality.{eq_iff}
use openclaw_rs.Base.{
  String, ◌≡◌, refl, true, Option, none, some, List, ◌⊎◌, inl, inr, Bool-cases, arith,
}
use openclaw_rs.Errors.{Result, ok, err, AppError}
use openclaw_rs.Sql.{Fault}
use openclaw_rs.Payload.{Uuid}
use openclaw_rs.Base.Int.{pos}
use openclaw_rs.Store as Store
use openclaw_rs.Store.Rows.{EventRow}
use openclaw_rs.Act.{Act, return, fail, query, continue, ◌>>=◌}
use openclaw_rs.Wire.{Wire}
use openclaw_rs.Maintenance.{
  Tables, Projector, RebuildAnswers, maintenance_row, check_maintenance_mode, require_maintenance,
  open_rebuild, rebuild_projections, truncate_projections, from_store, rebuild_from,
}

-- A step that leaves the state, and passes only where `P` holds.
abbrev Kept : {S : Type 0} → Type 0 → S → S × Result AppError (Unit {0}) → Type 0
Kept P s (t, ok u) = (t ≡ s) × P
Kept P s (t, err x) = t ≡ s

-- The row of an instance in maintenance.
abbrev pub Maintained : Option (String × Option String) → Type 0
Maintained row = row ≡ some ("blocked", some "Maintenance")

maintained :
    (state : String) (reason : Option String)
    → check_maintenance_mode state reason ≡ true
    → Maintained (some (state, reason))
unfolding check_maintenance_mode
maintained state none h = absurd (ground (arith, h))
maintained state (some r) h =
    let blocked : state ≡ "blocked" = (eq_iff state "blocked").0 (ground (arith, h)) in
    let named : r ≡ "Maintenance" = (eq_iff r "Maintenance").0 (ground (arith, h)) in
    rw (blocked, named) refl

module _ {V S : Type 0} (W : Wire V) (i : Uuid) where
  require-Kept :
      (row : Option (String × Option String)) (s : S)
      → Kept (Maintained row) s (require_maintenance W i row s)
  unfolding require_maintenance return fail
  require-Kept none s = refl
  require-Kept (some (state, reason)) s = elim (Bool-cases (check_maintenance_mode state reason)) [
    | inl on ↦ rw on (refl, maintained state reason on)
    | inr off ↦ rw off refl
  ]

  -- The three statements before it, refused or not.
  open-Kept :
      (begin lock read : Fault) (row : Option (String × Option String)) (s : S)
      → Kept (Maintained row) s (
          (query (λ e. e) begin tt >>= λ _. query (λ e. e) lock tt >>= λ _.
          query (λ e. e) read row >>= λ row. require_maintenance W i row)
            s)
  unfolding query continue ◌>>=◌
  open-Kept (some m) lock read row s = refl
  open-Kept none (some m) read row s = refl
  open-Kept none none (some m) row s = refl
  open-Kept none none none row s = require-Kept row s

-- What follows runs only if the step passed.
behind :
    {S A : Type 0} (P : Type 0) (s : S) (r : S × Result AppError (Unit {0})) (f : Act S A)
    → Kept P s r
    → ((continue (λ u. f) r).0 ≡ s) ⊎ P
unfolding continue
behind P s (t, err x) f h = inl h
behind P s (t, ok u) f (h, p) = inr p

-- A rebuild changes no table, whatever the projectors and the database's answers, unless the instance
-- is in state blocked with the reason Maintenance when the rebuild begins.
pub rebuild_projections-guard :
    {V : Type 0} (W : Wire V) (a : RebuildAnswers) (ps : List (Projector V))
    (stored : List (EventRow V)) (i : Uuid) (db : Tables V)
    → ((rebuild_projections W a ps stored i db).0 ≡ db)
      ⊎ Maintained (maintenance_row i db.instances)
unfolding rebuild_projections open_rebuild ◌>>=◌
rebuild_projections-guard W a ps stored i db =
    behind (Maintained (maintenance_row i db.instances)) db (open_rebuild W a i db)
      (truncate_projections W a i >>= λ u.
        from_store W (Store.replay i (pos 0) a.replay stored) >>= λ events.
        rebuild_from W a ps events)
      (open-Kept W i a.begin a.lock a.read (maintenance_row i db.instances) db)
