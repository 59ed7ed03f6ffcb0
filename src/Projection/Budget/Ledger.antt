-- ===== src/Projection/Budget/Ledger.antt =====
-- The ledger and its one statement, `INSERT_LEDGER_SQL`.
use openclaw_rs.Base.{
  String, Bool, Option, none, some, List, [], ◌∷◌, ◌++◌, ◌==◌, ◌&&◌, ◌||◌, ltb, if◌then◌else◌, any,
}
use openclaw_rs.Base.Int.{ℤ, pos, ◌+ℤ◌, fits_i64}
use openclaw_rs.Errors.{ok, err, infra, database}
use openclaw_rs.Sql.{Fault, Outcome}
use openclaw_rs.Payload.{Uuid, Time}

-- The parameters $1 to $7 of the statement.
pub record Draft : Type 0 where
  pub id : Uuid
  pub instance_id : Uuid
  pub cycle_id : Option Uuid
  pub run_id : Option Uuid
  pub event_type : String
  pub amount_cents : ℤ
  pub created_at : Time

-- A row of `orch_budget_ledger`.
pub record LedgerRow : Type 0 where
  pub draft : Draft
  pub balance_after : ℤ

-- ORDER BY created_at DESC, id DESC: `a` stands before `b`.
abbrev pub newer : Draft → Draft → Bool
newer a b = ltb b.created_at a.created_at || ((a.created_at == b.created_at) && ltb b.id a.id)

abbrev pub first : Option LedgerRow → Option LedgerRow → Option LedgerRow
first none b = b
first (some a) none = some a
first (some a) (some b) = if newer a.draft b.draft then some a else some b

-- SELECT … WHERE instance_id = $2 ORDER BY created_at DESC, id DESC LIMIT 1
unfoldable pub latest : Uuid → List LedgerRow → Option LedgerRow
latest i [] = none
latest i (r ∷ rows) = first (if r.draft.instance_id == i then some r else none) (latest i rows)

abbrev balance_of : Option LedgerRow → ℤ
balance_of none = pos 0
balance_of (some r) = r.balance_after

-- COALESCE((SELECT balance_after …), 0)
unfoldable pub balance : Uuid → List LedgerRow → ℤ
balance i rows = balance_of (latest i rows)

abbrev pub has_id : Uuid → List LedgerRow → Bool
has_id id rows = any (λ r. r.draft.id == id) rows

-- INSERT … SELECT …, COALESCE(…) + $6, … ON CONFLICT (id) DO NOTHING. A sum beyond `bigint` is an
-- error of the database, met before the conflict is.
unfoldable pub insert_ledger : String → Draft → Fault → List LedgerRow → Outcome (List LedgerRow)
insert_ledger overflow d (some message) rows = (rows, err (infra (database message)))
insert_ledger overflow d none rows =
    let after = balance d.instance_id rows +ℤ d.amount_cents in
    if fits_i64 after
    then (
      (if has_id d.id rows then rows else rows ++ record { draft = d; balance_after = after } ∷ []),
      ok tt,
    )
    else (rows, err (infra (database overflow)))
