-- ===== src/Examples/Ledger.antt =====
-- The budget ledger at concrete events.
use openclaw_rs.Base.{◌≡◌, refl, none, List, [], ◌∷◌}
use openclaw_rs.Base.Int.{◌+ℤ◌, pos, negsuc}
use openclaw_rs.Sql.Handlers.{deliver}
use openclaw_rs.Payload.{EventEnvelope}
use openclaw_rs.Projection.Budget.{handle}
use openclaw_rs.Projection.Budget.Ledger.{LedgerRow, latest, balance, insert_ledger}
use openclaw_rs.Projection.Budget.Laws.{Grows, budget_handle-Grows, budget_redelivery}
use openclaw_rs.Projection.Budget.Balance.{total, budget_handle-balance, late_entry_lost}
use openclaw_rs.Examples.Fixtures.{Json, int, uuid, json, event, a_draft, an_entry}

abbrev observed : EventEnvelope Json
observed =
    event 9 "RunCostObserved"
      (("cycle_id", uuid 7) ∷ ("run_id", uuid 9) ∷ ("amount_cents", int (negsuc 9)) ∷ [])

abbrev ledger : List LedgerRow
ledger = an_entry 5 (pos 100) (pos 100) ∷ []

budget_handle-Grows_example :
    Grows observed ledger (handle json "out of range" observed none ledger).0
budget_handle-Grows_example = budget_handle-Grows json "out of range" observed none ledger

budget_redelivery_example :
    (handle json "out of range"
      (event 5 "GlobalBudgetCapHit" [])
      none
      (deliver (handle json "out of range") ((observed, none) ∷ []) ledger)).0
    ≡ deliver (handle json "out of range") ((observed, none) ∷ []) ledger
budget_redelivery_example =
    budget_redelivery json "out of range" (event 5 "GlobalBudgetCapHit" []) none
      ((observed, none) ∷ []) ledger refl

budget_handle-balance_example :
    balance 1 (handle json "out of range" observed none ledger).0
    ≡ total 1 (handle json "out of range" observed none ledger).0
unfolding balance latest total ◌+ℤ◌
budget_handle-balance_example =
    budget_handle-balance json "out of range" observed none ledger 1 refl refl

late_entry_lost_example :
    (balance 1 (insert_ledger "out of range" (a_draft 3 (pos 50)) none ledger).0 ≡ balance 1 ledger)
    × (total 1 (insert_ledger "out of range" (a_draft 3 (pos 50)) none ledger).0
        ≡ total 1 ledger +ℤ pos 50)
unfolding balance latest ◌+ℤ◌
late_entry_lost_example =
    late_entry_lost "out of range" (a_draft 3 (pos 50)) ledger (an_entry 5 (pos 100) (pos 100)) refl
      refl refl refl
