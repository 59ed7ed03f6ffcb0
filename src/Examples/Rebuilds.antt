-- ===== src/Examples/Rebuilds.antt =====
-- A rebuild at concrete tables.
use openclaw_rs.Base.{◌≡◌, refl, ◌⊎◌, inr, none, some, List, [], ◌∷◌, map}
use openclaw_rs.Base.Int.{pos}
use openclaw_rs.Projection.Instance.{InstanceStatus}
use openclaw_rs.Projection.Task.{TaskStatus}
use openclaw_rs.Store as Store
use openclaw_rs.Store.Rows.{EventRow, to_row, from_row}
use openclaw_rs.Maintenance.{Tables, RebuildAnswers, maintenance_row, rebuild_projections}
use openclaw_rs.Maintenance.Projectors.{projectors}
use openclaw_rs.Maintenance.Rebuild.{rebuild_projections-ledger}
use openclaw_rs.Maintenance.Guard.{Maintained, rebuild_projections-guard}
use openclaw_rs.Examples.Fixtures.{Json, json, event, an_instance, a_task, an_entry}
use openclaw_rs.Examples.Services.{wire}

abbrev answers : RebuildAnswers
answers = record {
  begin = none;
  lock = none;
  read = none;
  capacity = none;
  runs = none;
  tasks = none;
  cycles = none;
  commit = none;
  replay = none;
  handle = λ k j. none;
}

abbrev tables : Tables Json
tables = record {
  capacity = [];
  runs = [];
  tasks = a_task TaskStatus.active ∷ [];
  cycles = [];
  instances =
      record (an_instance InstanceStatus.blocked) { block_reason = some "Maintenance" } ∷ [];
  ledger = an_entry 5 (pos 20) (pos 20) ∷ [];
}

-- A cost that is in the ledger already.
abbrev stored : List (EventRow Json)
stored = to_row (event 5 "GlobalBudgetCapHit" []) (pos 1) 0 ∷ []

rebuild_projections-ledger_example :
    (rebuild_projections wire answers (projectors json "overflow") stored 1 tables).0.ledger
    ≡ tables.ledger
unfolding Store.replay from_row to_row
rebuild_projections-ledger_example =
    rebuild_projections-ledger json "overflow" wire answers stored 1 tables (map from_row stored)
      refl (inr refl, tt)

rebuild_projections-guard_example :
    ((rebuild_projections wire answers (projectors json "overflow") stored 1 tables).0 ≡ tables)
    ⊎ Maintained (maintenance_row 1 tables.instances)
rebuild_projections-guard_example =
    rebuild_projections-guard wire answers (projectors json "overflow") stored 1 tables
