-- ===== src/Examples/Checks.antt =====
-- The verifier at the default checks.
use openclaw_rs.Base.{◌≡◌, ◌⊎◌, All}
use mathlib.Core.List.{Memᴰ}
use openclaw_rs.Verifying.{
  CheckConfig, CheckResult, default_rust_checks, run_checks, task_verdict_event,
}
use openclaw_rs.Verifying.Verdict.{Fine, Missed, named, task_verdict_event-run_checks}
use openclaw_rs.Examples.Services.{wire, fresh_at}

abbrev no_tests : CheckConfig → CheckResult
no_tests check = CheckResult.skipped "no tests"

task_verdict_event-run_checks_example :
    ((run_checks no_tests default_rust_checks).results ≡ named no_tests default_rust_checks)
    × ((((task_verdict_event wire
              (fresh_at 3)
              1
              9
              8
              (run_checks no_tests default_rust_checks)).event_type
            ≡ "TaskPassed")
          × All (Fine no_tests) default_rust_checks)
        ⊎ (((task_verdict_event wire
                (fresh_at 3)
                1
                9
                8
                (run_checks no_tests default_rust_checks)).event_type
              ≡ "TaskFailed")
            × ((check : CheckConfig) × Memᴰ check default_rust_checks × Missed no_tests check)))
task_verdict_event-run_checks_example =
    task_verdict_event-run_checks wire (fresh_at 3) 1 9 8 no_tests default_rust_checks
