-- ===== src/Verifying.antt =====
-- Verification: crates/openclaw-orchestrator/src/domain/verification.rs and app/verifier.rs. The result of
-- one check, which a command gives, is an input.
pub mod Verdict
use openclaw_rs.Base.{ℕ, String, Bool, true, false, none, List, [], ◌∷◌, ◌++◌, if◌then◌else◌}
use openclaw_rs.Payload.{Uuid, EventEnvelope}
use openclaw_rs.Wire.{Item, id, text, texts, value, Wire, Fresh, envelope}
use Prim.Native.String.{◌++◌ as append}

pub data CheckResult : Type 0 where
  passed : CheckResult
  failed skipped : (reason : String) → CheckResult
  error : (message : String) → CheckResult

pub record CheckConfig : Type 0 where
  pub name : String
  pub command : String
  pub args : List String
  pub timeout_secs : ℕ
  pub required : Bool

pub record VerificationOutcome : Type 0 where
  pub results : List (String × CheckResult)
  pub all_passed : Bool

abbrev pub default_rust_checks : List CheckConfig
default_rust_checks =
    record {
      name = "cargo_check";
      command = "cargo";
      args = "check" ∷ [];
      timeout_secs = 120;
      required = true;
    }
    ∷ record {
      name = "cargo_test";
      command = "cargo";
      args = "test" ∷ [];
      timeout_secs = 300;
      required = true;
    }
    ∷ record {
      name = "cargo_fmt";
      command = "cargo";
      args = "fmt" ∷ "--check" ∷ [];
      timeout_secs = 60;
      required = false;
    }
    ∷ record {
      name = "cargo_clippy";
      command = "cargo";
      args = "clippy" ∷ "--" ∷ "-D" ∷ "warnings" ∷ [];
      timeout_secs = 120;
      required = false;
    }
    ∷ []

-- `all_required_passed` after one check.
unfoldable pub still_passed : Bool → CheckConfig → CheckResult → Bool
still_passed so_far check passed = so_far
still_passed so_far check (failed reason) = if check.required then false else so_far
still_passed so_far check (skipped reason) = if check.required then false else so_far
still_passed so_far check (error message) = if check.required then false else so_far

-- The loop of `run_checks`, with what it has so far.
unfoldable pub check_all :
    (CheckConfig → CheckResult)
    → List (String × CheckResult)
    → Bool
    → List CheckConfig
    → VerificationOutcome
unfolding still_passed
check_all run results so_far [] = record { results = results; all_passed = so_far }
check_all run results so_far (check ∷ checks) =
    check_all run (results ++ (check.name, run check) ∷ []) (still_passed so_far check (run check))
      checks

unfoldable pub run_checks : (CheckConfig → CheckResult) → List CheckConfig → VerificationOutcome
unfolding check_all
run_checks run checks = check_all run [] true checks

-- `!matches!(r, CheckResult::Passed | CheckResult::Skipped { .. })`
unfoldable pub counts_as_failed : CheckResult → Bool
counts_as_failed passed = false
counts_as_failed (skipped reason) = false
counts_as_failed (failed reason) = true
counts_as_failed (error message) = true

unfoldable pub failed_checks : List (String × CheckResult) → List String
unfolding counts_as_failed
failed_checks [] = []
failed_checks ((name, result) ∷ results) =
    let rest = failed_checks results in if counts_as_failed result then name ∷ rest else rest

module _ {V : Type 0} (W : Wire V) where
  -- `to_value` is the JSON that serde gives for a `CheckResult`.
  unfoldable pub verify_result_event :
      (CheckResult → V) → Fresh → (i run_id task_id : Uuid) → String → CheckResult → EventEnvelope V
  unfolding envelope
  verify_result_event to_value fresh i run_id task_id check_name result =
      envelope fresh i "VerifyResult"
        (W.object (
          ("run_id", id run_id)
          ∷ ("task_id", id task_id)
          ∷ ("check_name", text check_name)
          ∷ ("result", value (to_value result))
          ∷ []))
        (append "verify-" (append (W.show_uuid run_id) (append "-" check_name)))

  unfoldable pub task_verdict_event :
      Fresh → (i run_id task_id : Uuid) → VerificationOutcome → EventEnvelope V
  unfolding envelope failed_checks
  task_verdict_event fresh i run_id task_id outcome =
      if outcome.all_passed
      then envelope fresh i "TaskPassed"
          (W.object (("task_id", id task_id) ∷ ("run_id", id run_id) ∷ []))
          (append "task-verdict-" (W.show_uuid run_id))
      else envelope fresh i "TaskFailed"
          (W.object (
            ("task_id", id task_id)
            ∷ ("run_id", id run_id)
            ∷ ("failed_checks", texts (failed_checks outcome.results))
            ∷ ("failure_category", text "Transient")
            ∷ []))
          (append "task-verdict-" (W.show_uuid run_id))
