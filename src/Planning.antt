-- ===== src/Planning.antt =====
-- The planner's port, crates/openclaw-orchestrator/src/domain/planner.rs, and the service of
-- app/planner.rs. What a planner answers, and the JSON of a proposal (`serde_json::to_value`), are
-- inputs.
pub mod Service
pub mod Requested
use openclaw_rs.Base.{ℕ, String, Option, List}
use openclaw_rs.Base.Int.{ℤ}
use openclaw_rs.Errors.{Result}
use openclaw_rs.Payload.{Uuid, Time}
use openclaw_rs.Wire.{Wire}
use Prim.Native.String.{◌++◌}

pub data PlanError : Type 0 where
  not_found : (entity id : String) → PlanError
  generation_failed context_error : String → PlanError
  timeout : (elapsed_secs : ℕ) → PlanError

pub record ArtifactRef : Type 0 where
  pub kind : String
  pub hash : String

pub record CycleSummary : Type 0 where
  pub cycle_id : Uuid
  pub outcome : String
  pub summary : String

pub record FileContext : Type 0 where
  pub path : String
  pub content_preview : String

pub record CommitSummary : Type 0 where
  pub sha : String
  pub message : String
  pub author : String

pub record RepoContext : Type 0 where
  pub file_tree_summary : String
  pub recent_commits : List CommitSummary
  pub relevant_files : List FileContext

pub record PlanConstraints : Type 0 where
  pub max_tasks : ℕ
  pub max_concurrent : ℕ
  pub budget_remaining : ℤ
  pub forbidden_paths : List String

pub record PlanningContext : Type 0 where
  pub cycle_id : Uuid
  pub project_id : Uuid
  pub objective : String
  pub repo_context : RepoContext
  pub constraints : PlanConstraints
  pub previous_cycle_summary : Option CycleSummary
  pub context_hash : String

pub record TaskScope : Type 0 where
  pub target_paths : List String
  pub read_only_paths : List String

pub record TaskProposal : Type 0 where
  pub task_key : String
  pub title : String
  pub description : String
  pub acceptance_criteria : List String
  pub dependencies : List String
  pub estimated_tokens : Option ℕ
  pub scope : Option TaskScope

-- `temperature` is the 32 bits of an `f32`.
pub record PlanMetadata : Type 0 where
  pub model_id : String
  pub prompt_hash : String
  pub context_hash : String
  pub temperature : ℕ
  pub generated_at : Time

pub record PlanProposal : Type 0 where
  pub tasks : List TaskProposal
  pub summary : String
  pub reasoning_ref : Option ArtifactRef
  pub estimated_cost : ℤ
  pub metadata : PlanMetadata

-- The operation of the port that the service calls.
abbrev pub Planner : Type 0
Planner = PlanningContext → Result PlanError PlanProposal

-- `Display` of `PlanError`.
unfoldable pub show_plan_error : {V : Type 0} → Wire V → PlanError → String
show_plan_error W (not_found entity id) = entity ++ " not found: " ++ id
show_plan_error W (generation_failed message) = "plan generation failed: " ++ message
show_plan_error W (context_error message) = "context error: " ++ message
show_plan_error W (timeout elapsed_secs) =
    "plan generation timed out after " ++ W.show_nat elapsed_secs ++ "s"

unfoldable pub category : PlanError → String
category (not_found entity id) = "NotFound"
category (generation_failed message) = "GenerationFailed"
category (context_error message) = "ContextError"
category (timeout elapsed_secs) = "Timeout"
