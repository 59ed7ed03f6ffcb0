-- ===== src/Merging.antt =====
-- Merges of task branches: crates/openclaw-orchestrator/src/app/merge_service.rs, over the port
-- `GitProvider` of domain/git.rs. What git answers is an input; the wait between two attempts, which
-- nothing can see, is left out.
pub mod Cycle
pub mod Attempts
pub mod Retry
pub mod Guards
pub mod Flight
use openclaw_rs.Base.{
  ℕ, zero, suc, ◌+◌, ◌%◌, ◌^◌, String, Bool, true, false, Option, none, some, List, [], ◌∷◌, ◌==◌,
  ◌&&◌, ◌||◌, if◌then◌else◌, any, not, str_eq, leb, length,
}
use openclaw_rs.Base.Int.{ℤ}
use openclaw_rs.Errors.{
  Result, ok, err, AppError, domain, precondition, infra, io, database, concurrency_conflict,
}
use openclaw_rs.Sql.{Fault}
use openclaw_rs.Payload.{Uuid, EventEnvelope}
use openclaw_rs.Projection.Instance.{InstanceRow}
use openclaw_rs.Workers.Ticks.{state_of}
use openclaw_rs.Act.{Act, return, fail, query, ◌>>=◌}
use openclaw_rs.Wire.{Item, id, text, number, texts, actor, Wire, Fresh, envelope}
use openclaw_rs.Port.{EventStore, emit_event}
use Prim.Native.String.{◌++◌}
use package.text.Mathlib.Text.{find?}

pub data MergeResult : Type 0 where
  success : (merge_sha : String) → MergeResult
  conflict : (conflicting_files : List String) → MergeResult
  failed : String → MergeResult

pub record DiffStat : Type 0 where
  pub files_changed : ℕ
  pub insertions : ℕ
  pub deletions : ℕ

pub data GitError : Type 0 where
  command_failed : (command stderr : String) (exit_code : Option ℤ) → GitError
  io_error worktree_exists not_a_repository : String → GitError

-- The answers to the two operations that the service calls, in each attempt.
pub record GitProvider : Type 0 where
  pub merge : ℕ → (repo_path source_branch target_branch : String) → Result GitError MergeResult
  pub diff_stat : ℕ → (repo_path base head : String) → Result GitError DiffStat

pub record MergeParams : Type 0 where
  pub task_id : Uuid
  pub run_id : Uuid
  pub instance_id : Uuid
  pub cycle_id : Uuid
  pub repo_path : String
  pub source_branch : String
  pub target_branch : String

pub data MergeOutcome : Type 0 where
  succeeded : (merge_sha : String) → DiffStat → MergeOutcome
  conflicted : (conflicting_files : List String) (conflict_count : ℕ) → MergeOutcome
  failed : (reason : String) (is_transient : Bool) → MergeOutcome

-- The pattern `MergeOutcome::Failed { is_transient: true, .. }`.
abbrev pub retryable : MergeOutcome → Bool
retryable (MergeOutcome.failed reason is_transient) = is_transient
retryable (succeeded merge_sha diff) = false
retryable (conflicted files count) = false

unfoldable pub contains : String → String → Bool
contains s piece = elim (find? s piece) [ none ↦ false | some n ↦ true ]

module _ {V : Type 0} (W : Wire V) where
  -- `Display` of `GitError`.
  unfoldable pub show_git : GitError → String
  show_git (command_failed command stderr exit_code) =
      "git command failed: "
      ++ command
      ++ " (exit="
      ++ (elim exit_code [ none ↦ "None" | some n ↦ "Some(" ++ W.show_int n ++ ")" ])
      ++ "): "
      ++ stderr
  show_git (io_error message) = "git IO error: " ++ message
  show_git (worktree_exists path) = "worktree already exists: " ++ path
  show_git (not_a_repository path) = "not a git repository: " ++ path

  unfoldable pub classify_failure_transient : String → Bool
  unfolding contains
  classify_failure_transient reason =
      let lower = W.lower reason in
      contains lower "lock"
      || contains lower "timeout"
      || contains lower "timed out"
      || contains lower "temporary"
      || contains lower "io error"
      || contains lower "connection"
      || contains lower "transient"

  abbrev system : Item V
  system = actor "System" none

  -- "merge-…-{task}-{attempt}"
  abbrev merge_key : String → MergeParams → ℕ → String
  merge_key what p attempt =
      "merge-" ++ what ++ "-" ++ W.show_uuid p.task_id ++ "-" ++ W.show_nat attempt

  unfoldable pub attempted_event : Fresh → MergeParams → ℕ → EventEnvelope V
  unfolding envelope
  attempted_event fresh p attempt =
      envelope fresh p.instance_id "MergeAttempted"
        (W.object (
          ("task_id", id p.task_id)
          ∷ ("run_id", id p.run_id)
          ∷ ("cycle_id", id p.cycle_id)
          ∷ ("source_branch", text p.source_branch)
          ∷ ("target_branch", text p.target_branch)
          ∷ ("attempt", number attempt)
          ∷ ("actor", system)
          ∷ []))
        (merge_key "attempted" p attempt)

  unfoldable pub succeeded_event : Fresh → MergeParams → ℕ → String → DiffStat → EventEnvelope V
  unfolding envelope
  succeeded_event fresh p attempt merge_sha diff =
      envelope fresh p.instance_id "MergeSucceeded"
        (W.object (
          ("task_id", id p.task_id)
          ∷ ("run_id", id p.run_id)
          ∷ ("cycle_id", id p.cycle_id)
          ∷ ("merge_sha", text merge_sha)
          ∷ ("files_changed", number diff.files_changed)
          ∷ ("insertions", number diff.insertions)
          ∷ ("deletions", number diff.deletions)
          ∷ ("actor", system)
          ∷ []))
        (merge_key "succeeded" p attempt)

  unfoldable pub conflicted_event : Fresh → MergeParams → ℕ → List String → ℕ → EventEnvelope V
  unfolding envelope
  conflicted_event fresh p attempt files count =
      envelope fresh p.instance_id "MergeConflicted"
        (W.object (
          ("task_id", id p.task_id)
          ∷ ("run_id", id p.run_id)
          ∷ ("cycle_id", id p.cycle_id)
          ∷ ("conflicting_files", texts files)
          ∷ ("conflict_count", number count)
          ∷ ("actor", system)
          ∷ []))
        (merge_key "conflicted" p attempt)

  unfoldable pub failed_event : Fresh → MergeParams → ℕ → String → Bool → EventEnvelope V
  unfolding envelope
  failed_event fresh p attempt reason is_transient =
      envelope fresh p.instance_id "MergeFailed"
        (W.object (
          ("task_id", id p.task_id)
          ∷ ("run_id", id p.run_id)
          ∷ ("cycle_id", id p.cycle_id)
          ∷ ("failure_category", text (if is_transient then "Transient" else "Permanent"))
          ∷ ("reason", text reason)
          ∷ ("actor", system)
          ∷ []))
        (merge_key "failed" p attempt)
