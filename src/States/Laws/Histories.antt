-- ===== src/States/Laws/Histories.antt =====
-- Sequences of triggers that `transition` accepts one after the other.
use openclaw_rs.Base.{ℕ, ◌+◌, ◌≤◌, ◌≡◌, List, [], ◌∷◌, arith}
use openclaw_rs.Errors.{Result, ok, DomainError, ◌>>=◌, >>=-eq-ok}
use openclaw_rs.States.Debug.{Debug}
use openclaw_rs.States.Task
use openclaw_rs.States.Task.{TaskState, TaskTrigger}
use openclaw_rs.States.Merge
use openclaw_rs.States.Merge.{MergeState, MergeTrigger}

module _ {S T : Type 0} (step : S → T → Result DomainError S) where
  unfoldable pub drive : S → List T → Result DomainError S
  drive s [] = ok s
  drive s (t ∷ ts) = step s t >>= λ s'. drive s' ts

abbrev pub sum_of {ℓ} : {T : Type ℓ} → (T → ℕ) → List T → ℕ
sum_of f [] = 0
sum_of f (t ∷ ts) = f t + sum_of f ts

module _ {S T : Type 0} (step : S → T → Result DomainError S) (lo hi : S → ℕ)
    (up down : T → ℕ) where
  -- If each accepted trigger keeps both comparisons, so does the whole sequence.
  drive_balance :
      ((s : S) (t : T) (s' : S)
        → step s t ≡ ok s'
        → (up t + lo s ≤ down t + lo s') × (down t + hi s' ≤ up t + hi s))
      → (ts : List T) (s s' : S) → drive step s ts ≡ ok s'
      → (sum_of up ts + lo s ≤ sum_of down ts + lo s')
        × (sum_of down ts + hi s' ≤ sum_of up ts + hi s)
  unfolding drive ◌>>=◌
  drive_balance one [] s s' h = ground arith
  drive_balance one (t ∷ ts) s s' h =
      let (m, first, rest) = >>=-eq-ok (step s t) (λ m. drive step m ts) s' h in
      omega (arith, one s t m first, drive_balance one ts m s' rest)

-- The claims and the retries among the triggers of a task.
abbrev pub is_claim : TaskTrigger → ℕ
is_claim (TaskTrigger.claim _ _) = 1
is_claim _ = 0

abbrev pub is_retry : TaskTrigger → ℕ
is_retry TaskTrigger.retry_scheduled = 1
is_retry _ = 0

abbrev at_most : TaskState → ℕ
at_most TaskState.scheduled = 0
at_most _ = 1

abbrev at_least : TaskState → ℕ
at_least TaskState.scheduled = 0
at_least (TaskState.cancelled _) = 0
at_least (TaskState.skipped _) = 0
at_least _ = 1

task_step :
    (d : Debug TaskState TaskTrigger) (s : TaskState) (t : TaskTrigger) (s' : TaskState)
    → Task.transition d s t ≡ ok s'
    → (is_claim t + at_most s ≤ is_retry t + at_most s')
      × (is_retry t + at_least s' ≤ is_claim t + at_least s)
unfolding Task.transition
task_step d s t s' h = ground arith

-- A task ended by its runs: passed or failed.
abbrev pub IsDecided : TaskState → Type 0
IsDecided (TaskState.passed _) = Unit
IsDecided (TaskState.failed _ _) = Unit
IsDecided _ = ⊥

-- A task that starts as scheduled and, by triggers that it all accepts, ends as passed or failed has
-- been claimed exactly once more than it has been retried.
pub claims-retries :
    (d : Debug TaskState TaskTrigger) (ts : List TaskTrigger) (s : TaskState)
    → drive (Task.transition d) TaskState.scheduled ts ≡ ok s
    → IsDecided s
    → sum_of is_claim ts ≡ sum_of is_retry ts + 1
claims-retries d ts s h decided =
    let both =
      drive_balance (Task.transition d) at_most at_least is_claim is_retry (task_step d) ts
        TaskState.scheduled s h in
    ground (arith, both)

-- The attempts of a merge, and what sends it back for another.
abbrev pub is_attempt : MergeTrigger → ℕ
is_attempt MergeTrigger.attempt = 1
is_attempt _ = 0

abbrev pub is_setback : MergeTrigger → ℕ
is_setback (MergeTrigger.conflict _) = 1
is_setback (MergeTrigger.fail_transient _) = 1
is_setback _ = 0

abbrev tried : MergeState → ℕ
tried MergeState.attempted = 1
tried MergeState.succeeded = 1
tried (MergeState.failed_permanent _) = 1
tried _ = 0

merge_step :
    (d : Debug MergeState MergeTrigger) (s : MergeState) (t : MergeTrigger) (s' : MergeState)
    → Merge.transition d s t ≡ ok s'
    → (is_attempt t + tried s ≤ is_setback t + tried s')
      × (is_setback t + tried s' ≤ is_attempt t + tried s)
unfolding Merge.transition
merge_step d s t s' h = ground arith

-- A pending merge that ends as succeeded has been attempted once more than it has met a conflict or
-- a transient failure.
pub attempts-setbacks :
    (d : Debug MergeState MergeTrigger) (ts : List MergeTrigger)
    → drive (Merge.transition d) MergeState.pending ts ≡ ok MergeState.succeeded
    → sum_of is_attempt ts ≡ sum_of is_setback ts + 1
attempts-setbacks d ts h =
    let both =
      drive_balance (Merge.transition d) tried tried is_attempt is_setback (merge_step d) ts
        MergeState.pending MergeState.succeeded h in
    ground (arith, both)
