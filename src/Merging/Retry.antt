-- ===== src/Merging/Retry.antt =====
-- The loop of `attempt_merge_with_retry` of app/merge_service.rs: that it ends, and how.
use openclaw_rs.Base.{
  ℕ, zero, suc, ◌+◌, ◌%◌, ◌^◌, ◌≤◌, ◌<◌, ◌≡◌, refl, sym, ap, subst, true, Option, none, some, ◌&&◌,
  leb, if◌then◌else◌, length, arith, Bool-cases, inl, inr,
}
use openclaw_rs.Errors.{Result, ok, err, AppError}
use openclaw_rs.Act.{Act, >>=-eq-ok, then_return-eq-ok, return, fail, continue, ◌>>=◌}
use openclaw_rs.Wire.{Wire}
use openclaw_rs.Port.{EventStore, emit_event}
use openclaw_rs.Merging.{
  MergeResult, GitError, MergeParams, MergeOutcome, succeeded, conflicted, attempted_event,
  succeeded_event, conflicted_event, failed_event, retryable, classify_failure_transient,
}
use openclaw_rs.Merging.Attempts.{
  MergeInput, diff_or_zero, from_git, conclude, attempt_merge_core, retry, check_guards,
  attempt_merge_with_retry,
}

module _ {V : Type 0} (W : Wire V) (o : MergeInput V) (p : MergeParams) where
  abbrev concluded : ℕ → MergeResult → MergeOutcome
  concluded k (MergeResult.success merge_sha) =
      succeeded merge_sha
        (diff_or_zero (o.git.diff_stat k p.repo_path p.target_branch p.source_branch))
  concluded k (MergeResult.conflict files) = conflicted files (length files % 2 ^ 32)
  concluded k (MergeResult.failed reason) =
      MergeOutcome.failed reason (classify_failure_transient W reason)

  abbrev answered : ℕ → Result GitError MergeResult → Option MergeOutcome
  answered k (ok result) = some (concluded k result)
  answered k (err e) = none

  -- What git alone makes of an attempt.
  abbrev pub outcome_of : ℕ → Option MergeOutcome
  outcome_of k = answered k (o.git.merge k p.repo_path p.source_branch p.target_branch)

  -- Attempt `k` was a transient failure.
  abbrev pub Transient : ℕ → Type 0
  Transient k =
      (outcome : MergeOutcome) × (outcome_of k ≡ some outcome) × (retryable outcome ≡ true)

  -- The outcome is that of the attempt `last`, after transient failures only; if it is one too, there
  -- were `max_retries` retries.
  pub record Settled (first max_retries : ℕ) (outcome : MergeOutcome) : Type 0 where
    pub last : ℕ
    pub from : first ≤ last
    pub bound : last ≤ suc max_retries
    pub ends : outcome_of last ≡ some outcome
    pub before : (k : ℕ) → first ≤ k → k < last → Transient k
    pub gives_up : retryable outcome ≡ true → last ≡ suc max_retries

  abbrev pub Finished : (first max_retries : ℕ) → Result AppError (Option MergeOutcome) → Type 0
  Finished first max_retries (ok (some outcome)) = Settled first max_retries outcome
  Finished first max_retries (ok none) = ⊥
  Finished first max_retries (err x) = Unit

  earlier :
      (first max_retries : ℕ) (r : Result AppError (Option MergeOutcome))
      → Transient first
      → Finished (suc first) max_retries r
      → Finished first max_retries r
  earlier first m (ok none) t h = h
  earlier first m (err x) t h = tt
  earlier first m (ok (some outcome)) t h = record {
    last = h.last;
    from = omega (arith, h.from);
    bound = h.bound;
    ends = h.ends;
    before = λ k low high. elim (Bool-cases (leb (suc first) k)) [
      | inl later ↦ h.before k (ground (arith, later)) high
      | inr now ↦ subst Transient (ground (arith, now, low)) t
    ];
    gives_up = h.gives_up;
  }

  module _ (E : EventStore V) where
    conclude-ok :
        (k : ℕ) (result : MergeResult) (s : E.State) (outcome : MergeOutcome)
        → (conclude W E o p k result s).1 ≡ ok outcome
        → outcome ≡ concluded k result
    unfolding conclude
    conclude-ok k (MergeResult.success sha) s outcome h =
        (then_return-eq-ok
          (emit_event E W "emit MergeSucceeded: " (
            succeeded_event W (o.fresh k 1) p k sha
              (diff_or_zero (o.git.diff_stat k p.repo_path p.target_branch p.source_branch))))
          (concluded k (MergeResult.success sha)) outcome s h).1
    conclude-ok k (MergeResult.conflict files) s outcome h =
        (then_return-eq-ok
          (emit_event E W "emit MergeConflicted: "
            (conflicted_event W (o.fresh k 1) p k files (length files % 2 ^ 32)))
          (concluded k (MergeResult.conflict files)) outcome s h).1
    conclude-ok k (MergeResult.failed reason) s outcome h =
        (then_return-eq-ok
          (emit_event E W "emit MergeFailed: "
            (failed_event W (o.fresh k 1) p k reason (classify_failure_transient W reason)))
          (concluded k (MergeResult.failed reason)) outcome s h).1

    git-ok :
        (k : ℕ) (r : Result GitError MergeResult) (s : E.State) (outcome : MergeOutcome)
        → ((from_git W r >>= λ result. conclude W E o p k result) s).1 ≡ ok outcome
        → answered k r ≡ some outcome
    unfolding from_git return fail continue ◌>>=◌
    git-ok k (ok result) s outcome h = ap some (sym (conclude-ok k result s outcome h))
    git-ok k (err e) s outcome h = absurd (cc)

    core-ok :
        (k : ℕ) (s : E.State) (outcome : MergeOutcome)
        → (attempt_merge_core W E o p k s).1 ≡ ok outcome
        → outcome_of k ≡ some outcome
    unfolding attempt_merge_core
    core-ok k s outcome h =
        let attempted =
          emit_event E W "emit MergeAttempted: " (attempted_event W (o.fresh k 0) p k) in
        let answer = o.git.merge k p.repo_path p.source_branch p.target_branch in
        let c =
          >>=-eq-ok attempted (λ u. from_git W answer >>= λ result. conclude W E o p k result) s
            outcome h in
        git-ok k answer c.middle outcome c.second

    abbrev next : ℕ → ℕ → ℕ → MergeOutcome → Act E.State (Option MergeOutcome)
    next max_retries fuel attempt outcome =
        if retryable outcome && leb attempt max_retries
        then retry W E o p max_retries fuel ((attempt + 1) % 2 ^ 32)
        else return (some outcome)

    -- An attempt of the loop, by what the rest of the loop does.
    step :
        (m fuel attempt : ℕ) (s : E.State) (q : E.State × Result AppError MergeOutcome)
        → attempt_merge_core W E o p attempt s ≡ q
        → suc m < 2 ^ 32
        → attempt ≤ suc m
        → ((t : E.State)
            → suc attempt ≤ suc m
            → Finished (suc attempt) m (retry W E o p m fuel (suc attempt) t).1)
        → Finished attempt m (continue (next m fuel attempt) q).1
    unfolding continue return
    step m fuel attempt s (t, err x) e small low rest = tt
    step m fuel attempt s (t, ok outcome) e small low rest =
        let ends = core-ok attempt s outcome (rw e refl) in
        elim (Bool-cases (retryable outcome && leb attempt m)) [
          | inl again ↦
              let wraps : (attempt + 1) % 2 ^ 32 ≡ suc attempt = ground (arith, small, again) in
              rw (again, wraps)
                (earlier attempt m _ (outcome, ends, ground (arith, again))
                  (rest t (ground (arith, again))))
          | inr stop ↦ rw stop (record {
            last = attempt;
            from = omega arith;
            bound = low;
            ends = ends;
            before = λ k le lt. absurd (omega (arith, le, lt));
            gives_up = λ still. ground (arith, still, stop, low);
          })
        ]

    pub loop :
        (m fuel attempt : ℕ) (s : E.State)
        → suc m < 2 ^ 32
        → attempt ≤ suc m
        → suc (suc m) ≤ fuel + attempt
        → Finished attempt m (retry W E o p m fuel attempt s).1
    unfolding retry ◌>>=◌
    loop m zero attempt s small low enough = absurd (omega (arith, low, enough))
    loop m (suc fuel) attempt s small low enough =
        step m fuel attempt s (attempt_merge_core W E o p attempt s) refl small low
          (λ t more. loop m fuel (suc attempt) t small more (omega (arith, enough)))

    guarded :
        (m fuel : ℕ) (q : E.State × Result AppError (Unit {0}))
        → suc m < 2 ^ 32
        → suc m ≤ fuel
        → Finished 1 m (continue (λ u. retry W E o p m fuel 1) q).1
    unfolding continue
    guarded m fuel (t, err x) small enough = tt
    guarded m fuel (t, ok u) small enough =
        loop m fuel 1 t small (omega arith) (omega (arith, enough))

-- With max_retries below 2^32 - 1 the retrying merge ends: max_retries + 1 rounds of its loop are
-- enough, so the fuel is never spent. Its outcome, if there is one, is what git made of one attempt
-- k between 1 and max_retries + 1; every attempt before k was a transient failure; and if the outcome
-- is a transient failure too, k is max_retries + 1. Git, the tables, the database's answers and the
-- event store are arbitrary.
pub attempt_merge_with_retry-Finished :
    {V : Type 0} (W : Wire V) (E : EventStore V) (o : MergeInput V) (p : MergeParams)
    (max_retries fuel : ℕ) (s : E.State)
    → suc max_retries < 2 ^ 32
    → suc max_retries ≤ fuel
    → Finished W o p 1 max_retries (attempt_merge_with_retry W E o p max_retries fuel s).1
unfolding attempt_merge_with_retry ◌>>=◌
attempt_merge_with_retry-Finished W E o p max_retries fuel s small enough =
    guarded W o p E max_retries fuel (check_guards W E o p s) small enough
