-- ===== src/Verifying/Verdict.antt =====
-- The verdict of app/verifier.rs: from the checks of a task to the event that it emits.
use openclaw_rs.Base.{
  String, ◌≡◌, ◌≢◌, refl, ◌⊎◌, inl, inr, Bool, true, false, List, [], ◌∷◌, ◌++◌, All, arith,
  if◌then◌else◌, Bool-cases, sym, ap, ◌∙◌,
}
use mathlib.Core.List.{Memᴰ}
use openclaw_rs.Payload.{Uuid}
use openclaw_rs.Wire.{Wire, Fresh, envelope}
use openclaw_rs.Verifying.{
  CheckResult, passed, failed, skipped, error, CheckConfig, still_passed, check_all, run_checks,
  task_verdict_event,
}

module _ (run : CheckConfig → CheckResult) where
  -- A check that has to pass, and did not.
  abbrev pub Missed : CheckConfig → Type 0
  Missed check = (check.required ≡ true) × (run check ≢ passed)

  -- A check that may fail, or passed.
  abbrev pub Fine : CheckConfig → Type 0
  Fine check = (check.required ≡ false) ⊎ (run check ≡ passed)

  differs :
      (check : CheckConfig) (r : CheckResult) → run check ≡ r → r ≢ passed → run check ≢ passed
  differs check r e apart h = apart (sym e ∙ h)

  required-cases :
      (check : CheckConfig) (r : CheckResult)
      → run check ≡ r
      → r ≢ passed
      → (((if check.required then false else true) ≡ true) × Fine check)
        ⊎ (((if check.required then false else true) ≡ false) × Missed check)
  required-cases check r e apart = elim (Bool-cases check.required) [
    | inl must ↦ inr (ground (arith, must), (must, differs check r e apart))
    | inr may ↦ inl (ground (arith, may), inl may)
  ]

  one_check :
      (check : CheckConfig) (r : CheckResult)
      → run check ≡ r
      → ((still_passed true check r ≡ true) × Fine check)
        ⊎ ((still_passed true check r ≡ false) × Missed check)
  unfolding still_passed
  one_check check passed e = inl (refl, inr e)
  one_check check (failed reason) e = required-cases check (failed reason) e (λ h. cc)
  one_check check (skipped reason) e = required-cases check (skipped reason) e (λ h. cc)
  one_check check (error message) e = required-cases check (error message) e (λ h. cc)

  still_false : (check : CheckConfig) (r : CheckResult) → still_passed false check r ≡ false
  unfolding still_passed
  still_false check passed = refl
  still_false check (failed reason) = ground arith
  still_false check (skipped reason) = ground arith
  still_false check (error message) = ground arith

  stays_false :
      (results : List (String × CheckResult)) (checks : List CheckConfig)
      → (check_all run results false checks).all_passed ≡ false
  unfolding check_all
  stays_false results [] = refl
  stays_false results (check ∷ checks) =
      rw (check_all, still_false check (run check))
        (stays_false (results ++ (check.name, run check) ∷ []) checks)

  judged :
      (results : List (String × CheckResult)) (checks : List CheckConfig)
      → (((check_all run results true checks).all_passed ≡ true) × All Fine checks)
        ⊎ (((check_all run results true checks).all_passed ≡ false)
            × ((check : CheckConfig) × Memᴰ check checks × Missed check))
  unfolding check_all
  judged results [] = inl (refl, tt)
  judged results (check ∷ checks) = elim (one_check check (run check) refl) [
    | inr (stop, missed) ↦
        rw (check_all, stop)
          (inr (
            stays_false (results ++ (check.name, run check) ∷ []) checks,
            (check, Memᴰ.head refl, missed),
          ))
    | inl (go, fine) ↦
        rw (check_all, go)
          (elim (judged (results ++ (check.name, run check) ∷ []) checks) [
            | inl (all, fines) ↦ inl (all, (fine, fines))
            | inr (some_not, (bad, mem, missed)) ↦ inr (some_not, (bad, Memᴰ.tail mem, missed))
          ])
  ]

  abbrev pub named : List CheckConfig → List (String × CheckResult)
  named [] = []
  named (check ∷ checks) = (check.name, run check) ∷ named checks

  append-last :
      {A : Type 0} (xs : List A) (y : A) (ys : List A) → (xs ++ y ∷ []) ++ ys ≡ xs ++ y ∷ ys
  append-last [] y ys = refl
  append-last (x ∷ xs) y ys = ap (λ zs. x ∷ zs) (append-last xs y ys)

  append-nil : {A : Type 0} (xs : List A) → xs ++ [] ≡ xs
  append-nil [] = refl
  append-nil (x ∷ xs) = ap (λ zs. x ∷ zs) (append-nil xs)

  check_all-results :
      (results : List (String × CheckResult)) (b : Bool) (checks : List CheckConfig)
      → (check_all run results b checks).results ≡ results ++ named checks
  unfolding check_all
  check_all-results results b [] = sym (append-nil results)
  check_all-results results b (check ∷ checks) =
      check_all-results (results ++ (check.name, run check) ∷ []) (still_passed b check (run check))
        checks
      ∙ append-last results (check.name, run check) (named checks)

-- `run_checks` gives each check's result under the check's name, in order, and the verdict on its
-- outcome is TaskPassed where every required check passed, and TaskFailed where there is a required
-- check that did not pass, one that was skipped included. Whatever advisory checks give, they have no
-- part in it.
pub task_verdict_event-run_checks :
    {V : Type 0} (W : Wire V) (fresh : Fresh) (i run_id task_id : Uuid)
    (run : CheckConfig → CheckResult) (checks : List CheckConfig)
    → ((run_checks run checks).results ≡ named run checks)
      × ((((task_verdict_event W fresh i run_id task_id (run_checks run checks)).event_type
              ≡ "TaskPassed")
            × All (Fine run) checks)
          ⊎ (((task_verdict_event W fresh i run_id task_id (run_checks run checks)).event_type
                ≡ "TaskFailed")
              × ((check : CheckConfig) × Memᴰ check checks × Missed run check)))
unfolding run_checks task_verdict_event envelope
task_verdict_event-run_checks W fresh i run_id task_id run checks = (
  check_all-results run [] true checks,
  elim (judged run [] checks) [
    | inl (all, fines) ↦ inl (rw all refl, fines)
    | inr (some_not, missed) ↦ inr (rw some_not refl, missed)
  ],
)
