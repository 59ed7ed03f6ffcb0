-- ===== src/Schedule/Eligible.antt =====
-- The tasks that a tick claims.
use openclaw_rs.Base.{
  ℕ, zero, suc, ◌≡◌, refl, true, false, inl, inr, List, [], ◌∷◌, ◌++◌, ◌==◌, ◌&&◌, take, not, arith,
  Bool-cases, if◌then◌else◌, All,
}
use openclaw_rs.Base.Int.{ℤ, pos, leb_ℤ}
use openclaw_rs.Errors.{ok, Holds, Holds-bind, Holds-then}
use openclaw_rs.Payload.{Uuid}
use openclaw_rs.Projection.Cycle.{CycleRow}
use openclaw_rs.Projection.Task.{TaskRow}
use openclaw_rs.Schedule.Rows.{ClaimableTask, ClaimResult, Tables, Outside}
use openclaw_rs.Schedule.Queries.{
  is_scheduled, is_claimable_cycle, join_cycles, join_tasks, insert_by_ordinal, sort_by_ordinal,
  seconds, claimable, to_limit, available, find_capacity,
}
use openclaw_rs.Schedule.{claim_run, claim_all, run_tick, tick}
use openclaw_rs.Schedule.Capacity.{settle_tick-ok}

-- `x` is an entry of the list.
pub data Entry {A : Type 0} (x : A) : List A → Type 0 where
  here : (xs : List A) → Entry x (x ∷ xs)
  there : (y : A) {xs : List A} → Entry x xs → Entry x (y ∷ xs)

module _ {A : Type 0} (P : A → Type 0) where
  All-append : (xs ys : List A) → All P xs → All P ys → All P (xs ++ ys)
  All-append [] ys hs gs = gs
  All-append (x ∷ xs) ys (h, hs) gs = (h, All-append xs ys hs gs)

  All-take : (n : ℕ) (xs : List A) → All P xs → All P (take n xs)
  All-take zero xs hs = tt
  All-take (suc n) [] hs = tt
  All-take (suc n) (x ∷ xs) (h, hs) = (h, All-take n xs hs)

module _ (P : ClaimableTask → Type 0) where
  abbrev Second : ℤ × ClaimableTask → Type 0
  Second p = P p.1

  All-insert :
      (p : ℤ × ClaimableTask) (ps : List (ℤ × ClaimableTask))
      → P p.1
      → All Second ps
      → All Second (insert_by_ordinal p ps)
  unfolding insert_by_ordinal
  All-insert p [] h hs = (h, tt)
  All-insert p (q ∷ ps) h (g, gs) = elim (Bool-cases (leb_ℤ p.0 q.0)) [
    | inl le ↦ rw le (h, (g, gs))
    | inr gt ↦ rw gt (g, All-insert p ps h gs)
  ]

  All-sort : (ps : List (ℤ × ClaimableTask)) → All Second ps → All P (seconds (sort_by_ordinal ps))
  unfolding sort_by_ordinal
  All-sort ps hs = drop (sort_by_ordinal ps) (sort ps hs)
    where
      sort : (ps : List (ℤ × ClaimableTask)) → All Second ps → All Second (sort_by_ordinal ps)
      sort [] hs = tt
      sort (p ∷ ps) (h, hs) = All-insert p (sort_by_ordinal ps) h (sort ps hs)

      drop : (ps : List (ℤ × ClaimableTask)) → All Second ps → All P (seconds ps)
      drop [] hs = tt
      drop (p ∷ ps) (h, hs) = (h, drop ps hs)

module _ {V : Type 0} (o : Outside V) (i : Uuid) (db : Tables V) where
  -- A task of the instance that may be claimed: scheduled, not locked, and its cycle, the one whose id
  -- the task's row has, is a cycle of the instance that is approved or running.
  pub record Free (task_id cycle_id : Uuid) : Type 0 where
    pub task : TaskRow V
    pub cycle : CycleRow V
    pub is_task : Entry task db.tasks
    pub is_cycle : Entry cycle db.cycles
    pub task_id_eq : task.id ≡ task_id
    pub cycle_id_eq : cycle.id ≡ cycle_id
    pub joined : task.cycle_id ≡ cycle.id
    pub owned : task.instance_id ≡ i
    pub cycle_owned : cycle.instance_id ≡ i
    pub scheduled : is_scheduled task.state ≡ true
    pub unlocked : o.is_locked task_id ≡ false
    pub claimable_cycle : is_claimable_cycle cycle.state ≡ true

  abbrev FreeTask : ClaimableTask → Type 0
  FreeTask t = Free t.id t.cycle_id

  join_cycles-Free :
      (t : TaskRow V) (cycles : List (CycleRow V))
      → Entry t db.tasks
      → t.instance_id ≡ i
      → is_scheduled t.state ≡ true
      → o.is_locked t.id ≡ false
      → ((c : CycleRow V) → Entry c cycles → Entry c db.cycles)
      → All (Second FreeTask) (join_cycles i t cycles)
  unfolding join_cycles
  join_cycles-Free t [] is own sch free sub = tt
  join_cycles-Free t (c ∷ cycles) is own sch free sub =
      let rest = join_cycles-Free t cycles is own sch free (λ d e. sub d (there c e)) in
      elim (Bool-cases
        ((c.id == t.cycle_id) && (c.instance_id == t.instance_id) && is_claimable_cycle c.state)) [
          | inr misses ↦ rw misses rest
          | inl fits ↦ rw fits (
            record {
              task = t;
              cycle = c;
              is_task = is;
              is_cycle = sub c (here cycles);
              task_id_eq = refl;
              cycle_id_eq = ground (arith, fits);
              joined = ground (arith, fits);
              owned = own;
              cycle_owned = ground (arith, fits, own);
              scheduled = sch;
              unlocked = free;
              claimable_cycle = ground (arith, fits);
            },
            rest,
          )
        ]

  join_tasks-Free :
      (tasks : List (TaskRow V))
      → ((t : TaskRow V) → Entry t tasks → Entry t db.tasks)
      → All (Second FreeTask) (join_tasks i o.is_locked db.cycles tasks)
  unfolding join_tasks
  join_tasks-Free [] sub = tt
  join_tasks-Free (t ∷ tasks) sub =
      let rest = join_tasks-Free tasks (λ s e. sub s (there t e)) in
      elim (Bool-cases ((t.instance_id == i) && is_scheduled t.state && not (o.is_locked t.id))) [
        | inr misses ↦ rw misses rest
        | inl fits ↦ rw fits (
            All-append (Second FreeTask) (join_cycles i t db.cycles)
              (join_tasks i o.is_locked db.cycles tasks)
              (join_cycles-Free t db.cycles (sub t (here tasks)) (ground (arith, fits))
                (ground (arith, fits)) (ground (arith, fits)) (λ c e. e))
              rest)
      ]

  claimable-Free : (limit : ℤ) → All FreeTask (claimable i o.is_locked limit db)
  unfolding claimable
  claimable-Free limit =
      All-take FreeTask (to_limit limit) _
        (All-sort FreeTask _ (join_tasks-Free db.tasks (λ t e. e)))

  abbrev FreeResult : ClaimResult → Type 0
  FreeResult r = Free r.task_id r.cycle_id

  claim_run-ids :
      (k : ℕ) (task : ClaimableTask) (now : Tables V)
      → Holds
          (λ b. (b.1.task_id ≡ task.id) × (b.1.cycle_id ≡ task.cycle_id))
          (claim_run o i k task now)
  unfolding claim_run
  claim_run-ids k task now = Holds-bind _ _ _ (λ events. (refl, refl))

  claim_all-Free :
      (k : ℕ) (tasks : List ClaimableTask) (now : Tables V) (started : List Uuid)
      → All FreeTask tasks
      → Holds (λ c. All FreeResult c.1) (claim_all o i k tasks now started)
  unfolding claim_all
  claim_all-Free k [] now started hs = tt
  claim_all-Free k (task ∷ tasks) now started (h, hs) = Holds-bind _ _ _ λ u. Holds-bind _ _ _ λ p.
      Holds-then _ _ _ _ (claim_run-ids k task p.0) λ q same.
        Holds-then _ _ _ _ (claim_all-Free (suc k) tasks q.0 p.1 hs)
          λ z done. (rw (same.0, same.1) h, done)

  run_tick-Free : Holds (λ done. All FreeResult done.1) (run_tick o i db)
  unfolding run_tick
  run_tick-Free = Holds-bind _ _ _ λ u.
      Holds-then (λ done. All FreeResult done.1) _ _ _ body
        (λ done good. Holds-bind _ _ _ (λ v. good))
    where
      limit : ℤ
      limit = available (find_capacity i db.capacity)

      body :
          Holds
            (λ done. All FreeResult done.1)
            (if leb_ℤ limit (pos 0)
              then ok (db, [])
              else claim_all o i 0 (claimable i o.is_locked limit db) db [])
      body = elim (Bool-cases (leb_ℤ limit (pos 0))) [
        | inl full ↦ rw full tt
        | inr space ↦
            rw space
              (claim_all-Free 0 (claimable i o.is_locked limit db) db [] (claimable-Free limit))
      ]

  -- Each result of a tick that succeeds is for a task of the instance that was scheduled and not locked
  -- before the tick, and for its cycle: the cycle whose id the task's row has, which was a cycle of the
  -- instance and was approved or running.
  pub tick-Free :
      (results : List ClaimResult) → (tick o i db).1 ≡ ok results → All FreeResult results
  unfolding tick
  tick-Free results is =
      settle_tick-ok o i db (λ done. All FreeResult done.1) (run_tick o i db) results run_tick-Free
        is
