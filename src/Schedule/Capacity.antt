-- ===== src/Schedule/Capacity.antt =====
-- The number of runs at work against the row of `orch_server_capacity`.
use openclaw_rs.Base.{
  ℕ, suc, ◌+◌, ◌-◌, ◌^◌, ◌≤◌, ◌<◌, ◌≡◌, refl, sym, ap, ◌∙◌, subst, inl, inr, Option, some, List, [],
  ◌∷◌, ◌==◌, ◌&&◌, any, not, length, length-take_le, arith, Bool-cases, if◌then◌else◌,
}
use openclaw_rs.Base.Int.{ℤ, pos, ◌+ℤ◌, ◌-ℤ◌, leb_ℤ}
use openclaw_rs.Errors.{Result, ok, err, AppError, Holds, Holds-map, Holds-bind, Holds-then}
use openclaw_rs.Sql.{update_where}
use openclaw_rs.Payload.{Uuid}
use openclaw_rs.Schedule.Rows.{CapacityRow, ClaimableTask, ClaimResult, Tables, Outside}
use openclaw_rs.Schedule.Queries.{
  find_capacity, available, count_run, is_approved, claimable, to_limit,
}
use openclaw_rs.Schedule.{start_cycle, claim_run, claim_all, run_tick, settle_tick, tick}

-- The row of the instance has `a` runs at work, of at most `b`.
pub record Counts (i : Uuid) (rows : List CapacityRow) (a b : ℕ) : Type 0 where
  pub row : CapacityRow
  pub found : find_capacity i rows ≡ some row
  pub active : row.active_runs ≡ pos a
  pub most : row.max_concurrent ≡ pos b

-- What `count_run` makes of a row.
abbrev counted : CapacityRow → Option CapacityRow
counted c = some (record c { active_runs = c.active_runs +ℤ pos 1 })

find_capacity-count_run :
    (i : Uuid) (rows : List CapacityRow) (c : CapacityRow)
    → find_capacity i rows ≡ some c
    → find_capacity i (count_run i rows) ≡ counted c
unfolding find_capacity count_run update_where
find_capacity-count_run i [] c h = absurd (cc)
find_capacity-count_run i (s ∷ rows) c h = elim (Bool-cases (s.instance_id == i)) [
  | inl own ↦ let same : s ≡ c = cc (h, own) in rw (own, own) (ap counted same)
  | inr other ↦ rw (other, other) (find_capacity-count_run i rows c (cc (h, other)))
]

Counts-count_run :
    (i : Uuid) (rows : List CapacityRow) (a b : ℕ)
    → Counts i rows a b
    → Counts i (count_run i rows) (suc a) b
unfolding ◌+ℤ◌
Counts-count_run i rows a b c = record {
  row = record c.row { active_runs = c.row.active_runs +ℤ pos 1 };
  found = find_capacity-count_run i rows c.row c.found;
  active = rw (c.active) (ground arith);
  most = c.most;
}

module _ {V : Type 0} (o : Outside V) (i : Uuid) where
  pub start_cycle-capacity :
      (k : ℕ) (task : ClaimableTask) (db : Tables V) (started : List Uuid)
      → Holds (λ a. a.0.capacity ≡ db.capacity) (start_cycle o i k task db started)
  unfolding start_cycle
  start_cycle-capacity k task db started =
      elim (Bool-cases
        (is_approved task.cycle_state && not (any (λ c. c == task.cycle_id) started))) [
          | inl go ↦ rw go (Holds-bind _ _ _ (λ events. refl))
          | inr skip ↦ rw skip refl
        ]

  pub claim_run-capacity :
      (k : ℕ) (task : ClaimableTask) (db : Tables V)
      → Holds (λ b. b.0.capacity ≡ count_run i db.capacity) (claim_run o i k task db)
  unfolding claim_run
  claim_run-capacity k task db = Holds-bind _ _ _ (λ events. refl)

  -- What the loop leaves: a result for each task, and as many more runs at work.
  abbrev Counted : ℕ → ℕ → List ClaimableTask → Tables V × List ClaimResult → Type 0
  Counted a b tasks c = (length c.1 ≡ length tasks) × Counts i c.0.capacity (a + length tasks) b

  claim_all-Counts :
      (k : ℕ) (tasks : List ClaimableTask) (db : Tables V) (started : List Uuid) (a b : ℕ)
      → Counts i db.capacity a b
      → Holds (Counted a b tasks) (claim_all o i k tasks db started)
  unfolding claim_all
  claim_all-Counts k [] db started a b c =
      (refl, subst (λ n. Counts i db.capacity n b) (omega arith) c)
  claim_all-Counts k (task ∷ tasks) db started a b c = Holds-bind _ _ _ λ u.
      Holds-then _ _ _ _ (start_cycle-capacity k task db started) λ p same.
        Holds-then _ _ _ _ (claim_run-capacity k task p.0) λ q counts.
          Holds-then _ _ _ _
            (claim_all-Counts (suc k) tasks q.0 p.1 (suc a) b (
              subst (λ t. Counts i t (suc a) b) (sym (counts ∙ ap (count_run i) same))
                (Counts-count_run i db.capacity a b c)))
            λ z done.
              (omega (arith, done.0), subst (λ n. Counts i z.0.capacity n b) (omega arith) done.1)

available-Counts :
    (i : Uuid) (rows : List CapacityRow) (a b : ℕ)
    → Counts i rows a b
    → a ≤ b
    → b < 2 ^ 31
    → available (find_capacity i rows) ≡ pos (b - a)
unfolding available ◌-ℤ◌
available-Counts i rows a b c le small =
    rw c.found (rw (c.most, c.active) (ground (arith, le, small)))

module _ {V : Type 0} (o : Outside V) (i : Uuid) (db : Tables V) where
  pub claimable-length : (limit : ℤ) → length (claimable i o.is_locked limit db) ≤ to_limit limit
  unfolding claimable
  claimable-length limit = length-take_le (to_limit limit) _

  -- What a tick that is committed leaves.
  abbrev Within : ℕ → ℕ → Tables V × List ClaimResult → Type 0
  Within a b done = Counts i done.0.capacity (a + length done.1) b × (a + length done.1 ≤ b)

  within :
      (a b : ℕ) (tasks : List ClaimableTask) (c : Tables V × List ClaimResult)
      → a ≤ b
      → length tasks ≤ b - a
      → Counted o i a b tasks c
      → Within a b c
  within a b tasks c le few (many, counts) =
      (subst (λ n. Counts i c.0.capacity (a + n) b) (sym many) counts, omega (arith, le, few, many))

  -- The part between the opening and the commit.
  body :
      (a b : ℕ)
      → Counts i db.capacity a b
      → a ≤ b
      → Holds (Within a b) (
          if leb_ℤ (pos (b - a)) (pos 0)
          then ok (db, [])
          else claim_all o i 0 (claimable i o.is_locked (pos (b - a)) db) db [])
  body a b counts le = elim (Bool-cases (leb_ℤ (pos (b - a)) (pos 0))) [
    | inl full ↦
        rw full (subst (λ n. Counts i db.capacity n b) (omega arith) counts, omega (arith, le))
    | inr room ↦ rw room (
        Holds-map (Counted o i a b (claimable i o.is_locked (pos (b - a)) db)) (Within a b) _
          (claim_all-Counts o i 0 (claimable i o.is_locked (pos (b - a)) db) db [] a b counts)
          (λ c counted.
            within a b (claimable i o.is_locked (pos (b - a)) db) c le
              (claimable-length (pos (b - a))) counted))
  ]

  run_tick-Within :
      (a b : ℕ)
      → Counts i db.capacity a b
      → a ≤ b
      → b < 2 ^ 31
      → Holds (Within a b) (run_tick o i db)
  unfolding run_tick
  run_tick-Within a b counts le small =
      let limit = available-Counts i db.capacity a b counts le small in
      Holds-bind _ _ _ λ u.
        Holds-then (Within a b) _ _ _ (rw limit (body a b counts le))
          λ done good. Holds-bind _ _ _ (λ v. good)

  pub settle_tick-ok :
      (P : Tables V × List ClaimResult → Type 0) (r : Result AppError (Tables V × List ClaimResult))
      (results : List ClaimResult)
      → Holds P r
      → (settle_tick db r).1 ≡ ok results
      → P ((settle_tick db r).0, results)
  unfolding settle_tick
  settle_tick-ok P (ok (after, rs)) results h is = subst (λ t. P (after, t)) (cc) h
  settle_tick-ok P (err x) results h is = absurd (cc)

  -- If the row of the instance counts `a` runs at work, of at most `b`, `b` below 2^31, then a tick
  -- that succeeds leaves a row that counts one more for each result, and still no more than `b`.
  pub tick-Counts :
      (a b : ℕ) (results : List ClaimResult)
      → Counts i db.capacity a b
      → a ≤ b
      → b < 2 ^ 31
      → (tick o i db).1 ≡ ok results
      → Counts i (tick o i db).0.capacity (a + length results) b × (a + length results ≤ b)
  unfolding tick
  tick-Counts a b results counts le small is =
      settle_tick-ok (Within a b) (run_tick o i db) results (run_tick-Within a b counts le small) is
