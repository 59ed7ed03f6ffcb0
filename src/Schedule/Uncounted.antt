-- ===== src/Schedule/Uncounted.antt =====
-- An instance that has no row in `orch_server_capacity`.
use openclaw_rs.Base.{
  ℕ, suc, ◌≤◌, ◌≡◌, refl, ap, ◌∙◌, inl, inr, none, List, [], ◌∷◌, ◌==◌, length, arith, Bool-cases,
  if◌then◌else◌,
}
use openclaw_rs.Base.Int.{pos, leb_ℤ, ◌-ℤ◌}
use openclaw_rs.Errors.{ok, Holds, Holds-map, Holds-bind, Holds-then}
use openclaw_rs.Sql.{update_where}
use openclaw_rs.Payload.{Uuid}
use openclaw_rs.Schedule.Rows.{CapacityRow, ClaimableTask, ClaimResult, Tables, Outside}
use openclaw_rs.Schedule.Queries.{find_capacity, available, count_run, claimable}
use openclaw_rs.Schedule.{claim_all, run_tick, tick}
use openclaw_rs.Schedule.Capacity.{
  start_cycle-capacity, claim_run-capacity, claimable-length, settle_tick-ok,
}

count_run-none :
    (i : Uuid) (rows : List CapacityRow)
    → find_capacity i rows ≡ none
    → find_capacity i (count_run i rows) ≡ none
unfolding find_capacity count_run update_where
count_run-none i [] h = refl
count_run-none i (c ∷ rows) h = elim (Bool-cases (c.instance_id == i)) [
  | inl own ↦ absurd (cc)
  | inr other ↦ rw (other, other) (count_run-none i rows (cc (h, other)))
]

module _ {V : Type 0} (o : Outside V) (i : Uuid) where
  abbrev Bare : List ClaimableTask → Tables V × List ClaimResult → Type 0
  Bare tasks c = (length c.1 ≡ length tasks) × (find_capacity i c.0.capacity ≡ none)

  claim_all-Bare :
      (k : ℕ) (tasks : List ClaimableTask) (db : Tables V) (started : List Uuid)
      → find_capacity i db.capacity ≡ none
      → Holds (Bare tasks) (claim_all o i k tasks db started)
  unfolding claim_all
  claim_all-Bare k [] db started h = (refl, h)
  claim_all-Bare k (task ∷ tasks) db started h = Holds-bind _ _ _ λ u.
      Holds-then _ _ _ _ (start_cycle-capacity o i k task db started) λ p same.
        Holds-then _ _ _ _ (claim_run-capacity o i k task p.0) λ q counts.
          Holds-then _ _ _ _
            (claim_all-Bare (suc k) tasks q.0 p.1 (
              ap (find_capacity i) (counts ∙ ap (count_run i) same)
              ∙ count_run-none i db.capacity h))
            λ z done. (omega (arith, done.0), done.1)

  module _ (db : Tables V) where
    abbrev AtMostThree : Tables V × List ClaimResult → Type 0
    AtMostThree done = (length done.1 ≤ 3) × (find_capacity i done.0.capacity ≡ none)

    three : find_capacity i db.capacity ≡ none → available (find_capacity i db.capacity) ≡ pos 3
    unfolding available ◌-ℤ◌
    three h = rw h refl

    run_tick-AtMostThree : find_capacity i db.capacity ≡ none → Holds AtMostThree (run_tick o i db)
    unfolding run_tick
    run_tick-AtMostThree h =
        let limit = three h in
        Holds-bind _ _ _ λ u.
          Holds-then AtMostThree _ _ _ (rw limit body) (λ done good. Holds-bind _ _ _ (λ v. good))
      where
        body : Holds AtMostThree (
            if leb_ℤ (pos 3) (pos 0)
            then ok (db, [])
            else claim_all o i 0 (claimable i o.is_locked (pos 3) db) db [])
        body =
            Holds-map (Bare (claimable i o.is_locked (pos 3) db)) AtMostThree _
              (claim_all-Bare 0 (claimable i o.is_locked (pos 3) db) db [] h)
              (λ c bare. (omega (arith, bare.0, claimable-length o i db (pos 3)), bare.1))

    -- Where the instance has no row that counts its runs, a tick that succeeds claims at most three
    -- tasks, and leaves the instance with no such row.
    pub tick-AtMostThree :
        (results : List ClaimResult)
        → find_capacity i db.capacity ≡ none
        → (tick o i db).1 ≡ ok results
        → (length results ≤ 3) × (find_capacity i (tick o i db).0.capacity ≡ none)
    unfolding tick
    tick-AtMostThree results h is =
        settle_tick-ok o i db AtMostThree (run_tick o i db) results (run_tick-AtMostThree h) is
