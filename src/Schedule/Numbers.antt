-- ===== src/Schedule/Numbers.antt =====
-- The numbers of the events that a tick writes.
use openclaw_rs.Base.{
  ℕ, suc, ◌+◌, ◌*◌, ◌^◌, ◌≤◌, ◌<◌, ◌≡◌, sym, subst, String, inl, inr, List, [], ◌∷◌, ◌==◌, ◌&&◌,
  ◌||◌, any, not, length, arith, Bool-cases, Option-cases, if◌then◌else◌, ==→eq,
}
use openclaw_rs.Base.Int.{ℤ, pos, leb_ℤ, ◌-ℤ◌}
use openclaw_rs.Errors.{ok, Holds, Holds-bind, Holds-then}
use openclaw_rs.Payload.{Uuid, Time}
use openclaw_rs.Store.Rows.{EventRow}
use openclaw_rs.Store.{next_seq, eqb_ℤ}
use openclaw_rs.Store.Numbering.{
  Numbered, Numbered-next_seq, Numbered-append, Numbered-append_other,
}
use openclaw_rs.Schedule.Rows.{
  CapacityRow, ClaimableTask, ClaimResult, Tables, Outside, wrap_i32, default_max_concurrent,
}
use openclaw_rs.Schedule.Queries.{
  to_limit, available, find_capacity, is_approved, claimable, next_event_seq, insert_plain,
  new_event,
}
use openclaw_rs.Schedule.{start_cycle, claim_run, claim_all, run_tick, tick}
use openclaw_rs.Schedule.Capacity.{claimable-length, settle_tick-ok}

module _ {V : Type 0} (j : Uuid) where
  -- The events of instance `j` are numbered from 1 to some number of at most `n`.
  abbrev UpTo : ℕ → List (EventRow V) → Type 0
  UpTo n events = (m : ℕ) × Numbered j 0 events m × (m ≤ n)

  UpTo-weaken : (n p : ℕ) (events : List (EventRow V)) → n ≤ p → UpTo n events → UpTo p events
  UpTo-weaken n p events le (m, d, few) = (m, d, omega (arith, le, few))

  insert_plain-UpTo :
      (duplicate : String) (n : ℕ) (event_id i : Uuid) (event_type : String) (payload : V)
      (now : Time) (events : List (EventRow V))
      → UpTo n events
      → suc n < 2 ^ 63
      → Holds (UpTo (suc n)) (
          insert_plain duplicate
            (new_event event_id i (next_event_seq i events) event_type payload now)
            events)
  unfolding insert_plain new_event next_event_seq next_seq
  insert_plain-UpTo duplicate n event_id i event_type payload now events (m, d, few) room =
      elim (Bool-cases (
        any
          (λ r.
            (r.event_id == event_id)
            || ((r.instance_id == i) && eqb_ℤ r.seq (next_event_seq i events)))
          events)) [
            | inl clash ↦ rw clash tt
            | inr free ↦ rw free (elim (Bool-cases (i == j)) [
              | inr other ↦ (m, Numbered-append_other _ d other, omega (arith, few))
              | inl mine ↦ (
                suc m,
                Numbered-append _ d mine (
                    subst (λ k. next_seq k events ≡ pos (suc m)) (sym (==→eq i j mine))
                      (Numbered-next_seq d (omega (arith, few, room)))),
                omega (arith, few),
              )
            ])
          ]

  module _ (o : Outside V) (i : Uuid) where
    start_cycle-UpTo :
        (k n : ℕ) (task : ClaimableTask) (db : Tables V) (started : List Uuid)
        → UpTo n db.events
        → suc n < 2 ^ 63
        → Holds (λ a. UpTo (suc n) a.0.events) (start_cycle o i k task db started)
    unfolding start_cycle
    start_cycle-UpTo k n task db started up room =
        elim (Bool-cases
          (is_approved task.cycle_state && not (any (λ c. c == task.cycle_id) started))) [
            | inl go ↦ rw go (
                Holds-then (UpTo (suc n)) _ _ _
                  (insert_plain-UpTo o.duplicate n _ i _ _ o.now db.events up room)
                  (λ events more. more))
            | inr skip ↦ rw skip (UpTo-weaken n (suc n) db.events (omega arith) up)
          ]

    claim_run-UpTo :
        (k n : ℕ) (task : ClaimableTask) (db : Tables V)
        → UpTo n db.events
        → suc n < 2 ^ 63
        → Holds (λ b. UpTo (suc n) b.0.events) (claim_run o i k task db)
    unfolding claim_run
    claim_run-UpTo k n task db up room =
        Holds-then (UpTo (suc n)) _ _ _
          (insert_plain-UpTo o.duplicate n _ i _ _ o.now db.events up room) (λ events more. more)

    claim_all-UpTo :
        (k n : ℕ) (tasks : List ClaimableTask) (db : Tables V) (started : List Uuid)
        → UpTo n db.events
        → n + 2 * length tasks < 2 ^ 63
        → Holds (λ c. UpTo (n + 2 * length c.1) c.0.events) (claim_all o i k tasks db started)
    unfolding claim_all
    claim_all-UpTo k n [] db started up room = UpTo-weaken n (n + 2 * 0) db.events (omega arith) up
    claim_all-UpTo k n (task ∷ tasks) db started up room = Holds-bind _ _ _ λ u.
        Holds-then _ _ _ _ (start_cycle-UpTo k n task db started up (omega (arith, room))) λ p one.
          Holds-then _ _ _ _ (claim_run-UpTo k (suc n) task p.0 one (omega (arith, room))) λ q two.
            Holds-then _ _ _ _
              (claim_all-UpTo (suc k) (suc (suc n)) tasks q.0 p.1 two (omega (arith, room)))
              λ z done. UpTo-weaken _ _ z.0.events (omega arith) done

-- No `i32` is beyond 2^31.
limit_below : (z : ℤ) → to_limit (wrap_i32 z) < 2 ^ 31
limit_below z = ground arith

available-below :
    (i : Uuid) (db : List CapacityRow) → to_limit (available (find_capacity i db)) < 2 ^ 31
unfolding available
available-below i rows = elim (Option-cases (find_capacity i rows)) [
  | inl nothing ↦ rw nothing (limit_below (default_max_concurrent -ℤ pos 0))
  | inr (c, found) ↦ rw found (limit_below (c.max_concurrent -ℤ c.active_runs))
]

module _ {V : Type 0} (o : Outside V) (i j : Uuid) (db : Tables V) where
  abbrev After : ℕ → Tables V × List ClaimResult → Type 0
  After m done = UpTo j (m + 2 * length done.1) done.0.events

  run_tick-UpTo :
      (m : ℕ) → Numbered j 0 db.events m → m + 2 ^ 32 < 2 ^ 63 → Holds (After m) (run_tick o i db)
  unfolding run_tick claimable
  run_tick-UpTo m d room =
      Holds-bind _ _ _
        λ u. Holds-then (After m) _ _ _ body (λ done good. Holds-bind _ _ _ (λ v. good))
    where
      limit : ℤ
      limit = available (find_capacity i db.capacity)

      up : UpTo j m db.events
      up = (m, d, omega arith)

      few : length (claimable i o.is_locked limit db) < 2 ^ 31
      few = omega (arith, available-below i db.capacity, claimable-length o i db limit)

      body : Holds (After m) (
          if leb_ℤ limit (pos 0)
          then ok (db, [])
          else claim_all o i 0 (claimable i o.is_locked limit db) db [])
      body = elim (Bool-cases (leb_ℤ limit (pos 0))) [
        | inl full ↦ rw full (UpTo-weaken j m (m + 2 * 0) db.events (omega arith) up)
        | inr space ↦ rw space (
            claim_all-UpTo j o i 0 m (claimable i o.is_locked limit db) db [] up
              (omega (arith, room, few)))
      ]

  -- If the events of an instance, be it the tick's or another, have the numbers 1 to `m` in the order
  -- of the table, `m` + 2^32 below 2^63, then after a tick that succeeds they have the numbers 1 to
  -- some number of at most `m` and two for each result.
  pub tick-Numbered :
      (m : ℕ) (results : List ClaimResult)
      → Numbered j 0 db.events m
      → m + 2 ^ 32 < 2 ^ 63
      → (tick o i db).1 ≡ ok results
      → (n : ℕ) × Numbered j 0 (tick o i db).0.events n × (n ≤ m + 2 * length results)
  unfolding tick
  tick-Numbered m results d room is =
      settle_tick-ok o i db (After m) (run_tick o i db) results (run_tick-UpTo m d room) is
