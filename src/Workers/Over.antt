-- ===== src/Workers/Over.antt =====
-- The reports of the reconciler, app/reconciler.rs, as the run projector of app/run_projector.rs takes
-- them.
use openclaw_rs.Base.{
  ℕ, zero, suc, ap, get_elem?, String, ◌≡◌, refl, Bool, true, false, none, some, List, [], ◌∷◌,
  ◌==◌, ◌&&◌, ◌||◌, arith, Bool-cases, inl, inr, match_str,
}
use mathlib.Core.List.{Memᴰ}
use mathlib.Core.List.Memᴰ
use openclaw_rs.Errors.{ok, ◌>>=◌}
use openclaw_rs.Sql.{update_where, submit, execute}
use openclaw_rs.Payload.{
  Uuid, Serde, uuid_field, value_field, or_missing, from_serde, reason_field, str_field, Time,
}
use openclaw_rs.Projection.Run.{RunStatus, RunRow, is, run_failed, run_abandoned, arms, handle}
use openclaw_rs.Wire.{Item, id, text, field, Wire, Fresh, envelope}
use openclaw_rs.Workers.Reconcile.{ActiveRun, build_dead_worker_event}

-- What the projectors rely on: a UUID, and a text, that is written into an object is read back from it.
pub record Reads (J : Serde) (W : Wire J.Value) : Type 0 where
  pub get_uuid :
      (fields : List (String × Item J.Value)) (key : String) (u : Uuid)
      → field key fields ≡ some (id u)
      → (v : J.Value) × (J.get (W.object fields) key ≡ some v) × (J.to_uuid v ≡ ok u)
  pub get_text :
      (fields : List (String × Item J.Value)) (key : String) (s : String)
      → field key fields ≡ some (text s)
      → (v : J.Value) × (J.get (W.object fields) key ≡ some v) × (J.as_str v ≡ some s)

pub uuid_field-object :
    (J : Serde) (W : Wire J.Value) (key message : String) (fields : List (String × Item J.Value))
    (u : Uuid)
    → Reads J W
    → field key fields ≡ some (id u)
    → uuid_field J key message (W.object fields) ≡ ok u
unfolding uuid_field value_field or_missing from_serde ◌>>=◌
uuid_field-object J W key message fields u reads h =
    let (v, got, is) = reads.get_uuid fields key u h in rw (got, is) refl

pub reason_field-object :
    (J : Serde) (W : Wire J.Value) (key : String) (fields : List (String × Item J.Value))
    (s : String)
    → Reads J W
    → field key fields ≡ some (text s)
    → reason_field J key (W.object fields) ≡ s
unfolding reason_field str_field
reason_field-object J W key fields s reads h =
    let (v, got, is) = reads.get_text fields key s h in rw (reason_field, str_field, got, is) refl

-- An update that takes every row with `bad` out of it leaves none.
update_where-clears :
    {R : Type 0} (test bad : R → Bool) (set : R → R) (rows : List R)
    → ((r : R) → bad r ≡ true → test r ≡ true)
    → ((r : R) → bad (set r) ≡ false)
    → (r : R) → Memᴰ r (update_where test set rows)
    → bad r ≡ false
unfolding update_where
update_where-clears test bad set [] hit out r mem = absurd (Memᴰ.not-nil mem)
update_where-clears test bad set (s ∷ rows) hit out r mem = elim (Memᴰ.cases_cons mem) [
  | inr later ↦ update_where-clears test bad set rows hit out r later
  | inl here ↦ elim (Bool-cases (test s)) [
    | inl taken ↦ rw here (rw taken (out s))
    | inr left ↦ rw here (
        rw left (elim (Bool-cases (bad s)) [
          | inl wrong ↦ absurd (cc (hit s wrong, left))
          | inr fine ↦ fine
        ]))
  ]
]

-- A row that passes the test is set, in its place.
update_where-at :
    {R : Type 0} (test : R → Bool) (set : R → R) (rows : List R) (k : ℕ) (r : R)
    → get_elem? rows k ≡ some r
    → test r ≡ true
    → get_elem? (update_where test set rows) k ≡ some (set r)
unfolding update_where
update_where-at test set [] k r at hit = absurd (cc)
update_where-at test set (s ∷ rows) zero r at hit =
    let same : s ≡ r = ap (λ x. elim x [ none ↦ s | some y ↦ y ]) at in rw same (rw hit refl)
update_where-at test set (s ∷ rows) (suc k) r at hit = update_where-at test set rows k r at hit

-- A row of a run that is over: a claimed one failed, a running one was abandoned, with the reasons of
-- the reconciler, at the time of the report. Nothing else in the row changes.
abbrev pub closed : {V : Type 0} → Time → RunStatus → RunRow V → RunRow V
closed now RunStatus.claimed r = record r {
  state = RunStatus.failed;
  failure_category = some "SpawnFailure";
  finished_at = some now;
}
closed now RunStatus.running r = record r {
  state = RunStatus.abandoned;
  abandon_reason = some "worker not reachable after restart";
  finished_at = some now;
}
closed now s r = r

module _ (J : Serde) (W : Wire J.Value) (reads : Reads J W) (fresh : Fresh) where
  over :
      (run : ActiveRun) (rows : List (RunRow J.Value)) (s : RunStatus) (k : ℕ) (r : RunRow J.Value)
      → run.state ≡ s
      → (is s RunStatus.running || is s RunStatus.claimed) ≡ true
      → get_elem? rows k ≡ some r
      → r.id ≡ run.id
      → r.state ≡ s
      → ((handle J (build_dead_worker_event W fresh run) none rows).1 ≡ ok tt)
        × (get_elem? (handle J (build_dead_worker_event W fresh run) none rows).0 k
            ≡ some (closed fresh.now s r))
        × ((t : RunRow J.Value)
            → Memᴰ t (handle J (build_dead_worker_event W fresh run) none rows).0
            → ((t.id == run.id) && is t.state s) ≡ false)
  unfolding build_dead_worker_event envelope is handle arms match_str submit execute run_failed
      run_abandoned ◌>>=◌ field
  over run rows RunStatus.claimed k r e h at own state = rw e (
      rw
        (
          uuid_field-object J W "run_id" "missing run_id" _ run.id reads refl,
          reason_field-object J W "failure_category" _ "SpawnFailure" reads refl,
        )
        (
          refl,
          update_where-at
              (λ t.
                (t.id == run.id) && (is t.state RunStatus.claimed || is t.state RunStatus.running))
              _ rows k r at (rw (own, state) (ground arith)),
          update_where-clears
              (λ t.
                (t.id == run.id) && (is t.state RunStatus.claimed || is t.state RunStatus.running))
              (λ t. (t.id == run.id) && is t.state RunStatus.claimed) _ rows
              (λ t bad. ground (arith, bad)) (λ t. ground arith),
        ))
  over run rows RunStatus.running k r e h at own state = rw e (
      rw
        (
          uuid_field-object J W "run_id" "missing run_id" _ run.id reads refl,
          reason_field-object J W "reason" _ "worker not reachable after restart" reads refl,
        )
        (
          refl,
          update_where-at (λ t. (t.id == run.id) && is t.state RunStatus.running) _ rows k r at
              (rw (own, state) (ground arith)),
          update_where-clears (λ t. (t.id == run.id) && is t.state RunStatus.running)
              (λ t. (t.id == run.id) && is t.state RunStatus.running) _ rows (λ t bad. bad)
              (λ t. ground arith),
        ))
  over run rows RunStatus.completed k r e h at own state = absurd (cc)
  over run rows RunStatus.failed k r e h at own state = absurd (cc)
  over run rows RunStatus.timed_out k r e h at own state = absurd (cc)
  over run rows RunStatus.cancelled k r e h at own state = absurd (cc)
  over run rows RunStatus.abandoned k r e h at own state = absurd (cc)

-- The report of an active run ends the run when the run projector takes it with no database error: the
-- handler succeeds, and the row of the run that was still in the state in which the reconciler had read
-- it stays in its place and is failed with the category SpawnFailure if it was claimed, and abandoned
-- with the reconciler's reason if it was running, finished at the time of the report and the same in
-- every other column. No row of the run is left in the state that was read. The condition on the JSON
-- is that a UUID and a text that are written into an object are read back from it.
pub reported_run-over :
    (J : Serde) (W : Wire J.Value) (fresh : Fresh) (run : ActiveRun) (rows : List (RunRow J.Value))
    (k : ℕ) (r : RunRow J.Value)
    → Reads J W
    → (is run.state RunStatus.running || is run.state RunStatus.claimed) ≡ true
    → get_elem? rows k ≡ some r
    → r.id ≡ run.id
    → r.state ≡ run.state
    → ((handle J (build_dead_worker_event W fresh run) none rows).1 ≡ ok tt)
      × (get_elem? (handle J (build_dead_worker_event W fresh run) none rows).0 k
          ≡ some (closed fresh.now run.state r))
      × ((t : RunRow J.Value)
          → Memᴰ t (handle J (build_dead_worker_event W fresh run) none rows).0
          → ((t.id == run.id) && is t.state run.state) ≡ false)
reported_run-over J W fresh run rows k r reads active at own state =
    over J W reads fresh run rows run.state k r refl active at own state
