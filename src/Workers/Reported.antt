-- ===== src/Workers/Reported.antt =====
-- How often a tick of the reconciler reports a run: app/reconciler.rs and the detection of stale claims
-- in app/tick_coordinator.rs.
use openclaw_rs.Base.{
  ℕ, suc, ◌+◌, ◌≤◌, ◌≡◌, refl, sym, ap, ◌∙◌, true, false, some, List, [], ◌∷◌, ◌++◌, if◌then◌else◌,
  Bool-cases, inl, inr, arith,
}
use text.Mathlib.TextPositions.{eq_refl}
use openclaw_rs.Payload.{Uuid, EventEnvelope}
use openclaw_rs.Projection.Run.{RunStatus, RunRow, is}
use openclaw_rs.Wire.{Wire, IsWire, Fresh, envelope, field}
use openclaw_rs.Port.Log.{Records, has_key, Appends, same, more, Appends-has_key, has_key-last}
use openclaw_rs.Port.{EventStore}
use openclaw_rs.Workers.Reconcile.{ActiveRun, abandon_key, build_dead_worker_event}
use openclaw_rs.Workers.Ticks.{StaleClaim, TickInput, build_stale_claim_event, reconciler_tick}
use openclaw_rs.Workers.Dead.{Taken, Stale, dead_names}
use openclaw_rs.Workers.Once.{tick-Step}
use openclaw_rs.Merging.Attempts.{text_is}
use openclaw_rs.Merging.Flight.{found-eq}
use mathlib.Core.Option.{none}
use Prim.Native.String.{◌++◌ as append}

module _ {V : Type 0} (W : Wire V) where
  -- How many events name the run in their payload, of whatever instance, type and key.
  abbrev pub reports : Uuid → List (EventEnvelope V) → ℕ
  reports run_id [] = 0
  reports run_id (e ∷ log) =
      let rest = reports run_id log in
      if text_is W e.payload "run_id" (W.show_uuid run_id) then suc rest else rest

  reports-append :
      (run_id : Uuid) (log : List (EventEnvelope V)) (r : EventEnvelope V)
      → reports run_id (log ++ r ∷ []) ≡ reports run_id log + reports run_id (r ∷ [])
  reports-append run_id [] r = omega arith
  reports-append run_id (e ∷ log) r = ground (arith, reports-append run_id log r)

  -- An event of the instance about a run, under the key of that run.
  abbrev Keyed : Uuid → EventEnvelope V → Type 0
  Keyed i r =
      (r.instance_id ≡ i)
      × ((run_id : Uuid) × (W.text_at r.payload "run_id" ≡ some (W.show_uuid run_id))
          × (r.idempotency_key ≡ some (abandon_key W run_id)))

  -- 1 where the key of the run is used.
  abbrev used : Uuid → Uuid → List (EventEnvelope V) → ℕ
  used i run_id log = if has_key i (some (abandon_key W run_id)) log then 1 else 0

  -- An event that names the run, under a key named after it, has the key of the run.
  named-key :
      (run_id other : Uuid) (r : EventEnvelope V)
      → text_is W r.payload "run_id" (W.show_uuid run_id) ≡ true
      → W.text_at r.payload "run_id" ≡ some (W.show_uuid other)
      → r.idempotency_key ≡ some (abandon_key W other)
      → r.idempotency_key ≡ some (abandon_key W run_id)
  unfolding text_is abandon_key
  named-key run_id other r hit about key =
      let found = found-eq (W.text_at r.payload "run_id") (W.show_uuid run_id) hit in
      key
      ∙ ap (λ x. elim x [ none ↦ none | some t ↦ some (append "reconcile-abandon-" t) ])
          (sym about ∙ found)

  -- An addition never reports a run whose key is used.
  pub Appends-reports :
      (i run_id : Uuid) {a b : List (EventEnvelope V)}
      → Appends (Keyed i) a b
      → reports run_id b + used i run_id a ≤ reports run_id a + used i run_id b
  Appends-reports i run_id (same _) = omega arith
  Appends-reports i run_id {a = a} (more {log = log} r p (own, (other, about, key)) new) =
      let before = Appends-reports i run_id p in
      elim (Bool-cases (text_is W r.payload "run_id" (W.show_uuid run_id))) [
        | inl hit ↦
            let is_key = named-key run_id other r hit about key in
            let unused : has_key i (some (abandon_key W run_id)) log ≡ false =
              rw (← own, ← is_key) new in
            let now : has_key i (some (abandon_key W run_id)) (log ++ r ∷ []) ≡ true =
              has_key-last i (some (abandon_key W run_id)) log r own is_key
                (rw (eq_refl (abandon_key W run_id)) refl) in
            rw (reports-append run_id log r) (ground (arith, before, unused, now, hit))
        | inr missed ↦
            let step : Appends (Keyed i) log (log ++ r ∷ []) =
              more r (same log) (own, (other, about, key)) new in
            let kept = Appends-has_key i (some (abandon_key W run_id)) step in
            rw (reports-append run_id log r)
              (elim (Bool-cases (has_key i (some (abandon_key W run_id)) log)) [
                | inl old ↦ ground (arith, before, missed, old, kept old)
                | inr free ↦ ground (arith, before, missed, free)
              ])
      ]

  module _ (law : IsWire W) where
    dead-Keyed :
        (i : Uuid) (rows : List (RunRow V)) (fresh : Fresh) (run : ActiveRun) (r : EventEnvelope V)
        → Taken i rows run
        → Records (build_dead_worker_event W fresh run) r
        → Keyed i r
    unfolding build_dead_worker_event envelope field
    dead-Keyed i rows fresh run r t h =
        let (own, key) = dead_names W i fresh run in
        (
          h.instance_id ∙ own ∙ t.own,
          (
            run.id,
            rw h.payload (elim (Bool-cases (is run.state RunStatus.claimed)) [
              | inl claimed ↦ rw claimed (law.text_at-object _ "run_id" run.id refl)
              | inr running ↦ rw running (law.text_at-object _ "run_id" run.id refl)
            ]),
            h.idempotency_key ∙ key,
          ),
        )

    late-Keyed :
        (i : Uuid) (rows : List (RunRow V)) (fresh : Fresh) (stale : StaleClaim)
        (r : EventEnvelope V)
        → Stale i rows stale
        → Records (build_stale_claim_event W fresh stale) r
        → Keyed i r
    unfolding build_stale_claim_event envelope field
    late-Keyed i rows fresh stale r t h = (
      h.instance_id ∙ t.own,
      (
        stale.run_id,
        rw h.payload (law.text_at-object _ "run_id" stale.run_id refl),
        h.idempotency_key,
      ),
    )

-- A tick of the reconciler, whatever it meets, adds at most one event that names a run in its payload,
-- of whatever type and key, and none where the instance has an event under the run's key already. So a
-- run that both the reconciler and the detection of stale claims find dead is not reported twice. The
-- condition on the JSON is that a UUID that is written into an object is read back from it.
pub reconciler_tick-once :
    {V : Type 0} (W : Wire V) (E : EventStore V) (o : TickInput V) (i : Uuid) (s : E.State)
    (run_id : Uuid)
    → IsWire W
    → reports W run_id (E.log (reconciler_tick W E o i s).0)
      ≤ reports W run_id (E.log s)
        + (if has_key i (some (abandon_key W run_id)) (E.log s) then 0 else 1)
reconciler_tick-once W E o i s run_id law =
    let grows =
      (tick-Step W i E o (Keyed W i) (dead-Keyed W law i o.runs)
          (late-Keyed W law i o.later_runs)).moves
        s in
    ground (arith, Appends-reports W i run_id grows)
