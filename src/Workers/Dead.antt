-- ===== src/Workers/Dead.antt =====
-- What the reconciler writes of app/reconciler.rs and app/tick_coordinator.rs: which events it adds.
use openclaw_rs.Base.{
  ◌+◌, String, ◌≡◌, refl, ◌⊎◌, inl, inr, true, some, List, [], ◌∷◌, ◌==◌, ◌&&◌, ◌||◌, All, arith,
  Bool-cases, ◌∙◌, ==→eq, ltb, ◌*◌,
}
use mathlib.Core.List.{Memᴰ}
use openclaw_rs.Payload.{Uuid, Time, EventEnvelope}
use openclaw_rs.Projection.Run.{RunStatus, RunRow, is}
use openclaw_rs.Wire.{Wire, Fresh, envelope}
use openclaw_rs.Port.Log.{Records}
use openclaw_rs.Workers.Reconcile.{ActiveRun, active_runs, abandon_key, build_dead_worker_event}
use openclaw_rs.Workers.Ticks.{
  StaleClaim, TickInput, stale_claims, build_stale_claim_event, claim_timeout_secs,
}

-- A claimed run failed, or a running one was abandoned.
abbrev Ends : RunStatus → String → Type 0
Ends state event_type =
    ((state ≡ RunStatus.claimed) × (event_type ≡ "RunFailed"))
    ⊎ ((state ≡ RunStatus.running) × (event_type ≡ "RunAbandoned"))

-- The event says that the run of the row is over, under the run's own key.
pub record Reports {V : Type 0} (W : Wire V) (i : Uuid) (row : RunRow V) (r : EventEnvelope V)
    : Type 0 where
  pub owner : row.instance_id ≡ i
  pub instance_id : r.instance_id ≡ i
  pub key : r.idempotency_key ≡ some (abandon_key W row.id)
  pub ends : Ends row.state r.event_type

-- One of the rows of the two queries is reported.
abbrev pub ReportsOne : {V : Type 0} → Wire V → TickInput V → Uuid → EventEnvelope V → Type 0
ReportsOne {V} W o i r =
    (row : RunRow V) × (Memᴰ row o.runs ⊎ Memᴰ row o.later_runs) × Reports W i row r

-- A run of the list is a row of the table.
pub record Taken {V : Type 0} (i : Uuid) (rows : List (RunRow V)) (run : ActiveRun) : Type 0 where
  pub row : RunRow V
  pub mem : Memᴰ row rows
  pub owner : row.instance_id ≡ i
  pub own : run.instance_id ≡ i
  pub id : row.id ≡ run.id
  pub state : row.state ≡ run.state
  pub active : (is run.state RunStatus.running || is run.state RunStatus.claimed) ≡ true

Taken-tail :
    {V : Type 0} (i : Uuid) (r : RunRow V) (rows : List (RunRow V)) (runs : List ActiveRun)
    → All (Taken i rows) runs
    → All (Taken i (r ∷ rows)) runs
Taken-tail i r rows [] h = tt
Taken-tail i r rows (run ∷ runs) (t, h) = (
  record {
    row = t.row;
    mem = Memᴰ.tail t.mem;
    owner = t.owner;
    own = t.own;
    id = t.id;
    state = t.state;
    active = t.active;
  },
  Taken-tail i r rows runs h,
)

pub active_runs-Taken :
    {V : Type 0} (i : Uuid) (rows : List (RunRow V)) → All (Taken i rows) (active_runs i rows)
unfolding active_runs
active_runs-Taken i [] = tt
active_runs-Taken i (r ∷ rows) =
    let rest = Taken-tail i r rows (active_runs i rows) (active_runs-Taken i rows) in
    let test =
      (r.instance_id == i) && (is r.state RunStatus.running || is r.state RunStatus.claimed) in
    elim (Bool-cases test) [
      | inr idle ↦ rw idle rest
      | inl hit ↦
          let own : r.instance_id ≡ i = ==→eq r.instance_id i (ground (arith, hit)) in
          let live : (is r.state RunStatus.running || is r.state RunStatus.claimed) ≡ true =
            ground (arith, hit) in
          rw hit (
            record {
              row = r;
              mem = Memᴰ.head refl;
              owner = own;
              own = own;
              id = refl;
              state = refl;
              active = live;
            },
            rest,
          )
    ]

-- A stale claim is a row of the table.
pub record Stale {V : Type 0} (i : Uuid) (rows : List (RunRow V)) (stale : StaleClaim)
    : Type 0 where
  pub row : RunRow V
  pub mem : Memᴰ row rows
  pub owner : row.instance_id ≡ i
  pub own : stale.instance_id ≡ i
  pub id : row.id ≡ stale.run_id
  pub claimed : row.state ≡ RunStatus.claimed

Stale-tail :
    {V : Type 0} (i : Uuid) (r : RunRow V) (rows : List (RunRow V)) (claims : List StaleClaim)
    → All (Stale i rows) claims
    → All (Stale i (r ∷ rows)) claims
Stale-tail i r rows [] h = tt
Stale-tail i r rows (c ∷ claims) (t, h) = (
  record {
    row = t.row;
    mem = Memᴰ.tail t.mem;
    owner = t.owner;
    own = t.own;
    id = t.id;
    claimed = t.claimed;
  },
  Stale-tail i r rows claims h,
)

is-claimed : (s : RunStatus) → is s RunStatus.claimed ≡ true → s ≡ RunStatus.claimed
unfolding is
is-claimed RunStatus.claimed h = refl
is-claimed RunStatus.running h = absurd (cc)
is-claimed RunStatus.completed h = absurd (cc)
is-claimed RunStatus.failed h = absurd (cc)
is-claimed RunStatus.timed_out h = absurd (cc)
is-claimed RunStatus.cancelled h = absurd (cc)
is-claimed RunStatus.abandoned h = absurd (cc)

pub stale_claims-Stale :
    {V : Type 0} (i : Uuid) (now : Time) (rows : List (RunRow V))
    → All (Stale i rows) (stale_claims i now rows)
unfolding stale_claims
stale_claims-Stale i now [] = tt
stale_claims-Stale i now (r ∷ rows) =
    let rest = Stale-tail i r rows (stale_claims i now rows) (stale_claims-Stale i now rows) in
    let test =
      (r.instance_id == i)
      && is r.state RunStatus.claimed
      && ltb (r.started_at + claim_timeout_secs * 1000000) now in
    elim (Bool-cases test) [
      | inr idle ↦ rw idle rest
      | inl hit ↦
          let own : r.instance_id ≡ i = ==→eq r.instance_id i (ground (arith, hit)) in
          let live : is r.state RunStatus.claimed ≡ true = ground (arith, hit) in
          rw hit (
            record {
              row = r;
              mem = Memᴰ.head refl;
              owner = own;
              own = own;
              id = refl;
              claimed = is-claimed r.state live;
            },
            rest,
          )
    ]

module _ {V : Type 0} (W : Wire V) (i : Uuid) where
  -- An event that reports a row of the table.
  abbrev pub ReportsIn : List (RunRow V) → EventEnvelope V → Type 0
  ReportsIn rows r = (row : RunRow V) × Memᴰ row rows × Reports W i row r

  record_of :
      (fresh : Fresh) (run : ActiveRun) (s : RunStatus)
      → run.state ≡ s
      → (is s RunStatus.running || is s RunStatus.claimed) ≡ true
      → ((build_dead_worker_event W fresh run).instance_id ≡ run.instance_id)
        × ((build_dead_worker_event W fresh run).idempotency_key ≡ some (abandon_key W run.id))
        × Ends run.state (build_dead_worker_event W fresh run).event_type
  unfolding build_dead_worker_event envelope is
  record_of fresh run RunStatus.claimed e h = rw e (refl, refl, inl (refl, refl))
  record_of fresh run RunStatus.running e h = rw e (refl, refl, inr (refl, refl))
  record_of fresh run RunStatus.completed e h = absurd (cc)
  record_of fresh run RunStatus.failed e h = absurd (cc)
  record_of fresh run RunStatus.timed_out e h = absurd (cc)
  record_of fresh run RunStatus.cancelled e h = absurd (cc)
  record_of fresh run RunStatus.abandoned e h = absurd (cc)

  -- The event of a run is its instance's, and has the run's key.
  pub dead_names :
      (fresh : Fresh) (run : ActiveRun)
      → ((build_dead_worker_event W fresh run).instance_id ≡ run.instance_id)
        × ((build_dead_worker_event W fresh run).idempotency_key ≡ some (abandon_key W run.id))
  unfolding build_dead_worker_event envelope
  dead_names fresh run = elim (Bool-cases (is run.state RunStatus.claimed)) [
    | inl here ↦ rw here (refl, refl)
    | inr there ↦ rw there (refl, refl)
  ]

  pub dead-ReportsIn :
      (fresh : Fresh) (rows : List (RunRow V)) (run : ActiveRun) (r : EventEnvelope V)
      → Taken i rows run
      → Records (build_dead_worker_event W fresh run) r
      → ReportsIn rows r
  dead-ReportsIn fresh rows run r t h =
      let (own, key, ends) = record_of fresh run run.state refl t.active in
      (
        t.row,
        t.mem,
        record {
          owner = t.owner;
          instance_id = h.instance_id ∙ own ∙ t.own;
          key = rw t.id (h.idempotency_key ∙ key);
          ends = rw (t.state, h.event_type) ends;
        },
      )

  pub Stale-ReportsIn :
      (fresh : Fresh) (rows : List (RunRow V)) (stale : StaleClaim) (r : EventEnvelope V)
      → Stale i rows stale
      → Records (build_stale_claim_event W fresh stale) r
      → ReportsIn rows r
  unfolding build_stale_claim_event envelope
  Stale-ReportsIn fresh rows stale r t h = (
    t.row,
    t.mem,
    record {
      owner = t.owner;
      instance_id = h.instance_id ∙ t.own;
      key = rw t.id h.idempotency_key;
      ends = inl (t.claimed, h.event_type);
    },
  )
