-- ===== src/Maintenance/Rebuild.antt =====
-- The rebuild of app/maintenance_service.rs over the projectors of the orchestrator.
use openclaw_rs.Base.{
  ℕ, suc, ◌%◌, ◌^◌, String, ◌≡◌, refl, sym, subst, ◌∙◌, Bool, true, false, Option, none, some, List,
  [], ◌∷◌, if◌then◌else◌, any, str_eq, length, All, ◌⊎◌, inl, inr,
}
use openclaw_rs.Base.Int.{pos}
use openclaw_rs.Errors.{Result, ok, err, DomainError, domain, precondition, not_found, Holds}
use openclaw_rs.Sql.{Fault, Outcome}
use openclaw_rs.Sql.Handlers.{deliver}
use openclaw_rs.Payload.{Uuid, Serde, EventEnvelope}
use openclaw_rs.Projection.Budget.Ledger.{LedgerRow, has_id}
use openclaw_rs.Projection.Budget.Laws.{budget_redelivery}
use openclaw_rs.Store as Store
use openclaw_rs.Store.Rows.{EventRow}
use openclaw_rs.Act.{
  Act, Moves, Moves-return, Moves-fail, Moves-query, Moves-bind, return, fail, query, continue,
  ◌>>=◌,
}
use openclaw_rs.Wire.{Wire}
use openclaw_rs.Maintenance.{
  Tables, Projector, RebuildAnswers, maintenance_row, truncated, commit, run_projector, dispatch,
  replay_events, require_maintenance, from_store, rebuild_from, truncate_projections, open_rebuild,
  rebuild_projections, check_maintenance_mode,
}
use openclaw_rs.Maintenance.Projectors.{
  instance_projector, cycle_projector, task_projector, run_projector_of, budget_projector,
  projectors,
}

module _ (J : Serde) (overflow : String) where
  open J use {Value}

  -- The ledger has the entry of the event, or the event is none of the ledger's.
  abbrev pub Entered : List LedgerRow → EventEnvelope Value → Type 0
  Entered l e =
      (any (λ t. str_eq e.event_type t) (budget_projector J overflow).handles ≡ false)
      ⊎ (has_id e.event_id l ≡ true)

  module _ (l : List LedgerRow) where
    -- A ledger `l` stays.
    abbrev Same : Tables Value → Tables Value → Type 0
    Same a b = a.ledger ≡ l → b.ledger ≡ l

    stay : (s : Tables Value) → Same s s
    stay s h = h

    join : (a b c : Tables Value) → Same a b → Same b c → Same a c
    join a b c p q h = q (p h)

    if-Same :
        (b : Bool) (s : Tables Value) (done : Outcome (Tables Value))
        → Same s done.0
        → Same s (if b then done else (s, ok tt)).0
    if-Same true s done h = h
    if-Same false s done h = λ e. e

    abbrev Leaves : EventEnvelope Value → Projector Value → Type 0
    Leaves e p = (fault : Fault) → Moves Same (run_projector p e fault)

    other-Leaves :
        (e : EventEnvelope Value) (p : Projector Value)
        → ((fault : Fault) (s : Tables Value) → Same s (p.handle e fault s).0)
        → Leaves e p
    unfolding run_projector
    other-Leaves e p h fault = record { moves = λ s. if-Same _ s (p.handle e fault s) (h fault s) }

    budget-Leaves : (e : EventEnvelope Value) → Entered l e → Leaves e (budget_projector J overflow)
    unfolding run_projector deliver
    budget-Leaves e (inl other) fault = record { moves = λ s. rw other (λ h. h) }
    budget-Leaves e (inr old) fault =
        other-Leaves e (budget_projector J overflow)
          (λ fault s h.
            budget_redelivery J overflow e fault [] s.ledger
              (subst (λ rows. has_id e.event_id rows ≡ true) (sym h) old)
            ∙ h)
          fault

    All-Leaves : (e : EventEnvelope Value) → Entered l e → All (Leaves e) (projectors J overflow)
    All-Leaves e old = (
      other-Leaves e (instance_projector J overflow) (λ fault s h. h),
      (
        other-Leaves e (cycle_projector J overflow) (λ fault s h. h),
        (
          other-Leaves e (task_projector J overflow) (λ fault s h. h),
          (
            other-Leaves e (run_projector_of J overflow) (λ fault s h. h),
            (budget-Leaves e old, tt),
          ),
        ),
      ),
    )

    dispatch-Same :
        (faults : ℕ → Fault) (j : ℕ) (e : EventEnvelope Value) (ps : List (Projector Value))
        → All (Leaves e) ps
        → Moves Same (dispatch faults j e ps)
    unfolding dispatch
    dispatch-Same faults j e [] h = Moves-return Same stay tt
    dispatch-Same faults j e (p ∷ ps) (leaves, h) =
        Moves-bind Same join (run_projector p e (faults j)) _ (leaves (faults j))
          (λ u. dispatch-Same faults (suc j) e ps h)

    replay-Same :
        (faults : ℕ → ℕ → Fault) (k : ℕ) (es : List (EventEnvelope Value))
        → All (Entered l) es
        → Moves Same (replay_events faults k es (projectors J overflow))
    unfolding replay_events
    replay-Same faults k [] h = Moves-return Same stay tt
    replay-Same faults k (e ∷ es) (old, h) =
        Moves-bind Same join (dispatch (faults k) 0 e (projectors J overflow)) _
          (dispatch-Same (faults k) 0 e (projectors J overflow) (All-Leaves e old))
          (λ u. replay-Same faults (suc k) es h)

    module _ (W : Wire Value) (a : RebuildAnswers) (i : Uuid) (stored : List (EventRow Value)) where
      ask-Same :
          {A B : Type 0} (text : String → String) (fault : Fault) (x : A)
          (f : A → Act (Tables Value) B)
          → ((x : A) → Moves Same (f x))
          → Moves Same (query text fault x >>= f)
      ask-Same text fault x f h =
          Moves-bind Same join (query text fault x) f (Moves-query Same stay text fault x) h

      commit-Same : Moves Same (commit a.commit (truncated i))
      unfolding commit truncated
      commit-Same = record { moves = λ s. committed a.commit s }
        where
          committed : (fault : Fault) (s : Tables Value) → Same s (commit fault (truncated i) s).0
          committed none s h = h
          committed (some m) s h = h

      truncate-Same : Moves Same (truncate_projections W a i)
      unfolding truncate_projections
      truncate-Same = ask-Same _ a.capacity tt _ λ u.
          ask-Same _ a.runs tt _
            λ u. ask-Same _ a.tasks tt _ λ u. ask-Same _ a.cycles tt _ λ u. commit-Same

      require-Same :
          (row : Option (String × Option String)) → Moves Same (require_maintenance W i row)
      unfolding require_maintenance
      require-Same none = Moves-fail Same stay (domain (not_found "Instance" (W.show_uuid i)))
      require-Same (some (state, reason)) =
          if-Moves (check_maintenance_mode state reason) (return tt)
            (fail (domain (precondition "projection rebuild requires maintenance mode")))
            (Moves-return Same stay tt)
            (Moves-fail Same stay
              (domain (precondition "projection rebuild requires maintenance mode")))
        where
          if-Moves :
              (b : Bool) (m n : Act (Tables Value) (Unit {0}))
              → Moves Same m
              → Moves Same n
              → Moves Same (if b then m else n)
          if-Moves true m n p q = p
          if-Moves false m n p q = q

      open-Same : Moves Same (open_rebuild W a i)
      unfolding open_rebuild
      open-Same = record {
        moves = λ s.
            (ask-Same (λ e. e) a.begin tt _
                λ u.
                  ask-Same (λ e. e) a.lock tt _
                    λ u.
                      ask-Same (λ e. e) a.read (maintenance_row i s.instances)
                        (require_maintenance W i) λ row. require-Same row).moves
              s;
      }

      from-Same :
          (r : Result DomainError (List (EventEnvelope Value)))
          → ((events : List (EventEnvelope Value)) → r ≡ ok events → All (Entered l) events)
          → Moves Same
              (from_store W r >>= λ events. rebuild_from W a (projectors J overflow) events)
      unfolding from_store rebuild_from return fail continue ◌>>=◌
      from-Same (ok events) h =
          Moves-bind Same join (replay_events a.handle 0 events (projectors J overflow)) _
            (replay-Same a.handle 0 events (h events refl))
            (λ u. Moves-return Same stay (length events % 2 ^ 64))
      from-Same (err e) h = record { moves = stay }

      rebuild-Same :
          (events : List (EventEnvelope Value))
          → Store.replay i (pos 0) a.replay stored ≡ ok events
          → All (Entered l) events
          → Moves Same (rebuild_projections W a (projectors J overflow) stored i)
      unfolding rebuild_projections
      rebuild-Same events answered h = Moves-bind Same join (open_rebuild W a i) _ open-Same λ u.
          Moves-bind Same join (truncate_projections W a i) _ truncate-Same λ u.
            from-Same (Store.replay i (pos 0) a.replay stored)
              (λ es given. subst (λ r. Holds (All (Entered l)) r) (sym answered ∙ given) h)

-- A rebuild of an instance over the five projectors leaves the ledger exactly as it was, whatever the
-- database answers to any statement, when the events that the store replays are in the ledger or are
-- of no type that the budget projector handles.
pub rebuild_projections-ledger :
    (J : Serde) (overflow : String) (W : Wire J.Value) (a : RebuildAnswers)
    (stored : List (EventRow J.Value)) (i : Uuid) (db : Tables J.Value)
    (events : List (EventEnvelope J.Value))
    → Store.replay i (pos 0) a.replay stored ≡ ok events
    → All (Entered J overflow db.ledger) events
    → (rebuild_projections W a (projectors J overflow) stored i db).0.ledger ≡ db.ledger
rebuild_projections-ledger J overflow W a stored i db events answered entered =
    (rebuild-Same J overflow db.ledger W a i stored events answered entered).moves db refl
