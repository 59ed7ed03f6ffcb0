-- ===== src/Port.antt =====
-- The port `EventStore` of domain/ports.rs: its operations, and what its clients rely on.
pub mod Log
pub mod Postgres
use text.Mathlib.TextPositions.{eq_refl}
use openclaw_rs.Base.{
  refl, subst, ◌∙◌, ℕ, String, ◌≡◌, Bool, true, false, Option, none, some, List, [], ◌∷◌, ◌++◌,
  ◌==◌, ◌&&◌, any,
}
use openclaw_rs.Base.Int.{ℤ}
use openclaw_rs.Errors.{Result, ok, err, AppError, DomainError, infra, database}
use openclaw_rs.Payload.{Uuid, EventEnvelope}
use openclaw_rs.Port.Log.{
  Records, has_key, has_key-last, Appends, same, more, Appends-join, Appends-weaken,
}
use openclaw_rs.Act.{Act, Moves}
use openclaw_rs.Wire.{Wire, show_domain}
use Prim.Native.String.{◌++◌ as append}

-- What one `emit` does to the events of the store: it is refused and they stay; or the instance has
-- the event's idempotency key already and they stay; or the event is added at their end.
pub data Emitted {V : Type 0} (e : EventEnvelope V) (before after : List (EventEnvelope V))
    : Result DomainError ℤ → Type 0 where
  refused : (x : DomainError) → after ≡ before → Emitted e before after (err x)
  known :
      (n : ℤ)
      → after ≡ before
      → has_key e.instance_id e.idempotency_key before ≡ true
      → Emitted e before after (ok n)
  added :
      (n : ℤ) (r : EventEnvelope V)
      → after ≡ before ++ r ∷ []
      → Records e r
      → has_key e.instance_id e.idempotency_key before ≡ false
      → Emitted e before after (ok n)

-- A state holds the events and, for a run, all that the database is still to answer.
pub record EventStore (V : Type 0) : Type 1 where
  pub State : Type 0
  pub log : State → List (EventEnvelope V)
  pub emit : EventEnvelope V → State → State × Result DomainError ℤ
  pub emit-Emitted :
      (e : EventEnvelope V) (s : State) → Emitted e (log s) (log (emit e s).0) (emit e s).1

module _ {V : Type 0} (E : EventStore V) (W : Wire V) where
  open E use {State}

  unfoldable pub mapped : String → State × Result DomainError ℤ → State × Result AppError (Unit {0})
  unfolding show_domain
  mapped text (s, ok n) = (s, ok tt)
  mapped text (s, err x) = (s, err (infra (database (append text (show_domain W x)))))

  -- `self.event_store.emit(envelope).await.map_err(|e| AppError::Infra(…("…: {e}")))?`
  unfoldable pub emit_event : String → EventEnvelope V → Act State (Unit {0})
  unfolding mapped
  emit_event text e s = mapped text (E.emit e s)

-- One `emit` adds at most the event, under a key that its instance had not used.
pub Emitted-Appends :
    {V : Type 0} {e : EventEnvelope V} {before after : List (EventEnvelope V)}
    {r : Result DomainError ℤ}
    → Emitted e before after r
    → Appends (Records e) before after
Emitted-Appends (refused x stays) = rw stays (same _)
Emitted-Appends (known n stays has) = rw stays (same _)
Emitted-Appends (added n r grown records new) =
    rw grown (more r (same _) records (rw (records.instance_id, records.idempotency_key) new))

-- After an `emit` that was not refused the instance has the event's key.
pub Emitted-has_key :
    {V : Type 0} {e : EventEnvelope V} {before after : List (EventEnvelope V)} (key : String)
    (n : ℤ)
    → e.idempotency_key ≡ some key
    → Emitted e before after (ok n)
    → has_key e.instance_id (some key) after ≡ true
Emitted-has_key key m has (known n stays old) = rw (stays, ← has) old
Emitted-has_key {e = e} {before = before} key m has (added n r grown records new) = rw grown (
    has_key-last e.instance_id (some key) before r records.instance_id
      (records.idempotency_key ∙ has) (rw (eq_refl key) refl))

module _ {V : Type 0} (E : EventStore V) where
  open E use {State, log}

  -- The events of the store grew by events that satisfy `P`, under new keys.
  abbrev pub Grows : (EventEnvelope V → Type 0) → State → State → Type 0
  Grows P a b = Appends P (log a) (log b)

  abbrev pub Grows-stay : (P : EventEnvelope V → Type 0) (s : State) → Grows P s s
  Grows-stay P s = same (log s)

  abbrev pub Grows-join :
      (P : EventEnvelope V → Type 0) (a b c : State) → Grows P a b → Grows P b c → Grows P a c
  Grows-join P a b c p q = Appends-join p q

module _ {V : Type 0} (E : EventStore V) (W : Wire V) (text : String) (e : EventEnvelope V) where
  open E use {State, log}

  mapped-state : (p : State × Result DomainError ℤ) → (mapped E W text p).0 ≡ p.0
  unfolding mapped
  mapped-state (s, ok n) = refl
  mapped-state (s, err x) = refl

  mapped-ok :
      (p : State × Result DomainError ℤ) → (mapped E W text p).1 ≡ ok tt → (n : ℤ) × (p.1 ≡ ok n)
  unfolding mapped
  mapped-ok (s, ok n) h = (n, refl)
  mapped-ok (s, err x) h = absurd (cc)

  pub emit_event-Grows :
      (P : EventEnvelope V → Type 0)
      → ((r : EventEnvelope V) → Records e r → P r)
      → Moves (Grows E P) (emit_event E W text e)
  unfolding emit_event
  emit_event-Grows P h = record {
    moves = λ s.
        rw (mapped-state (E.emit e s)) (Appends-weaken P h (Emitted-Appends (E.emit-Emitted e s)));
  }

  -- An `emit` that succeeded leaves the event's key in the log.
  pub emit_event-has_key :
      (key : String) (s : State)
      → e.idempotency_key ≡ some key
      → (emit_event E W text e s).1 ≡ ok tt
      → has_key e.instance_id (some key) (log (emit_event E W text e s).0) ≡ true
  unfolding emit_event
  emit_event-has_key key s named h =
      let (n, emitted) = mapped-ok (E.emit e s) h in
      rw (mapped-state (E.emit e s)) (
        Emitted-has_key key n named
          (subst (λ r. Emitted e (log s) (log (E.emit e s).0) r) emitted (E.emit-Emitted e s)))

module _ {V : Type 0} (E : EventStore V) (W : Wire V) (text : String) (e : EventEnvelope V) where
  open E use {State, log}

  last_of :
      {before after : List (EventEnvelope V)} {r : Result DomainError ℤ} (n : ℤ)
      → Emitted e before after r
      → r ≡ ok n
      → has_key e.instance_id e.idempotency_key before ≡ false
      → (t : EventEnvelope V) × (after ≡ before ++ t ∷ []) × Records e t
  last_of n (refused x stays) h new = absurd (cc)
  last_of n (known m stays old) h new = absurd (cc)
  last_of n (added m t grown records unused) h new = (t, grown, records)

  -- An `emit` that succeeded with a key that was not used has added the event.
  pub emit_event-added :
      (s : State)
      → (emit_event E W text e s).1 ≡ ok tt
      → has_key e.instance_id e.idempotency_key (log s) ≡ false
      → (t : EventEnvelope V) × (log (emit_event E W text e s).0 ≡ log s ++ t ∷ []) × Records e t
  unfolding emit_event
  emit_event-added s h new =
      let (n, emitted) = mapped-ok E W text e (E.emit e s) h in
      rw (mapped-state E W text e (E.emit e s)) (last_of n (E.emit-Emitted e s) emitted new)
