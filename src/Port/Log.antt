-- ===== src/Port/Log.antt =====
-- The events of a store, as its clients see them.
use openclaw_rs.Base.{
  String, ◌≡◌, refl, Bool, true, false, Option, List, [], ◌∷◌, ◌++◌, ◌==◌, ◌&&◌, any, arith, eq→==,
}
use openclaw_rs.Payload.{Uuid, EventEnvelope}
use openclaw_rs.Store.{same_key}

-- A stored event has what the emitted one had, but for the number and the times.
pub record Records {V : Type 0} (e r : EventEnvelope V) : Type 0 where
  pub event_id : r.event_id ≡ e.event_id
  pub instance_id : r.instance_id ≡ e.instance_id
  pub event_type : r.event_type ≡ e.event_type
  pub payload : r.payload ≡ e.payload
  pub idempotency_key : r.idempotency_key ≡ e.idempotency_key

-- An event of the instance has the key.
abbrev pub has_key : {V : Type 0} → Uuid → Option String → List (EventEnvelope V) → Bool
has_key i key log = any (λ r. (r.instance_id == i) && same_key r.idempotency_key key) log

-- Events that satisfy `P` came at the end, each with a key that its instance had not used.
pub data Appends {V : Type 0} (P : EventEnvelope V → Type 0)
    : List (EventEnvelope V) → List (EventEnvelope V) → Type 0 where
  same : (log : List (EventEnvelope V)) → Appends P log log
  more :
      {before log : List (EventEnvelope V)} (r : EventEnvelope V)
      → Appends P before log
      → P r
      → has_key r.instance_id r.idempotency_key log ≡ false
      → Appends P before (log ++ r ∷ [])

module _ {V : Type 0} {P : EventEnvelope V → Type 0} where
  pub Appends-join :
      {a b c : List (EventEnvelope V)} → Appends P a b → Appends P b c → Appends P a c
  Appends-join p (same _) = p
  Appends-join p (more r q h new) = more r (Appends-join p q) h new

  pub Appends-weaken :
      (Q : EventEnvelope V → Type 0)
      → ((r : EventEnvelope V) → P r → Q r)
      → {a b : List (EventEnvelope V)} → Appends P a b
      → Appends Q a b
  Appends-weaken Q f (same log) = same log
  Appends-weaken Q f (more r p h new) = more r (Appends-weaken Q f p) (f r h) new

any-append :
    {A : Type 0} (p : A → Bool) (xs ys : List A) → any p xs ≡ true → any p (xs ++ ys) ≡ true
any-append p [] ys h = absurd (cc)
any-append p (x ∷ xs) ys h = ground (arith, any-append p xs ys)

-- A key once used stays used.
pub Appends-has_key :
    {V : Type 0} {P : EventEnvelope V → Type 0} (i : Uuid) (key : Option String)
    {a b : List (EventEnvelope V)}
    → Appends P a b
    → has_key i key a ≡ true
    → has_key i key b ≡ true
Appends-has_key i key (same _) h = h
Appends-has_key i key (more {log = log} r p q new) h =
    any-append (λ t. (t.instance_id == i) && same_key t.idempotency_key key) log (r ∷ [])
      (Appends-has_key i key p h)

pub has_key-last :
    {V : Type 0} (i : Uuid) (key : Option String) (log : List (EventEnvelope V))
    (r : EventEnvelope V)
    → r.instance_id ≡ i
    → r.idempotency_key ≡ key
    → same_key key key ≡ true
    → has_key i key (log ++ r ∷ []) ≡ true
has_key-last i key [] r own is self =
    let here = eq→== i i refl in
    let named : same_key r.idempotency_key key ≡ true = rw is self in
    ground (arith, own, named, here)
has_key-last i key (s ∷ log) r own is self = ground (arith, has_key-last i key log r own is self)
