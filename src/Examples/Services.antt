-- ===== src/Examples/Services.antt =====
-- A JSON writer, and an event store in memory, for the examples of the services.
use openclaw_rs.Base.{
  ℕ, zero, suc, String, ◌≡◌, refl, ap, Bool, true, false, Option, none, some, List, [], ◌∷◌, ◌++◌,
  if◌then◌else◌, str_eq, match_str, Bool-cases, inl, inr,
}
use openclaw_rs.Base.Int.{ℤ, pos}
use openclaw_rs.Errors.{Result, ok, DomainError}
use openclaw_rs.Payload.{EventEnvelope}
use openclaw_rs.Wire.{
  Item, id, text, number, cents, texts, actor, value, field, Wire, IsWire, Fresh,
}
use openclaw_rs.Port.{EventStore, Emitted, known, added}
use openclaw_rs.Port.Log.{has_key}
use openclaw_rs.Workers.Over.{Reads}
use openclaw_rs.Examples.Fixtures.{Leaf, Json, leaf, object, json, get_json}
use Prim.Native.String.{◌++◌ as append}

-- A number as so many strokes.
abbrev strokes : ℕ → String
strokes zero = ""
strokes (suc n) = append "i" (strokes n)

abbrev leaf_of : Json → Leaf
leaf_of (leaf l) = l
leaf_of (object fields) = Leaf.text "object"

abbrev written : Item Json → Leaf
written (id u) = Leaf.uuid u
written (text s) = Leaf.text s
written (number n) = Leaf.int (pos n)
written (cents n) = Leaf.int n
written (texts ss) = Leaf.text "array"
written (actor kind who) = Leaf.text kind
written (value v) = leaf_of v

abbrev write_all : List (String × Item Json) → List (String × Leaf)
write_all [] = []
write_all ((key, x) ∷ fields) = (key, written x) ∷ write_all fields

abbrev shown : Option Json → Option String
shown (some (leaf (Leaf.text s))) = some s
shown (some (leaf (Leaf.uuid n))) = some (strokes n)
shown (some (leaf (Leaf.int n))) = some "number"
shown (some (object fields)) = some "object"
shown none = none

abbrev pub wire : Wire Json
wire = record {
  object = λ fields. object (write_all fields);
  text_at = λ v key. shown (get_json v key);
  show_uuid = strokes;
  show_nat = strokes;
  show_int = λ n. "number";
  lower = λ s. s;
}

abbrev as_leaf : Option (Item Json) → Option Json
as_leaf none = none
as_leaf (some x) = some (leaf (written x))

pick :
    (b : Bool) (x y : Item Json) (rest : Option (Item Json)) (found : Option Json)
    → (if b then some x else rest) ≡ some y
    → (rest ≡ some y → found ≡ some (leaf (written y)))
    → (if b then some (leaf (written x)) else found) ≡ some (leaf (written y))
pick true x y rest found h next = ap as_leaf h
pick false x y rest found h next = next h

get_written :
    (fields : List (String × Item Json)) (key : String) (y : Item Json)
    → field key fields ≡ some y
    → get_json (object (write_all fields)) key ≡ some (leaf (written y))
unfolding get_json match_str field
get_written [] key y h = absurd (cc)
get_written ((k, x) ∷ fields) key y h =
    pick (str_eq key k) x y (field key fields) (get_json (object (write_all fields)) key) h
      (get_written fields key y)

pub wire-Reads : Reads json wire
wire-Reads = record {
  get_uuid = λ fields key u h. (leaf (Leaf.uuid u), get_written fields key (id u) h, refl);
  get_text = λ fields key s h. (leaf (Leaf.text s), get_written fields key (text s) h, refl);
}

abbrev put :
    EventEnvelope Json
    → List (EventEnvelope Json)
    → List (EventEnvelope Json) × Result DomainError ℤ
put e log =
    if has_key e.instance_id e.idempotency_key log
    then (log, ok (pos 0))
    else (log ++ e ∷ [], ok (pos 1))

pub put-Emitted :
    (e : EventEnvelope Json) (log : List (EventEnvelope Json))
    → Emitted e log (put e log).0 (put e log).1
put-Emitted e log = elim (Bool-cases (has_key e.instance_id e.idempotency_key log)) [
  | inl old ↦ rw old (known (pos 0) refl old)
  | inr new ↦ rw new (
      added (pos 1) e refl
        (record {
          event_id = refl;
          instance_id = refl;
          event_type = refl;
          payload = refl;
          idempotency_key = refl;
        })
        new)
]

-- A store that refuses nothing.
abbrev pub memory : EventStore Json
memory = record {
  State = List (EventEnvelope Json);
  log = λ s. s;
  emit = put;
  emit-Emitted = put-Emitted;
}

abbrev pub fresh_at : ℕ → Fresh
fresh_at n = record { event_id = n; now = n }

text_written :
    (fields : List (String × Item Json)) (key : String) (u : ℕ)
    → field key fields ≡ some (id u)
    → shown (get_json (object (write_all fields)) key) ≡ some (strokes u)
text_written fields key u h = ap shown (get_written fields key (id u) h)

pub wire-IsWire : IsWire wire
wire-IsWire = record { text_at-object = text_written }
