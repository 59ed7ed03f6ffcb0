-- ===== src/Projection/Budget/Balance.antt =====
-- The running balance.
use openclaw_rs.Base.{
  String, ◌≡◌, refl, sym, ◌∙◌, Bool, true, false, Option, none, some, List, [], ◌∷◌, ◌++◌, ◌==◌,
  if◌then◌else◌, arith, Bool-cases, inl, inr, eq→==, ==→eq, ltb, subst, ◌&&◌, ◌||◌,
}
use openclaw_rs.Base.Int.{ℤ, pos, ◌+ℤ◌, fits_i64, +ℤ_assoc, +ℤ_comm, +ℤ_zero}
use openclaw_rs.Sql.{Fault}
use openclaw_rs.Payload.{Uuid, Serde, EventEnvelope}
use openclaw_rs.Projection.Budget.{handle}
use openclaw_rs.Projection.Budget.Laws.{IsFrom, budget_handle-Grows}
use openclaw_rs.Projection.Budget.Ledger.{
  Draft, LedgerRow, newer, first, latest, balance, has_id, insert_ledger,
}

first_assoc : (a b c : Option LedgerRow) → first a (first b c) ≡ first (first a b) c
first_assoc none b c = refl
first_assoc (some a) none c = refl
first_assoc (some a) (some b) none = ground arith
first_assoc (some a) (some b) (some c) = ground arith

latest-append :
    (i : Uuid) (rows : List LedgerRow) (r : LedgerRow)
    → r.draft.instance_id ≡ i
    → latest i (rows ++ r ∷ []) ≡ first (latest i rows) (some r)
unfolding latest
latest-append i [] r h = ground arith
latest-append i (s ∷ rows) r h =
    rw (latest-append i rows r h)
      (first_assoc (if s.draft.instance_id == i then some s else none) (latest i rows) (some r))

latest-append_other :
    (i : Uuid) (rows : List LedgerRow) (r : LedgerRow)
    → (r.draft.instance_id == i) ≡ false
    → latest i (rows ++ r ∷ []) ≡ latest i rows
unfolding latest
latest-append_other i [] r h = rw h
latest-append_other i (s ∷ rows) r h = rw (latest-append_other i rows r h)

-- The sum of an instance's amounts.
unfoldable pub total : Uuid → List LedgerRow → ℤ
total i [] = pos 0
total i (r ∷ rows) =
    (if r.draft.instance_id == i then r.draft.amount_cents else pos 0) +ℤ total i rows

total-append :
    (i : Uuid) (rows : List LedgerRow) (r : LedgerRow)
    → r.draft.instance_id ≡ i
    → total i (rows ++ r ∷ []) ≡ total i rows +ℤ r.draft.amount_cents
unfolding total
total-append i [] r h = rw (eq→== _ _ h) (+ℤ_comm _ _)
total-append i (s ∷ rows) r h = rw (total-append i rows r h) (sym (+ℤ_assoc _ _ _))

total-append_other :
    (i : Uuid) (rows : List LedgerRow) (r : LedgerRow)
    → (r.draft.instance_id == i) ≡ false
    → total i (rows ++ r ∷ []) ≡ total i rows
unfolding total
total-append_other i [] r h = rw h (+ℤ_zero _)
total-append_other i (s ∷ rows) r h = rw (total-append_other i rows r h)

-- The event stands before the entry in the order of the query: it is later, or at the same time with
-- a greater id. With no entry it does too.
abbrev pub is_ahead : {V : Type 0} → EventEnvelope V → Option LedgerRow → Bool
is_ahead e none = true
is_ahead e (some r) =
    ltb r.draft.created_at e.occurred_at
    || ((e.occurred_at == r.draft.created_at) && ltb r.draft.id e.event_id)

first_ahead :
    {V : Type 0} (e : EventEnvelope V) (o : Option LedgerRow) (r : LedgerRow)
    → IsFrom e r.draft
    → is_ahead e o ≡ true
    → first o (some r) ≡ some r
first_ahead e none r from h = refl
first_ahead e (some s) r from h = ground (arith, from.id, from.created_at)

module _ (J : Serde) (overflow : String) (e : EventEnvelope (Serde.Value J)) where
  grown-balance :
      (i : Uuid) (rows : List LedgerRow) (r : LedgerRow)
      → IsFrom e r.draft
      → r.balance_after ≡ balance e.instance_id rows +ℤ r.draft.amount_cents
      → balance i rows ≡ total i rows
      → is_ahead e (latest e.instance_id rows) ≡ true
      → balance i (rows ++ r ∷ []) ≡ total i (rows ++ r ∷ [])
  unfolding balance
  grown-balance i rows r from sum even front = elim (Bool-cases (r.draft.instance_id == i)) [
    | inr other ↦ rw (latest-append_other i rows r other, total-append_other i rows r other) even
    | inl h ↦
        let mine : r.draft.instance_id ≡ i = ==→eq _ _ h in
        let same : e.instance_id ≡ i = sym from.instance_id ∙ mine in
        let ready : is_ahead e (latest i rows) ≡ true =
          subst (λ k. is_ahead e (latest k rows) ≡ true) same front in
        rw
          (
            latest-append i rows r mine,
            total-append i rows r mine,
            first_ahead e (latest i rows) r from ready,
          )
          (cc (sum, even, same))
  ]

  -- If the last balance of an instance is the sum of its amounts, it still is after an event that
  -- stands, by its time and then its id, before all entries of its own instance in the order of
  -- the query.
  pub budget_handle-balance :
      (fault : Fault) (rows : List LedgerRow) (i : Uuid)
      → balance i rows ≡ total i rows
      → is_ahead e (latest e.instance_id rows) ≡ true
      → balance i (handle J overflow e fault rows).0 ≡ total i (handle J overflow e fault rows).0
  budget_handle-balance fault rows i even front =
      elim (budget_handle-Grows J overflow e fault rows) [
        | inl same ↦ rw same even
        | inr (r, grown, from, new, sum) ↦ rw grown (grown-balance i rows r from sum even front)
      ]

-- An entry that is made, and that is older by time and id than the last of its instance, leaves the
-- balance of the instance where it was, though the sum of the amounts has moved by the entry's.
pub late_entry_lost :
    (overflow : String) (d : Draft) (rows : List LedgerRow) (s : LedgerRow)
    → latest d.instance_id rows ≡ some s
    → newer s.draft d ≡ true
    → has_id d.id rows ≡ false
    → fits_i64 (balance d.instance_id rows +ℤ d.amount_cents) ≡ true
    → (balance d.instance_id (insert_ledger overflow d none rows).0 ≡ balance d.instance_id rows)
      × (total d.instance_id (insert_ledger overflow d none rows).0
          ≡ total d.instance_id rows +ℤ d.amount_cents)
unfolding insert_ledger
late_entry_lost overflow d rows s last older new fits =
    let r : LedgerRow = record {
      draft = d;
      balance_after = balance d.instance_id rows +ℤ d.amount_cents;
    } in
    rw (fits, new)
      (
        unfold balance in rw (latest-append d.instance_id rows r refl, last) (rw older),
        total-append d.instance_id rows r refl,
      )
