-- ===== src/Projection/Budget/Laws.antt =====
-- The ledger only grows, and an event is entered once.
use openclaw_rs.Base.{
  String, ◌≡◌, refl, ap, ◌⊎◌, inl, inr, Bool, true, false, Option, none, some, List, [], ◌∷◌, ◌++◌,
  ◌==◌, any, arith, Bool-cases, subst, match_str-elim, done, ◌also◌,
}
use openclaw_rs.Base.Int.{ℤ, ◌+ℤ◌, fits_i64}
use openclaw_rs.Errors.{Result, ok, err, AppError, ◌>>=◌}
use openclaw_rs.Sql.{Fault, Outcome, ignore}
use openclaw_rs.Sql.Handlers.{deliver}
use openclaw_rs.Payload.{Uuid, Serde, EventEnvelope}
use openclaw_rs.Projection.Budget.{
  submit_draft, entry, plan_budget_reserved, run_budget_reserved, run_cost_observed,
  run_budget_settled, cycle_budget_settled, global_budget_cap_hit, arms, handle,
}
use openclaw_rs.Projection.Budget.Ledger.{Draft, LedgerRow, balance, has_id, insert_ledger}

-- What a draft takes from the event.
pub record IsFrom {V : Type 0} (e : EventEnvelope V) (d : Draft) : Type 0 where
  pub id : d.id ≡ e.event_id
  pub instance_id : d.instance_id ≡ e.instance_id
  pub created_at : d.created_at ≡ e.occurred_at

-- A handler that at most inserts one draft of the event.
pub data Inserts {V : Type 0} (overflow : String) (e : EventEnvelope V)
    : (Fault → List LedgerRow → Outcome (List LedgerRow)) → Type 0 where
  inserts : (d : Draft) → IsFrom e d → Inserts overflow e (insert_ledger overflow d)
  fails : (x : AppError) → Inserts overflow e (λ fault rows. (rows, err x))
  ignores : Inserts overflow e ignore

module _ {V : Type 0} (overflow : String) (e : EventEnvelope V) where
  -- A reader all of whose drafts are the event's.
  pub record Reads (r : Result AppError Draft) : Type 0 where
    pub draft : Inserts overflow e (submit_draft overflow r)

  Reads-bind :
      {A : Type 0} (r : Result AppError A) (f : A → Result AppError Draft)
      → ((a : A) → Reads (f a))
      → Reads (r >>= f)
  unfolding ◌>>=◌ submit_draft
  Reads-bind (ok a) f h = h a
  Reads-bind (err x) f h = record { draft = fails x }

  Reads-ok : (d : Draft) → IsFrom e d → Reads (ok d)
  unfolding submit_draft
  Reads-ok d h = record { draft = inserts d h }

module _ (J : Serde) (overflow : String) (e : EventEnvelope (Serde.Value J)) where
  entry-Reads : (c r : Option Uuid) (n : ℤ) → Reads overflow e (ok (entry J e c r n))
  unfolding entry
  entry-Reads c r n =
      Reads-ok overflow e _ (record { id = refl; instance_id = refl; created_at = refl })

  plan_budget_reserved-Reads : Reads overflow e (plan_budget_reserved J e)
  unfolding plan_budget_reserved
  plan_budget_reserved-Reads =
      Reads-bind overflow e _ _ λ c. Reads-bind overflow e _ _ λ n. entry-Reads _ _ _

  run_budget_reserved-Reads : Reads overflow e (run_budget_reserved J e)
  unfolding run_budget_reserved
  run_budget_reserved-Reads =
      Reads-bind overflow e _ _
        λ c. Reads-bind overflow e _ _ λ r. Reads-bind overflow e _ _ λ n. entry-Reads _ _ _

  run_cost_observed-Reads : Reads overflow e (run_cost_observed J e)
  unfolding run_cost_observed
  run_cost_observed-Reads =
      Reads-bind overflow e _ _
        λ c. Reads-bind overflow e _ _ λ r. Reads-bind overflow e _ _ λ n. entry-Reads _ _ _

  run_budget_settled-Reads : Reads overflow e (run_budget_settled J e)
  unfolding run_budget_settled
  run_budget_settled-Reads =
      Reads-bind overflow e _ _
        λ c. Reads-bind overflow e _ _ λ r. Reads-bind overflow e _ _ λ n. entry-Reads _ _ _

  cycle_budget_settled-Reads : Reads overflow e (cycle_budget_settled J e)
  unfolding cycle_budget_settled
  cycle_budget_settled-Reads =
      Reads-bind overflow e _ _ λ c. Reads-bind overflow e _ _ λ n. entry-Reads _ _ _

  global_budget_cap_hit-Reads : Reads overflow e (global_budget_cap_hit J e)
  unfolding global_budget_cap_hit
  global_budget_cap_hit-Reads = entry-Reads _ _ _

  pub handle-Inserts : Inserts overflow e (handle J overflow e)
  unfolding handle
  handle-Inserts =
      match_str-elim (Inserts overflow e) e.event_type (arms J overflow e) ignore
        (plan_budget_reserved-Reads.draft also run_budget_reserved-Reads.draft
          also run_cost_observed-Reads.draft also run_budget_settled-Reads.draft
          also cycle_budget_settled-Reads.draft also global_budget_cap_hit-Reads.draft also done)
        ignores

-- The ledger is as it was, or has one more entry at its end: the event's, the first of that id, with
-- the last balance of its instance and its amount added up.
abbrev pub Grows : {V : Type 0} → EventEnvelope V → (rows after : List LedgerRow) → Type 0
Grows e rows after =
    (after ≡ rows)
    ⊎ ((r : LedgerRow) × (after ≡ rows ++ r ∷ [])
        × IsFrom e r.draft
        × (has_id e.event_id rows ≡ false)
        × (r.balance_after ≡ balance e.instance_id rows +ℤ r.draft.amount_cents))

insert-Grows :
    {V : Type 0} (overflow : String) (e : EventEnvelope V) (d : Draft) (fault : Fault)
    (rows : List LedgerRow)
    → IsFrom e d
    → Grows e rows (insert_ledger overflow d fault rows).0
unfolding insert_ledger
insert-Grows overflow e d (some m) rows h = inl refl
insert-Grows overflow e d none rows h =
    let after : ℤ = balance d.instance_id rows +ℤ d.amount_cents in
    elim (Bool-cases (fits_i64 after)) [
      | inr over ↦ rw over (inl refl)
      | inl fits ↦ rw fits (elim (Bool-cases (has_id d.id rows)) [
        | inl old ↦ rw old (inl refl)
        | inr new ↦ rw new (
            inr (
              record { draft = d; balance_after = after },
              refl,
              h,
              subst (λ k. has_id k rows ≡ false) h.id new,
              ap (λ i. balance i rows +ℤ d.amount_cents) h.instance_id,
            ))
      ])
    ]

Inserts-Grows :
    {V : Type 0} {overflow : String} {e : EventEnvelope V}
    {h : Fault → List LedgerRow → Outcome (List LedgerRow)}
    → Inserts overflow e h
    → (fault : Fault) (rows : List LedgerRow) → Grows e rows (h fault rows).0
unfolding ignore
Inserts-Grows {overflow} {e} (inserts d from) fault rows = insert-Grows overflow e d fault rows from
Inserts-Grows (fails x) fault rows = inl refl
Inserts-Grows ignores fault rows = inl refl

any-append :
    {A : Type 0} (p : A → Bool) (xs ys : List A) → any p xs ≡ true → any p (xs ++ ys) ≡ true
any-append p [] ys h = cc
any-append p (x ∷ xs) ys h = ground (arith, any-append p xs ys)

module _ (J : Serde) (overflow : String) where
  -- Whatever the event and the database's answer, the ledger is left as it was or gets one entry at
  -- its end; that entry has the event's id, which no entry had, its instance and time, and for
  -- balance the last balance of the instance plus the entry's amount.
  pub budget_handle-Grows :
      (e : EventEnvelope (Serde.Value J)) (fault : Fault) (rows : List LedgerRow)
      → Grows e rows (handle J overflow e fault rows).0
  budget_handle-Grows e fault rows = Inserts-Grows (handle-Inserts J overflow e) fault rows

  -- An event that is entered already changes nothing.
  entered_once :
      (e : EventEnvelope (Serde.Value J)) (fault : Fault) (rows : List LedgerRow)
      → has_id e.event_id rows ≡ true
      → (handle J overflow e fault rows).0 ≡ rows
  entered_once e fault rows old = elim (budget_handle-Grows e fault rows) [
    | inl same ↦ same
    | inr (r, grown, from, new, sum) ↦ absurd (cc)
  ]

  has_id-handle :
      (id : Uuid) (e : EventEnvelope (Serde.Value J)) (fault : Fault) (rows : List LedgerRow)
      → has_id id rows ≡ true
      → has_id id (handle J overflow e fault rows).0 ≡ true
  has_id-handle id e fault rows old = elim (budget_handle-Grows e fault rows) [
    | inl same ↦ rw same old
    | inr (r, grown, from, new, sum) ↦
        rw grown (any-append (λ s. s.draft.id == id) rows (r ∷ []) old)
  ]

  has_id-deliver :
      (id : Uuid) (es : List (EventEnvelope (Serde.Value J) × Fault)) (rows : List LedgerRow)
      → has_id id rows ≡ true
      → has_id id (deliver (handle J overflow) es rows) ≡ true
  unfolding deliver
  has_id-deliver id [] rows old = old
  has_id-deliver id ((e, fault) ∷ es) rows old =
      has_id-deliver id es (handle J overflow e fault rows).0 (has_id-handle id e fault rows old)

  -- Once an event is in the ledger, delivering it again changes nothing, whatever other events came
  -- in between.
  pub budget_redelivery :
      (e : EventEnvelope (Serde.Value J)) (fault : Fault)
      (es : List (EventEnvelope (Serde.Value J) × Fault)) (rows : List LedgerRow)
      → has_id e.event_id rows ≡ true
      → (handle J overflow e fault (deliver (handle J overflow) es rows)).0
        ≡ deliver (handle J overflow) es rows
  budget_redelivery e fault es rows old =
      entered_once e fault (deliver (handle J overflow) es rows)
        (has_id-deliver e.event_id es rows old)
