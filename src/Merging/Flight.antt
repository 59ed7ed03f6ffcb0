-- ===== src/Merging/Flight.antt =====
-- Merges in flight, by the events: what the query of `check_in_flight_merge` in app/merge_service.rs
-- finds.
use openclaw_rs.Base.{
  String, ◌≡◌, ◌≢◌, refl, ap, ◌⊎◌, inl, inr, true, false, Option, none, some, ◌&&◌, any, any-some,
  any-none, not, str_eq, List, Bool-cases, arith,
}
use text.Mathlib.TextEquality.{eq_iff}
use mathlib.Core.List.{Memᴰ}
use openclaw_rs.Payload.{Uuid, EventEnvelope}
use openclaw_rs.Wire.{Wire}
use openclaw_rs.Merging.Attempts.{
  text_is, text_differs, is_terminal, same_task, in_flight, in_flight_event,
}

-- The types of the events that end a merge.
abbrev Ending : String → Type 0
Ending event_type =
    (event_type ≡ "MergeSucceeded")
    ⊎ (event_type ≡ "MergeConflicted")
    ⊎ (event_type ≡ "MergeFailed")
    ⊎ (event_type ≡ "MergeSkipped")

pub found-eq :
    (x : Option String) (s : String)
    → (elim x [ none ↦ false | some t ↦ str_eq t s ]) ≡ true
    → x ≡ some s
found-eq none s h = absurd (cc)
found-eq (some t) s h = ap some ((eq_iff t s).0 h)

differs-eq :
    (x : Option String) (s : String)
    → (elim x [ none ↦ false | some t ↦ not (str_eq t s) ]) ≡ true
    → (t : String) × (x ≡ some t) × (t ≢ s)
differs-eq none s h = absurd (cc)
differs-eq (some t) s h = (t, refl, λ same. absurd (cc (h, (eq_iff t s).1 same)))

differs-true : (t s : String) → t ≢ s → not (str_eq t s) ≡ true
differs-true t s apart = elim (Bool-cases (str_eq t s)) [
  | inl same ↦ absurd (apart ((eq_iff t s).0 same))
  | inr other ↦ rw other refl
]

module _ {V : Type 0} (W : Wire V) where
  -- The event says that a merge of the task began, for the cycle.
  abbrev pub Attempted : Uuid → String → EventEnvelope V → Type 0
  Attempted cycle_id task e =
      (e.event_type ≡ "MergeAttempted")
      × (W.text_at e.payload "cycle_id" ≡ some (W.show_uuid cycle_id))
      × (W.text_at e.payload "task_id" ≡ some task)

  -- The event says that a merge of the task ended.
  abbrev pub Ended : String → EventEnvelope V → Type 0
  Ended task e = Ending e.event_type × (W.text_at e.payload "task_id" ≡ some task)

  -- A merge of another task of the cycle began, and there is no end of a merge of that task.
  abbrev pub Busy : (cycle_id task_id : Uuid) → List (EventEnvelope V) → Type 0
  Busy cycle_id task_id log =
      (task : String) × (task ≢ W.show_uuid task_id)
      × ((e : EventEnvelope V) × Memᴰ e log × Attempted cycle_id task e)
      × ((e : EventEnvelope V) → Memᴰ e log → Ended task e → ⊥)

  -- Of every other task of the cycle with a merge that began, there is a merge that ended.
  abbrev pub Free : (cycle_id task_id : Uuid) → List (EventEnvelope V) → Type 0
  Free cycle_id task_id log =
      (task : String)
      → task ≢ W.show_uuid task_id
      → (e : EventEnvelope V) → Memᴰ e log
      → Attempted cycle_id task e
      → (e : EventEnvelope V) × Memᴰ e log × Ended task e

  is_terminal-Ending : (event_type : String) → is_terminal W event_type ≡ true → Ending event_type
  is_terminal-Ending t h = elim (Bool-cases (str_eq t "MergeSucceeded")) [
    | inl a ↦ inl ((eq_iff t "MergeSucceeded").0 a)
    | inr a ↦ elim (Bool-cases (str_eq t "MergeConflicted")) [
      | inl b ↦ inr (inl ((eq_iff t "MergeConflicted").0 b))
      | inr b ↦ elim (Bool-cases (str_eq t "MergeFailed")) [
        | inl c ↦ inr (inr (inl ((eq_iff t "MergeFailed").0 c)))
        | inr c ↦ inr (inr (inr ((eq_iff t "MergeSkipped").0 (ground (arith, h, a, b, c)))))
      ]
    ]
  ]

  Ending-is_terminal : (event_type : String) → Ending event_type → is_terminal W event_type ≡ true
  Ending-is_terminal t (inl e) = rw e refl
  Ending-is_terminal t (inr (inl e)) = rw e refl
  Ending-is_terminal t (inr (inr (inl e))) = rw e refl
  Ending-is_terminal t (inr (inr (inr e))) = rw e refl

  -- The inner query, by its answer.
  ends-true :
      (task : String) (attempt e : EventEnvelope V)
      → W.text_at attempt.payload "task_id" ≡ some task
      → (is_terminal W e.event_type && same_task W e.payload attempt.payload) ≡ true
      → Ended task e
  unfolding text_is
  ends-true task attempt e own h =
      let same : text_is W e.payload "task_id" task ≡ true = ground (arith, h, own) in
      (
        is_terminal-Ending e.event_type (ground (arith, h)),
        found-eq (W.text_at e.payload "task_id") task same,
      )

  ends-back :
      (task : String) (attempt e : EventEnvelope V)
      → W.text_at attempt.payload "task_id" ≡ some task
      → Ended task e
      → (is_terminal W e.event_type && same_task W e.payload attempt.payload) ≡ true
  unfolding text_is
  ends-back task attempt e own (over, named) =
      rw (Ending-is_terminal e.event_type over, same_task, own, text_is, named)
        ((eq_iff task task).1 refl)

  pub in_flight-Busy :
      (cycle_id task_id : Uuid) (log : List (EventEnvelope V))
      → in_flight W cycle_id task_id log ≡ true
      → Busy cycle_id task_id log
  unfolding in_flight in_flight_event text_is text_differs
  in_flight-Busy cycle_id task_id log h =
      let (e, mem, hit) = any-some (in_flight_event W cycle_id task_id log) log h in
      let (task, own, apart) =
        differs-eq (W.text_at e.payload "task_id") (W.show_uuid task_id) (ground (arith, hit)) in
      let cycle =
        found-eq (W.text_at e.payload "cycle_id") (W.show_uuid cycle_id) (ground (arith, hit)) in
      let kind = (eq_iff e.event_type "MergeAttempted").0 (ground (arith, hit)) in
      let open_still : any (λ t. is_terminal W t.event_type && same_task W t.payload e.payload) log
          ≡ false =
        ground (arith, hit) in
      (
        task,
        apart,
        (e, mem, (kind, cycle, own)),
        λ t there ended. absurd (
            cc (
              ends-back task e t own ended,
              any-none (λ t. is_terminal W t.event_type && same_task W t.payload e.payload) log
                  open_still t there,
            )),
      )

  pub in_flight-Free :
      (cycle_id task_id : Uuid) (log : List (EventEnvelope V))
      → in_flight W cycle_id task_id log ≡ false
      → Free cycle_id task_id log
  unfolding in_flight in_flight_event text_is text_differs
  in_flight-Free cycle_id task_id log h task apart e mem (kind, cycle, own) =
      let missed = any-none (in_flight_event W cycle_id task_id log) log h e mem in
      let kind_true = (eq_iff e.event_type "MergeAttempted").1 kind in
      let cycle_true = (eq_iff (W.show_uuid cycle_id) (W.show_uuid cycle_id)).1 refl in
      let over : any (λ t. is_terminal W t.event_type && same_task W t.payload e.payload) log
          ≡ true =
        ground (
          arith,
          missed,
          kind_true,
          cycle,
          cycle_true,
          own,
          differs-true task (W.show_uuid task_id) apart,
        ) in
      let (t, there, hit) =
        any-some (λ t. is_terminal W t.event_type && same_task W t.payload e.payload) log over in
      (t, there, ends-true task e t own hit)
