-- ===== src/Projection/Task/Rebuild.antt =====
-- What the events alone can make of the tasks, as when `rebuild_projections` of
-- app/maintenance_service.rs empties the table and delivers every event again.
use openclaw_rs.Base.{
  ◌≡◌, refl, Bool, true, false, List, [], ◌∷◌, arith, All, match_str-elim, done, ◌also◌,
}
use openclaw_rs.Sql.{Fault, ignore}
use openclaw_rs.Sql.Rows.{Evolves, stop, born, row}
use openclaw_rs.Sql.Handlers.{
  Yields, Yields-bind, Yields-update, Yields-insert, Handles, submit-Handles, ignore-Handles,
  deliver,
}
use openclaw_rs.Payload.{Serde, EventEnvelope}
use openclaw_rs.Projection.Task.{
  TaskStatus, scheduled, cancelled, skipped, is, TaskRow, task_scheduled, task_retry_scheduled,
  task_passed, task_failed, task_cancelled, task_skipped, arms, handle,
}

-- No run has taken up the task.
abbrev pub is_idle : TaskStatus → Bool
is_idle scheduled = true
is_idle cancelled = true
is_idle skipped = true
is_idle s = false

abbrev pub Idle : {V : Type 0} → TaskRow V → Type 0
Idle r = is_idle r.state ≡ true

abbrev KeepsIdle : {V : Type 0} → TaskRow V → TaskRow V → Type 0
KeepsIdle r s = Idle r → Idle s

stay : {V : Type 0} (r : TaskRow V) → KeepsIdle r r
stay r h = h

Evolves-Idle :
    {V : Type 0} {rows after : List (TaskRow V)}
    → Evolves KeepsIdle Idle rows after
    → All Idle rows
    → All Idle after
Evolves-Idle stop h = tt
Evolves-Idle (born r b) h = (b, tt)
Evolves-Idle (row step rest) (h, hs) = (step h, Evolves-Idle rest hs)

module _ (J : Serde) (e : EventEnvelope (Serde.Value J)) where
  scheduled-Yields : Yields KeepsIdle Idle (task_scheduled J e)
  unfolding task_scheduled
  scheduled-Yields = Yields-bind _ _ λ task_id. Yields-bind _ _ λ cycle_id.
      Yields-bind _ _ λ task_key. Yields-bind _ _ λ phase. Yields-bind _ _ λ ordinal.
        Yields-bind _ _ λ title. Yields-bind _ _ λ description.
          Yields-bind _ _ λ acceptance. Yields-bind _ _ λ max_retries. Yields-insert stay _ _ refl

  retry_scheduled-Yields : Yields KeepsIdle Idle (task_retry_scheduled J e)
  unfolding task_retry_scheduled is
  retry_scheduled-Yields =
      Yields-bind _ _ λ i. Yields-update stay _ _ (λ r h idle. refl) (λ r h. ground arith)

  passed-Yields : Yields KeepsIdle Idle (task_passed J e)
  unfolding task_passed is
  passed-Yields =
      Yields-bind _ _ λ i. Yields-update stay _ _ (λ r h idle. ground arith) (λ r h. ground arith)

  failed-Yields : Yields KeepsIdle Idle (task_failed J e)
  unfolding task_failed is
  failed-Yields =
      Yields-bind _ _ λ i. Yields-update stay _ _ (λ r h idle. ground arith) (λ r h. ground arith)

  cancelled-Yields : Yields KeepsIdle Idle (task_cancelled J e)
  unfolding task_cancelled is
  cancelled-Yields =
      Yields-bind _ _ λ i. Yields-update stay _ _ (λ r h idle. refl) (λ r h. ground arith)

  skipped-Yields : Yields KeepsIdle Idle (task_skipped J e)
  unfolding task_skipped is
  skipped-Yields =
      Yields-bind _ _ λ i. Yields-update stay _ _ (λ r h idle. refl) (λ r h. ground arith)

  handle-Idle : Handles KeepsIdle Idle (handle J e)
  unfolding handle
  handle-Idle =
      match_str-elim (Handles KeepsIdle Idle) e.event_type (arms J e) ignore
        (submit-Handles stay _ scheduled-Yields
          also submit-Handles stay _ retry_scheduled-Yields
          also submit-Handles stay _ passed-Yields
          also submit-Handles stay _ failed-Yields
          also submit-Handles stay _ cancelled-Yields
          also submit-Handles stay _ skipped-Yields
          also done)
        (ignore-Handles stay)

-- If no task of the table has been taken up, that is, each is scheduled, cancelled or skipped, then
-- none is active, verifying, passed or failed after any sequence of events that are delivered to the
-- task projector, over a database that may refuse any of them.
pub deliver-Idle :
    (J : Serde) (es : List (EventEnvelope (Serde.Value J) × Fault))
    (rows : List (TaskRow (Serde.Value J)))
    → All Idle rows
    → All Idle (deliver (handle J) es rows)
unfolding deliver
deliver-Idle J [] rows h = h
deliver-Idle J ((e, fault) ∷ es) rows h =
    deliver-Idle J es (handle J e fault rows).0
      (Evolves-Idle ((handle-Idle J e).evolves fault rows) h)
