-- ===== src/Maintenance/Mode.antt =====
-- Entering and leaving maintenance, and the query for it: app/maintenance_service.rs.
use openclaw_rs.Base.{◌/◌, String, Bool, Option, none, some, List, [], ◌∷◌, if◌then◌else◌, str_eq}
use openclaw_rs.Errors.{domain, precondition, not_found}
use openclaw_rs.Sql.{Fault}
use openclaw_rs.Payload.{Uuid, EventEnvelope}
use openclaw_rs.Projection.Instance.{InstanceRow}
use openclaw_rs.Workers.Ticks.{state_of}
use openclaw_rs.Act.{Act, return, fail, query, ◌>>=◌}
use openclaw_rs.Wire.{text, actor, Wire, Fresh, envelope}
use openclaw_rs.Port.{EventStore, emit_event}
use Prim.Native.String.{◌++◌}
use openclaw_rs.Maintenance.{RebuildAnswers, check_maintenance_mode, maintenance_row}

-- `reason.unwrap_or_default()`
unfoldable pub unwrap_or_default : Option String → String
unwrap_or_default none = ""
unwrap_or_default (some s) = s

module _ {V : Type 0} (W : Wire V) where
  unfoldable pub entered_event : Fresh → Uuid → String → EventEnvelope V
  unfolding envelope
  entered_event fresh i details =
      envelope fresh i "InstanceBlocked"
        (W.object (
          ("reason", text "Maintenance")
          ∷ ("details", text details)
          ∷ ("actor", actor "Admin" (some ("id", "maintenance_service")))
          ∷ []))
        ("maintenance-enter-" ++ W.show_uuid i ++ "-" ++ W.show_nat (fresh.now / 1000))

  unfoldable pub exited_event : Fresh → Uuid → EventEnvelope V
  unfolding envelope
  exited_event fresh i =
      envelope fresh i "InstanceUnblocked"
        (W.object (("actor", actor "Admin" (some ("id", "maintenance_service"))) ∷ []))
        ("maintenance-exit-" ++ W.show_uuid i ++ "-" ++ W.show_nat (fresh.now / 1000))

  -- The state that is read, and the one that is asked for.
  unfoldable pub require_state :
      {S : Type 0} → Uuid → (wanted purpose : String) → Option String → Act S (Unit {0})
  unfolding return fail
  require_state i wanted purpose none = fail (domain (not_found "Instance" (W.show_uuid i)))
  require_state i wanted purpose (some state) =
      if str_eq state wanted
      then return tt
      else fail (
          domain (
            precondition (
              "instance "
              ++ W.show_uuid i
              ++ " is in '"
              ++ state
              ++ "' state, must be '"
              ++ wanted
              ++ "' to "
              ++ purpose
              ++ " maintenance")))

  module _ (E : EventStore V) where
    -- The transaction that both begin with: it locks, reads and commits, and writes nothing.
    unfoldable pub check_state :
        RebuildAnswers
        → List (InstanceRow V)
        → Uuid
        → (wanted purpose : String) → Act E.State (Unit {0})
    unfolding state_of require_state query ◌>>=◌
    check_state a instances i wanted purpose = query (λ e. e) a.begin tt >>= λ _.
        query (λ e. e) a.lock tt >>= λ _. query (λ e. e) a.read (state_of i instances) >>= λ state.
        require_state i wanted purpose state >>= λ _. query (λ e. e) a.commit tt

    unfoldable pub enter_maintenance :
        RebuildAnswers
        → Fresh
        → List (InstanceRow V)
        → Uuid
        → Option String
        → Act E.State (Unit {0})
    unfolding check_state entered_event unwrap_or_default emit_event ◌>>=◌
    enter_maintenance a fresh instances i reason =
        check_state a instances i "active" "enter" >>= λ _.
        emit_event E W "emit InstanceBlocked (maintenance): "
          (entered_event fresh i (unwrap_or_default reason))

    unfoldable pub exit_maintenance :
        RebuildAnswers → Fresh → List (InstanceRow V) → Uuid → Act E.State (Unit {0})
    unfolding check_state exited_event emit_event ◌>>=◌
    exit_maintenance a fresh instances i = check_state a instances i "blocked" "exit" >>= λ _.
        emit_event E W "emit InstanceUnblocked (maintenance): " (exited_event fresh i)

  unfoldable pub maintenance_of : {S : Type 0} → Uuid → Option (String × Option String) → Act S Bool
  unfolding check_maintenance_mode return fail
  maintenance_of i (some (state, reason)) = return (check_maintenance_mode state reason)
  maintenance_of i none = fail (domain (not_found "Instance" (W.show_uuid i)))

  unfoldable pub is_maintenance_mode :
      {S : Type 0} → Fault → List (InstanceRow V) → Uuid → Act S Bool
  unfolding maintenance_row maintenance_of query ◌>>=◌
  is_maintenance_mode fault instances i =
      query (λ e. e) fault (maintenance_row i instances) >>= λ row. maintenance_of i row
