-- ===== src/States/Debug.antt =====
-- The texts that `format!("{:?}", …)` makes of a state and of a trigger. `#[derive(Debug)]`
-- generates them, so they are a parameter of the state machines.
use openclaw_rs.Base.{String}
use openclaw_rs.Errors.{DomainError, invalid_transition}

pub record Debug (S T : Type 0) : Type 0 where
  pub state : S → String
  pub trigger : T → String

-- The helper `invalid_transition` of states.rs, at the two labels.
unfoldable pub invalid : {S T : Type 0} → Debug S T → String → S → T → DomainError
invalid d entity s t = invalid_transition entity (d.state s) (d.trigger t)
