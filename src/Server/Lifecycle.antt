-- ===== src/Server/Lifecycle.antt =====
-- internal/server/session_lifecycle.go: the states of a PTY session.
pub mod Moves
pub mod Examples
use vibe_bridge.Base.{Bool, true, false, ◌||◌}

pub data State : Type 0 where
  starting connected detached ending ended failed : State

-- A method returns the new state and its Boolean result.
abbrev pub Outcome : Type 0
Outcome = State × Bool

pub new_session_lifecycle : State
new_session_lifecycle = starting

pub started : State → Outcome
started starting = (detached, true)
started s = (s, false)

pub attach : State → Outcome
attach detached = (connected, true)
attach s = (s, false)

pub detach : State → Outcome
detach connected = (detached, true)
detach s = (s, false)

pub begin_ending : State → Outcome
begin_ending starting = (ending, true)
begin_ending connected = (ending, true)
begin_ending detached = (ending, true)
begin_ending s = (s, false)

-- The argument tells whether the run ended with an error.
pub finish : Bool → State → Outcome
finish run_failed ended = (ended, false)
finish run_failed failed = (failed, false)
finish run_failed ending = (ended, true)
finish true s = (failed, true)
finish false s = (ended, true)

pub done : State → Bool
done ended = true
done failed = true
done _ = false

pub accepts_output : State → Bool
accepts_output connected = true
accepts_output detached = true
accepts_output _ = false

pub data PublicState : Type 0 where
  public_connected public_detached public_ended : PublicState

pub public_state : State → PublicState
public_state connected = public_connected
public_state starting = public_detached
public_state detached = public_detached
public_state _ = public_ended
