-- ===== src/Lifecycle/Machine.antt =====
-- crates/tinymcp-bus/src/client_lifecycle/machine.rs: the open and close machine of one directory. A
-- configuration is known only by its equality test, so its type is a parameter.
pub mod Ownership
pub mod Resumption
pub mod Progress
use mathlib.Core.Logic.{ite}
use tinymcp.Common.{Bool, true, false, Option, none, some, String, Result, ok, err, if◌then◌else◌}

pub record OpenConfiguredResponse : Type 0 where
  pub object_path : String
  pub transition_id : String

pub data TransitionStatus : Type 0 where
  pending complete failed unknown : TransitionStatus

pub data Fault : Type 0 where
  transport module_fault : Fault

pub data Poll : Type 0 where
  continue done : Poll
  fault : Fault → Poll

pub record OpenObject (C : Type 0) : Type 0 where
  pub config : C
  pub object_path : String

pub data State (C : Type 0) : Type 0 where
  closed : State C
  starting_open : C → Option (OpenObject C) → State C
  opening : C → Option (OpenObject C) → OpenConfiguredResponse → State C
  open_on : OpenObject C → State C
  starting_close : OpenObject C → State C
  closing : OpenObject C → String → State C

pub data Step (C : Type 0) : Type 0 where
  ready : OpenObject C → Step C
  call_open : C → Step C
  poll_open : String → Step C
  call_close : Step C
  poll_close : String → Step C
  closed : Step C

pub record ConfiguredLifecycle (C : Type 0) : Type 0 where
  pub state : State C
  pub retried_terminal : Bool

module _ {C : Type 0} where
  -- `previous.map_or(State::Closed, State::Open)`.
  abbrev pub restored : Option (OpenObject C) → State C
  restored none = State.closed
  restored (some object) = open_on object

  is_closed_state : State C → Bool
  is_closed_state State.closed = true
  is_closed_state _ = false

  unfoldable pub is_closed : ConfiguredLifecycle C → Bool
  unfolding is_closed_state
  is_closed m = is_closed_state m.state

  open_object_in : State C → Option (OpenObject C)
  open_object_in (open_on object) = some object
  open_object_in _ = none

  unfoldable pub open_object : ConfiguredLifecycle C → Option (OpenObject C)
  unfolding open_object_in
  open_object m = open_object_in m.state

  close_step_in : State C → ConfiguredLifecycle C → ConfiguredLifecycle C × Step C
  close_step_in State.closed m = (m, Step.closed)
  close_step_in (open_on object) m = (record m { state = starting_close object }, call_close)
  close_step_in (starting_open config previous) m = (m, call_open config)
  close_step_in (opening config previous receipt) m = (m, poll_open receipt.transition_id)
  close_step_in (starting_close object) m = (m, call_close)
  close_step_in (closing object id) m = (m, poll_close id)

  unfoldable pub close_step : ConfiguredLifecycle C → ConfiguredLifecycle C × Step C
  unfolding close_step_in
  close_step m = close_step_in m.state m

  open_replied_in :
      State C
      → Result OpenConfiguredResponse (Unit {0})
      → ConfiguredLifecycle C
      → ConfiguredLifecycle C
  open_replied_in (starting_open config previous) (ok receipt) m = record m {
    state = opening config previous receipt;
  }
  open_replied_in (starting_open config previous) (err _) m = record {
    state = restored previous;
    retried_terminal = false;
  }
  open_replied_in _ reply m = m

  unfoldable pub open_replied :
      Result OpenConfiguredResponse (Unit {0}) → ConfiguredLifecycle C → ConfiguredLifecycle C
  unfolding open_replied_in
  open_replied reply m = open_replied_in m.state reply m

  -- The arm for a transition that ended without completing; `again` is the state of a retry.
  ended : State C → ConfiguredLifecycle C → ConfiguredLifecycle C × Poll
  ended again m =
      if m.retried_terminal
      then (record m { retried_terminal = false }, fault transport)
      else (record { state = again; retried_terminal = true }, continue)

  open_polled_in : State C → TransitionStatus → ConfiguredLifecycle C → ConfiguredLifecycle C × Poll
  unfolding ended
  open_polled_in (opening config previous receipt) pending m = (m, continue)
  open_polled_in (opening config previous receipt) complete m = (
    record {
      state = open_on (record { config = config; object_path = receipt.object_path });
      retried_terminal = false;
    },
    done,
  )
  open_polled_in (opening config previous receipt) _ m = ended (starting_open config previous) m
  open_polled_in _ status m = (m, continue)

  unfoldable pub open_polled :
      TransitionStatus → ConfiguredLifecycle C → ConfiguredLifecycle C × Poll
  unfolding open_polled_in
  open_polled status m = open_polled_in m.state status m

  close_replied_in :
      State C → Result (Option String) (Unit {0}) → ConfiguredLifecycle C → ConfiguredLifecycle C
  close_replied_in (starting_close object) (ok (some id)) m = record m { state = closing object id }
  close_replied_in (starting_close object) (ok none) m = record {
    state = State.closed;
    retried_terminal = false;
  }
  close_replied_in (starting_close object) (err _) m = m
  close_replied_in _ reply m = m

  unfoldable pub close_replied :
      Result (Option String) (Unit {0}) → ConfiguredLifecycle C → ConfiguredLifecycle C
  unfolding close_replied_in
  close_replied reply m = close_replied_in m.state reply m

  close_polled_in :
      State C → TransitionStatus → ConfiguredLifecycle C → ConfiguredLifecycle C × Poll
  unfolding ended
  close_polled_in (closing object id) pending m = (m, continue)
  close_polled_in (closing object id) complete m =
      (record { state = State.closed; retried_terminal = false }, done)
  close_polled_in (closing object id) _ m = ended (starting_close object) m
  close_polled_in _ status m = (m, continue)

  unfoldable pub close_polled :
      TransitionStatus → ConfiguredLifecycle C → ConfiguredLifecycle C × Poll
  unfolding close_polled_in
  close_polled status m = close_polled_in m.state status m

  unfoldable pub new : ConfiguredLifecycle C
  new = record { state = State.closed; retried_terminal = false }

module _ {C : Type 0} (same : Discrete C) where
  open_step_in : C → State C → ConfiguredLifecycle C → ConfiguredLifecycle C × Step C
  open_step_in requested (open_on object) m =
      ite (same object.config requested) (m, ready object)
        (record m { state = starting_open requested (some object) }, call_open requested)
  open_step_in requested State.closed m =
      (record m { state = starting_open requested none }, call_open requested)
  open_step_in requested (starting_open config previous) m = (m, call_open config)
  open_step_in requested (opening config previous receipt) m = (m, poll_open receipt.transition_id)
  open_step_in requested (starting_close object) m = (m, call_close)
  open_step_in requested (closing object id) m = (m, poll_close id)

  unfoldable pub open_step : C → ConfiguredLifecycle C → ConfiguredLifecycle C × Step C
  unfolding open_step_in
  open_step requested m = open_step_in requested m.state m
