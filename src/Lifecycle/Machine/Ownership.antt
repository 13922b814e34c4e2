-- ===== src/Lifecycle/Machine/Ownership.antt =====
-- crates/tinymcp-bus/src/client_lifecycle/machine.rs: the object that the machine holds, over any
-- sequence of events.
use mathlib.Core.Path.{subst}
use tinymcp.Common.{
  ◌&&◌, is_some, ◌≡◌, refl, Bool, false, Option, none, some, String, Result, ok, arith, List, [],
  ◌∷◌, ◌∙◌, ap,
}
use tinymcp.Lifecycle.Machine.{
  OpenConfiguredResponse, TransitionStatus, complete, OpenObject, State, starting_open, opening,
  open_on, starting_close, closing, ConfiguredLifecycle, open_step, close_step, open_replied,
  open_polled, close_replied, close_polled, new, open_object, is_closed,
}

-- A call of one of the machine's operations, with what the caller or the module said.
pub data Event (C : Type 0) : Type 0 where
  asked_open : C → Event C
  asked_close : Event C
  open_answer : Result OpenConfiguredResponse (Unit {0}) → Event C
  open_status : TransitionStatus → Event C
  close_answer : Result (Option String) (Unit {0}) → Event C
  close_status : TransitionStatus → Event C

-- What an event tells of the module: nothing new, that it holds an object, or that it holds none.
pub data Told (C : Type 0) : Type 0 where
  nothing : Told C
  holds : OpenObject C → Told C
  empty : Told C

module _ {C : Type 0} where
  abbrev pub after : Told C → Option (OpenObject C) → Option (OpenObject C)
  after nothing o = o
  after (holds object) o = some object
  after empty o = none

  -- The object that the module held when it last told of one.
  abbrev pub held : State C → Option (OpenObject C)
  held State.closed = none
  held (starting_open config previous) = previous
  held (opening config previous receipt) = previous
  held (open_on object) = some object
  held (starting_close object) = some object
  held (closing object id) = some object

  -- A completed open tells of a new object; a completed close, or one that had nothing left to do,
  -- tells that there is none.
  abbrev pub told : Event C → State C → Told C
  told (open_status complete) (opening config previous receipt) =
      holds (record { config = config; object_path = receipt.object_path })
  told (close_answer (ok none)) (starting_close object) = empty
  told (close_status complete) (closing object id) = empty
  told _ _ = nothing

  -- An object that is shown is the one that is held.
  abbrev pub Shows : Option (OpenObject C) → Option (OpenObject C) → Type 0
  Shows none o = Unit
  Shows (some object) o = o ≡ some object

  -- A machine that is open or closed owes no retry.
  abbrev pub IsClean : State C → Bool → Type 0
  IsClean State.closed retried = retried ≡ false
  IsClean (open_on object) retried = retried ≡ false
  IsClean _ retried = Unit

module _ {C : Type 0} (same : Discrete C) where
  unfoldable pub step : Event C → ConfiguredLifecycle C → ConfiguredLifecycle C
  step (asked_open requested) m = (open_step same requested m).0
  step asked_close m = (close_step m).0
  step (open_answer reply) m = open_replied reply m
  step (open_status status) m = (open_polled status m).0
  step (close_answer reply) m = close_replied reply m
  step (close_status status) m = (close_polled status m).0

  -- Each operation keeps the held object but for what the module told by it.
  step-held :
      (e : Event C) (st : State C) (retried : Bool)
      → held (step e (record { state = st; retried_terminal = retried })).state
        ≡ after (told e st) (held st)
  unfolding step open_step close_step open_replied open_polled close_replied close_polled
  step-held e st retried = ground arith

  step-IsClean :
      (e : Event C) (st : State C) (retried : Bool)
      → IsClean st retried
      → let m = step e (record { state = st; retried_terminal = retried }) in
        IsClean m.state m.retried_terminal
  unfolding step open_step close_step open_replied open_polled close_replied close_polled
  step-IsClean e st retried h = ground arith

  unfoldable pub run : List (Event C) → ConfiguredLifecycle C → ConfiguredLifecycle C
  run [] m = m
  run (e ∷ es) m = run es (step e m)

  -- The object that the module holds by all that it told, from what it held before.
  unfoldable pub last_told :
      List (Event C) → ConfiguredLifecycle C → Option (OpenObject C) → Option (OpenObject C)
  last_told [] m o = o
  last_told (e ∷ es) m o = last_told es (step e m) (after (told e m.state) o)

  run-held :
      (es : List (Event C)) (m : ConfiguredLifecycle C)
      → held (run es m).state ≡ last_told es m (held m.state)
  unfolding run last_told
  run-held [] m = refl
  run-held (e ∷ es) m =
      run-held es (step e m) ∙ ap (last_told es (step e m)) (step-held e m.state m.retried_terminal)

  run-IsClean :
      (es : List (Event C)) (m : ConfiguredLifecycle C)
      → IsClean m.state m.retried_terminal
      → IsClean (run es m).state (run es m).retried_terminal
  unfolding run
  run-IsClean [] m h = h
  run-IsClean (e ∷ es) m h = run-IsClean es (step e m) (step-IsClean e m.state m.retried_terminal h)

  shown_of_held :
      (st : State C) (retried : Bool)
      → let m : ConfiguredLifecycle C = record { state = st; retried_terminal = retried } in
        ((is_closed m && is_some (held st)) ≡ false) × Shows (open_object m) (held st)
  unfolding is_closed open_object
  shown_of_held st retried = ground arith

  -- After any calls of the operations, in any order and with any answers, the machine keeps in sight
  -- exactly the object that the module last told it holds: it says that nothing is open only if the
  -- module holds nothing, and names an open object only if that is the one. It then owes no retry.
  pub run_told :
      (es : List (Event C))
      → let m = run es new in
        let o = last_told es new none in
        (held m.state ≡ o)
        × ((is_closed m && is_some o) ≡ false)
        × Shows (open_object m) o
        × IsClean m.state m.retried_terminal
  unfolding new
  run_told es =
      let m = run es new in
      let told_of = run-held es new in
      let shown = shown_of_held m.state m.retried_terminal in
      (
        told_of,
        subst (λ o. (is_closed m && is_some o) ≡ false) told_of shown.0,
        subst (Shows (open_object m)) told_of shown.1,
        run-IsClean es new refl,
      )
