-- ===== src/Lifecycle/Machine/Progress.antt =====
-- crates/tinymcp-bus/src/client_lifecycle/machine.rs: what comes of the calls of a driver.
use tinymcp.Common.{ℕ, zero, suc, ◌≡◌, ◌⊎◌, Bool, false, Option, some, String, ok, arith}
use tinymcp.Lifecycle.Machine.{
  OpenConfiguredResponse, TransitionStatus, complete, failed, unknown, continue, fault, transport,
  OpenObject, State, opening, open_on, closing, Step, ready, call_open, poll_open, call_close,
  poll_close, ConfiguredLifecycle, open_step, close_step, open_replied, open_polled, close_replied,
  close_polled,
}

-- A module that accepts every call and completes every transition. It may end a close at once.
pub record Module (C : Type 0) : Type 0 where
  pub receipt : C → OpenConfiguredResponse
  pub close_id : Option String

module _ {C : Type 0} (same : Discrete C) (module_of : Module C) where
  open module_of use {receipt, close_id}

  -- The call that a step names, and its answer fed back.
  abbrev pub answered : Step C → ConfiguredLifecycle C → ConfiguredLifecycle C
  answered (ready _) m = m
  answered (call_open config) m = open_replied (ok (receipt config)) m
  answered (poll_open _) m = (open_polled complete m).0
  answered call_close m = close_replied (ok close_id) m
  answered (poll_close _) m = (close_polled complete m).0
  answered Step.closed m = m

  pub drive_open : ℕ → C → ConfiguredLifecycle C → ConfiguredLifecycle C
  drive_open zero requested m = m
  drive_open (suc n) requested m =
      let (m1, s) = open_step same requested m in drive_open n requested (answered s m1)

  pub drive_close : ℕ → ConfiguredLifecycle C → ConfiguredLifecycle C
  drive_close zero m = m
  drive_close (suc n) m = let (m1, s) = close_step m in drive_close n (answered s m1)

  abbrev pub IsReady : C → Step C → Type 0
  IsReady requested (ready object) = object.config ≡ requested
  IsReady requested _ = ⊥

  open_within_four :
      (requested : C) (st : State C) (retried : Bool)
      → IsReady requested
          (open_step same requested
            (drive_open 4 requested (record { state = st; retried_terminal = retried }))).1
  unfolding drive_open open_step open_replied open_polled close_replied close_polled
  open_within_four requested (open_on object) retried = ground arith
  open_within_four requested st retried = ground arith

  close_within_four :
      (st : State C) (retried : Bool)
      → (close_step (drive_close 4 (record { state = st; retried_terminal = retried }))).1
        ≡ Step.closed
  unfolding drive_close close_step open_replied open_polled close_replied close_polled
  close_within_four (open_on object) retried = ground arith
  close_within_four st retried = ground arith

  -- From any state, four answered calls bring a directory to be open with the configuration that was
  -- asked for, whatever was in flight, and four bring it to be closed.
  pub within_four :
      (requested : C) (m : ConfiguredLifecycle C)
      → IsReady requested (open_step same requested (drive_open 4 requested m)).1
        × ((close_step (drive_close 4 m)).1 ≡ Step.closed)
  within_four requested m = (
    open_within_four requested m.state m.retried_terminal,
    close_within_four m.state m.retried_terminal,
  )

-- The two statuses of a transition that ended without completing.
abbrev pub IsEnded : TransitionStatus → Type 0
IsEnded status = (status ≡ failed) ⊎ (status ≡ unknown)

module _ {C : Type 0} (same : Discrete C) where
  -- A machine that owes no retry repeats an open that ended once, with the same configuration, and
  -- faults when it ends again; it then still polls the receipt of the second call, so that a later
  -- attempt can go on. A close does the same.
  pub gives_up :
      (config : C) (previous : Option (OpenObject C)) (object : OpenObject C)
      (first second : OpenConfiguredResponse) (id again : String) (e f : TransitionStatus)
      → IsEnded e
      → IsEnded f
      → let m : ConfiguredLifecycle C = record {
        state = opening config previous first;
        retried_terminal = false;
      } in
        let r = open_polled e m in
        let r' = open_polled f (open_replied (ok second) r.0) in
        let n : ConfiguredLifecycle C = record {
          state = closing object id;
          retried_terminal = false;
        } in
        let q = close_polled e n in
        let q' = close_polled f (close_replied (ok (some again)) q.0) in
        (r.1 ≡ continue)
        × ((close_step r.0).1 ≡ call_open config)
        × (r'.1 ≡ fault transport)
        × (r'.0 ≡ record { state = opening config previous second; retried_terminal = false })
        × (q.1 ≡ continue)
        × ((close_step q.0).1 ≡ call_close)
        × (q'.1 ≡ fault transport)
        × (q'.0 ≡ record { state = closing object again; retried_terminal = false })
  unfolding close_step open_replied open_polled close_replied close_polled
  gives_up config previous object first second id again e f he hf = ground arith
