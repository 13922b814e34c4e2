-- ===== src/Lifecycle/Machine/Resumption.antt =====
-- crates/tinymcp-bus/src/client_lifecycle/machine.rs: a call that another caller takes up.
use tinymcp.Common.{◌≡◌, some, String, ok, err, arith}
use tinymcp.Lifecycle.Machine.{
  OpenConfiguredResponse, call_open, poll_open, call_close, poll_close, ConfiguredLifecycle,
  open_step, close_step, open_replied, close_replied,
}
use tinymcp.Lifecycle.Machine.Ownership.{held}

module _ {C : Type 0} (same : Discrete C) where
  -- To ask for the next step twice is to ask once.
  pub step_idempotent :
      (requested : C) (m : ConfiguredLifecycle C)
      → (open_step same requested (open_step same requested m).0 ≡ open_step same requested m)
        × (close_step (close_step m).0 ≡ close_step m)
  unfolding open_step close_step
  step_idempotent requested m = ground arith

  -- Once the module accepted an open, any later caller, to open whatever or to close, is sent to
  -- the receipt; once it refused it, the machine holds what it held before.
  pub open_replied_resumes :
      (requested other k : C) (m : ConfiguredLifecycle C) (receipt : OpenConfiguredResponse)
      → (open_step same requested m).1 ≡ call_open k
      → let m1 = (open_step same requested m).0 in
        let accepted = open_replied (ok receipt) m1 in
        ((open_step same other accepted).1 ≡ poll_open receipt.transition_id)
        × ((close_step accepted).1 ≡ poll_open receipt.transition_id)
        × (held (open_replied (err tt) m1).state ≡ held m.state)
  unfolding open_step close_step open_replied
  open_replied_resumes requested other k m receipt h = ground arith

  -- Once the module accepted a close, any later caller is sent to the receipt; once it refused it, the
  -- machine is as it was.
  pub close_replied_resumes :
      (requested : C) (m : ConfiguredLifecycle C) (id : String)
      → (close_step m).1 ≡ call_close
      → let m1 = (close_step m).0 in
        let accepted = close_replied (ok (some id)) m1 in
        ((open_step same requested accepted).1 ≡ poll_close id)
        × ((close_step accepted).1 ≡ poll_close id)
        × (close_replied (err tt) m1 ≡ m1)
  unfolding open_step close_step close_replied
  close_replied_resumes requested m id h = ground arith

  -- Once the module accepted an open of `m`, any later caller, to open whatever or to close, is sent
  -- to its receipt, and once it refused it, the machine holds what it held before. Once it accepted a
  -- close of `n`, any later caller is sent to that receipt, and once it refused it, the machine is as
  -- it was.
  pub replied_resumes :
      (requested other k : C) (m n : ConfiguredLifecycle C) (receipt : OpenConfiguredResponse)
      (id : String)
      → (open_step same requested m).1 ≡ call_open k
      → (close_step n).1 ≡ call_close
      → let m1 = (open_step same requested m).0 in
        let n1 = (close_step n).0 in
        let opening = open_replied (ok receipt) m1 in
        let closing = close_replied (ok (some id)) n1 in
        (((open_step same other opening).1 ≡ poll_open receipt.transition_id)
          × ((close_step opening).1 ≡ poll_open receipt.transition_id)
          × (held (open_replied (err tt) m1).state ≡ held m.state))
        × (((open_step same other closing).1 ≡ poll_close id)
            × ((close_step closing).1 ≡ poll_close id)
            × (close_replied (err tt) n1 ≡ n1))
  replied_resumes requested other k m n receipt id opens closes = (
    open_replied_resumes requested other k m receipt opens,
    close_replied_resumes other n id closes,
  )
