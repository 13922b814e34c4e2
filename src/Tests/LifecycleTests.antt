-- ===== src/Tests/LifecycleTests.antt =====
-- crates/tinymcp-bus/src/client_lifecycle/machine.rs: the machine at concrete inputs.
use tinymcp.Common.{◌&&◌, is_some, ℕ, ◌≡◌, refl, false, none, some, ok, err, List, [], ◌∷◌}
use native.Mathlib.Decide.{ℕ_discrete}
use tinymcp.Lifecycle.Machine.{
  OpenConfiguredResponse, complete, failed, OpenObject, open_on, Step, poll_open, poll_close,
  ConfiguredLifecycle, open_step, close_step, open_replied, open_polled, close_replied, is_closed,
  open_object, new,
}
use tinymcp.Lifecycle.Machine.Ownership.{
  Shows, Event, step, asked_open, asked_close, open_answer, open_status, close_answer, held,
  IsClean, run, last_told, run_told,
}
use tinymcp.Lifecycle.Machine.Resumption.{replied_resumes}
use tinymcp.Lifecycle.Machine.Progress.{Module, drive_open, drive_close, IsReady, within_four}

-- Configurations are numbers here.
abbrev receipt_of : ℕ → OpenConfiguredResponse
receipt_of n = record { object_path = "/dir"; transition_id = "t1" }

abbrev served : OpenObject ℕ
served = record { config = 7; object_path = "/dir" }

abbrev serving : ConfiguredLifecycle ℕ
serving = record { state = open_on served; retried_terminal = false }

abbrev opened_and_failed_close : List (Event ℕ)
opened_and_failed_close =
    asked_open 7
    ∷ open_answer (ok (receipt_of 7))
    ∷ open_status failed
    ∷ open_answer (ok (receipt_of 7))
    ∷ open_status complete
    ∷ asked_close
    ∷ close_answer (err tt)
    ∷ []

run_told_example :
    let m = run ℕ_discrete opened_and_failed_close new in
    let o = last_told ℕ_discrete opened_and_failed_close new none in
    (held m.state ≡ o)
    × ((is_closed m && is_some o) ≡ false)
    × Shows (open_object m) o
    × IsClean m.state m.retried_terminal
run_told_example = run_told ℕ_discrete opened_and_failed_close

run_told_runs : last_told ℕ_discrete opened_and_failed_close new none ≡ some served
unfolding last_told step open_step close_step open_replied open_polled close_replied new ℕ_discrete
run_told_runs = refl

replied_resumes_example :
    let m1 = (open_step ℕ_discrete 8 serving).0 in
    let n1 = (close_step serving).0 in
    let opening = open_replied (ok (receipt_of 8)) m1 in
    let closing = close_replied (ok (some "c1")) n1 in
    (((open_step ℕ_discrete 9 opening).1 ≡ poll_open "t1")
      × ((close_step opening).1 ≡ poll_open "t1")
      × (held (open_replied (err tt) m1).state ≡ held serving.state))
    × (((open_step ℕ_discrete 9 closing).1 ≡ poll_close "c1")
        × ((close_step closing).1 ≡ poll_close "c1")
        × (close_replied (err tt) n1 ≡ n1))
unfolding open_step close_step ℕ_discrete
replied_resumes_example =
    replied_resumes ℕ_discrete 8 9 8 serving serving (receipt_of 8) "c1" refl refl

abbrev willing : Module ℕ
willing = record { receipt = receipt_of; close_id = some "c1" }

within_four_example :
    IsReady ℕ_discrete willing 8
      (open_step ℕ_discrete 8 (drive_open ℕ_discrete willing 4 8 serving)).1
    × ((close_step (drive_close ℕ_discrete willing 4 serving)).1 ≡ Step.closed)
within_four_example = within_four ℕ_discrete willing 8 serving
