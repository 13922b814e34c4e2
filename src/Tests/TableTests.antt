-- ===== src/Tests/TableTests.antt =====
-- The client table at concrete tables, of crates/tinymcp-bus/src/client_lifecycle/table.rs.
use tinymcp.Common.{
  ℕ, ◌≡◌, refl, Bool, true, false, Option, none, some, List, [], ◌∷◌, String, lookup, Result, ok,
  err, eq_refl, arith,
}
use tinymcp.Lifecycle.Table.{
  ClientTable, new, admit, unavailable, close_pending, reserve_host_completion, reservation_for,
  complete_host_cleanup,
}
use tinymcp.Lifecycle.Table.Cleanup.{alone, finish_cleanup}
use tinymcp.Lifecycle.Table.Admission.{Admitted, admit-Admitted, finish_cleanup-admit}
use tinymcp.Lifecycle.Table.Fences.{Fenced, KeepsFence}
use tinymcp.Lifecycle.Table.Traces.{
  Call, admitting, completing, retrying, finishing, calls, calls-admit, has_completion,
  is_completion,
}

-- Client 7 at `/a`, which reservation 0 holds for its host.
abbrev fenced_table : ClientTable Bool
fenced_table = record {
  clients = ("/a", 7) ∷ [];
  reservations = ("/a", 0) ∷ [];
  retiring = λ c. false;
  cell = λ r. record { after_close = none; host_completion_pending = true };
  next = 1;
}

-- The same, without the fence.
abbrev reserved_table : ClientTable Bool
reserved_table = record {
  clients = ("/a", 7) ∷ [];
  reservations = ("/a", 0) ∷ [];
  retiring = λ c. false;
  cell = λ r. record { after_close = some true; host_completion_pending = false };
  next = 1;
}

abbrev answer : Bool → ClientTable Bool → Bool × ClientTable Bool
answer b t = (b, t)

fenced : Fenced "/a" 0 fenced_table
unfolding lookup
fenced = record { held = refl; waiting = refl; known = ground arith }

undisturbed : KeepsFence {A = Bool} "/a" 0 answer alone
undisturbed = record {
  action = λ a t f. f;
  flag = λ t f. f;
  owner = λ t f. f;
  acting = λ t f. f;
  evicting = λ t f. f;
  releasing = λ t f. f;
}

admit-Admitted_example :
    Admitted {E = ℕ} "/b" false (ok 8) fenced_table (admit "/b" false (ok 8) fenced_table)
admit-Admitted_example = admit-Admitted "/b" false (ok 8) fenced_table

finish_cleanup-admit_example :
    let (finished, t') = finish_cleanup answer alone "/a" (some 7) 0 reserved_table in
    (finished ≡ true)
    × (close_pending "/a" t' ≡ false)
    × ((admit {E = ℕ} "/a" false (ok 9) t').0 ≡ ok 9)
unfolding lookup
finish_cleanup-admit_example =
    finish_cleanup-admit answer "/a" 7 0 9 reserved_table refl refl refl refl

-- Other threads admit a client to another directory.
abbrev admitting_b : ℕ → ClientTable Bool → ClientTable Bool
admitting_b rounds t = (admit {E = ℕ} "/b" false (ok 9) t).1

-- A stale confirmation, a cleanup and a retry, none of which ends the fence.
abbrev attempts : List (Call Bool ℕ)
attempts =
    completing "/a" 5 ∷ finishing "/a" (some 7) 0 ∷ retrying ∷ admitting "/a" false (ok 3) ∷ []

calls-admit_example :
    Fenced "/a" 0 (calls answer alone attempts fenced_table)
    × (admit {E = ℕ} "/a" false (ok 9) (calls answer alone attempts fenced_table)
        ≡ (err unavailable, calls answer alone attempts fenced_table))
unfolding has_completion is_completion
calls-admit_example =
    calls-admit "/a" 0 answer alone undisturbed attempts fenced_table false (ok 9) refl fenced

-- The table of a host's cleanup: reserved, confirmed, and free again.
free_again :
    (complete_host_cleanup "/a" 0 (reserve_host_completion "/a" (new {A = Bool})).1).0 ≡ true
unfolding complete_host_cleanup reserve_host_completion reservation_for new lookup
    tinymcp.Common.insert
free_again = refl
