-- ===== src/Lifecycle/Table/Admission.antt =====
-- crates/tinymcp-bus/src/client_lifecycle/table.rs: the admission of clients, and reservations
-- with an action.
use tinymcp.Common.{
  Option, none, ℕ, ◌≡◌, Bool, true, false, ◌||◌, some, String, lookup, insert, refl,
  lookup-insert_self, lookup-remove, eq_refl, arith, Result, ok, err,
}
use tinymcp.Lifecycle.Table.{
  AdmitError, unavailable, create_failed, ClientTable, cleanup_pending, close_pending, owns, admit,
}
use tinymcp.Lifecycle.Table.Cleanup.{get_or_insert, finish_cleanup, act, release, run_action, alone}

module _ {A : Type 0} where
  -- The client that `admit` gives out, by the one that it found: that one, with the table as it was;
  -- or the constructor's, which is put in the table, and nothing else is changed.
  abbrev pub Given :
      {E : Type 0} → String → Result ℕ E → ClientTable A → Option ℕ → ℕ → ClientTable A → Type 0
  Given dir create t (some cached) client t' = (client ≡ cached) × (t' ≡ t)
  Given dir create t none client t' =
      (create ≡ ok client) × (t' ≡ record t { clients = insert dir client t.clients })

  -- What a caller of `admit` may conclude from its answer.
  abbrev pub Admitted :
      {E : Type 0}
      → String
      → Bool
      → Result ℕ E
      → ClientTable A
      → Result ℕ (AdmitError E) × ClientTable A
      → Type 0
  Admitted dir removed create t (ok client, t') =
      (removed ≡ false)
      × (close_pending dir t ≡ false)
      × (lookup dir t'.clients ≡ some client)
      × Given dir create t (lookup dir t.clients) client t'
  Admitted dir removed create t (err unavailable, t') =
      ((removed || close_pending dir t) ≡ true) × (t' ≡ t)
  Admitted dir removed create t (err (create_failed e), t') =
      (create ≡ err e)
      × (removed ≡ false)
      × (close_pending dir t ≡ false)
      × (lookup dir t.clients ≡ none)
      × (t' ≡ t)

  admitted :
      {E : Type 0} (dir : String) (removed : Bool) (create : Result ℕ E) (t : ClientTable A)
      (o : Option ℕ)
      → lookup dir t.clients ≡ o
      → Admitted dir removed create t (admit dir removed create t)
  unfolding admit close_pending cleanup_pending
  admitted dir removed (ok client) t none e =
      rw e (ground (arith, lookup-insert_self dir client t.clients))
  admitted dir removed (err f) t none e = rw e (ground arith)
  admitted dir removed (ok client) t (some cached) e = rw e (ground arith)
  admitted dir removed (err f) t (some cached) e = rw e (ground arith)

  -- A client is given out only for a directory that is neither removed, reserved nor retiring: the
  -- one that the table has, with the table left as it was, or where it has none the one the
  -- constructor makes, which is put in the table with nothing else changed. A refusal leaves the
  -- table as it was: the directory is removed, reserved or retiring; or it is none of these, it has
  -- no client and the error is the constructor's.
  pub admit-Admitted :
      {E : Type 0} (dir : String) (removed : Bool) (create : Result ℕ E) (t : ClientTable A)
      → Admitted dir removed create t (admit dir removed create t)
  admit-Admitted dir removed create t = admitted dir removed create t (lookup dir t.clients) refl

module _ {A : Type 0} (perform : A → ClientTable A → Bool × ClientTable A) where
  -- A cleanup that no other thread disturbs, of the current reservation, not fenced, by the client
  -- that owns the directory, with no action or one that succeeds and leaves the table alone: it
  -- finishes, and the directory is then free, neither reserved nor retiring, and `admit` takes
  -- whatever client its caller makes next.
  pub finish_cleanup-admit :
      {E : Type 0} (dir : String) (client r next : ℕ) (t : ClientTable A)
      → lookup dir t.reservations ≡ some r
      → (t.cell r).host_completion_pending ≡ false
      → lookup dir t.clients ≡ some client
      → run_action perform alone (t.cell r).after_close t ≡ (true, t)
      → let (finished, t') = finish_cleanup perform alone dir (some client) r t in
        (finished ≡ true)
        × (close_pending dir t' ≡ false)
        × ((admit {E = E} dir false (ok next) t').0 ≡ ok next)
  unfolding finish_cleanup act release admit close_pending cleanup_pending owns
  finish_cleanup-admit dir client r next t current unfenced owned acts =
      ground
        (arith, eq_refl dir, lookup-remove dir dir t.clients, lookup-remove dir dir t.reservations)

module _ {A : Type 0} where
  -- The action that a directory's reservation has.
  abbrev pub action_held : Option ℕ → ClientTable A → Option A
  action_held none t = none
  action_held (some r) t = (t.cell r).after_close

  -- The reservation `r` of a directory, with the action `held` or else the given one, in the table
  -- `after` with only the cell of that reservation changed.
  abbrev pub IsReserved :
      String → A → Option A → ℕ → ClientTable A → Option (ℕ × ClientTable A) → Type 0
  IsReserved dir action held r after none = ⊥
  IsReserved dir action held r after (some (r', t')) =
      (r' ≡ r)
      × (lookup dir t'.reservations ≡ some r)
      × ((t'.cell r).after_close ≡ some (get_or_insert held action))
      × (t' ≡ record after { cell = t'.cell })
