-- ===== src/Lifecycle/Table/Fences.antt =====
-- crates/tinymcp-bus/src/client_lifecycle/table.rs: the fence of the cleanup that a host does
-- itself.
use tinymcp.Common.{
  ℕ, ◌<◌, ◌≡◌, ◌≢◌, Bool, true, false, ◌||◌, ◌&&◌, not, List, [], ◌∷◌, Option, none, some, String,
  lookup, lookup-insert, lookup-remove, eq_iff, arith, Result, ok, err, if◌then◌else◌, str_eq,
  contains_key, if_split,
}
use tinymcp.Lifecycle.Table.{
  ClientTable, is_pointer, admit, retire, evict, complete_host_cleanup, reservation_for,
  reserve_host_completion,
}
use tinymcp.Lifecycle.Table.Cleanup.{
  Others, release, run_action, act, finish_cleanup, retry_each, is_replaced, drop_client,
}

-- The directory is held by the reservation `r`, which waits for the host.
pub record Fenced {A : Type 0} (dir : String) (r : ℕ) (t : ClientTable A) : Type 0 where
  pub held : lookup dir t.reservations ≡ some r
  pub waiting : (t.cell r).host_completion_pending ≡ true
  pub known : r < t.next

not_finished : (dir d : String) → (str_eq d dir && false) ≡ false
not_finished dir d = ground arith

module _ {A : Type 0} (dir : String) (r : ℕ) where
  release-Fenced :
      (d : String) (q : ℕ) (t : ClientTable A) → Fenced dir r t → Fenced dir r (release d q t).1
  unfolding release
  release-Fenced d q t f = ground (arith, eq_iff d dir, lookup-remove d dir t.reservations)

  pub admit-Fenced :
      {E : Type 0} (d : String) (removed : Bool) (create : Result ℕ E) (t : ClientTable A)
      → Fenced dir r t
      → Fenced dir r (admit d removed create t).1
  unfolding admit
  admit-Fenced d removed (ok c) t f = ground arith
  admit-Fenced d removed (err e) t f = ground arith

  pub retire-Fenced :
      (d : String) (t : ClientTable A) → Fenced dir r t → Fenced dir r (retire d t).1
  unfolding retire
  retire-Fenced d t f = ground arith

  pub evict-Fenced :
      (d : String) (c : ℕ) (t : ClientTable A) → Fenced dir r t → Fenced dir r (evict d c t).1
  unfolding evict
  evict-Fenced d c t f = ground arith

  pub reservation_for-Fenced :
      (d : String) (t : ClientTable A) → Fenced dir r t → Fenced dir r (reservation_for d t).1
  unfolding reservation_for
  reservation_for-Fenced d t f =
      ground (arith, eq_iff d dir, lookup-insert d dir t.next t.reservations)

  pub reserve_host_completion-Fenced :
      (d : String) (t : ClientTable A)
      → Fenced dir r t
      → Fenced dir r (reserve_host_completion d t).1
  unfolding reserve_host_completion
  reserve_host_completion-Fenced d t f =
      ground (arith, eq_iff d dir, lookup-insert d dir t.next t.reservations)

  pub complete-Fenced :
      (d : String) (q : ℕ) (t : ClientTable A)
      → q ≢ r
      → Fenced dir r t
      → Fenced dir r (complete_host_cleanup d q t).1
  unfolding complete_host_cleanup
  complete-Fenced d q t other f = ground (arith, eq_iff d dir, lookup-remove d dir t.reservations)

  -- The fence holds, and the call did not finish the fenced directory.
  abbrev pub Refused : String → Bool × ClientTable A → Type 0
  Refused d x = Fenced dir r x.1 × ((str_eq d dir && x.0) ≡ false)

  release-Refused :
      (d : String) (q : ℕ) (t : ClientTable A) → Fenced dir r t → Refused d (release d q t)
  unfolding release
  release-Refused d q t f = (release-Fenced d q t f, ground (arith, eq_iff d dir))

  drop_client-Fenced :
      (d : String) (client : Option ℕ) (t : ClientTable A)
      → Fenced dir r t
      → Fenced dir r (drop_client d client t)
  drop_client-Fenced d none t f = f
  drop_client-Fenced d (some c) t f = ground arith

  -- What is outside the call keeps the fence: its action, and the other threads.
  pub record KeepsFence (perform : A → ClientTable A → Bool × ClientTable A) (o : Others A)
      : Type 0 where
    pub action : (a : A) (t : ClientTable A) → Fenced dir r t → Fenced dir r (perform a t).1
    pub flag : (t : ClientTable A) → Fenced dir r t → Fenced dir r (o.before_flag t)
    pub owner : (t : ClientTable A) → Fenced dir r t → Fenced dir r (o.before_owner t)
    pub acting : (t : ClientTable A) → Fenced dir r t → Fenced dir r (o.before_action t)
    pub evicting : (t : ClientTable A) → Fenced dir r t → Fenced dir r (o.before_evict t)
    pub releasing : (t : ClientTable A) → Fenced dir r t → Fenced dir r (o.before_release t)

  module _ (perform : A → ClientTable A → Bool × ClientTable A) (o : Others A)
      (keeps : KeepsFence perform o) where
    run_action-Fenced :
        (action : Option A) (t : ClientTable A)
        → Fenced dir r t
        → Fenced dir r (run_action perform o action t).1
    run_action-Fenced none t f = f
    run_action-Fenced (some a) t f = keeps.action a t f

    act-Refused :
        (d : String) (client : Option ℕ) (q : ℕ) (action : Option A) (t : ClientTable A)
        → Fenced dir r t
        → Refused d (act perform o d client q action t)
    unfolding act
    act-Refused d client q action t f =
        let ran = run_action perform o action (o.before_action t) in
        let f1 = run_action-Fenced action _ (keeps.acting t f) in
        let f2 = keeps.evicting ran.1 f1 in
        let f3 = keeps.releasing _ (drop_client-Fenced d client _ f2) in
        if_split (Refused d) (not ran.0) (λ _. (f1, not_finished dir d))
          (λ _.
            if_split (Refused d) (is_replaced d client (o.before_evict ran.1))
              (λ _. (f2, not_finished dir d)) (λ _. release-Refused d q _ f3))

    -- A fence outlives every cleanup, of any directory and with any other threads, that its
    -- surroundings do not end themselves; and the cleanup of the fenced directory does not finish.
    pub finish_cleanup-Refused :
        (d : String) (client : Option ℕ) (q : ℕ) (t : ClientTable A)
        → Fenced dir r t
        → Refused d (finish_cleanup perform o d client q t)
    unfolding finish_cleanup
    finish_cleanup-Refused d client q t f =
        let f1 = keeps.flag t f in
        let f2 = keeps.owner _ f1 in
        if_split (Refused d)
          (not (is_pointer (lookup d t.reservations) q)
            || ((o.before_flag t).cell q).host_completion_pending)
          (λ _. (f1, not_finished dir d))
          (λ _.
            if_split (Refused d) (is_replaced d client (o.before_owner (o.before_flag t)))
              (λ _. (f2, not_finished dir d)) (λ _. act-Refused d client q _ _ f2))

    pub retry_each-Fenced :
        (l : List (String × ℕ)) (t : ClientTable A)
        → Fenced dir r t
        → Fenced dir r (retry_each perform o l t)
    unfolding retry_each
    retry_each-Fenced [] t f = f
    retry_each-Fenced ((d, q) ∷ l) t f =
        retry_each-Fenced l
          (if contains_key d t.clients then t else (finish_cleanup perform o d none q t).1)
          (if_split (Fenced dir r) (contains_key d t.clients) (λ _. f)
            (λ _. (finish_cleanup-Refused d none q t f).0))
