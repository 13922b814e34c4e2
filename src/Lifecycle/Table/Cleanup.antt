-- ===== src/Lifecycle/Table/Cleanup.antt =====
-- crates/tinymcp-bus/src/client_lifecycle/table.rs: the calls that run the action of a reservation.
-- They release their locks between their steps, so what other threads do there is given as
-- functions on the table.
use tinymcp.Common.{
  ℕ, zero, suc, Bool, true, false, ◌||◌, ◌&&◌, not, List, [], ◌∷◌, Option, none, some, String,
  lookup, remove, contains_key, if◌then◌else◌,
}
use tinymcp.Lifecycle.Table.{ClientTable, is_pointer, update, owns, reservation_for}

-- The other threads, at the points where `finish_cleanup` holds neither map's lock.
pub record Others (A : Type 0) : Type 0 where
  pub before_flag : ClientTable A → ClientTable A
  pub before_owner : ClientTable A → ClientTable A
  pub before_action : ClientTable A → ClientTable A
  pub before_evict : ClientTable A → ClientTable A
  pub before_release : ClientTable A → ClientTable A

-- No other thread.
abbrev pub alone : {A : Type 0} → Others A
alone = record {
  before_flag = λ t. t;
  before_owner = λ t. t;
  before_action = λ t. t;
  before_evict = λ t. t;
  before_release = λ t. t;
}

module _ {A : Type 0} where
  -- `after_close.get_or_insert(action)`.
  abbrev pub get_or_insert : Option A → A → A
  get_or_insert none action = action
  get_or_insert (some kept) action = kept

  abbrev pub set_action : ℕ → A → ClientTable A → ClientTable A
  set_action r action t = record t {
    cell =
        update t.cell r
          (record (t.cell r) { after_close = some (get_or_insert (t.cell r).after_close action) });
  }

  -- The loop of `reservation_with_action`: a round that lost its reservation to another thread starts
  -- again. `none` when the rounds given are used up.
  unfoldable pub reservation_with_action :
      (ℕ → ClientTable A → ClientTable A)
      → ℕ
      → String
      → A
      → ClientTable A
      → Option (ℕ × ClientTable A)
  reservation_with_action others zero dir action t = none
  reservation_with_action others (suc rounds) dir action t =
      let (r, t1) = reservation_for dir t in
      let t2 = others rounds t1 in
      let again = reservation_with_action others rounds dir action t2 in
      if is_pointer (lookup dir t2.reservations) r then some (r, set_action r action t2) else again

  -- Whether a client was given that does not own `dir`.
  abbrev pub is_replaced : String → Option ℕ → ClientTable A → Bool
  is_replaced dir none t = false
  is_replaced dir (some client) t = not (owns dir client t)

  abbrev pub drop_client : String → Option ℕ → ClientTable A → ClientTable A
  drop_client dir none t = t
  drop_client dir (some client) t = record t { clients = remove dir t.clients }

  -- The last section of `finish_cleanup`.
  unfoldable pub release : String → ℕ → ClientTable A → Bool × ClientTable A
  release dir r t =
      if not (t.cell r).host_completion_pending && is_pointer (lookup dir t.reservations) r
      then (true, record t { reservations = remove dir t.reservations })
      else (false, t)

-- An action may use the table.
module _ {A : Type 0} (perform : A → ClientTable A → Bool × ClientTable A) (o : Others A) where
  open o use {before_flag, before_owner, before_action, before_evict, before_release}

  abbrev pub run_action : Option A → ClientTable A → Bool × ClientTable A
  run_action none t = (true, t)
  run_action (some action) t = perform action t

  -- From the action on.
  unfoldable pub act : String → Option ℕ → ℕ → Option A → ClientTable A → Bool × ClientTable A
  act dir client r action t =
      let (succeeded, t1) = run_action action (before_action t) in
      let t2 = before_evict t1 in
      let t3 = before_release (drop_client dir client t2) in
      if not succeeded
      then (false, t1)
      else (if is_replaced dir client t2 then (false, t2) else release dir r t3)

  unfoldable pub finish_cleanup : String → Option ℕ → ℕ → ClientTable A → Bool × ClientTable A
  finish_cleanup dir client r t =
      let is_current = is_pointer (lookup dir t.reservations) r in
      let t1 = before_flag t in
      let t2 = before_owner t1 in
      if not is_current || (t1.cell r).host_completion_pending
      then (false, t1)
      else (if is_replaced dir client t2
          then (false, t2)
          else act dir client r (t.cell r).after_close t2)

  unfoldable pub finish_if_closed :
      String → ℕ → ℕ → Bool → ClientTable A → Option Bool × ClientTable A
  finish_if_closed dir client r is_closed t =
      let (finished, t1) = finish_cleanup dir (some client) r t in
      if is_closed then (some finished, t1) else (none, t)

  -- The loop of `retry_orphaned` over its copy of the reservations.
  unfoldable pub retry_each : List (String × ℕ) → ClientTable A → ClientTable A
  retry_each [] t = t
  retry_each ((dir, r) ∷ rest) t =
      retry_each rest (if contains_key dir t.clients then t else (finish_cleanup dir none r t).1)

  unfoldable pub retry_orphaned : ClientTable A → ClientTable A
  retry_orphaned t = retry_each t.reservations t
