-- ===== src/Lifecycle/Table.antt =====
-- crates/tinymcp-bus/src/client_lifecycle/table.rs: the process-wide cache of clients and its cleanup
-- reservations. Shared pointers are numbers: a client's number is given by who made it, and the
-- table gives a new number to each reservation. What they point at is the table's heap. The code
-- takes its locks for one section at a time; what other threads do between two sections of a call is
-- given to the call as functions on the table.
pub mod Admission
pub mod Cleanup
pub mod Fences
pub mod Traces
use tinymcp.Common.{
  ℕ, zero, suc, ◌+◌, Bool, true, false, ◌||◌, ◌&&◌, not, List, [], ◌∷◌, Option, none, some, String,
  Map, lookup, insert, remove, contains_key, ◌==◌, if◌then◌else◌, is_some, Result, ok, err,
}

pub record CleanupReservation (Action : Type 0) : Type 0 where
  pub after_close : Option Action
  pub host_completion_pending : Bool

pub data AdmitError (E : Type 0) : Type 0 where
  unavailable : AdmitError E
  create_failed : E → AdmitError E

-- `clients` and `reservations` hold pointers. `retiring` is the flag of the client that a pointer
-- leads to, and `cell` the reservation; `next` is the first unused reservation pointer.
pub record ClientTable (Action : Type 0) : Type 0 where
  pub clients : Map ℕ
  pub reservations : Map ℕ
  pub retiring : ℕ → Bool
  pub cell : ℕ → CleanupReservation Action
  pub next : ℕ

-- `is_some_and(|stored| Arc::ptr_eq(stored, pointer))`.
abbrev pub is_pointer : Option ℕ → ℕ → Bool
is_pointer none p = false
is_pointer (some stored) p = stored == p

abbrev pub update {ℓ} : {V : Type ℓ} → (ℕ → V) → ℕ → V → ℕ → V
update f p v q = if p == q then v else f q

-- `is_some_and(|client| client.is_retiring())`.
abbrev pub is_retiring : Option ℕ → (ℕ → Bool) → Bool
is_retiring none retiring = false
is_retiring (some c) retiring = retiring c

module _ {A : Type 0} where
  -- `CleanupReservation::default`.
  abbrev pub no_action : CleanupReservation A
  no_action = record { after_close = none; host_completion_pending = false }

  unfoldable pub new : ClientTable A
  new = record {
    clients = [];
    reservations = [];
    retiring = λ c. false;
    cell = λ r. no_action;
    next = 0;
  }

  unfoldable pub cleanup_pending : String → ClientTable A → Bool
  cleanup_pending dir t = contains_key dir t.reservations

  unfoldable pub close_pending : String → ClientTable A → Bool
  unfolding cleanup_pending
  close_pending dir t = cleanup_pending dir t || is_retiring (lookup dir t.clients) t.retiring

  unfoldable pub owns : String → ℕ → ClientTable A → Bool
  owns dir client t = is_pointer (lookup dir t.clients) client

  -- The part of `admit` below its first check, on the cached client.
  admit_cached :
      {E : Type 0}
      → Option ℕ
      → String
      → Result ℕ E
      → ClientTable A
      → Result ℕ (AdmitError E) × ClientTable A
  admit_cached (some client) dir create t =
      if t.retiring client then (err unavailable, t) else (ok client, t)
  admit_cached none dir (ok client) t =
      (ok client, record t { clients = insert dir client t.clients })
  admit_cached none dir (err e) t = (err (create_failed e), t)

  -- `removed` is the answer of the caller's context, `create` that of its constructor.
  unfoldable pub admit :
      {E : Type 0}
      → String
      → Bool
      → Result ℕ E
      → ClientTable A
      → Result ℕ (AdmitError E) × ClientTable A
  unfolding admit_cached cleanup_pending
  admit dir removed create t =
      if removed || cleanup_pending dir t
      then (err unavailable, t)
      else admit_cached (lookup dir t.clients) dir create t

  unfoldable pub insert_client : String → ℕ → ClientTable A → ClientTable A
  insert_client dir client t = record t { clients = insert dir client t.clients }

  unfoldable pub snapshot : ClientTable A → List (String × ℕ)
  snapshot t = t.clients

  abbrev mark_retiring : Option ℕ → ClientTable A → Option ℕ × ClientTable A
  mark_retiring none t = (none, t)
  mark_retiring (some client) t =
      (some client, record t { retiring = update t.retiring client true })

  unfoldable pub retire : String → ClientTable A → Option ℕ × ClientTable A
  retire dir t = mark_retiring (lookup dir t.clients) t

  -- `entry(dir).or_insert_with(..)`.
  abbrev reserve : Option ℕ → String → ClientTable A → ℕ × ClientTable A
  reserve (some r) dir t = (r, t)
  reserve none dir t = (
    t.next,
    record t {
      reservations = insert dir t.next t.reservations;
      cell = update t.cell t.next no_action;
      next = t.next + 1;
    },
  )

  unfoldable pub reservation_for : String → ClientTable A → ℕ × ClientTable A
  reservation_for dir t = reserve (lookup dir t.reservations) dir t

  -- A store to the flag of a reservation.
  abbrev pub set_pending : ℕ → Bool → ClientTable A → ClientTable A
  set_pending r b t = record t {
    cell = update t.cell r (record (t.cell r) { host_completion_pending = b });
  }

  unfoldable pub reserve_host_completion : String → ClientTable A → ℕ × ClientTable A
  unfolding reservation_for
  reserve_host_completion dir t = let (r, t1) = reservation_for dir t in (r, set_pending r true t1)

  unfoldable pub complete_host_cleanup : String → ℕ → ClientTable A → Bool × ClientTable A
  complete_host_cleanup dir r t =
      let t1 = set_pending r false t in
      let released = record t1 { reservations = remove dir t1.reservations } in
      if is_pointer (lookup dir t.reservations) r
      then (true, (if is_some (t.cell r).after_close then t1 else released))
      else (false, t)

  unfoldable pub evict : String → ℕ → ClientTable A → Bool × ClientTable A
  unfolding owns
  evict dir client t =
      if owns dir client t then (true, record t { clients = remove dir t.clients }) else (false, t)

  unfoldable pub existing_reservation : String → ClientTable A → Option ℕ
  existing_reservation dir t = lookup dir t.reservations
