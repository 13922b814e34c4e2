-- ===== src/Supervisor/Hosts.antt =====
-- crates/tinymcp/src/registry/supervisor/types.rs, `run` and `run_many`: the loop of one supervisor,
-- and one supervisor for each registry that the host has open. A loop runs until it is dropped: here
-- it runs over the instants at which its timer fired.
use tinymcp.Common.{
  ◌≡◌, ◌≢◌, ◌∙◌, refl, ap, List, [], ◌∷◌, map, Option, none, some, String, Map, lookup, insert,
  lookup-insert, arith, eq_iff, unwrap_or, All, str_eq, if_split,
}
use tinymcp.Supervisor.{
  Instant, SupervisorEvent, SupervisorConfig, McpClientIdentityConfig, McpProxyConfig, Outside,
}
use tinymcp.Supervisor.Cycle.{Supervisor, new, tick}
use tinymcp.Supervisor.Invariant.{Inv, new-Inv, tick-Inv}

module _ {W : Type 0} where
  unfoldable pub run : Outside W → Supervisor → List Instant → W → Supervisor × W
  run outside s [] w = (s, w)
  run outside s (now ∷ nows) w = let (s1, _, w1) = tick outside s now w in run outside s1 nows w1

pub record SupervisedHost (W : Type 0) : Type 0 where
  pub key : String
  pub registry : Outside W
  pub identity : McpClientIdentityConfig
  pub proxy : Option McpProxyConfig

-- `supervisors.entry(key).or_insert_with(..)`.
unfoldable pub supervisor_for :
    {W : Type 0} → SupervisorConfig → SupervisedHost W → Map Supervisor → Supervisor
supervisor_for config host supervisors =
    unwrap_or (lookup host.key supervisors) (new config host.identity host.proxy)

module _ {W : Type 0} (config : SupervisorConfig) where
  -- The body of the loop: the hosts listed at this instant, with the reports in the order of `on_report`.
  unfoldable pub round :
      List (SupervisedHost W)
      → Map Supervisor
      → Instant
      → W
      → Map Supervisor × List (String × List SupervisorEvent) × W
  round [] supervisors now w = (supervisors, [], w)
  round (host ∷ hosts) supervisors now w =
      let (s1, report, w1) = tick host.registry (supervisor_for config host supervisors) now w in
      let (supervisors', reports, w2) = round hosts (insert host.key s1 supervisors) now w1 in
      (supervisors', (host.key, report) ∷ reports, w2)

  unfoldable pub run_many :
      List (Instant × List (SupervisedHost W)) → Map Supervisor → W → Map Supervisor × W
  run_many [] supervisors w = (supervisors, w)
  run_many ((now, hosts) ∷ later) supervisors w =
      let (supervisors', _, w1) = round hosts supervisors now w in run_many later supervisors' w1

-- A supervisor that is kept satisfies the invariant.
abbrev IsKept : Option Supervisor → Type 0
IsKept none = Unit
IsKept (some s) = Inv s

abbrev pub AllInv : Map Supervisor → Type 0
AllInv m = (key : String) → IsKept (lookup key m)

insert-AllInv :
    (key : String) (s : Supervisor) (m : Map Supervisor)
    → Inv s
    → AllInv m
    → AllInv (insert key s m)
insert-AllInv key s m v h j =
    rw (lookup-insert key j s m) (if_split IsKept (str_eq key j) (λ _. v) (λ _. h j))

kept-Inv : (o : Option Supervisor) (s : Supervisor) → Inv s → IsKept o → Inv (unwrap_or o s)
kept-Inv none s v h = v
kept-Inv (some t) s v h = h

module _ {W : Type 0} (config : SupervisorConfig) where
  supervisor_for-Inv :
      (host : SupervisedHost W) (m : Map Supervisor) → AllInv m → Inv (supervisor_for config host m)
  unfolding supervisor_for
  supervisor_for-Inv host m h = kept-Inv _ _ (new-Inv config host.identity host.proxy) (h host.key)

  round-AllInv :
      (hosts : List (SupervisedHost W)) (m : Map Supervisor) (now : Instant) (w : W)
      → AllInv m
      → AllInv (round config hosts m now w).0
  unfolding round
  round-AllInv [] m now w h = h
  round-AllInv (host ∷ hosts) m now w h =
      let r = tick host.registry (supervisor_for config host m) now w in
      round-AllInv hosts (insert host.key r.0 m) now r.2 (
        insert-AllInv host.key r.0 m (tick-Inv host.registry _ now w (supervisor_for-Inv host m h))
          h)

  run_many-AllInv_from :
      (rounds : List (Instant × List (SupervisedHost W))) (m : Map Supervisor) (w : W)
      → AllInv m
      → AllInv (run_many config rounds m w).0
  unfolding run_many
  run_many-AllInv_from [] m w h = h
  run_many-AllInv_from ((now, hosts) ∷ rounds) m w h =
      let r = round config hosts m now w in
      run_many-AllInv_from rounds r.0 r.2 (round-AllInv hosts m now w h)

  -- Whatever registries the host lists at each instant, and whatever they answer, every supervisor
  -- that the loop keeps satisfies the invariant.
  pub run_many-AllInv :
      (rounds : List (Instant × List (SupervisedHost W))) (w : W)
      → AllInv (run_many config rounds [] w).0
  run_many-AllInv rounds w = run_many-AllInv_from rounds [] w (unfold lookup in (λ key. tt))

  -- A round reports on the hosts in the order in which they were listed, and leaves the supervisor
  -- of a host that was not listed as it was.
  pub round_order :
      (hosts : List (SupervisedHost W)) (m : Map Supervisor) (now : Instant) (w : W) (key : String)
      → All (λ h. h.key ≢ key) hosts
      → (map (λ r. r.0) (round config hosts m now w).1 ≡ map (λ h. h.key) hosts)
        × (lookup key (round config hosts m now w).0 ≡ lookup key m)
  unfolding round
  round_order [] m now w key h = (refl, refl)
  round_order (host ∷ hosts) m now w key h =
      let r = tick host.registry (supervisor_for config host m) now w in
      let ih = round_order hosts (insert host.key r.0 m) now r.2 key h.1 in
      (
        ap (λ l. host.key ∷ l) ih.0,
        ih.1 ∙ ground (arith, eq_iff host.key key, lookup-insert host.key key r.0 m, h.0),
      )

-- A supervisor that runs from the start satisfies the invariant after any number of cycles.
pub run-Inv :
    {W : Type 0} (outside : Outside W) (s : Supervisor) (nows : List Instant) (w : W)
    → Inv s
    → Inv (run outside s nows w).0
unfolding run
run-Inv outside s [] w h = h
run-Inv outside s (now ∷ nows) w h =
    let r = tick outside s now w in run-Inv outside r.0 nows r.2 (tick-Inv outside s now w h)
