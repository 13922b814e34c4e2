-- ===== src/Registry/Operations/Refreshing.antt =====
-- crates/tinymcp/src/registry/ops/types.rs: what a repeated install leaves of its record.
use tinymcp.Common.{
  ◌≡◌, refl, true, List, [], ◌∷◌, Option, none, some, String, Map, if_split, Result, ok, err, ap,
  ◌∷◌,
}
use tinymcp.Common.Ordered.{extend, key_names, texts_eq, texts_eq_lem}
use tinymcp.Common.Effects.{Keeps, Yields, Yields-bind, Yields-after, Yields-done, ◌>>=◌}
use tinymcp.Error.{Error}
use tinymcp.Json.{Value}
use tinymcp.Registry.{InstalledServer}
use tinymcp.Registry.Connections.{Connections, Surroundings}
use tinymcp.Registry.Connections.Sessions.{Session}
use tinymcp.Registry.Operations.{
  Registry, InstallOutcome, refresh_keys, merge_env, merge_config, refresh_install, is_empty_map,
}

-- The configuration after an install: the one that it was given, or else the one before.
abbrev pub configured : Option Value → Option Value → Option Value
configured none before = before
configured (some config) before = some config

-- The names of the credentials after an install: those before where no credentials were given.
abbrev pub Renamed : Map String → List String → List String → Type 0
Renamed [] before after = after ≡ before
Renamed (x ∷ values) before after =
    (stored : Map String) × (after ≡ key_names (extend stored (x ∷ values)))

-- The record of an install, of which only the names of the credentials and the configuration are new.
abbrev pub SameInstall : Map String → Option Value → InstalledServer → InstalledServer → Type 0
SameInstall values config existing server =
    (server
      ≡ record existing { env_keys = server.env_keys; config = configured config existing.config })
    × Renamed values existing.env_keys server.env_keys

module _ {W : Type 0} (env : Surroundings W) (registry : Registry W) where
  -- A record that the store had, refreshed.
  abbrev pub IsRefreshed : Map String → Option Value → InstalledServer → InstallOutcome → Type 0
  IsRefreshed values config existing o =
      (o.already_installed ≡ true) × SameInstall values config existing o.server

  abbrev pub Always : Connections × W → Type 0
  Always s = Unit

  -- Of a result, where it is no error.
  abbrev pub Good : {A : Type 0} → (A → Type 0) → Result A Error → Connections × W → Type 0
  Good P (ok a) s = P a
  Good P (err e) s = Unit

  kept : {A : Type 0} (m : Session env A) → Keeps Always m
  kept m = record { at = λ s h. tt }

  -- A first step of which nothing has to be known.
  pub skip :
      {A B : Type 0} (P : B → Type 0) (m : Session env A) (f : A → Session env B)
      → ((a : A) → Yields Always (Good P) (f a))
      → Yields Always (Good P) (m >>= f)
  skip P m f next = Yields-after m f (kept m) next (λ e s h. tt)

  -- What is known of a first step without a state is known in the rest.
  pub given :
      {A B : Type 0} (P : A → Type 0) (Q : B → Type 0) (m : Session env A) (f : A → Session env B)
      → Yields Always (Good P) m
      → ((a : A) → P a → Yields Always (Good Q) (f a))
      → Yields Always (Good Q) (m >>= f)
  given P Q m f first next =
      Yields-bind (Good P) m f first (λ a. record { at = λ s p. (next a p).at s tt }) (λ e s h. tt)

  abbrev Merged : Map String → InstalledServer → InstalledServer → Type 0
  Merged values existing server =
      (server ≡ record existing { env_keys = server.env_keys })
      × Renamed values existing.env_keys server.env_keys

  refresh_keys-Merged :
      (x : String × String) (values stored : Map String) (existing : InstalledServer)
      → Yields Always (Good (Merged (x ∷ values) existing)) (
          refresh_keys env registry existing.server_id
            (key_names (extend stored (x ∷ values)))
            existing)
  refresh_keys-Merged x values stored existing =
      let names = key_names (extend stored (x ∷ values)) in
      if_split (Yields Always (Good (Merged (x ∷ values) existing)))
        (texts_eq existing.env_keys names)
        (λ h.
          Yields-done existing (λ s u. (refl, (stored, texts_eq_lem existing.env_keys names h))))
        (λ _.
          skip (Merged (x ∷ values) existing) _ _
            (λ u. Yields-done _ (λ s v. (refl, (stored, refl)))))

  merge_env-Merged :
      (values : Map String) (existing : InstalledServer)
      → Yields Always
          (Good (Merged values existing))
          (merge_env env registry (is_empty_map values) values existing)
  merge_env-Merged [] existing = Yields-done existing (λ s h. (refl, refl))
  merge_env-Merged (x ∷ values) existing =
      let P = Merged (x ∷ values) existing in
      skip P _ _
        (λ stored. skip P _ _ (λ u. skip P _ _ (λ v. refresh_keys-Merged x values stored existing)))

  same_config :
      (existing server : InstalledServer) (names : List String) (config : Option Value)
      → server ≡ record existing { env_keys = names }
      → record server { config = config } ≡ record existing { env_keys = names; config = config }
  same_config existing server names config e =
      ap (λ (s : InstalledServer). record s { config = config }) e

  merge_config-Same :
      (values : Map String) (config : Option Value) (existing merged : InstalledServer)
      → Merged values existing merged
      → Yields Always
          (Good (SameInstall values config existing))
          (merge_config env registry config merged)
  merge_config-Same values none existing merged h = Yields-done merged (λ s u. h)
  merge_config-Same values (some config) existing merged h =
      skip (SameInstall values (some config) existing) _ _ (λ u.
        Yields-done _ (λ s v. (same_config existing merged merged.env_keys (some config) h.0, h.1)))

  pub refresh_install-IsRefreshed :
      (values : Map String) (config : Option Value) (existing : InstalledServer)
      → Yields Always
          (Good (IsRefreshed values config existing))
          (refresh_install env registry existing values config)
  unfolding refresh_install
  refresh_install-IsRefreshed values config existing =
      let Q = IsRefreshed values config existing in
      given (Merged values existing) Q _ _ (merge_env-Merged values existing) (λ merged m.
        given (SameInstall values config existing) Q _ _
          (merge_config-Same values config existing merged m)
          (λ server h. Yields-done _ (λ s u. (refl, h))))
