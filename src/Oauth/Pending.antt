-- ===== src/Oauth/Pending.antt =====
-- crates/tinymcp/src/registry/oauth/pending.rs: where a sign-in waits, in the memory of the process.
-- The time at which each call reads the clock is an argument, in Unix seconds.
pub mod Calls
use tinymcp.Common.{
  ℕ, ◌-◌, ltb, length, not, Bool, true, false, List, [], ◌∷◌, Option, none, some, String, Map,
  lookup, insert, remove, if◌then◌else◌,
}

-- `PENDING_TTL_SECS`.
abbrev pub pending_ttl_secs : ℕ
pending_ttl_secs = 600

pub record PendingAuthorization : Type 0 where
  pub server_id : String
  pub code_verifier : String
  pub client_id : String
  pub client_secret : Option String
  pub token_endpoint : String
  pub redirect_uri : String
  pub started_at : ℕ

-- The subtraction stops at 0, as `saturating_sub` does.
abbrev pub expired_at : ℕ → PendingAuthorization → Bool
expired_at now p = ltb p.started_at (now - pending_ttl_secs)

-- `HashMap::retain`.
unfoldable pub retain :
    (PendingAuthorization → Bool) → Map PendingAuthorization → Map PendingAuthorization
retain keep [] = []
retain keep ((state, p) ∷ l) =
    let rest = retain keep l in if keep p then (state, p) ∷ rest else rest

unfoldable pub pruned : ℕ → Map PendingAuthorization → Map PendingAuthorization
unfolding retain
pruned now entries = retain (λ p. not (expired_at now p)) entries

unfoldable pub park :
    String → PendingAuthorization → ℕ → Map PendingAuthorization → Map PendingAuthorization
unfolding pruned
park state p now entries = insert state p (pruned now entries)

unfoldable pub take :
    String → ℕ → Map PendingAuthorization → Option PendingAuthorization × Map PendingAuthorization
unfolding pruned
take state now entries = (lookup state (pruned now entries), remove state (pruned now entries))

unfoldable pub peek :
    String → ℕ → Map PendingAuthorization → Option PendingAuthorization × Map PendingAuthorization
unfolding pruned
peek state now entries = (lookup state (pruned now entries), pruned now entries)

unfoldable pub count : ℕ → Map PendingAuthorization → ℕ × Map PendingAuthorization
unfolding pruned
count now entries = (length (pruned now entries), pruned now entries)
