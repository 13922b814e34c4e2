-- ===== src/Oauth/Guard/Accepted.antt =====
-- crates/tinymcp/src/registry/oauth/endpoint_guard.rs: what is known of an endpoint that is accepted.
use tinymcp.Common.{
  ℕ, ◌≡◌, ◌≢◌, refl, false, not, List, [], ◌∷◌, Option, none, some, String, str_eq, if_split, arith,
  All, eq_iff, unwrap_or, Result, ok, err,
}
use tinymcp.Error.{Error, malformed_response, endpoint_resolution}
use tinymcp.Transport.Wire.{Url}
use tinymcp.Oauth.Guard.{
  IpAddr, is_blocked_ip, SocketAddr, Resolver, with_port, checked_addresses, any_blocked, resolved,
  refuse_blocked, addresses_of, guard_host, guard_url, guard_endpoint,
}

-- Addresses on a port, of which there is one at least.
abbrev pub OnPort : ℕ → Result (List SocketAddr) Error → Type 0
OnPort port (ok l) = (l ≢ []) × All (λ (a : SocketAddr). a.port ≡ port) l
OnPort port (err (endpoint_resolution what why)) = Unit
OnPort port (err _) = ⊥

-- An endpoint that is accepted is HTTPS, and its addresses are public; one that is not is refused
-- as malformed, or has a name that could not be resolved.
abbrev pub IsGuarded : Result Url String → Result (List SocketAddr) Error → Type 0
IsGuarded url (err (malformed_response why)) = Unit
IsGuarded url (err (endpoint_resolution what why)) = Unit
IsGuarded url (err _) = ⊥
IsGuarded url (ok l) =
    (endpoint : Url) × (url ≡ ok endpoint)
    × (endpoint.scheme ≡ "https")
    × (l ≢ [])
    × All (λ (a : SocketAddr). a.port ≡ unwrap_or endpoint.port 443) l
    × All (λ (a : SocketAddr). is_blocked_ip a.ip ≡ false) l

with_port-All :
    (port : ℕ) (l : List IpAddr) → All (λ (a : SocketAddr). a.port ≡ port) (with_port port l)
with_port-All port [] = tt
with_port-All port (ip ∷ l) = (refl, with_port-All port l)

none_blocked :
    (l : List SocketAddr)
    → any_blocked l ≡ false
    → All (λ (a : SocketAddr). is_blocked_ip a.ip ≡ false) l
unfolding any_blocked
none_blocked [] h = tt
none_blocked (a ∷ l) h = (ground arith, none_blocked l (ground arith))

resolved-OnPort :
    (what : String) (port : ℕ) (r : Result (Result (List IpAddr) String) String)
    → OnPort port (resolved what port r)
unfolding checked_addresses
resolved-OnPort what port (err e) = tt
resolved-OnPort what port (ok (err e)) = tt
resolved-OnPort what port (ok (ok [])) = tt
resolved-OnPort what port (ok (ok (ip ∷ l))) = (λ e. cc, (refl, with_port-All port l))

refuse_blocked-IsGuarded :
    (what : String) (endpoint : Url) (r : Result (List SocketAddr) Error)
    → endpoint.scheme ≡ "https"
    → OnPort (unwrap_or endpoint.port 443) r
    → IsGuarded (ok endpoint) (refuse_blocked what r)
unfolding refuse_blocked
refuse_blocked-IsGuarded what endpoint (err (endpoint_resolution w why)) h p = tt
refuse_blocked-IsGuarded what endpoint (err _) h p = absurd p
refuse_blocked-IsGuarded what endpoint (ok l) h p =
    if_split (IsGuarded (ok endpoint)) (any_blocked l) (λ _. tt)
      (λ k. (endpoint, refl, h, p.0, p.1, none_blocked l k))

module _ {W : Type 0} (resolver : Resolver W) (what : String) (w : W) where
  addresses-OnPort :
      (host : String) (port : ℕ) (o : Option IpAddr)
      → OnPort port (addresses_of resolver what host port o w).0
  addresses-OnPort host port (some ip) = (λ e. cc, (refl, tt))
  addresses-OnPort host port none = resolved-OnPort what port (resolver.resolve host port w).0

  host-IsGuarded :
      (endpoint : Url) (o : Option String)
      → endpoint.scheme ≡ "https"
      → IsGuarded (ok endpoint) (guard_host resolver what endpoint o w).0
  host-IsGuarded endpoint none h = tt
  host-IsGuarded endpoint (some host) h =
      refuse_blocked-IsGuarded what endpoint _ h (addresses-OnPort _ _ _)

  url-IsGuarded : (url : Result Url String) → IsGuarded url (guard_url resolver what url w).0
  url-IsGuarded (err e) = tt
  url-IsGuarded (ok endpoint) =
      if_split (λ (x : Result (List SocketAddr) Error × W). IsGuarded (ok endpoint) x.0)
        (not (str_eq endpoint.scheme "https")) (λ _. tt)
        (λ k.
          host-IsGuarded endpoint endpoint.host_str
            (ground (arith, eq_iff endpoint.scheme "https")))

  -- An endpoint that the guard accepts is a URL over HTTPS with at least one address; every address
  -- that it gives back is on the URL's port, or 443, and none of them is one of the refused. It fails
  -- only as malformed, or with a name that could not be resolved.
  pub guard_endpoint-IsGuarded :
      (raw : String) → IsGuarded (resolver.parse_url raw) (guard_endpoint resolver what raw w).0
  unfolding guard_endpoint
  guard_endpoint-IsGuarded raw = url-IsGuarded (resolver.parse_url raw)
