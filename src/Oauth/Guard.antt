-- ===== src/Oauth/Guard.antt =====
-- crates/tinymcp/src/registry/oauth/endpoint_guard.rs: which endpoints that a server advertises are
-- refused. Parsing a URL and an address, and resolving a name, are what the caller brings.
pub mod Blocks
pub mod Accepted
use Prim.Native.String.{◌++◌}
use tinymcp.Common.{
  ℕ, ◌/◌, ◌%◌, Bool, true, false, ◌&&◌, ◌||◌, not, List, [], ◌∷◌, map, Option, none, some, String,
  str_eq, ◌==◌, leb, if◌then◌else◌, Result, ok, err, ◌>>=◌, unwrap_or,
}
use tinymcp.Common.Effects.{Effect}
use tinymcp.Error.{Error, malformed_response, endpoint_resolution}
use tinymcp.Transport.Wire.{Url}
use tinymcp.Common.Chars.{chars, text_of}
use tinymcp.Common.Slices.{is_char, trim_start_matches, trim_end_matches}
use Prim.Native.String.{char_at}

-- The four octets, or the eight segments.
pub data IpAddr : Type 0 where
  v4 : ℕ → ℕ → ℕ → ℕ → IpAddr
  v6 : ℕ → ℕ → ℕ → ℕ → ℕ → ℕ → ℕ → ℕ → IpAddr

-- `Ipv4Addr::is_loopback`, `is_private`, `is_link_local`, `is_unspecified`, `is_broadcast`,
-- `is_documentation` and `is_multicast`, then the three tests on octets. `& 0xc0` and `& 0xfe` drop
-- low bits, as a division does.
unfoldable pub is_blocked_v4 : ℕ → ℕ → ℕ → ℕ → Bool
is_blocked_v4 a b c d =
    a == 127
    || (a == 10 || a == 172 && leb 16 b && leb b 31 || a == 192 && b == 168)
    || a == 169 && b == 254
    || a == 0 && b == 0 && c == 0 && d == 0
    || a == 255 && b == 255 && c == 255 && d == 255
    || (a == 192 && b == 0 && c == 2
        || a == 198 && b == 51 && c == 100
        || a == 203 && b == 0 && c == 113)
    || leb 224 a && leb a 239
    || a == 0
    || a == 100 && b / 64 == 1
    || a == 198 && b / 2 == 9
    || leb 240 a

-- `Ipv6Addr::to_ipv4`: the compatible and the mapped addresses.
abbrev pub embeds_v4 : ℕ → ℕ → ℕ → ℕ → ℕ → ℕ → Bool
embeds_v4 a b c d e f = a == 0 && b == 0 && c == 0 && d == 0 && e == 0 && (f == 0 || f == 65535)

-- The masks 0xfe00 and 0xffc0 leave the upper 7 and 10 of 16 bits.
unfoldable pub is_blocked_v6 : ℕ → ℕ → ℕ → ℕ → ℕ → ℕ → ℕ → ℕ → Bool
unfolding is_blocked_v4
is_blocked_v6 a b c d e f g h =
    if embeds_v4 a b c d e f
    then is_blocked_v4 (g / 256) (g % 256) (h / 256) (h % 256)
    else (a == 0 && b == 0 && c == 0 && d == 0 && e == 0 && f == 0 && g == 0 && h == 1
        || a == 0 && b == 0 && c == 0 && d == 0 && e == 0 && f == 0 && g == 0 && h == 0
        || a / 256 == 255
        || a / 512 == 126
        || a / 64 == 1018
        || a == 100 && b == 65435
        || a / 64 == 1019)

unfoldable pub is_blocked_ip : IpAddr → Bool
unfolding is_blocked_v4 is_blocked_v6
is_blocked_ip (v4 a b c d) = is_blocked_v4 a b c d
is_blocked_ip (v6 a b c d e f g h) = is_blocked_v6 a b c d e f g h

pub record SocketAddr : Type 0 where
  pub ip : IpAddr
  pub port : ℕ

-- `Url::parse` with the text of its error, `IpAddr::from_str`, and the resolver of names: it may not
-- finish, it may fail, and the addresses have the port that it is given.
pub record Resolver (W : Type 0) : Type 0 where
  pub parse_url : String → Result Url String
  pub parse_ip : String → Option IpAddr
  pub resolve : String → ℕ → Effect W String (Result (List IpAddr) String)

abbrev pub refuse : String → String → Error
refuse what why = malformed_response (what ++ (" endpoint refused: " ++ why))

abbrev pub with_port : ℕ → List IpAddr → List SocketAddr
with_port port [] = []
with_port port (ip ∷ l) = (record { ip = ip; port = port }) ∷ with_port port l

unfoldable pub checked_addresses :
    String → Result (List SocketAddr) String → Result (List SocketAddr) Error
checked_addresses what (err e) = err (endpoint_resolution what e)
checked_addresses what (ok []) = err (endpoint_resolution what "the host has no addresses")
checked_addresses what (ok (a ∷ l)) = ok (a ∷ l)

unfoldable pub any_blocked : List SocketAddr → Bool
any_blocked [] = false
any_blocked (a ∷ l) = is_blocked_ip a.ip || any_blocked l

abbrev pub bare_host : String → String
bare_host host = text_of (
    trim_end_matches (is_char (char_at "]" 0))
      (trim_start_matches (is_char (char_at "[" 0)) (chars host)))

-- What the resolver's answer becomes, with the failure to wait for it first.
abbrev pub resolved :
    String → ℕ → Result (Result (List IpAddr) String) String → Result (List SocketAddr) Error
resolved what port (err e) = err (endpoint_resolution what ("resolution did not finish: " ++ e))
resolved what port (ok (err e)) = checked_addresses what (err e)
resolved what port (ok (ok l)) = checked_addresses what (ok (with_port port l))

unfoldable pub refuse_blocked :
    String → Result (List SocketAddr) Error → Result (List SocketAddr) Error
unfolding any_blocked
refuse_blocked what (err e) = err e
refuse_blocked what (ok l) =
    if any_blocked l then err (refuse what "it resolves to a disallowed address") else ok l

module _ {W : Type 0} (resolver : Resolver W) (what : String) where
  open resolver use {parse_url, parse_ip, resolve}

  abbrev pub addresses_of : String → ℕ → Option IpAddr → Effect W Error (List SocketAddr)
  addresses_of host port (some ip) w = (ok (record { ip = ip; port = port } ∷ []), w)
  addresses_of host port none w =
      (resolved what port (resolve host port w).0, (resolve host port w).1)

  abbrev pub guard_host : Url → Option String → Effect W Error (List SocketAddr)
  guard_host url none w = (err (refuse what "it has no host"), w)
  guard_host url (some h) w =
      let host = bare_host h in
      let found = addresses_of host (unwrap_or url.port 443) (parse_ip host) w in
      (refuse_blocked what found.0, found.1)

  abbrev pub guard_url : Result Url String → Effect W Error (List SocketAddr)
  guard_url (err e) w = (err (refuse what ("not a valid url: " ++ e)), w)
  guard_url (ok url) w =
      if not (str_eq url.scheme "https")
      then (err (refuse what ("must use https, not `" ++ (url.scheme ++ "`"))), w)
      else guard_host url url.host_str w

  unfoldable pub guard_endpoint : String → Effect W Error (List SocketAddr)
  unfolding refuse_blocked checked_addresses
  guard_endpoint raw w = guard_url (parse_url raw) w
