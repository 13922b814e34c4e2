-- ===== src/Oauth/Guard/Blocks.antt =====
-- crates/tinymcp/src/registry/oauth/endpoint_guard.rs: the refused addresses as blocks of addresses.
use tinymcp.Common.{
  ℕ, ◌+◌, ◌*◌, ◌^◌, ◌<◌, ◌≡◌, Bool, false, true, refl, ◌||◌, ◌&&◌, List, [], ◌∷◌, leb, ltb, arith,
  ◌==◌, ◌/◌, ◌%◌,
}
use tinymcp.Oauth.Guard.{v4, v6, is_blocked_v4, is_blocked_v6, is_blocked_ip}

-- An IPv4 address as a number.
abbrev pub address : ℕ → ℕ → ℕ → ℕ → ℕ
address a b c d = a * 16777216 + b * 65536 + c * 256 + d

-- A block begins at an address and has a number of addresses.
abbrev pub in_block : ℕ → ℕ → ℕ → Bool
in_block first size n = leb first n && ltb n (first + size)

unfoldable pub in_blocks : List (ℕ × ℕ) → ℕ → Bool
in_blocks [] n = false
in_blocks ((first, size) ∷ l) n = in_block first size n || in_blocks l n

-- This network, the private networks, the shared and the local ones, loopback, documentation,
-- benchmarks, and everything from the multicast addresses on.
abbrev pub blocks : List (ℕ × ℕ)
blocks =
    (address 0 0 0 0, 2 ^ 24)
    ∷ (address 10 0 0 0, 2 ^ 24)
    ∷ (address 100 64 0 0, 2 ^ 22)
    ∷ (address 127 0 0 0, 2 ^ 24)
    ∷ (address 169 254 0 0, 2 ^ 16)
    ∷ (address 172 16 0 0, 2 ^ 20)
    ∷ (address 192 0 2 0, 2 ^ 8)
    ∷ (address 192 168 0 0, 2 ^ 16)
    ∷ (address 198 18 0 0, 2 ^ 17)
    ∷ (address 198 51 100 0, 2 ^ 8)
    ∷ (address 203 0 113 0, 2 ^ 8)
    ∷ (address 224 0 0 0, 2 ^ 29)
    ∷ []

module _ (a b c d : ℕ) (ha : a < 256) (hb : b < 256) (hc : c < 256) (hd : d < 256) where
  this_network : in_block (address 0 0 0 0) (2 ^ 24) (address a b c d) ≡ (a == 0)
  this_network = ground arith

  private_10 : in_block (address 10 0 0 0) (2 ^ 24) (address a b c d) ≡ (a == 10)
  private_10 = ground arith

  shared : in_block (address 100 64 0 0) (2 ^ 22) (address a b c d) ≡ (a == 100 && b / 64 == 1)
  shared = ground arith

  loopback : in_block (address 127 0 0 0) (2 ^ 24) (address a b c d) ≡ (a == 127)
  loopback = ground arith

  link_local : in_block (address 169 254 0 0) (2 ^ 16) (address a b c d) ≡ (a == 169 && b == 254)
  link_local = ground arith

  private_172 :
      in_block (address 172 16 0 0) (2 ^ 20) (address a b c d) ≡ (a == 172 && leb 16 b && leb b 31)
  private_172 = ground arith

  documentation_1 :
      in_block (address 192 0 2 0) (2 ^ 8) (address a b c d) ≡ (a == 192 && b == 0 && c == 2)
  documentation_1 = ground arith

  private_192 : in_block (address 192 168 0 0) (2 ^ 16) (address a b c d) ≡ (a == 192 && b == 168)
  private_192 = ground arith

  benchmark : in_block (address 198 18 0 0) (2 ^ 17) (address a b c d) ≡ (a == 198 && b / 2 == 9)
  benchmark = ground arith

  documentation_2 :
      in_block (address 198 51 100 0) (2 ^ 8) (address a b c d) ≡ (a == 198 && b == 51 && c == 100)
  documentation_2 = ground arith

  documentation_3 :
      in_block (address 203 0 113 0) (2 ^ 8) (address a b c d) ≡ (a == 203 && b == 0 && c == 113)
  documentation_3 = ground arith

  multicast_on : in_block (address 224 0 0 0) (2 ^ 29) (address a b c d) ≡ leb 224 a
  multicast_on = ground arith

  v4-in_blocks : is_blocked_v4 a b c d ≡ in_blocks blocks (address a b c d)
  unfolding is_blocked_v4 in_blocks
  v4-in_blocks =
      rw
        (
          this_network, private_10, shared, loopback, link_local, private_172, documentation_1,
          private_192, benchmark, documentation_2, documentation_3, multicast_on,
        )
        (ground arith)

  -- An IPv4 address, its octets below 256, is refused exactly when it lies in one of the twelve
  -- blocks; so are the two IPv6 addresses that embed it, the mapped and the compatible one; and an
  -- address of the NAT64 prefix 64:ff9b is refused, whatever its other segments are.
  pub is_blocked-in_blocks :
      (e f g h i j : ℕ)
      → (is_blocked_ip (v4 a b c d) ≡ in_blocks blocks (address a b c d))
        × (is_blocked_ip (v6 0 0 0 0 0 65535 (a * 256 + b) (c * 256 + d))
            ≡ in_blocks blocks (address a b c d))
        × (is_blocked_ip (v6 0 0 0 0 0 0 (a * 256 + b) (c * 256 + d))
            ≡ in_blocks blocks (address a b c d))
        × (is_blocked_ip (v6 100 65435 e f g h i j) ≡ true)
  unfolding is_blocked_ip is_blocked_v6
  is_blocked-in_blocks e f g h i j =
      let e1 : (a * 256 + b) / 256 ≡ a = omega arith in
      let e2 : (a * 256 + b) % 256 ≡ b = omega arith in
      let e3 : (c * 256 + d) / 256 ≡ c = omega arith in
      let e4 : (c * 256 + d) % 256 ≡ d = omega arith in
      (v4-in_blocks, rw (e1, e2, e3, e4) v4-in_blocks, rw (e1, e2, e3, e4) v4-in_blocks, refl)
