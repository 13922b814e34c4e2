-- ===== src/Registry/Install/Picking.antt =====
-- crates/tinymcp/src/registry/ops/install.rs: which connection an install uses.
use tinymcp.Common.{
  ℕ, ◌≤◌, ◌<◌, ◌≡◌, ◌⊎◌, inl, inr, refl, Bool, true, false, List, [], ◌∷◌, Option, none, some,
  if◌then◌else◌, arith, All, if_split, suc, subst,
}
use tinymcp.Registry.{RegistryConnection}
use tinymcp.Registry.Install.{find_connection, or_else, is_kind, is_published, pick_connection}

-- A hosted endpoint before a package, and a published one before one that is not.
unfoldable pub rank : RegistryConnection → ℕ
rank c =
    if is_kind "http_remote" c
    then (if c.published then 4 else 3)
    else (if is_kind "stdio" c then (if c.published then 2 else 1) else 0)

abbrev pub Among : RegistryConnection → List RegistryConnection → Type 0
Among c [] = ⊥
Among c (d ∷ l) = (d ≡ c) ⊎ Among c l

-- The connection that `p` finds is in the list and passes, and nothing passes where none is found.
abbrev Found :
    (RegistryConnection → Bool) → List RegistryConnection → Option RegistryConnection → Type 0
Found p l none = All (λ c. p c ≡ false) l
Found p l (some c) = (p c ≡ true) × Among c l

Found-later :
    (p : RegistryConnection → Bool) (d : RegistryConnection) (l : List RegistryConnection)
    (o : Option RegistryConnection)
    → p d ≡ false
    → Found p l o
    → Found p (d ∷ l) o
Found-later p d l none h f = (h, f)
Found-later p d l (some c) h f = (f.0, inr f.1)

find_connection-Found :
    (p : RegistryConnection → Bool) (l : List RegistryConnection) → Found p l (find_connection p l)
find_connection-Found p [] = tt
find_connection-Found p (d ∷ l) =
    if_split (Found p (d ∷ l)) (p d) (λ h. (h, inl refl))
      (λ h. Found-later p d l _ h (find_connection-Found p l))

-- The choice is one of the connections, of a kind that can be run, and no other ranks above it; and
-- without a choice none can be run.
abbrev pub IsBest : List RegistryConnection → Option RegistryConnection → Type 0
IsBest l none = All (λ c. rank c ≡ 0) l
IsBest l (some c) = Among c l × (0 < rank c) × All (λ d. rank d ≤ rank c) l

All-map :
    (P Q : RegistryConnection → Type 0) (l : List RegistryConnection)
    → ((c : RegistryConnection) → P c → Q c)
    → All P l
    → All Q l
All-map P Q [] f h = tt
All-map P Q (c ∷ l) f h = (f c h.0, All-map P Q l f h.1)

All-zip :
    (P Q : RegistryConnection → Type 0) (l : List RegistryConnection)
    → All P l
    → All Q l
    → All (λ c. P c × Q c) l
All-zip P Q [] h k = tt
All-zip P Q (c ∷ l) h k = ((h.0, k.0), All-zip P Q l h.1 k.1)

above_3 : (c : RegistryConnection) → is_published "http_remote" c ≡ true → 4 ≤ rank c
unfolding rank
above_3 c h = ground arith

below_3 : (c : RegistryConnection) → is_published "http_remote" c ≡ false → rank c ≤ 4 → rank c ≤ 3
unfolding rank
below_3 c h k = ground arith

above_2 : (c : RegistryConnection) → is_kind "http_remote" c ≡ true → 3 ≤ rank c
unfolding rank
above_2 c h = ground arith

below_2 : (c : RegistryConnection) → is_kind "http_remote" c ≡ false → rank c ≤ 3 → rank c ≤ 2
unfolding rank
below_2 c h k = ground arith

above_1 : (c : RegistryConnection) → is_published "stdio" c ≡ true → 2 ≤ rank c
unfolding rank
above_1 c h = ground arith

below_1 : (c : RegistryConnection) → is_published "stdio" c ≡ false → rank c ≤ 2 → rank c ≤ 1
unfolding rank
below_1 c h k = ground arith

above_0 : (c : RegistryConnection) → is_kind "stdio" c ≡ true → 1 ≤ rank c
unfolding rank
above_0 c h = ground arith

below_0 : (c : RegistryConnection) → is_kind "stdio" c ≡ false → rank c ≤ 1 → rank c ≤ 0
unfolding rank
below_0 c h k = ground arith

module _ (l : List RegistryConnection) where
  -- What is found ranks above `n`, and nothing ranks above it.
  IsBest-of :
      (p : RegistryConnection → Bool) (n : ℕ) (o rest : Option RegistryConnection)
      → Found p l o
      → ((c : RegistryConnection) → p c ≡ true → suc n ≤ rank c)
      → All (λ c. rank c ≤ suc n) l
      → (All (λ c. p c ≡ false) l → IsBest l rest)
      → IsBest l (or_else o rest)
  IsBest-of p n none rest f ranked bound next = next f
  IsBest-of p n (some c) rest f ranked bound next =
      let e = ranked c f.0 in (f.1, omega arith, All-map _ _ l (λ d h. omega arith) bound)

  -- The bound falls where nothing passes that has the rank.
  lower :
      (p : RegistryConnection → Bool) (n : ℕ)
      → ((c : RegistryConnection) → p c ≡ false → rank c ≤ suc n → rank c ≤ n)
      → All (λ c. rank c ≤ suc n) l
      → All (λ c. p c ≡ false) l
      → All (λ c. rank c ≤ n) l
  lower p n falls bound h = All-map _ _ l (λ c x. falls c x.1 x.0) (All-zip _ _ l bound h)

  All-ranked : (k : List RegistryConnection) → All (λ c. rank c ≤ 4) k
  unfolding rank
  All-ranked [] = tt
  All-ranked (c ∷ k) = (ground arith, All-ranked k)

  last_choice : (o : Option RegistryConnection) → or_else o none ≡ o
  last_choice none = refl
  last_choice (some c) = refl

  -- The connection that an install uses is one of those offered that ranks highest, a published
  -- endpoint before another endpoint, then a published package before another package; there is none
  -- exactly when none of either kind is offered.
  pub pick_connection-IsBest : IsBest l (pick_connection l)
  unfolding pick_connection
  pick_connection-IsBest =
      IsBest-of (is_published "http_remote") 3 _ _ (find_connection-Found _ l) above_3
        (All-ranked l)
        (λ h1.
          let b1 = lower (is_published "http_remote") 3 below_3 (All-ranked l) h1 in
          IsBest-of (is_kind "http_remote") 2 _ _ (find_connection-Found _ l) above_2 b1 (λ h2.
            let b2 = lower (is_kind "http_remote") 2 below_2 b1 h2 in
            IsBest-of (is_published "stdio") 1 _ _ (find_connection-Found _ l) above_1 b2 (λ h3.
              let b3 = lower (is_published "stdio") 1 below_1 b2 h3 in
              subst (IsBest l) (last_choice _) (
                IsBest-of (is_kind "stdio") 0 _ none (find_connection-Found _ l) above_0 b3 (λ h4.
                  All-map _ _ l (λ c h. omega arith) (lower (is_kind "stdio") 0 below_0 b3 h4))))))
