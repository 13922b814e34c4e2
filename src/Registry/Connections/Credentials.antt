-- ===== src/Registry/Connections/Credentials.antt =====
-- crates/tinymcp/src/registry/connections/dial.rs: where stored credentials go.
use tinymcp.Common.{
  ◌≡◌, ◌≢◌, ◌⊎◌, inl, inr, refl, Bool, true, false, ◌||◌, List, [], ◌∷◌, Option, none, some, String,
  str_eq, Map, if◌then◌else◌, arith, eq_iff, ◌↔◌, ℕ, if_split, Bool-cases,
}
use tinymcp.Common.Chars.{starts_with, trim}
use tinymcp.Registry.{McpAuthConfig, anonymous, bearer_token, basic, header, headers, HttpHeader}
use tinymcp.Transport.Wire.{Url}
use tinymcp.Registry.Connections.Dial.{
  usable, usable_headers, auth_of, build_http_auth, text_option_eq, number_option_eq, same_origin,
  safe_of, credential_safe_dial_url,
}

-- The headers that a request gets.
abbrev pub sent : McpAuthConfig → List HttpHeader
sent anonymous = []
sent (bearer_token token) = []
sent (basic name password) = []
sent (header name value) = record { name = name; value = value } ∷ []
sent (headers l) = l

abbrev pub Carried : String → String → List HttpHeader → Type 0
Carried name value [] = ⊥
Carried name value (h ∷ l) = ((h.name ≡ name) × (h.value ≡ value)) ⊎ Carried name value l

abbrev pub Stored : String → String → Map String → Type 0
Stored name value [] = ⊥
Stored name value ((n, v) ∷ env) = ((n ≡ name) × (v ≡ value)) ⊎ Stored name value env

sent-auth_of : (l : List HttpHeader) → sent (auth_of l) ≡ l
sent-auth_of [] = refl
sent-auth_of (h ∷ []) = refl
sent-auth_of (h ∷ k ∷ l) = refl

-- A stored value may be sent: its name is no bookkeeping, and it is not blank.
abbrev pub MayGo : String → String → Type 0
MayGo name value = (starts_with name "__" ≡ false) × (trim value ≢ "")

usable_iff : (name value : String) → (usable name value ≡ true) ↔ MayGo name value
unfolding usable
usable_iff name value = (
  λ h. (ground arith, λ e. ground (arith, eq_iff (trim value) "")),
  λ m. ground (arith, eq_iff (trim value) "", m.0, m.1),
)

module _ (name value : String) where
  -- A header that is kept when `b` holds.
  kept :
      (b : Bool) (h : HttpHeader) (l : List HttpHeader)
      → Carried name value (if b then h ∷ l else l)
      → ((h.name ≡ name) × (h.value ≡ value) × (b ≡ true)) ⊎ Carried name value l
  kept true h l (inl m) = inl (m.0, m.1, refl)
  kept true h l (inr c) = inr c
  kept false h l c = inr c

  keeps :
      (b : Bool) (h : HttpHeader) (l : List HttpHeader)
      → ((h.name ≡ name) × (h.value ≡ value) × (b ≡ true)) ⊎ Carried name value l
      → Carried name value (if b then h ∷ l else l)
  keeps true h l (inl m) = inl (m.0, m.1)
  keeps true h l (inr c) = inr c
  keeps false h l (inl m) = cc (m.2)
  keeps false h l (inr c) = c

  carried :
      (env : Map String)
      → Carried name value (usable_headers env)
      → Stored name value env × MayGo name value
  unfolding usable_headers
  carried [] h = absurd h
  carried ((n, v) ∷ env) h =
      elim (kept (usable n v) (record { name = n; value = v }) (usable_headers env) h) [
        | inl m ↦ (inl (m.0, m.1), (usable_iff name value).0 (rw (← m.0, ← m.1) (m.2)))
        | inr c ↦ (inr (carried env c).0, (carried env c).1)
      ]

  carries :
      (env : Map String)
      → Stored name value env
      → MayGo name value
      → Carried name value (usable_headers env)
  unfolding usable_headers
  carries [] h may = absurd h
  carries ((n, v) ∷ env) h may =
      keeps (usable n v) (record { name = n; value = v }) (usable_headers env)
        (elim h [
          | inl m ↦ inl (m.0, m.1, rw (m.0, m.1) ((usable_iff name value).1 may))
          | inr c ↦ inr (carries env c may)
        ])

-- A stored value that goes out stays with the origin that it was stored for, or goes over HTTPS.
abbrev pub KeepsOrigin : (String → Option Url) → String → String → String → Type 0
KeepsOrigin parse_url original resolved target =
    (target ≡ original)
    ⊎ ((to : Url) × (target ≡ resolved)
        × (parse_url resolved ≡ some to)
        × ((to.scheme ≡ "https")
            ⊎ ((from : Url) × (parse_url original ≡ some from)
                × (from.scheme ≡ to.scheme)
                × (from.host_str ≡ to.host_str)
                × (from.port ≡ to.port))))

text_option_eq_lem : (a b : Option String) → text_option_eq a b ≡ true → a ≡ b
text_option_eq_lem none none h = refl
text_option_eq_lem none (some b) h = cc
text_option_eq_lem (some a) none h = cc
text_option_eq_lem (some a) (some b) h = ground (arith, eq_iff a b)

number_option_eq_lem : (a b : Option ℕ) → number_option_eq a b ≡ true → a ≡ b
number_option_eq_lem a b h = ground arith

same_origin_or_https :
    (from to : Url)
    → (same_origin from to || str_eq to.scheme "https") ≡ true
    → (to.scheme ≡ "https")
      ⊎ ((from.scheme ≡ to.scheme) × (from.host_str ≡ to.host_str) × (from.port ≡ to.port))
unfolding same_origin
same_origin_or_https from to h = elim (Bool-cases (str_eq to.scheme "https")) [
  | inl e ↦ inl (ground (arith, eq_iff to.scheme "https"))
  | inr e ↦ inr (
    ground (arith, eq_iff from.scheme to.scheme),
    text_option_eq_lem from.host_str to.host_str (ground arith),
    number_option_eq_lem from.port to.port (ground arith),
  )
]

safe_of-KeepsOrigin :
    (parse_url : String → Option Url) (original resolved : String) (a b : Option Url)
    → parse_url original ≡ a
    → parse_url resolved ≡ b
    → KeepsOrigin parse_url original resolved (safe_of a b original resolved)
safe_of-KeepsOrigin parse_url original resolved none b ha hb = inl refl
safe_of-KeepsOrigin parse_url original resolved (some from) none ha hb = inl refl
safe_of-KeepsOrigin parse_url original resolved (some from) (some to) ha hb =
    if_split (KeepsOrigin parse_url original resolved)
      (same_origin from to || str_eq to.scheme "https")
      (λ h. inr (
        to,
        refl,
        hb,
        elim (same_origin_or_https from to h) [
          | inl e ↦ inl e
          | inr e ↦ inr (from, ha, e.0, e.1, e.2)
        ],
      ))
      (λ _. inl refl)

-- The headers that are built of stored values carry one exactly when its name does not begin with two
-- underscores and it is not blank; and the address that is chosen is the one that was stored, or the
-- one that it was resolved to, when that is of the same origin or HTTPS.
pub sends_usable :
    (env : Map String) (name value : String) (parse_url : String → Option Url)
    (original resolved : String)
    → (Carried name value (sent (build_http_auth env)) ↔ (Stored name value env × MayGo name value))
      × KeepsOrigin parse_url original resolved
          (credential_safe_dial_url parse_url original resolved)
unfolding build_http_auth credential_safe_dial_url
sends_usable env name value parse_url original resolved = (
  (
    λ c. carried name value env (rw sent-auth_of at c),
    λ m. rw sent-auth_of (carries name value env m.0 m.1),
  ),
  safe_of-KeepsOrigin parse_url original resolved (parse_url original) (parse_url resolved) refl
      refl,
)
