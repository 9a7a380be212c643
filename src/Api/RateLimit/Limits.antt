-- ===== src/Api/RateLimit/Limits.antt =====
-- The routes and identities that src/api/ratelimit.py limits.
use raglogs.Base.{
  str_eq, eq_iff, ℕ, String, ◌≡◌, refl, ◌≢◌, ◌⊎◌, inl, inr, Bool, true, false, ◌||◌, Option, some,
  arith, Bool-cases,
}
use Prim.Native.Char.{code}
use raglogs.Api.Routes.{route, is_under, has_prefix}
use raglogs.Api.Roles.{
  RoleSet, ingest_roles, query_roles, is_exempt_route, route_roles, required_roles, is_exempt_path,
}
use raglogs.Api.RateLimit.{
  RateLimitKind, ingest, query, route_kind, rate_limit_kind, kind_eq, Buckets, allow_request,
  RateSettings, Identity, dispatch, bucket_identity,
}

-- A path under "/i…" or "/q…" is not under "/health" or "/metrics".
second_letter : String → ℕ
second_letter String.[] = 0
second_letter (String.◌∷◌ c String.[]) = 0
second_letter (String.◌∷◌ c (String.◌∷◌ d s)) = code d

prefix-second :
    (s : String)
    → (has_prefix s "/ingestions/" ≡ true → second_letter s ≡ b'i')
      × (has_prefix s "/query/" ≡ true → second_letter s ≡ b'q')
      × (has_prefix s "/health/" ≡ true → second_letter s ≡ b'h')
      × (has_prefix s "/metrics/" ≡ true → second_letter s ≡ b'm')
unfolding has_prefix second_letter
prefix-second String.[] = (λ h. cc, λ h. cc, λ h. cc, λ h. cc)
prefix-second (String.◌∷◌ c String.[]) =
    (λ h. ground arith, λ h. ground arith, λ h. ground arith, λ h. ground arith)
prefix-second (String.◌∷◌ c (String.◌∷◌ d s)) =
    (λ h. ground arith, λ h. ground arith, λ h. ground arith, λ h. ground arith)

or-cases : (a b : Bool) → a || b ≡ true → (a ≡ true) ⊎ (b ≡ true)
or-cases true b h = inl refl
or-cases false b h = inr h

under-second :
    (base base_slash r : String) (n : ℕ)
    → second_letter base ≡ n
    → (has_prefix r base_slash ≡ true → second_letter r ≡ n)
    → is_under base base_slash r ≡ true
    → second_letter r ≡ n
unfolding is_under
under-second base base_slash r n b p h =
    elim (or-cases (str_eq r base) (has_prefix r base_slash) h) [
      | inl same ↦ rw ((eq_iff r base).0 same) b
      | inr below ↦ p below
    ]

under_ingestions :
    (r : String) → is_under "/ingestions" "/ingestions/" r ≡ true → second_letter r ≡ b'i'
under_ingestions r h =
    under-second "/ingestions" "/ingestions/" r b'i' (unfold second_letter in refl)
      (prefix-second r).0 h

under_query : (r : String) → is_under "/query" "/query/" r ≡ true → second_letter r ≡ b'q'
under_query r h =
    under-second "/query" "/query/" r b'q' (unfold second_letter in refl) (prefix-second r).1 h

exempt-second :
    (r : String) → is_exempt_route r ≡ true → (second_letter r ≡ b'h') ⊎ (second_letter r ≡ b'm')
unfolding is_exempt_route
exempt-second r h =
    elim (or-cases (is_under "/health" "/health/" r) (is_under "/metrics" "/metrics/" r) h) [
      | inl x ↦ inl (
          under-second "/health" "/health/" r b'h' (unfold second_letter in refl)
            (prefix-second r).2 x)
      | inr x ↦ inr (
          under-second "/metrics" "/metrics/" r b'm' (unfold second_letter in refl)
            (prefix-second r).3 x)
    ]

not_exempt :
    (r : String) → (second_letter r ≡ b'i') ⊎ (second_letter r ≡ b'q') → is_exempt_route r ≡ false
not_exempt r h = elim (Bool-cases (is_exempt_route r)) [
  | inl x ↦ absurd (clash (exempt-second r x) h)
  | inr x ↦ x
]
  where
    clash : {n : ℕ} → (n ≡ b'h') ⊎ (n ≡ b'm') → (n ≡ b'i') ⊎ (n ≡ b'q') → ⊥
    clash p q = omega arith

abbrev pub roles_of : RateLimitKind → RoleSet
roles_of ingest = ingest_roles
roles_of query = query_roles

route_kind-roles :
    (verb r : String) (k : RateLimitKind)
    → route_kind verb r ≡ some k
    → (is_exempt_route r ≡ false) × (route_roles verb r ≡ roles_of k)
unfolding route_kind route_roles
route_kind-roles verb r k h = elim (Bool-cases (is_under "/ingestions" "/ingestions/" r)) [
  | inl i ↦ (not_exempt r (inl (under_ingestions r i)), ground arith)
  | inr n ↦ elim (Bool-cases (is_under "/query" "/query/" r)) [
    | inl q ↦ (not_exempt r (inr (under_query r q)), ground arith)
    | inr m ↦ absurd (ground arith)
  ]
]

-- Every route that is rate limited asks for roles, and for those of the kind that it is charged to: an
-- ingest route for the ingest roles and a query route for the query roles, whatever the version prefix.
pub limited_routes_need_roles :
    (is_digit : ℕ → Bool) (upper : String → String) (method path : String) (k : RateLimitKind)
    → rate_limit_kind is_digit upper method path ≡ some k
    → required_roles is_digit upper method path ≡ some (roles_of k)
unfolding rate_limit_kind required_roles is_exempt_path
limited_routes_need_roles is_digit upper method path k h =
    let (open_, roles) = route_kind-roles (upper method) (route is_digit path) k h in
    rw (open_, roles)

-- A request is charged to its own bucket alone: the bucket of any other kind or identity is what it
-- was, whether the request passes or is limited.
pub dispatch-others :
    (s : RateSettings) (now : ℕ) (kind other : RateLimitKind) (principal : Option Identity)
    (identity : String) (buckets : Buckets)
    → (kind_eq kind other ≡ false) ⊎ (bucket_identity principal ≢ identity)
    → (dispatch s now (some kind) principal buckets).0 other identity ≡ buckets other identity
unfolding dispatch allow_request
dispatch-others s now kind other principal identity buckets h = elim h [
  | inl k ↦ ground arith
  | inr n ↦ ground (arith, eq_iff (bucket_identity principal) identity)
]
