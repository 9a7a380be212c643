-- ===== src/Api/RateLimit.antt =====
-- src/api/ratelimit.py. A time is a whole number of milliseconds, a rate a whole number of tokens
-- per second, so tokens are counted in thousandths. The clock does not run back. A rate of 0 or less is 0. The buckets are a
-- function of kind and identity; each `consume` holds the bucket's lock, so it is one step.
pub mod Bucket
pub mod Limits
use raglogs.Base.{
  str_eq, ℕ, ◌+◌, ◌-◌, ◌*◌, min, max, String, Bool, true, false, not, ◌&&◌, ◌||◌, Option, none,
  some, leb, ◌==◌, if◌then◌else◌,
}
use Prim.Native.String.{◌++◌ as append}
use raglogs.Api.Routes.{route, is_under}

pub data RateLimitKind : Type 0 where
  ingest query : RateLimitKind

unfoldable pub route_kind : String → String → Option RateLimitKind
unfolding is_under
route_kind verb r =
    if is_under "/ingestions" "/ingestions/" r
    then (if str_eq verb "POST" then some ingest else none)
    else if is_under "/query" "/query/" r
    then some query
    else none

-- `none` for an exempt route; `upper` is `str.upper`
unfoldable pub rate_limit_kind :
    (ℕ → Bool) → (String → String) → String → String → Option RateLimitKind
unfolding route_kind
rate_limit_kind is_digit upper method path = route_kind (upper method) (route is_digit path)

-- `_TokenBucket`: `tokens` and `burst` in thousandths of a token
pub record TokenBucket : Type 0 where
  pub tokens : ℕ
  pub updated : ℕ
  pub rate : ℕ
  pub burst : ℕ

unfoldable pub new_bucket : ℕ → TokenBucket
new_bucket now = record { tokens = 0; updated = now; rate = 0; burst = 0 }

abbrev pub token : ℕ
token = 1000

-- the lines before the last test: the bucket with its tokens brought up to date
unfoldable pub refill : ℕ → ℕ → ℕ → TokenBucket → TokenBucket
refill now rate capacity b =
    if not (rate == b.rate) || not (capacity == b.burst)
    then record { tokens = capacity; updated = now; rate = rate; burst = capacity }
    else record b { tokens = min capacity (b.tokens + (now - b.updated) * rate); updated = now }

unfoldable pub take_token : TokenBucket → TokenBucket × Bool
take_token b =
    if leb token b.tokens then (record b { tokens = b.tokens - token }, true) else (b, false)

-- `consume(rate, burst)`, of one token
unfoldable pub consume : ℕ → ℕ → ℕ → TokenBucket → TokenBucket × Bool
unfolding refill take_token
consume now rate burst b =
    if rate == 0 then (b, true) else take_token (refill now rate (max burst token) b)

pub record Identity : Type 0 where
  pub key_id : Option String
  pub subject : Option String

unfoldable pub subject_identity : Option String → String
subject_identity none = "anonymous"
subject_identity (some s) = if not (str_eq s "") then append "oidc:" s else "anonymous"

-- `bucket_identity`; a key id or subject that is present but empty counts as absent
unfoldable pub bucket_identity : Option Identity → String
bucket_identity none = "anonymous"
bucket_identity (some p) = elim p.key_id [
  | some k ↦ if not (str_eq k "") then k else subject_identity p.subject
  | none ↦ subject_identity p.subject
]

unfoldable pub kind_eq : RateLimitKind → RateLimitKind → Bool
kind_eq ingest ingest = true
kind_eq query query = true
kind_eq _ _ = false

abbrev pub Buckets : Type 0
Buckets = RateLimitKind → String → Option TokenBucket

unfoldable pub bucket_or_new : ℕ → Option TokenBucket → TokenBucket
bucket_or_new now none = new_bucket now
bucket_or_new now (some b) = b

-- `allow_request`: a bucket that is not there is made first
unfoldable pub allow_request : ℕ → ℕ → ℕ → RateLimitKind → String → Buckets → Buckets × Bool
unfolding consume new_bucket bucket_or_new kind_eq
allow_request now rate burst kind identity buckets =
    let bucket = bucket_or_new now (buckets kind identity) in
    let (b', allowed) = consume now rate burst bucket in
    if rate == 0
    then (buckets, true)
    else (λ k i. if kind_eq kind k && str_eq identity i then some b' else buckets k i, allowed)

pub record RateSettings : Type 0 where
  pub enabled : Bool
  pub ingest_rps : ℕ
  pub query_rps : ℕ
  pub burst : ℕ

pub data Verdict : Type 0 where
  -- the request goes on to the route, or is answered with 429
  passed limited : Verdict

unfoldable pub rate_of : RateSettings → RateLimitKind → ℕ
rate_of s ingest = s.ingest_rps
rate_of s query = s.query_rps

unfoldable pub verdict : Bool → Verdict
verdict true = passed
verdict false = limited

-- `RateLimitMiddleware.dispatch`, for a request of the given kind
unfoldable pub dispatch :
    RateSettings → ℕ → Option RateLimitKind → Option Identity → Buckets → Buckets × Verdict
unfolding allow_request rate_of bucket_identity verdict
dispatch s now none principal buckets = (buckets, passed)
dispatch s now (some kind) principal buckets =
    let rate = rate_of s kind in
    let (buckets', allowed) =
      allow_request now rate s.burst kind (bucket_identity principal) buckets in
    if not s.enabled
    then (buckets, passed)
    else if rate == 0
    then (buckets, passed)
    else (buckets', verdict allowed)
