-- ===== src/Api/Tests.antt =====
-- Concrete requests, for src/api/auth, src/api/ratelimit.py and src/core/ingestion/idempotency.py.
use raglogs.Base.{
  strip, str_eq, eq_iff, ℕ, ◌+◌, ◌*◌, ◌≤◌, max, String, ◌≡◌, refl, ◌≢◌, ◌↔◌, Bool, true, false,
  ◌&&◌, Option, none, some, List, [], ◌∷◌, arith, leb,
}
use raglogs.Api.RateLimit.Limits.{limited_routes_need_roles}
use raglogs.Api.Routes.{route, is_under}
use raglogs.Api.Scope.{
  AuthPrincipal, resolved, normalize_requested_scope, resolve_scope, bind_request_scope, is_pinned,
}
use raglogs.Api.Scope.Isolation.{pinned-own_scope}
use raglogs.Api.Roles.{query_roles, allows, required_roles, route_roles, ingest_roles}
use raglogs.Api.Roles.Map.{required_roles-ingest}
use raglogs.Api.RateLimit.{
  ingest, Buckets, RateSettings, Identity, rate_limit_kind, new_bucket, token, refill, take_token,
  consume,
}
use raglogs.Api.RateLimit.Bucket.{passes, passes-le}
use raglogs.Api.Idempotency.{
  key_log_prefix, Row, stored, get_idempotency_row, lookup_active_key, insert_row,
  store_idempotency_key, is_active,
}
use raglogs.Api.Idempotency.Replay.{store_idempotency_key-lookup, first_store_wins}

abbrev ascii_digit : ℕ → Bool
ascii_digit c = leb 48 c && leb c 57

abbrev as_is : String → String
as_is s = s

route_versions : route ascii_digit "/v1/query/explain/" ≡ "/query/explain"
unfolding route
route_versions = refl

kind_of_ingest : rate_limit_kind ascii_digit as_is "POST" "/v1/ingestions" ≡ some ingest
unfolding rate_limit_kind route
kind_of_ingest = refl

limited_routes_need_roles_example :
    required_roles ascii_digit as_is "POST" "/v1/ingestions" ≡ some ingest_roles
limited_routes_need_roles_example =
    limited_routes_need_roles ascii_digit as_is "POST" "/v1/ingestions" ingest kind_of_ingest

roles_of_query : required_roles ascii_digit as_is "GET" "/query/explain" ≡ some query_roles
unfolding required_roles route route_roles
roles_of_query = refl

required_roles-ingest_example : (allows query_roles "ingest" ≡ true) ↔ (
    (str_eq "GET" "POST" ≡ true)
    × (is_under "/ingestions" "/ingestions/" (route ascii_digit "/query/explain") ≡ true))
required_roles-ingest_example =
    required_roles-ingest ascii_digit as_is "GET" "/query/explain" query_roles roles_of_query

-- A key for one team, which may not override its scope.
abbrev pinned_key : AuthPrincipal
pinned_key = record {
  role = "query";
  scope = " team-a ";
  auth_method = "api_key";
  key_id = some "k1";
  subject = none;
  allow_scope_override = false;
  config_json = none;
}

pinned_key-pinned : is_pinned pinned_key ≡ true
unfolding is_pinned
pinned_key-pinned = refl

pinned_key-resolves :
    bind_request_scope true (some pinned_key) none (some "team-a") ≡ resolved "team-a"
unfolding bind_request_scope strip
pinned_key-resolves = refl

pinned-own_scope_example : "team-a" ≡ strip " team-a "
pinned-own_scope_example =
    pinned-own_scope pinned_key none (some "team-a") "team-a" pinned_key-pinned pinned_key-resolves

asked_b : normalize_requested_scope (some "team-b") ≡ some "team-b"
unfolding normalize_requested_scope strip
asked_b = refl

own_a : normalize_requested_scope (some " team-a ") ≡ some "team-a"
unfolding normalize_requested_scope strip
own_a = refl

other_team : ◌≢◌ {A = String} "team-b" "team-a"
other_team = λ e. ground (arith, eq_iff "team-b" "team-a", e)

default_resolves : resolve_scope (some "  ") false none ≡ resolved "default"
unfolding resolve_scope strip
default_resolves = refl

-- Two requests a second, in bursts of one, for requests half a second apart and then at once.
passes-le_example :
    token * passes 2 1000 (500 ∷ 500 ∷ 0 ∷ []) (new_bucket 0) ≤ max 1000 token + 1000 * 2
passes-le_example = passes-le 2 1000 (omega arith) (500 ∷ 500 ∷ 0 ∷ []) 0

passes_two : passes 2 1000 (500 ∷ 500 ∷ 0 ∷ []) (new_bucket 0) ≡ 2
unfolding passes consume refill take_token new_bucket
passes_two = refl

abbrev rates : RateSettings
rates = record { enabled = true; ingest_rps = 1; query_rps = 2; burst = 1000 }

abbrev caller : Option Identity
caller = some (record { key_id = some "k1"; subject = none })

abbrev no_buckets : Buckets
no_buckets kind identity = none

abbrev expired_row : Row ℕ
expired_row = record {
  key = "key-1";
  worker_job_id = some 1;
  ingestion_job_id = none;
  mode = "sync";
  created_at = 0;
  expires_at = some 50;
}

abbrev first_row : Row ℕ
first_row = record {
  key = "key-1";
  worker_job_id = some 7;
  ingestion_job_id = none;
  mode = "async";
  created_at = 100;
  expires_at = some 160;
}

abbrev nobody_else : List (Row ℕ) → List (Row ℕ)
nobody_else rows = rows

stored_first :
    (store_idempotency_key "key-1" (some 7) none "async" 100 60 nobody_else (expired_row ∷ [])).1
    ≡ stored first_row false
unfolding store_idempotency_key insert_row get_idempotency_row is_active
stored_first = refl

store_idempotency_key-lookup_example :
    lookup_active_key
      (store_idempotency_key "key-1" (some 7) none "async" 100 60 nobody_else (expired_row ∷ [])).0
      "key-1"
      100
    ≡ some first_row
store_idempotency_key-lookup_example =
    store_idempotency_key-lookup "key-1" (some 7) none "async" 100 60 nobody_else (expired_row ∷ [])
      first_row false (omega arith) stored_first

abbrev table : List (Row ℕ)
table =
    (store_idempotency_key "key-1" (some 7) none "async" 100 60 nobody_else (expired_row ∷ [])).0

first_store_wins_example :
    store_idempotency_key "key-1" (some 8) none "sync" 159 60 nobody_else table
    ≡ (table, stored first_row true)
first_store_wins_example =
    first_store_wins "key-1" (some 7) none "async" 100 60 nobody_else (expired_row ∷ []) first_row
      (some 8) none "sync" 159 60 nobody_else (omega arith) stored_first

prefix_is_short : key_log_prefix "abcdefghij" ≡ "abcdefgh"
unfolding key_log_prefix
prefix_is_short = refl

prefix_whole : key_log_prefix "ab…" ≡ "ab…"
unfolding key_log_prefix
prefix_whole = refl
