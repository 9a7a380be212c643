-- ===== src/Api/Auth/Tests.antt =====
-- Concrete requests, for src/api/auth/middleware.py, keys.py and oidc.py.
use raglogs.Base.{
  filter, strip, str_mem, str_eq, ℕ, String, ◌≡◌, refl, ◌≢◌, inl, inr, Bool, true, false, ◌&&◌,
  none, some, [], ◌∷◌, leb,
}
use raglogs.Api.Scope.{AuthPrincipal, resolved, bind_request_scope}
use raglogs.Api.Roles.{query_roles, allows, required_roles, route_roles}
use raglogs.Api.Routes.{route}
use raglogs.Api.Keys.{ApiKeyRecord, lookup_api_key, key_prefix, is_revoked}
use raglogs.Api.Keys.Live.{Opens, lookup_api_key_complete}
use raglogs.Api.Oidc.{Claims, role_list, looks_like_jwt, validate_oidc_token}
use raglogs.Api.Auth.{
  Environment, AuthSettings, authenticate_token, authorize_request, extract_bearer, proceeds,
}
use raglogs.Api.Auth.Gate.{authorize_request-shown, authenticate_token-Opens, oidc-default_scope}

abbrev as_is : String → String
as_is s = s

abbrev ascii_digit : ℕ → Bool
ascii_digit c = leb 48 c && leb c 57

-- A hash that is the token itself.
abbrev verify_plain : String → String → Bool
verify_plain token hash = str_eq token hash

abbrev live_key : ApiKeyRecord
live_key = record {
  id = "k1";
  key_prefix = "rlk_abcdefgh";
  key_hash = "rlk_abcdefghijkl";
  role = "query";
  scope = "team-a";
  revoked_at = none;
  allow_scope_override = false;
  config_json = none;
}

abbrev revoked_key : ApiKeyRecord
revoked_key = record live_key { id = "k0"; revoked_at = some 5 }

abbrev query_claims : Claims
query_claims = record {
  raglogs_role = none;
  roles = role_list ("owner" ∷ "ingest" ∷ []);
  subject = some "ann";
}

abbrev environment : Environment
environment = record {
  lower = as_is;
  upper = as_is;
  is_digit = ascii_digit;
  verify = verify_plain;
  decode = λ token. some query_claims;
  api_keys = revoked_key ∷ live_key ∷ [];
}

abbrev auth_on : AuthSettings
auth_on = record { auth_enabled = true; auth_mode = "both"; oidc_issuer = "https://issuer" }

abbrev live_principal : AuthPrincipal
live_principal = record {
  role = "query";
  scope = "team-a";
  auth_method = "api_key";
  key_id = some "k1";
  subject = none;
  allow_scope_override = false;
  config_json = none;
}

abbrev oidc_ann : AuthPrincipal
oidc_ann = record {
  role = "ingest";
  scope = "default";
  auth_method = "oidc";
  key_id = none;
  subject = some "ann";
  allow_scope_override = false;
  config_json = none;
}

looks_like_jwt_dots : looks_like_jwt "ab.c.d" ≡ true
unfolding looks_like_jwt
looks_like_jwt_dots = refl

key_found :
    lookup_api_key verify_plain (revoked_key ∷ live_key ∷ []) "rlk_abcdefghijkl" ≡ some live_key
unfolding lookup_api_key filter
key_found = refl

live_key-Opens : Opens verify_plain (revoked_key ∷ live_key ∷ []) "rlk_abcdefghijkl" live_key
unfolding is_revoked key_prefix
live_key-Opens = record {
  stored = inr (inl refl);
  live = refl;
  same_prefix = refl;
  verified = refl;
}

lookup_api_key_complete_example :
    lookup_api_key verify_plain (revoked_key ∷ live_key ∷ []) "rlk_abcdefghijkl" ≢ none
lookup_api_key_complete_example =
    lookup_api_key_complete verify_plain "rlk_abcdefghijkl" (revoked_key ∷ live_key ∷ []) live_key
      live_key-Opens

key_authenticates : authenticate_token environment auth_on "rlk_abcdefghijkl" ≡ some live_principal
unfolding authenticate_token looks_like_jwt str_mem lookup_api_key filter
key_authenticates = refl

authenticate_token-Opens_example :
    (r : ApiKeyRecord) × Opens verify_plain (revoked_key ∷ live_key ∷ []) "rlk_abcdefghijkl" r
    × (◌≡◌ {A = String} "query" r.role)
    × (◌≡◌ {A = String} "team-a" r.scope)
authenticate_token-Opens_example =
    authenticate_token-Opens environment auth_on "rlk_abcdefghijkl" live_principal key_authenticates
      refl

query_needs : required_roles ascii_digit as_is "GET" "/v1/query/explain" ≡ some query_roles
unfolding required_roles route route_roles
query_needs = refl

key_proceeds :
    authorize_request environment auth_on "GET" "/v1/query/explain" (some "bearer rlk_abcdefghijkl")
    ≡ proceeds (some live_principal)
unfolding authorize_request required_roles route looks_like_jwt str_mem lookup_api_key filter allows
    route_roles
key_proceeds = refl

authorize_request-shown_example :
    (token : String) × (p : AuthPrincipal) × (extract_bearer as_is (some "bearer rlk_abcdefghijkl")
      ≡ some token)
    × (authenticate_token environment auth_on token ≡ some p)
    × (some live_principal ≡ some p)
    × (allows query_roles p.role ≡ true)
authorize_request-shown_example =
    authorize_request-shown environment auth_on "GET" "/v1/query/explain"
      (some "bearer rlk_abcdefghijkl") query_roles (some live_principal) refl query_needs
      key_proceeds

ann_authenticates : authenticate_token environment auth_on "ab.c.d" ≡ some oidc_ann
unfolding authenticate_token looks_like_jwt str_mem validate_oidc_token
ann_authenticates = refl

ann_bound : bind_request_scope true (some oidc_ann) none none ≡ resolved "default"
unfolding bind_request_scope strip
ann_bound = refl

oidc-default_scope_example : ◌≡◌ {A = String} "default" "default"
oidc-default_scope_example =
    oidc-default_scope environment auth_on "ab.c.d" oidc_ann none none "default" ann_authenticates
      refl ann_bound
