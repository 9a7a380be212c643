-- ===== src/Api/Auth.antt =====
-- src/api/auth/middleware.py: who makes a request, and whether it may proceed. `lower` is
-- `str.lower`; the parameters of the keys and of the tokens are those of Api/Keys.antt and
-- Api/Oidc.antt. The texts of the errors and the log context are left out.
pub mod Gate
mod Tests
use raglogs.Base.{
  strip, str_mem, str_eq, ℕ, String, Bool, false, not, ◌||◌, Option, none, some, List, [], ◌∷◌,
  ◌==◌, if◌then◌else◌,
}
use Prim.Native.Char.{code}
use mathlib.Core.Option.{map as map_option}
use raglogs.Api.Scope.{AuthPrincipal}
use raglogs.Api.Roles.{RoleSet, allows, required_roles}
use raglogs.Api.Keys.{ApiKeyRecord, lookup_api_key}
use raglogs.Api.Oidc.{Claims, OidcPrincipal, looks_like_jwt, validate_oidc_token}

-- the first and the last part of `header.partition(" ")`
unfoldable pub before_space : String → String
before_space String.[] = String.[]
before_space (String.◌∷◌ c s) =
    let rest = before_space s in if code c == b' ' then String.[] else String.◌∷◌ c rest

unfoldable pub after_space : String → String
after_space String.[] = String.[]
after_space (String.◌∷◌ c s) = let rest = after_space s in if code c == b' ' then s else rest

unfoldable pub extract_bearer : (String → String) → Option String → Option String
unfolding before_space after_space strip
extract_bearer lower none = none
extract_bearer lower (some header) =
    if not (str_eq (lower (before_space header)) "bearer") || str_eq (strip (after_space header)) ""
    then none
    else some (strip (after_space header))

pub record AuthSettings : Type 0 where
  pub auth_enabled : Bool
  pub auth_mode : String
  pub oidc_issuer : String

-- What the process asks of its environment: the table of keys, argon2, and the tokens' decoder.
pub record Environment : Type 0 where
  pub lower : String → String
  pub upper : String → String
  pub is_digit : ℕ → Bool
  pub verify : String → String → Bool
  pub decode : String → Option Claims
  pub api_keys : List ApiKeyRecord

unfoldable pub oidc_principal : OidcPrincipal → AuthPrincipal
oidc_principal p = record {
  role = p.role;
  scope = p.scope;
  auth_method = "oidc";
  key_id = none;
  subject = p.subject;
  allow_scope_override = false;
  config_json = none;
}

unfoldable pub key_principal : ApiKeyRecord → AuthPrincipal
key_principal r = record {
  role = r.role;
  scope = r.scope;
  auth_method = "api_key";
  key_id = some r.id;
  subject = none;
  allow_scope_override = r.allow_scope_override;
  config_json = r.config_json;
}

unfoldable pub authenticate_jwt : Environment → AuthSettings → String → Option AuthPrincipal
unfolding oidc_principal
authenticate_jwt e s token =
    if not (str_mem s.auth_mode ("oidc" ∷ "both" ∷ []))
    then none
    else map_option oidc_principal (validate_oidc_token e.decode s.oidc_issuer token)

unfoldable pub authenticate_key : Environment → AuthSettings → String → Option AuthPrincipal
unfolding key_principal
authenticate_key e s token =
    if not (str_mem s.auth_mode ("api_key" ∷ "both" ∷ []))
    then none
    else map_option key_principal (lookup_api_key e.verify e.api_keys token)

-- `_authenticate_token`
unfoldable pub authenticate_token : Environment → AuthSettings → String → Option AuthPrincipal
unfolding authenticate_jwt authenticate_key
authenticate_token e s token =
    if looks_like_jwt token then authenticate_jwt e s token else authenticate_key e s token

pub data AuthResult : Type 0 where
  -- the request goes on, with the principal that is stored on it
  proceeds : Option AuthPrincipal → AuthResult
  -- 401 and 403
  unauthorized forbidden : AuthResult

-- the part behind the token
unfoldable pub check_role : RoleSet → Option AuthPrincipal → AuthResult
check_role roles none = unauthorized
check_role roles (some p) = if allows roles p.role then proceeds (some p) else forbidden

unfoldable pub check_token : Environment → AuthSettings → RoleSet → Option String → AuthResult
unfolding check_role authenticate_token
check_token e s roles none = unauthorized
check_token e s roles (some token) = check_role roles (authenticate_token e s token)

-- `authorize_request`, of a method, a path and the header `authorization`
unfoldable pub authorize_request :
    Environment → AuthSettings → String → String → Option String → AuthResult
unfolding check_token extract_bearer
authorize_request e s method path header = elim (required_roles e.is_digit e.upper method path) [
  | none ↦ proceeds none
  | some roles ↦
      if not s.auth_enabled
      then proceeds none
      else check_token e s roles (extract_bearer e.lower header)
]
