-- ===== src/Api/Scope.antt =====
-- src/api/auth/scope.py, with `AuthPrincipal` of src/api/auth/middleware.py: the isolation scope of
-- a request. The messages of the errors are left out;
-- `config_json`, which only the query overrides read, is the text of a JSON object.
pub mod Isolation
use raglogs.Base.{strip, str_eq, String, Bool, not, ◌||◌, Option, none, some, if◌then◌else◌}

pub record AuthPrincipal : Type 0 where
  pub role : String
  pub scope : String
  pub auth_method : String
  pub key_id : Option String
  pub subject : Option String
  pub allow_scope_override : Bool
  pub config_json : Option String

pub data ScopeResult : Type 0 where
  resolved : String → ScopeResult
  -- 400 SCOPE_REQUIRED and 403 SCOPE_MISMATCH
  scope_required scope_mismatch : ScopeResult

-- `s or None`
unfoldable pub non_empty : String → Option String
non_empty s = if str_eq s "" then none else some s

unfoldable pub normalize_requested_scope : Option String → Option String
unfolding non_empty
normalize_requested_scope none = none
normalize_requested_scope (some value) = non_empty (strip value)

abbrev pub default_log_scope : String
default_log_scope = "default"

-- `resolved = a or b`, and the check that it is not empty
unfoldable pub first_scope : Option String → Option String → ScopeResult
first_scope (some s) b = resolved s
first_scope none (some s) = resolved s
first_scope none none = scope_required

unfoldable pub is_pinned : AuthPrincipal → Bool
is_pinned p = str_eq p.auth_method "oidc" || not p.allow_scope_override

-- the branch of a pinned key
unfoldable pub pinned_scope : Option String → Option String → ScopeResult
pinned_scope none requested = scope_required
pinned_scope (some own) none = resolved own
pinned_scope (some own) (some requested) =
    if str_eq requested own then resolved own else scope_mismatch

unfoldable pub principal_scope : Option String → AuthPrincipal → ScopeResult
unfolding normalize_requested_scope is_pinned pinned_scope first_scope
principal_scope requested p =
    let own = normalize_requested_scope (some p.scope) in
    if is_pinned p then pinned_scope own requested else first_scope requested own

unfoldable pub resolve_scope : Option String → Bool → Option AuthPrincipal → ScopeResult
unfolding normalize_requested_scope first_scope principal_scope
resolve_scope requested_scope auth_enabled principal =
    let requested = normalize_requested_scope requested_scope in
    if not auth_enabled
    then first_scope requested (some default_log_scope)
    else elim principal [ none ↦ scope_required | some p ↦ principal_scope requested p ]

-- the JSON body's scope before the query parameter's
unfoldable pub requested_scope_from_http : Option String → Option String → Option String
unfolding normalize_requested_scope
requested_scope_from_http body_scope query_scope = elim (normalize_requested_scope body_scope) [
  | some s ↦ some s
  | none ↦ normalize_requested_scope query_scope
]

-- `bind_request_scope`: the scope is stored on the request only if it was resolved.
unfoldable pub bind_request_scope :
    Bool → Option AuthPrincipal → Option String → Option String → ScopeResult
unfolding resolve_scope requested_scope_from_http
bind_request_scope auth_enabled principal body_scope query_scope =
    resolve_scope (requested_scope_from_http body_scope query_scope) auth_enabled principal
