-- ===== src/Api/Roles.antt =====
-- src/api/auth/roles.py: which roles may call a route. `upper` is `str.upper`.
pub mod Map
use raglogs.Base.{
  str_mem, str_eq, ℕ, String, Bool, ◌||◌, Option, none, some, [], ◌∷◌, if◌then◌else◌,
}
use raglogs.Api.Routes.{route, is_under, has_prefix}

pub data RoleSet : Type 0 where
  ingest_roles query_roles admin_roles : RoleSet

-- `role in roles`
unfoldable pub allows : RoleSet → String → Bool
allows ingest_roles role = str_eq role "ingest" || str_eq role "admin"
allows query_roles role = str_eq role "query" || str_eq role "admin"
allows admin_roles role = str_eq role "admin"

unfoldable pub is_exempt_route : String → Bool
unfolding is_under
is_exempt_route r = is_under "/health" "/health/" r || is_under "/metrics" "/metrics/" r

unfoldable pub route_roles : String → String → RoleSet
unfolding is_under has_prefix
route_roles verb r =
    if is_under "/ingestions" "/ingestions/" r
    then (if str_eq verb "POST" then ingest_roles else query_roles)
    else if is_under "/query" "/query/" r
    then query_roles
    else if is_under "/config" "/config/" r
    then admin_roles
    else if str_eq r "/" || has_prefix r "/static"
    then query_roles
    else if str_mem r ("/docs" ∷ "/redoc" ∷ "/openapi.json" ∷ [])
        || has_prefix r "/docs/"
        || has_prefix r "/redoc/"
    then query_roles
    else if is_under "/admin" "/admin/" r
    then admin_roles
    else admin_roles

module _ (is_digit : ℕ → Bool) (upper : String → String) where
  unfoldable pub is_exempt_path : String → Bool
  unfolding is_exempt_route
  is_exempt_path path = is_exempt_route (route is_digit path)

  -- `none` for an exempt path
  unfoldable pub required_roles : String → String → Option RoleSet
  unfolding is_exempt_path
  required_roles method path =
      if is_exempt_path path then none else some (route_roles (upper method) (route is_digit path))
