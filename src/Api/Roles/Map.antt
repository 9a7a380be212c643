-- ===== src/Api/Roles/Map.antt =====
-- Who may call what, by the role map of src/api/auth/roles.py.
use raglogs.Base.{str_eq, ℕ, String, ◌≡◌, ◌↔◌, Bool, true, some, arith}
use raglogs.Api.Roles.{RoleSet, allows, route_roles, required_roles}
use raglogs.Api.Routes.{route, is_under}

route_roles-admin : (verb r : String) → allows (route_roles verb r) "admin" ≡ true
unfolding route_roles allows
route_roles-admin verb r = ground arith

-- `admin` is in every set: there is no path and method that `admin` may not call.
pub required_roles-admin :
    (is_digit : ℕ → Bool) (upper : String → String) (method path : String) (roles : RoleSet)
    → required_roles is_digit upper method path ≡ some roles
    → allows roles "admin" ≡ true
unfolding required_roles
required_roles-admin is_digit upper method path roles h =
    let all = route_roles-admin (upper method) (route is_digit path) in ground arith

-- The roles of a route that asks for some allow `ingest` exactly when the request is a POST on
-- `/ingestions` or under it.
pub required_roles-ingest :
    (is_digit : ℕ → Bool) (upper : String → String) (method path : String) (roles : RoleSet)
    → required_roles is_digit upper method path ≡ some roles
    → (allows roles "ingest" ≡ true) ↔ (
        (str_eq (upper method) "POST" ≡ true)
        × (is_under "/ingestions" "/ingestions/" (route is_digit path) ≡ true))
unfolding required_roles route_roles allows
required_roles-ingest is_digit upper method path roles h = (λ a. ground arith, λ a. ground arith)
