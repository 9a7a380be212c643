-- ===== src/Api/Oidc.antt =====
-- src/api/auth/oidc.py: what a JWT says of its bearer. `decode` stands for the network and the JWT
-- library: the key set, the signature and the claims `iss`, `exp` and `aud`, with every exception
-- as `none`. The items of the claim `roles` are texts.
use raglogs.Base.{
  strip, str_mem, str_eq, String, Bool, false, not, ◌&&◌, Option, none, some, List, [], ◌∷◌, ◌==◌,
  if◌then◌else◌,
}
use Prim.Native.Char.{code}

-- `token.split(".")`
unfoldable pub split_dots : String → List String
split_dots String.[] = "" ∷ []
split_dots (String.◌∷◌ c s) =
    let rest = split_dots s in
    if code c == b'.' then "" ∷ rest else elim rest [
      | [] ↦ String.◌∷◌ c String.[] ∷ []
      | first ∷ others ↦ String.◌∷◌ c first ∷ others
    ]

unfoldable pub looks_like_jwt : String → Bool
unfolding split_dots
looks_like_jwt token = elim (split_dots token) [
  | a ∷ b ∷ c ∷ [] ↦ not (str_eq a "") && not (str_eq b "") && not (str_eq c "")
  | _ ↦ false
]

abbrev pub valid_roles : List String
valid_roles = "ingest" ∷ "query" ∷ "admin" ∷ []

-- the claim `roles`, if it is a text or a list
pub data RolesClaim : Type 0 where
  no_roles : RolesClaim
  one_role : String → RolesClaim
  role_list : List String → RolesClaim

pub record Claims : Type 0 where
  -- the claim `raglogs_role`, if it is a text
  pub raglogs_role : Option String
  pub roles : RolesClaim
  pub subject : Option String

unfoldable pub first_valid : List String → String
first_valid [] = "query"
first_valid (r ∷ rs) = let rest = first_valid rs in if str_mem r valid_roles then r else rest

unfoldable pub role_of_roles : RolesClaim → String
unfolding first_valid
role_of_roles no_roles = "query"
role_of_roles (one_role r) = if str_mem r valid_roles then r else "query"
role_of_roles (role_list rs) = first_valid rs

unfoldable pub role_from_claims : Claims → String
unfolding role_of_roles
role_from_claims claims = elim claims.raglogs_role [
  | none ↦ role_of_roles claims.roles
  | some r ↦ if str_mem r valid_roles then r else role_of_roles claims.roles
]

pub record OidcPrincipal : Type 0 where
  pub role : String
  pub scope : String
  pub subject : Option String

unfoldable pub principal_of : Claims → OidcPrincipal
unfolding role_from_claims
principal_of claims = record {
  role = role_from_claims claims;
  scope = "default";
  subject = claims.subject;
}

unfoldable pub validate_oidc_token :
    (String → Option Claims) → String → String → Option OidcPrincipal
unfolding principal_of strip
validate_oidc_token decode oidc_issuer token =
    if str_eq (strip oidc_issuer) ""
    then none
    else elim (decode token) [ none ↦ none | some claims ↦ some (principal_of claims) ]
