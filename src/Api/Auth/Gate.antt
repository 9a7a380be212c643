-- ===== src/Api/Auth/Gate.antt =====
-- What a request that proceeds has shown, for src/api/auth/middleware.py.
use raglogs.Base.{
  strip, eq_iff, String, ◌≡◌, refl, sym, ap, ◌∙◌, inl, inr, true, Option, some, arith, Bool-cases,
  Option-cases,
}
use raglogs.Api.Scope.{AuthPrincipal, resolved, is_pinned, bind_request_scope}
use raglogs.Api.Keys.{ApiKeyRecord, lookup_api_key}
use raglogs.Api.Keys.Live.{Opens, lookup_api_key-Opens}
use raglogs.Api.Oidc.{validate_oidc_token, principal_of, looks_like_jwt}
use raglogs.Api.Scope.Isolation.{pinned-own_scope}
use raglogs.Api.Roles.{RoleSet, allows, required_roles}
use raglogs.Api.Auth.{
  extract_bearer, AuthSettings, Environment, authenticate_token, proceeds, check_role, check_token,
  authorize_request, oidc_principal, key_principal, authenticate_jwt, authenticate_key,
}

oidc-method :
    (e : Environment) (s : AuthSettings) (token : String) (p : AuthPrincipal)
    → authenticate_jwt e s token ≡ some p
    → (p.auth_method ≡ "oidc") × (p.scope ≡ "default")
unfolding authenticate_jwt oidc_principal validate_oidc_token principal_of
oidc-method e s token p h = (ground arith, ground arith)

key-row :
    (e : Environment) (s : AuthSettings) (token : String) (p : AuthPrincipal)
    → authenticate_key e s token ≡ some p
    → (r : ApiKeyRecord) × (lookup_api_key e.verify e.api_keys token ≡ some r)
      × (key_principal r ≡ p)
unfolding authenticate_key
key-row e s token p h = elim (Option-cases (lookup_api_key e.verify e.api_keys token)) [
  | inl unknown ↦ absurd (ground arith)
  | inr (r, known) ↦ (r, known, ground arith)
]

module _ (e : Environment) (s : AuthSettings) (method path : String) (header : Option String)
    (roles : RoleSet) (who : Option AuthPrincipal) where
  -- With authentication on, a request to a route that is not exempt proceeds only with a principal:
  -- one that its bearer token authenticates, and whose role the route allows.
  pub authorize_request-shown :
      s.auth_enabled ≡ true
      → required_roles e.is_digit e.upper method path ≡ some roles
      → authorize_request e s method path header ≡ proceeds who
      → (token : String) × (p : AuthPrincipal) × (extract_bearer e.lower header ≡ some token)
        × (authenticate_token e s token ≡ some p)
        × (who ≡ some p)
        × (allows roles p.role ≡ true)
  unfolding authorize_request check_token check_role
  authorize_request-shown on need h = elim (Option-cases (extract_bearer e.lower header)) [
    | inl missing ↦ absurd (cc (rw (authorize_request, need, on, missing) at h))
    | inr (token, bearer) ↦ elim (Option-cases (authenticate_token e s token)) [
      | inl invalid ↦ absurd (cc (rw (authorize_request, need, on, bearer, invalid) at h))
      | inr (p, valid) ↦ elim (Bool-cases (allows roles p.role)) [
        | inr other ↦ absurd (cc (rw (authorize_request, need, on, bearer, valid, other) at h))
        | inl allowed ↦
            let k : proceeds (some p) ≡ proceeds who =
              rw (authorize_request, need, on, bearer, valid, allowed) at h in
            (token, p, bearer, valid, cc, allowed)
      ]
    ]
  ]

not_oidc : (m : String) → m ≡ "api_key" → m ≡ "oidc" → ⊥
not_oidc m a o = ground (arith, eq_iff "api_key" "oidc", a, o)

not_key : (m : String) → m ≡ "oidc" → m ≡ "api_key" → ⊥
not_key m o a = not_oidc m a o

-- Who is authenticated by an API key has, at that moment, a row in the table of keys that is not
-- revoked and that the token verifies, and takes role and scope from that row.
pub authenticate_token-Opens :
    (e : Environment) (s : AuthSettings) (token : String) (p : AuthPrincipal)
    → authenticate_token e s token ≡ some p
    → p.auth_method ≡ "api_key"
    → (r : ApiKeyRecord) × Opens e.verify e.api_keys token r
      × (p.role ≡ r.role)
      × (p.scope ≡ r.scope)
unfolding authenticate_token key_principal
authenticate_token-Opens e s token p h m = elim (Bool-cases (looks_like_jwt token)) [
  | inl jwt ↦
      absurd
        (not_oidc p.auth_method m (oidc-method e s token p (rw (authenticate_token, jwt) at h)).0)
  | inr other ↦
      let (r, known, made) = key-row e s token p (rw (authenticate_token, other) at h) in
      (
        r,
        lookup_api_key-Opens e.verify token e.api_keys r known,
        sym (ap (λ (q : AuthPrincipal). q.role) made),
        sym (ap (λ (q : AuthPrincipal). q.scope) made),
      )
]

oidc-pinned : (p : AuthPrincipal) → p.auth_method ≡ "oidc" → is_pinned p ≡ true
unfolding is_pinned
oidc-pinned p m = ground (arith, eq_iff p.auth_method "oidc")

strip-default : strip "default" ≡ "default"
unfolding strip
strip-default = refl

-- For a principal that a token authenticates by the method `oidc`, the scope that
-- `bind_request_scope` resolves, when it resolves one, is `default`, whatever the body and the query
-- of the request ask for.
pub oidc-default_scope :
    (e : Environment) (s : AuthSettings) (token : String) (p : AuthPrincipal)
    (body query : Option String) (scope : String)
    → authenticate_token e s token ≡ some p
    → p.auth_method ≡ "oidc"
    → bind_request_scope true (some p) body query ≡ resolved scope
    → scope ≡ "default"
unfolding authenticate_token key_principal
oidc-default_scope e s token p body query scope h m b =
    let own = pinned-own_scope p body query scope (oidc-pinned p m) b in
    elim (Bool-cases (looks_like_jwt token)) [
      | inl jwt ↦
          let d = (oidc-method e s token p (rw (authenticate_token, jwt) at h)).1 in
          own ∙ ap strip d ∙ strip-default
      | inr other ↦
          let (r, known, made) = key-row e s token p (rw (authenticate_token, other) at h) in
          absurd (not_key p.auth_method m (sym (ap (λ (q : AuthPrincipal). q.auth_method) made)))
    ]
