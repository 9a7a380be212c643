-- ===== src/Api/Scope/Isolation.antt =====
-- Isolation of the scopes of src/api/auth/scope.py.
use raglogs.Base.{
  strip, eq_iff, String, ◌≡◌, refl, ◌∙◌, ◌≢◌, inl, inr, Bool, true, false, Option, none, some,
  arith, Bool-cases,
}
use raglogs.Api.Scope.{
  AuthPrincipal, resolved, scope_mismatch, non_empty, normalize_requested_scope, first_scope,
  is_pinned, pinned_scope, principal_scope, resolve_scope, bind_request_scope, default_log_scope,
}

strip-own :
    (p : AuthPrincipal) (s : String)
    → normalize_requested_scope (some p.scope) ≡ some s
    → s ≡ strip p.scope
unfolding normalize_requested_scope non_empty
strip-own p s h = ground arith

-- With authentication on, and for a pinned key or an OIDC principal: whatever scope the body and the
-- query ask for, the scope that `bind_request_scope` resolves, when it resolves one, is the
-- principal's own.
pub pinned-own_scope :
    (p : AuthPrincipal) (body query : Option String) (s : String)
    → is_pinned p ≡ true
    → bind_request_scope true (some p) body query ≡ resolved s
    → s ≡ strip p.scope
unfolding bind_request_scope resolve_scope principal_scope pinned_scope
pinned-own_scope p body query s pin h = ground (arith, strip-own p s)

-- With authentication on, a pinned principal whose key names a scope and that asks for another is
-- refused with a mismatch.
pub pinned-mismatch :
    (p : AuthPrincipal) (asked own : String) (auth : Option String)
    → is_pinned p ≡ true
    → normalize_requested_scope auth ≡ some asked
    → normalize_requested_scope (some p.scope) ≡ some own
    → asked ≢ own
    → resolve_scope auth true (some p) ≡ scope_mismatch
unfolding resolve_scope principal_scope pinned_scope
pinned-mismatch p asked own auth pin a o n = ground (arith, eq_iff asked own)

normalized-nonempty :
    (o : Option String) (s : String) → normalize_requested_scope o ≡ some s → s ≢ ""
unfolding normalize_requested_scope non_empty
normalized-nonempty none s h = cc
normalized-nonempty (some v) s h = λ e. ground (arith, eq_iff (strip v) "")

abbrev NonEmpty : Option String → Type 0
NonEmpty o = (x : String) → o ≡ some x → x ≢ ""

resolved-injective : {s t : String} → resolved s ≡ resolved t → s ≡ t
resolved-injective h = cc

first_scope-nonempty :
    (a b : Option String) (s : String)
    → NonEmpty a
    → NonEmpty b
    → first_scope a b ≡ resolved s
    → s ≢ ""
unfolding first_scope
first_scope-nonempty (some x) b s ha hb h = λ e. ha x refl (resolved-injective h ∙ e)
first_scope-nonempty none (some x) s ha hb h = λ e. hb x refl (resolved-injective h ∙ e)
first_scope-nonempty none none s ha hb h = cc

pinned_scope-nonempty :
    (own requested : Option String) (s : String)
    → NonEmpty own
    → pinned_scope own requested ≡ resolved s
    → s ≢ ""
unfolding pinned_scope
pinned_scope-nonempty none requested s h e = cc
pinned_scope-nonempty (some x) none s h e = λ f. h x refl (resolved-injective e ∙ f)
pinned_scope-nonempty (some x) (some r) s h e = λ f. ground (arith, h x refl)

principal_scope-nonempty :
    (requested : Option String) (p : AuthPrincipal) (s : String)
    → NonEmpty requested
    → principal_scope requested p ≡ resolved s
    → s ≢ ""
unfolding principal_scope
principal_scope-nonempty requested p s h e = elim (Bool-cases (is_pinned p)) [
  | inl pin ↦
      pinned_scope-nonempty (normalize_requested_scope (some p.scope)) requested s
        (normalized-nonempty (some p.scope)) (rw (pin, principal_scope) at e)
  | inr free ↦
      first_scope-nonempty requested (normalize_requested_scope (some p.scope)) s h
        (normalized-nonempty (some p.scope)) (rw (free, principal_scope) at e)
]

default-nonempty : NonEmpty (some default_log_scope)
default-nonempty x e = λ f. ground (arith, eq_iff "default" "", e)

-- A request that is given a scope is given one that is not empty, whether or not authentication is
-- on and whoever asks.
pub resolved-nonempty :
    (requested : Option String) (auth_enabled : Bool) (principal : Option AuthPrincipal)
    (s : String)
    → resolve_scope requested auth_enabled principal ≡ resolved s
    → s ≢ ""
unfolding resolve_scope
resolved-nonempty requested true none s h = cc
resolved-nonempty requested true (some p) s h =
    principal_scope-nonempty (normalize_requested_scope requested) p s
      (normalized-nonempty requested) h
resolved-nonempty requested false principal s h =
    first_scope-nonempty (normalize_requested_scope requested) (some default_log_scope) s
      (normalized-nonempty requested) default-nonempty h
