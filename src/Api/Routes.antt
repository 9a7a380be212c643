-- ===== src/Api/Routes.antt =====
-- What src/api/auth/roles.py and src/api/ratelimit.py make of a path before they match it. Both
-- files have the same code. `is_digit` is the class `\d` of the regular expression.
use raglogs.Base.{str_eq, ℕ, String, Bool, true, false, not, ◌&&◌, ◌||◌, ◌==◌, if◌then◌else◌}
use Prim.Native.Char.{code}

-- `s.startswith(t)`
unfoldable pub has_prefix : String → String → Bool
has_prefix s String.[] = true
has_prefix String.[] (String.◌∷◌ d t) = false
has_prefix (String.◌∷◌ c s) (String.◌∷◌ d t) =
    let rest = has_prefix s t in if code c == code d then rest else false

-- `path.rstrip("/")`
unfoldable pub rstrip_slash : String → String
rstrip_slash String.[] = String.[]
rstrip_slash (String.◌∷◌ c s) =
    let rest = rstrip_slash s in
    if str_eq rest "" && code c == b'/' then String.[] else String.◌∷◌ c rest

-- `path.endswith("/")`
unfoldable pub ends_with_slash : String → Bool
ends_with_slash String.[] = false
ends_with_slash (String.◌∷◌ c s) =
    let rest = ends_with_slash s in if str_eq s "" then code c == b'/' else rest

-- A path of length above one that ends in a slash is any such path but "/".
unfoldable pub normalize_path : String → String
unfolding rstrip_slash ends_with_slash
normalize_path path =
    if str_eq path ""
    then "/"
    else if not (str_eq path "/") && ends_with_slash path
    then rstrip_slash path
    else path

module _ (is_digit : ℕ → Bool) where
  unfoldable pub drop_digits : String → String
  drop_digits String.[] = String.[]
  drop_digits (String.◌∷◌ c s) =
      let rest = drop_digits s in if is_digit (code c) then rest else String.◌∷◌ c s

  unfoldable pub starts_with_digit : String → Bool
  starts_with_digit String.[] = false
  starts_with_digit (String.◌∷◌ c s) = is_digit (code c)

  -- the lookahead `(?=/|$)`; `$` also stands before a last line break
  unfoldable pub at_boundary : String → Bool
  unfolding has_prefix
  at_boundary s = str_eq s "" || str_eq s "\n" || has_prefix s "/"

  -- `re.compile(r"^/v\d+(?=/|$)").sub("", path, count=1)`
  unfoldable pub sub_version : String → String
  unfolding drop_digits starts_with_digit at_boundary
  sub_version String.[] = String.[]
  sub_version (String.◌∷◌ c String.[]) = String.◌∷◌ c String.[]
  sub_version (String.◌∷◌ c (String.◌∷◌ d s)) =
      if code c == b'/' && code d == b'v' && starts_with_digit s && at_boundary (drop_digits s)
      then drop_digits s
      else String.◌∷◌ c (String.◌∷◌ d s)

  -- `_strip_api_version(_normalize_path(path))`
  unfoldable pub route : String → String
  unfolding normalize_path sub_version
  route path =
      let stripped = sub_version (normalize_path path) in
      if str_eq stripped "" then "/" else stripped

-- `path == base or path.startswith(base + "/")`, given both texts
unfoldable pub is_under : String → String → String → Bool
unfolding has_prefix
is_under base base_slash path = str_eq path base || has_prefix path base_slash
