-- ===== src/Api/Keys.antt =====
-- src/api/auth/keys.py: finding the row of a presented key. `verify` is argon2's check of a token
-- against a hash, with its exceptions as false. A row names its id as a text; `config_json` is the
-- text of a JSON object, none for any other value; `name` and `created_at`, which are only shown, are
-- left out.
pub mod Live
use raglogs.Base.{
  filter, prefix, str_eq, ℕ, String, Bool, true, false, not, ◌&&◌, Option, none, some, List, [],
  ◌∷◌, if◌then◌else◌,
}

pub record ApiKeyRecord : Type 0 where
  pub id : String
  pub key_prefix : String
  pub key_hash : String
  pub role : String
  pub scope : String
  pub revoked_at : Option ℕ
  pub allow_scope_override : Bool
  pub config_json : Option String

abbrev pub key_prefix_len : ℕ
key_prefix_len = 12

unfoldable pub key_prefix : String → String
unfolding prefix
key_prefix token = prefix key_prefix_len token

unfoldable pub is_revoked : ApiKeyRecord → Bool
is_revoked r = elim r.revoked_at [ none ↦ false | some t ↦ true ]

-- the rows that the query of `lookup_api_key` selects
unfoldable pub select_rows : String → List ApiKeyRecord → List ApiKeyRecord
unfolding is_revoked
select_rows wanted table = filter (λ r. str_eq r.key_prefix wanted && not (is_revoked r)) table

module _ (verify : String → String → Bool) where
  unfoldable pub find_verified_key : String → List ApiKeyRecord → Option ApiKeyRecord
  unfolding key_prefix is_revoked
  find_verified_key token [] = none
  find_verified_key token (candidate ∷ candidates) =
      let rest = find_verified_key token candidates in
      if is_revoked candidate
      then rest
      else if not (str_eq candidate.key_prefix (key_prefix token))
      then rest
      else if verify token candidate.key_hash
      then some candidate
      else rest

  unfoldable pub lookup_api_key : List ApiKeyRecord → String → Option ApiKeyRecord
  unfolding select_rows find_verified_key
  lookup_api_key table token = find_verified_key token (select_rows (key_prefix token) table)
