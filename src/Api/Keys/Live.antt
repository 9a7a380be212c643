-- ===== src/Api/Keys/Live.antt =====
-- Which rows a token opens, for src/api/auth/keys.py.
use raglogs.Base.{
  str_eq, String, ◌≡◌, refl, ◌≢◌, inl, inr, Bool, true, false, not, ◌&&◌, none, some, List, [], ◌∷◌,
  arith, Bool-cases, In, In-filter,
}
use mathlib.Core.Option.{some_inj}
use raglogs.Api.Keys.{
  ApiKeyRecord, key_prefix, is_revoked, select_rows, find_verified_key, lookup_api_key,
}

-- A row of the table that is not revoked, has the prefix of the token, and verifies it.
pub record Opens (verify : String → String → Bool) (table : List ApiKeyRecord) (token : String)
    (r : ApiKeyRecord) : Type 0 where
  pub stored : In r table
  pub live : is_revoked r ≡ false
  pub same_prefix : str_eq r.key_prefix (key_prefix token) ≡ true
  pub verified : verify token r.key_hash ≡ true

not-false : (b : Bool) → not b ≡ true → b ≡ false
not-false true h = cc
not-false false h = refl

both : (a b : Bool) → a && b ≡ true → (a ≡ true) × (b ≡ true)
both true b h = (refl, h)
both false b h = absurd (cc)

module _ (verify : String → String → Bool) (token : String) where
  Opens-later :
      (c r : ApiKeyRecord) (candidates : List ApiKeyRecord)
      → Opens verify candidates token r
      → Opens verify (c ∷ candidates) token r
  Opens-later c r candidates h = record {
    stored = inr h.stored;
    live = h.live;
    same_prefix = h.same_prefix;
    verified = h.verified;
  }

  find_verified_key-Opens :
      (candidates : List ApiKeyRecord) (r : ApiKeyRecord)
      → find_verified_key verify token candidates ≡ some r
      → Opens verify candidates token r
  unfolding find_verified_key
  find_verified_key-Opens [] r h = absurd (cc)
  find_verified_key-Opens (c ∷ candidates) r h =
      let ih = find_verified_key-Opens candidates r in
      elim (Bool-cases (is_revoked c)) [
        | inl dead ↦ Opens-later c r candidates (ih (rw (find_verified_key, dead) at h))
        | inr live ↦ elim (Bool-cases (str_eq c.key_prefix (key_prefix token))) [
          | inr other ↦ Opens-later c r candidates (ih (rw (find_verified_key, live, other) at h))
          | inl same ↦ elim (Bool-cases (verify token c.key_hash)) [
            | inr wrong ↦
                Opens-later c r candidates (ih (rw (find_verified_key, live, same, wrong) at h))
            | inl right ↦
                let e : c ≡ r = some_inj.0 (rw (find_verified_key, live, same, right) at h) in
                rw (← e)
                  (record { stored = inl refl; live = live; same_prefix = same; verified = right })
          ]
        ]
      ]

  find_verified_key_complete :
      (candidates : List ApiKeyRecord) (r : ApiKeyRecord)
      → Opens verify candidates token r
      → find_verified_key verify token candidates ≢ none
  unfolding find_verified_key
  find_verified_key_complete [] r h = absurd h.stored
  find_verified_key_complete (c ∷ candidates) r h = elim h.stored [
    | inl e ↦ λ n. ground (arith, h.live, h.same_prefix, h.verified, e, n)
    | inr later ↦
        let ih = find_verified_key_complete candidates r (record {
          stored = later;
          live = h.live;
          same_prefix = h.same_prefix;
          verified = h.verified;
        }) in
        λ n. ground (arith, ih, n)
  ]

  -- The row that a token opens is in the table, is not revoked, has the prefix of the token and
  -- verifies it.
  pub lookup_api_key-Opens :
      (table : List ApiKeyRecord) (r : ApiKeyRecord)
      → lookup_api_key verify table token ≡ some r
      → Opens verify table token r
  unfolding lookup_api_key select_rows
  lookup_api_key-Opens table r h =
      let found = find_verified_key-Opens (select_rows (key_prefix token) table) r h in
      let kept = (In-filter _ r table).0 found.stored in
      record {
        stored = kept.0;
        live = found.live;
        same_prefix = found.same_prefix;
        verified = found.verified;
      }

  -- A row of the table that is not revoked, has the prefix of the token and verifies it is enough
  -- for the token to open some row: the query that selects the rows hides none of these.
  pub lookup_api_key_complete :
      (table : List ApiKeyRecord) (r : ApiKeyRecord)
      → Opens verify table token r
      → lookup_api_key verify table token ≢ none
  unfolding lookup_api_key select_rows
  lookup_api_key_complete table r h =
      find_verified_key_complete (select_rows (key_prefix token) table) r (record {
        stored = (In-filter _ r table).1 (h.stored, rw (h.same_prefix, h.live));
        live = h.live;
        same_prefix = h.same_prefix;
        verified = h.verified;
      })
