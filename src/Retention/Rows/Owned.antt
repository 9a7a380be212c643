-- ===== src/Retention/Rows/Owned.antt =====
-- What the cascade of a deleted chunk takes, for src/core/retention/purge.py.
use raglogs.Base.{
  In-sorted, id_mem, tally-filter, tally_ext, filter-filter, tally_split, In-take, sorted, take,
  filter, ℕ, ◌+◌, String, ◌≡◌, refl, inl, inr, Bool, true, false, not, ◌&&◌, List, [], ◌∷◌, map,
  arith, ◌==◌, Bool-cases,
}
use raglogs.Retention.Rows.{
  is_expired, by_expiry, select_expired_ids, delete_ids, count_owned, delete_owned,
}
use raglogs.Retention.Rows.Deleted.{id_mem-map, map-id_mem}

module _ {R : Type 0} (id : R → ℕ) where
  -- The ids of the rows that pass a test and are not listed.
  id_mem-unlisted :
      (i : ℕ) (ids : List ℕ) (p : R → Bool) (rows : List R)
      → id_mem i (map id (filter (λ r. not (id_mem (id r) ids) && p r) rows))
        ≡ not (id_mem i ids) && id_mem i (map id (filter p rows))
  unfolding id_mem filter
  id_mem-unlisted i ids p [] = ground arith
  id_mem-unlisted i ids p (x ∷ rows) =
      let ih = id_mem-unlisted i ids p rows in
      let id_of : (i == id x) ≡ true → i ≡ id x = λ e. ground arith in
      elim (Bool-cases (p x)) [
        | inr no_ ↦ rw (filter, no_) (ground arith)
        | inl yes_ ↦ elim (Bool-cases (id_mem (id x) ids)) [
          | inl listed ↦ elim (Bool-cases (i == id x)) [
            | inl same ↦
                let mine : id_mem i ids ≡ true = rw (id_of same) listed in
                rw (filter, yes_, listed, mine) (rw mine at ih)
            | inr other ↦ rw (filter, yes_, listed, other) (ground arith)
          ]
          | inr unlisted ↦ elim (Bool-cases (i == id x)) [
            | inl same ↦
                let mine : id_mem i ids ≡ false = rw (id_of same) unlisted in
                rw (filter, yes_, unlisted, same, mine) refl
            | inr other ↦ rw (filter, yes_, unlisted, other) (ground arith)
          ]
        ]
      ]

  module _ {D : Type 0} (owner : D → ℕ) (scope_of : R → String) (expiry : R → ℕ) (scope : String)
      (cutoff limit : ℕ) (rows : List R) where
    abbrev exp : R → Bool
    exp = is_expired id scope_of expiry scope cutoff

    abbrev chunk : List ℕ
    chunk = select_expired_ids id scope_of expiry scope cutoff limit rows

    chunk-expired : (i : ℕ) → id_mem i chunk ≡ true → id_mem i (map id (filter exp rows)) ≡ true
    unfolding select_expired_ids
    chunk-expired i h =
        let old = sorted (by_expiry id scope_of expiry) (filter exp rows) in
        let (s, j, e) = map-id_mem id i (take limit old) h in
        let found =
          (In-sorted (by_expiry id scope_of expiry) s (filter exp rows)).0
            (In-take s limit old j) in
        rw (← e) (id_mem-map id s (filter exp rows) found)

    -- What the expired rows own is what the chunk owns, and what the rows that stay expired own of
    -- what the cascade leaves.
    pub count_owned-delete :
        (ds : List D)
        → count_owned owner (map id (filter exp rows)) ds
          ≡ count_owned owner chunk ds
            + count_owned owner
                (map id (filter exp (delete_ids id chunk rows)))
                (delete_owned owner chunk ds)
    unfolding count_owned delete_owned delete_ids
    count_owned-delete ds =
        let listed : D → Bool = λ d. id_mem (owner d) (map id (filter exp rows)) in
        let named : D → Bool = λ d. id_mem (owner d) chunk in
        let later : D → Bool = λ d.
          id_mem (owner d) (map id (filter exp (filter (λ r. not (id_mem (id r) chunk)) rows))) in
        omega (
          arith,
          tally_split listed named ds,
          tally_ext (λ d. listed d && named d) named ds
              (λ d i. elim (Bool-cases (named d)) [
                | inl yes_ ↦ rw (yes_, chunk-expired (owner d) yes_) refl
                | inr no_ ↦ rw no_ (ground arith)
              ]),
          tally-filter later (λ d. not (named d)) ds,
          tally_ext (λ d. not (named d) && later d) (λ d. listed d && not (named d)) ds
              (λ d i.
                rw
                  (
                    filter-filter exp (λ r. not (id_mem (id r) chunk)) rows,
                    id_mem-unlisted (owner d) chunk exp rows,
                  )
                  (ground arith)),
        )
