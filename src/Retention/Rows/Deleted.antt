-- ===== src/Retention/Rows/Deleted.antt =====
-- What deleting a chunk of expired rows leaves, for src/core/retention/purge.py.
use raglogs.Base.{
  In-sorted, id_mem, tally, length-filter, tally-filter, tally_ext, filter_ext, filter-filter,
  tally_split, tally-pos, tally-sorted, length-sorted, In-take, length-map, sorted, length, take,
  length-take, filter, ℕ, zero, suc, ◌+◌, min, String, ◌≡◌, refl, ◌∙◌, inl, inr, Bool, true, false,
  not, ◌&&◌, List, [], ◌∷◌, map, arith, ◌==◌, Bool-cases, In, In-filter,
}
use raglogs.Retention.Rows.{
  IsKeyed, is_expired, by_expiry, select_expired_ids, count_expired, delete_ids,
}

module _ {R : Type 0} (id : R → ℕ) where
  pub id_mem-map : (r : R) (rows : List R) → In r rows → id_mem (id r) (map id rows) ≡ true
  unfolding id_mem
  id_mem-map r [] i = absurd i
  id_mem-map r (x ∷ rows) (inl e) = rw (← e) (ground arith)
  id_mem-map r (x ∷ rows) (inr i) = let ih = id_mem-map r rows i in ground arith

  pub map-id_mem :
      (i : ℕ) (rows : List R) → id_mem i (map id rows) ≡ true → (r : R) × In r rows × (id r ≡ i)
  unfolding id_mem
  map-id_mem i [] h = absurd (cc)
  map-id_mem i (x ∷ rows) h = elim (Bool-cases (i == id x)) [
    | inl same ↦ (x, inl refl, ground arith)
    | inr other ↦ let (r, j, e) = map-id_mem i rows (rw (other, id_mem) at h) in (r, inr j, e)
  ]

  pub IsKeyed-filter : (p : R → Bool) (rows : List R) → IsKeyed id rows → IsKeyed id (filter p rows)
  IsKeyed-filter p rows k i =
      omega (
        arith,
        k i,
        tally-filter (λ r. id r == i) p rows,
        tally_split (λ r. id r == i) p rows,
        swap,
      )
    where
      swap : tally (λ r. p r && id r == i) rows ≡ tally (λ r. id r == i && p r) rows
      swap = tally_ext (λ r. p r && id r == i) (λ r. id r == i && p r) rows (λ x _. ground arith)

  pub IsKeyed-sorted :
      (lt : R → R → Bool) (rows : List R) → IsKeyed id rows → IsKeyed id (sorted lt rows)
  IsKeyed-sorted lt rows k i = omega (arith, k i, tally-sorted lt (λ r. id r == i) rows)

  -- Two rows with one id are one row, so a test cannot tell them apart.
  pub IsKeyed-In :
      (p : R → Bool) (rows : List R) (r s : R)
      → IsKeyed id rows
      → In r rows
      → In s rows
      → id r ≡ id s
      → p r ≡ true
      → p s ≡ true
  IsKeyed-In p rows r s k ir is_ e pr = elim (Bool-cases (p s)) [
    | inl yes_ ↦ yes_
    | inr no_ ↦
        let a = tally-pos (λ x. id x == id r && p x) r rows ir (ground arith) in
        let b = tally-pos (λ x. id x == id r && not (p x)) s rows is_ (ground arith) in
        absurd (omega (arith, a, b, k (id r), tally_split (λ x. id x == id r) p rows))
  ]

  IsKeyed-cons : (x : R) (rows : List R) → IsKeyed id (x ∷ rows) → IsKeyed id rows
  unfolding tally
  IsKeyed-cons x rows k i = let h = k i in ground arith

  -- No later row has the id of the first.
  first-other :
      (x : R) (rows : List R) (r : R) → IsKeyed id (x ∷ rows) → In r rows → (id r == id x) ≡ false
  unfolding tally
  first-other x rows r k i =
      let one_ = tally-pos (λ y. id y == id r) r rows i (ground arith) in
      let h = k (id r) in ground arith

  -- Of rows with distinct ids, those with the ids of the first `n` are these.
  pub taken :
      (n : ℕ) (rows : List R)
      → IsKeyed id rows
      → tally (λ r. not (id_mem (id r) (map id (take n rows)))) rows + length (take n rows)
        ≡ length rows
  unfolding tally id_mem
  taken zero [] k = omega arith
  taken zero (x ∷ rows) k = let ih = taken zero rows (IsKeyed-cons x rows k) in omega arith
  taken (suc n) [] k = omega arith
  taken (suc n) (x ∷ rows) k =
      let ids = map id (take n rows) in
      let ih = taken n rows (IsKeyed-cons x rows k) in
      let same =
        tally_ext (λ r. not (id_mem (id r) (id x ∷ ids))) (λ r. not (id_mem (id r) ids)) rows
          (λ r i. let other = first-other x rows r k i in ground arith) in
      ground arith

  module _ (scope_of : R → String) (expiry : R → ℕ) (scope : String) (cutoff limit : ℕ)
      (rows : List R) where
    abbrev old : List R
    old =
        sorted (by_expiry id scope_of expiry)
          (filter (is_expired id scope_of expiry scope cutoff) rows)

    abbrev chunk : List ℕ
    chunk = select_expired_ids id scope_of expiry scope cutoff limit rows

    length-old : length old ≡ count_expired id scope_of expiry scope cutoff rows
    unfolding count_expired
    length-old = omega (
      arith,
      length-sorted (by_expiry id scope_of expiry)
          (filter (is_expired id scope_of expiry scope cutoff) rows),
      length-filter (is_expired id scope_of expiry scope cutoff) rows,
    )

    -- A chunk has as many ids as there are expired rows, up to the limit.
    pub length-select_expired_ids :
        length chunk ≡ min limit (count_expired id scope_of expiry scope cutoff rows)
    unfolding select_expired_ids
    length-select_expired_ids =
        omega (arith, length-map id (take limit old), length-take limit old, length-old)

    -- Deleting a chunk takes exactly its rows from those that are expired.
    pub count_expired-delete_ids :
        IsKeyed id rows
        → count_expired id scope_of expiry scope cutoff (delete_ids id chunk rows) + length chunk
          ≡ count_expired id scope_of expiry scope cutoff rows
    unfolding select_expired_ids count_expired delete_ids
    count_expired-delete_ids k =
        let exp = is_expired id scope_of expiry scope cutoff in
        let kept : R → Bool = λ r. not (id_mem (id r) chunk) in
        let keyed =
          IsKeyed-sorted (by_expiry id scope_of expiry) (filter exp rows)
            (IsKeyed-filter exp rows k) in
        omega (
          arith,
          tally-filter exp kept rows,
          tally-filter kept exp rows,
          tally_ext (λ r. kept r && exp r) (λ r. exp r && kept r) rows (λ r i. ground arith),
          tally-sorted (by_expiry id scope_of expiry) kept (filter exp rows),
          taken limit old keyed,
          length-map id (take limit old),
          length-old,
        )

    -- A chunk names expired rows only.
    pub select-expired :
        (r : R)
        → IsKeyed id rows
        → In r rows
        → id_mem (id r) chunk ≡ true
        → is_expired id scope_of expiry scope cutoff r ≡ true
    unfolding select_expired_ids
    select-expired r k i h =
        let exp = is_expired id scope_of expiry scope cutoff in
        let (s, j, e) = map-id_mem (id r) (take limit old) h in
        let found =
          (In-sorted (by_expiry id scope_of expiry) s (filter exp rows)).0
            (In-take s limit old j) in
        let kept = (In-filter exp s rows).0 found in IsKeyed-In exp rows s r k kept.0 i e kept.1

    -- Deleting a chunk leaves every other row where it is.
    pub filter-delete_ids :
        IsKeyed id rows
        → filter
            (λ r. not (is_expired id scope_of expiry scope cutoff r))
            (delete_ids id chunk rows)
          ≡ filter (λ r. not (is_expired id scope_of expiry scope cutoff r)) rows
    unfolding delete_ids
    filter-delete_ids k =
        let exp = is_expired id scope_of expiry scope cutoff in
        filter-filter (λ r. not (exp r)) (λ r. not (id_mem (id r) chunk)) rows
        ∙ filter_ext (λ r. not (id_mem (id r) chunk) && not (exp r)) (λ r. not (exp r)) rows
            (λ r i. elim (Bool-cases (id_mem (id r) chunk)) [
              | inl named ↦ rw (named, select-expired r k i named)
              | inr spared ↦ rw spared
            ])
