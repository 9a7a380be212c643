-- ===== src/Api/Idempotency/Replay.antt =====
-- What a client sees that sends a key twice, for
-- src/core/ingestion/idempotency.py.
use raglogs.Base.{
  eq_refl, ℕ, ◌+◌, ◌<◌, String, ◌≡◌, refl, sym, inl, inr, Bool, true, false, Option, some, List,
  ◌∷◌, arith, Bool-cases, Option-cases,
}
use raglogs.Api.Idempotency.{
  Row, stored, get_idempotency_row, is_active, lookup_active_key, delete_key, insert_row, new_row,
  store_over, store_idempotency_key,
}

module _ {J : Type 0} where
  get-hit : (r : Row J) (rows : List (Row J)) → get_idempotency_row r.key (r ∷ rows) ≡ some r
  unfolding get_idempotency_row
  get-hit r rows = rw (eq_refl r.key) refl

  lookup-hit :
      (r : Row J) (rows : List (Row J)) (now : ℕ)
      → is_active r now ≡ true
      → lookup_active_key (r ∷ rows) r.key now ≡ some r
  unfolding lookup_active_key
  lookup-hit r rows now live = rw (lookup_active_key, get-hit r rows, live) refl

  lookup-found :
      (key : String) (r : Row J) (rows : List (Row J)) (now : ℕ)
      → get_idempotency_row key rows ≡ some r
      → is_active r now ≡ true
      → lookup_active_key rows key now ≡ some r
  unfolding lookup_active_key
  lookup-found key r rows now found live = rw (lookup_active_key, found, live) refl

  -- An insert that succeeds leaves the row that it returns, active, under its key.
  insert_row-lookup :
      (row : Row J) (now : ℕ) (rows : List (Row J)) (r : Row J) (replay : Bool)
      → is_active row now ≡ true
      → (insert_row row now rows).1 ≡ stored r replay
      → lookup_active_key (insert_row row now rows).0 row.key now ≡ some r
  unfolding insert_row
  insert_row-lookup row now rows r replay live =
      elim (Option-cases (get_idempotency_row row.key rows)) [
        | inl free ↦
            rw (insert_row, free)
              (λ h. let e : row ≡ r = ground arith in rw (← e) (lookup-hit row rows now live))
        | inr (winner, found) ↦
            rw (insert_row, found)
              (elim (Bool-cases (is_active winner now)) [
                | inl w ↦ rw w (λ h.
                    let e : winner ≡ r = ground arith in
                    rw (← e) (lookup-found row.key winner rows now found w))
                | inr w ↦ rw w (λ h. cc)
              ])
      ]

  new-active_until :
      (key : String) (worker_job_id ingestion_job_id : Option J) (mode : String) (now ttl later : ℕ)
      → later < now + ttl
      → is_active (new_row key worker_job_id ingestion_job_id mode now ttl) later ≡ true
  unfolding is_active new_row
  new-active_until key worker_job_id ingestion_job_id mode now ttl later soon = ground arith

  new-active :
      (key : String) (worker_job_id ingestion_job_id : Option J) (mode : String) (now ttl : ℕ)
      → 0 < ttl
      → is_active (new_row key worker_job_id ingestion_job_id mode now ttl) now ≡ true
  unfolding is_active new_row
  new-active key worker_job_id ingestion_job_id mode now ttl positive = ground arith

  -- A store that does not fail returns the row that the table then holds under the key, and that
  -- row is active: a repeated request with the key finds it. This holds whatever other transactions
  -- commit in between, when keys live for a positive time.
  pub store_idempotency_key-lookup :
      (key : String) (worker_job_id ingestion_job_id : Option J) (mode : String) (now ttl : ℕ)
      (others : List (Row J) → List (Row J)) (rows : List (Row J)) (r : Row J) (replay : Bool)
      → 0 < ttl
      → (store_idempotency_key key worker_job_id ingestion_job_id mode now ttl others rows).1
        ≡ stored r replay
      → lookup_active_key
          (store_idempotency_key key worker_job_id ingestion_job_id mode now ttl others rows).0
          key
          now
        ≡ some r
  unfolding store_idempotency_key store_over
  store_idempotency_key-lookup key worker_job_id ingestion_job_id mode now ttl others rows r replay
        positive =
      let row : Row J = new_row key worker_job_id ingestion_job_id mode now ttl in
      let live : is_active row now ≡ true =
        new-active key worker_job_id ingestion_job_id mode now ttl positive in
      elim (Option-cases (get_idempotency_row key rows)) [
        | inl free ↦
            rw (store_idempotency_key, free) (insert_row-lookup row now (others rows) r replay live)
        | inr (existing, found) ↦
            rw (store_idempotency_key, found)
              (elim (Bool-cases (is_active existing now)) [
                | inl active ↦ rw active (λ h.
                    let e : existing ≡ r = ground arith in
                    rw (← e) (lookup-found key existing rows now found active))
                | inr expired ↦
                    rw expired
                      (insert_row-lookup row now (others (delete_key key rows)) r replay live)
              ])
      ]

  insert_row-first :
      (row : Row J) (now : ℕ) (rows : List (Row J)) (r : Row J)
      → (insert_row row now rows).1 ≡ stored r false
      → ((insert_row row now rows).0 ≡ row ∷ rows) × (r ≡ row)
  unfolding insert_row
  insert_row-first row now rows r = elim (Option-cases (get_idempotency_row row.key rows)) [
    | inl free ↦ rw (insert_row, free) (λ h. let e : row ≡ r = ground arith in (refl, sym e))
    | inr (winner, found) ↦
        rw (insert_row, found)
          (elim (Bool-cases (is_active winner now)) [
            | inl w ↦ rw w (λ h. cc)
            | inr w ↦ rw w (λ h. cc)
          ])
  ]

  store-first :
      (key : String) (worker_job_id ingestion_job_id : Option J) (mode : String) (now ttl : ℕ)
      (others : List (Row J) → List (Row J)) (rows : List (Row J)) (r : Row J)
      → (store_idempotency_key key worker_job_id ingestion_job_id mode now ttl others rows).1
        ≡ stored r false
      → (rest : List (Row J)) × ((store_idempotency_key key worker_job_id ingestion_job_id mode now
            ttl others rows).0
          ≡ new_row key worker_job_id ingestion_job_id mode now ttl ∷ rest)
        × (r ≡ new_row key worker_job_id ingestion_job_id mode now ttl)
  unfolding store_idempotency_key store_over
  store-first key worker_job_id ingestion_job_id mode now ttl others rows r =
      let row : Row J = new_row key worker_job_id ingestion_job_id mode now ttl in
      elim (Option-cases (get_idempotency_row key rows)) [
        | inl free ↦
            rw (store_idempotency_key, free)
              (λ h. let e = insert_row-first row now (others rows) r h in (others rows, e.0, e.1))
        | inr (existing, found) ↦
            rw (store_idempotency_key, found)
              (elim (Bool-cases (is_active existing now)) [
                | inl active ↦ rw active (λ h. cc)
                | inr expired ↦ rw expired (λ h.
                    let left = others (delete_key key rows) in
                    let e = insert_row-first row now left r h in (left, e.0, e.1))
              ])
      ]

  -- A key with an active row is a replay.
  store-replay :
      (key : String) (worker_job_id ingestion_job_id : Option J) (mode : String) (now ttl : ℕ)
      (others : List (Row J) → List (Row J)) (rows : List (Row J)) (r : Row J)
      → get_idempotency_row key rows ≡ some r
      → is_active r now ≡ true
      → store_idempotency_key key worker_job_id ingestion_job_id mode now ttl others rows
        ≡ (rows, stored r true)
  unfolding store_idempotency_key store_over
  store-replay key worker_job_id ingestion_job_id mode now ttl others rows r found active =
      rw (store_idempotency_key, found, active) refl

  -- First wins: after a store that was not a replay, every store with the same key before the
  -- row expires returns the row of the first as a replay and leaves the table as it is,
  -- whatever job and mode it brings.
  pub first_store_wins :
      (key : String) (worker_job_id ingestion_job_id : Option J) (mode : String) (now ttl : ℕ)
      (others : List (Row J) → List (Row J)) (rows : List (Row J)) (r : Row J)
      (worker_job_id' ingestion_job_id' : Option J) (mode' : String) (later ttl' : ℕ)
      (others' : List (Row J) → List (Row J))
      → later < now + ttl
      → (store_idempotency_key key worker_job_id ingestion_job_id mode now ttl others rows).1
        ≡ stored r false
      → let table =
          (store_idempotency_key key worker_job_id ingestion_job_id mode now ttl others rows).0 in
        store_idempotency_key key worker_job_id' ingestion_job_id' mode' later ttl' others' table
        ≡ (table, stored r true)
  unfolding new_row
  first_store_wins key worker_job_id ingestion_job_id mode now ttl others rows r worker_job_id'
        ingestion_job_id' mode' later ttl' others' soon first =
      let row : Row J = new_row key worker_job_id ingestion_job_id mode now ttl in
      let (rest, table, same) =
        store-first key worker_job_id ingestion_job_id mode now ttl others rows r first in
      rw (table, same)
        (store-replay key worker_job_id' ingestion_job_id' mode' later ttl' others' (row ∷ rest) row
          (get-hit row rest)
          (new-active_until key worker_job_id ingestion_job_id mode now ttl later soon))
