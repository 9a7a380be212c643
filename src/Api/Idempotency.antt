-- ===== src/Api/Idempotency.antt =====
-- src/core/ingestion/idempotency.py. The table is a list of rows; a time is a whole number of
-- seconds, in UTC. What other transactions commit between the look-up and the insert of a call is
-- the function `others`. `J` is the type of the job ids.
pub mod Replay
use raglogs.Base.{
  strip, count, prefix, str_eq, ℕ, ◌+◌, String, Bool, true, false, Option, none, some, List, [],
  ◌∷◌, ltb, leb, if◌then◌else◌,
}
use Prim.Native.String.{◌++◌ as append}

pub data ParsedKey : Type 0 where
  omitted : ParsedKey
  parsed : String → ParsedKey
  -- InvalidIdempotencyKey
  invalid : ParsedKey

abbrev pub max_idempotency_key_length : ℕ
max_idempotency_key_length = 256

unfoldable pub parse_idempotency_key : Option String → ParsedKey
unfolding strip count
parse_idempotency_key none = omitted
parse_idempotency_key (some raw) =
    let key = strip raw in
    if str_eq key ""
    then invalid
    else if ltb max_idempotency_key_length (count key)
    then invalid
    else parsed key

unfoldable pub key_log_prefix : String → String
unfolding prefix count
key_log_prefix key =
    if leb (count key) 8
    then (if ltb 2 (count key) then append (prefix 2 key) "…" else "…")
    else prefix 8 key

pub record Row (J : Type 0) : Type 0 where
  pub key : String
  pub worker_job_id : Option J
  pub ingestion_job_id : Option J
  pub mode : String
  pub created_at : ℕ
  pub expires_at : Option ℕ

pub data Stored (J : Type 0) : Type 0 where
  -- the row and `is_replay`
  stored : Row J → Bool → Stored J
  integrity_error : Stored J

module _ {J : Type 0} where
  unfoldable pub get_idempotency_row : String → List (Row J) → Option (Row J)
  get_idempotency_row key [] = none
  get_idempotency_row key (r ∷ rows) =
      if str_eq r.key key then some r else get_idempotency_row key rows

  unfoldable pub is_active : Row J → ℕ → Bool
  is_active r now = elim r.expires_at [ none ↦ false | some expires ↦ ltb now expires ]

  unfoldable pub lookup_active_key : List (Row J) → String → ℕ → Option (Row J)
  lookup_active_key rows key now = elim (get_idempotency_row key rows) [
    | none ↦ none
    | some r ↦ if is_active r now then some r else none
  ]

  -- `db.delete(existing)`: the key is the primary key
  unfoldable pub delete_key : String → List (Row J) → List (Row J)
  delete_key key [] = []
  delete_key key (r ∷ rows) =
      let rest = delete_key key rows in if str_eq r.key key then rest else r ∷ rest

  -- the insert in a nested transaction: the winner of a race is a replay
  unfoldable pub insert_row : Row J → ℕ → List (Row J) → List (Row J) × Stored J
  insert_row row now rows = elim (get_idempotency_row row.key rows) [
    | none ↦ (row ∷ rows, stored row false)
    | some winner ↦
        if is_active winner now then (rows, stored winner true) else (rows, integrity_error)
  ]

  unfoldable pub new_row : String → Option J → Option J → String → ℕ → ℕ → Row J
  new_row key worker_job_id ingestion_job_id mode now ttl_seconds = record {
    key = key;
    worker_job_id = worker_job_id;
    ingestion_job_id = ingestion_job_id;
    mode = mode;
    created_at = now;
    expires_at = some (now + ttl_seconds);
  }

  -- the branch on the row that is there; `row` is the new one
  unfoldable pub store_over :
      Option (Row J)
      → Row J
      → ℕ
      → (List (Row J) → List (Row J))
      → List (Row J)
      → List (Row J) × Stored J
  unfolding insert_row delete_key
  store_over none row now others rows = insert_row row now (others rows)
  store_over (some existing) row now others rows =
      if is_active existing now
      then (rows, stored existing true)
      else insert_row row now (others (delete_key row.key rows))

  unfoldable pub store_idempotency_key :
      String
      → Option J
      → Option J
      → String
      → ℕ
      → ℕ
      → (List (Row J) → List (Row J))
      → List (Row J)
      → List (Row J) × Stored J
  unfolding store_over new_row
  store_idempotency_key key worker_job_id ingestion_job_id mode now ttl_seconds others rows =
      store_over (get_idempotency_row key rows)
        (new_row key worker_job_id ingestion_job_id mode now ttl_seconds) now others rows
