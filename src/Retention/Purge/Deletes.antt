-- ===== src/Retention/Purge/Deletes.antt =====
-- The purge as a sequence of deletions, and what none of them changes, for
-- src/core/retention/purge.py.
use raglogs.Base.{
  id_mem, length-filter, tally-le-length, tally-filter, tally_ext, tally_split, length, filter, ℕ,
  ◌+◌, ◌≤◌, String, ◌≡◌, refl, ◌∙◌, Bool, not, ◌&&◌, Option, none, some, List, arith,
}
use raglogs.Retention.Rows.{is_expired, count_expired, delete_ids, delete_owned}
use raglogs.Retention.Rows.Deleted.{IsKeyed-filter}
use raglogs.Retention.Store.{
  WorkerJob, Db, entry_id, embedding_id, run_id, explanation_id, delete_log_entries,
  delete_cluster_embeddings, delete_explanations, delete_cluster_runs, count_expired_log_entries,
  count_expired_cluster_embeddings, count_expired_explanations, count_expired_cluster_runs,
  embedding_expiry, entry_scope, entry_expiry, embedding_scope, run_scope, run_expiry,
  explanation_scope, explanation_expiry, embedded_entry, cluster_run,
}
use raglogs.Retention.Policy.{ScopeRetention}
use raglogs.Retention.Purge.Tiers.{IsKeyedDb}

-- One statement.
pub data Delete : Db → Db → Type 0 where
  entries : (ids : List ℕ) (db : Db) → Delete db (delete_log_entries ids db)
  embeddings : (ids : List ℕ) (db : Db) → Delete db (delete_cluster_embeddings ids db)
  explanations : (ids : List ℕ) (db : Db) → Delete db (delete_explanations ids db)
  runs : (ids : List ℕ) (db : Db) → Delete db (delete_cluster_runs ids db)

pub data Deletes : Db → Db → Type 0 where
  stay : (db : Db) → Deletes db db
  next : {a b c : Db} → Deletes a b → Delete b c → Deletes a c

pub Deletes-append : {a b c : Db} → Deletes a b → Deletes b c → Deletes a c
Deletes-append d (stay b) = d
Deletes-append d (next e s) = next (Deletes-append d e) s

Delete-IsKeyedDb : {a b : Db} → Delete a b → IsKeyedDb a → IsKeyedDb b
unfolding delete_log_entries delete_cluster_embeddings delete_explanations delete_cluster_runs
    delete_ids
Delete-IsKeyedDb (entries ids db) k =
    (IsKeyed-filter entry_id (λ r. not (id_mem (entry_id r) ids)) db.log_entries k.0, k.1, k.2, k.3)
Delete-IsKeyedDb (embeddings ids db) k = (
  k.0,
  IsKeyed-filter embedding_id (λ r. not (id_mem (embedding_id r) ids)) db.cluster_embeddings k.1,
  k.2,
  k.3,
)
Delete-IsKeyedDb (runs ids db) k =
    (k.0, k.1, IsKeyed-filter run_id (λ r. not (id_mem (run_id r) ids)) db.cluster_runs k.2, k.3)
Delete-IsKeyedDb (explanations ids db) k = (
  k.0,
  k.1,
  k.2,
  IsKeyed-filter explanation_id (λ r. not (id_mem (explanation_id r) ids)) db.explanations k.3,
)

-- Deletions keep the primary keys.
pub Deletes-IsKeyedDb : {a b : Db} → Deletes a b → IsKeyedDb a → IsKeyedDb b
Deletes-IsKeyedDb (stay db) k = k
Deletes-IsKeyedDb (next d s) k = Delete-IsKeyedDb s (Deletes-IsKeyedDb d k)

-- The tables that the purge of a scope leaves alone.
abbrev pub settings_of : Db → List ScopeRetention × List WorkerJob × Option ℕ
settings_of db = (db.scope_retention, db.worker_jobs, db.last_purge_at)

Delete-settings_of : {a b : Db} → Delete a b → settings_of b ≡ settings_of a
unfolding delete_log_entries delete_cluster_embeddings delete_explanations delete_cluster_runs
Delete-settings_of (entries ids db) = refl
Delete-settings_of (embeddings ids db) = refl
Delete-settings_of (runs ids db) = refl
Delete-settings_of (explanations ids db) = refl

pub Deletes-settings_of : {a b : Db} → Deletes a b → settings_of b ≡ settings_of a
Deletes-settings_of (stay db) = refl
Deletes-settings_of (next d s) = Delete-settings_of s ∙ Deletes-settings_of d

-- The rows of a scope that are expired at the cutoffs of its tiers.
abbrev pub expired_raw : String → Option ℕ → Db → ℕ
expired_raw scope none db = 0
expired_raw scope (some cutoff) db = count_expired_log_entries scope cutoff db

abbrev pub expired_summary : String → Option ℕ → Db → ℕ
expired_summary scope none db = 0
expired_summary scope (some cutoff) db =
    count_expired_cluster_embeddings scope cutoff db
    + count_expired_explanations scope cutoff db
    + count_expired_cluster_runs scope cutoff db

count_expired-delete_ids-le :
    {R : Type 0} (id : R → ℕ) (scope_of : R → String) (expiry : R → ℕ) (scope : String) (cutoff : ℕ)
    (ids : List ℕ) (rows : List R)
    → count_expired id scope_of expiry scope cutoff (delete_ids id ids rows)
      ≤ count_expired id scope_of expiry scope cutoff rows
unfolding count_expired delete_ids
count_expired-delete_ids-le id scope_of expiry scope cutoff ids rows =
    let exp = is_expired id scope_of expiry scope cutoff in
    omega (
      arith,
      tally-filter exp (λ r. not (id_mem (id r) ids)) rows,
      tally_ext (λ r. not (id_mem (id r) ids) && exp r) (λ r. exp r && not (id_mem (id r) ids)) rows
          (λ r i. ground arith),
      tally_split exp (λ r. not (id_mem (id r) ids)) rows,
    )

Delete-expired :
    (scope : String) (raw_cutoff summary_cutoff : Option ℕ) {a b : Db}
    → Delete a b
    → (expired_raw scope raw_cutoff b ≤ expired_raw scope raw_cutoff a)
      × (expired_summary scope summary_cutoff b ≤ expired_summary scope summary_cutoff a)
unfolding delete_log_entries delete_cluster_embeddings delete_explanations delete_cluster_runs
    count_expired_log_entries count_expired_cluster_embeddings count_expired_explanations
    count_expired_cluster_runs
Delete-expired scope raw_cutoff summary_cutoff d =
    (raw_le raw_cutoff d, summary_le summary_cutoff d)
  where
    raw_le : (o : Option ℕ) {a b : Db} → Delete a b → expired_raw scope o b ≤ expired_raw scope o a
    raw_le none d = omega arith
    raw_le (some c) (entries ids db) =
        count_expired-delete_ids-le entry_id entry_scope entry_expiry scope c ids db.log_entries
    raw_le (some c) (embeddings ids db) = omega arith
    raw_le (some c) (runs ids db) = omega arith
    raw_le (some c) (explanations ids db) = omega arith

    summary_le :
        (o : Option ℕ) {a b : Db}
        → Delete a b
        → expired_summary scope o b ≤ expired_summary scope o a
    summary_le none d = omega arith
    summary_le (some c) (entries ids db) = omega arith
    summary_le (some c) (embeddings ids db) = omega (
      arith,
      count_expired-delete_ids-le embedding_id embedding_scope embedding_expiry scope c ids
          db.cluster_embeddings,
    )
    summary_le (some c) (runs ids db) =
        omega (
          arith,
          count_expired-delete_ids-le run_id run_scope run_expiry scope c ids db.cluster_runs,
        )
    summary_le (some c) (explanations ids db) = omega (
      arith,
      count_expired-delete_ids-le explanation_id explanation_scope explanation_expiry scope c ids
          db.explanations,
    )

-- Deletions leave no more rows expired than there were.
pub Deletes-expired :
    (scope : String) (raw_cutoff summary_cutoff : Option ℕ) {a b : Db}
    → Deletes a b
    → (expired_raw scope raw_cutoff b ≤ expired_raw scope raw_cutoff a)
      × (expired_summary scope summary_cutoff b ≤ expired_summary scope summary_cutoff a)
Deletes-expired scope raw_cutoff summary_cutoff (stay db) = (omega arith, omega arith)
Deletes-expired scope raw_cutoff summary_cutoff (next d s) =
    let one_ = Delete-expired scope raw_cutoff summary_cutoff s in
    let all_ = Deletes-expired scope raw_cutoff summary_cutoff d in
    (omega (arith, one_.0, all_.0), omega (arith, one_.1, all_.1))

-- The rows that a dry run can count.
abbrev pub rows_of : Db → ℕ
rows_of db =
    length db.log_entries
    + length db.log_embeddings
    + length db.cluster_embeddings
    + length db.explanations
    + length db.cluster_runs
    + length db.clusters

filter-le : {R : Type 0} (keep : R → Bool) (rows : List R) → length (filter keep rows) ≤ length rows
filter-le keep rows = omega (arith, length-filter keep rows, tally-le-length keep rows)

Delete-rows_of : {a b : Db} → Delete a b → rows_of b ≤ rows_of a
unfolding delete_log_entries delete_cluster_embeddings delete_explanations delete_cluster_runs
    delete_ids delete_owned
Delete-rows_of (entries ids db) = omega (
  arith,
  filter-le (λ r. not (id_mem (entry_id r) ids)) db.log_entries,
  filter-le (λ r. not (id_mem (embedded_entry r) ids)) db.log_embeddings,
)
Delete-rows_of (embeddings ids db) =
    omega (arith, filter-le (λ r. not (id_mem (embedding_id r) ids)) db.cluster_embeddings)
Delete-rows_of (runs ids db) = omega (
  arith,
  filter-le (λ r. not (id_mem (run_id r) ids)) db.cluster_runs,
  filter-le (λ r. not (id_mem (cluster_run r) ids)) db.clusters,
)
Delete-rows_of (explanations ids db) =
    omega (arith, filter-le (λ r. not (id_mem (explanation_id r) ids)) db.explanations)

pub Deletes-rows_of : {a b : Db} → Deletes a b → rows_of b ≤ rows_of a
Deletes-rows_of (stay db) = omega arith
Deletes-rows_of (next d s) = omega (arith, Delete-rows_of s, Deletes-rows_of d)
