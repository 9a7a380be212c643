-- ===== src/Retention/Store.antt =====
-- The tables of src/db/models.py that the purge reads or writes, each with the columns it uses, and
-- the statements of src/core/retention/purge.py on them. A UUID is a number; times count
-- microseconds. `last_purge_at` is the row of `app_config` as `read_last_purge_at` reads it.
use raglogs.Base.{id_mem, filter, ℕ, String, Option, none, some, List, map}
use raglogs.Retention.Policy.{ScopeRetention}
use raglogs.Retention.Rows.{
  is_expired, select_expired_ids, count_expired, delete_ids, count_owned, delete_owned,
}

pub record LogEntry : Type 0 where
  pub id : ℕ
  pub scope : String
  pub created_at : ℕ

pub record LogEmbedding : Type 0 where
  pub log_entry_id : ℕ

pub record ClusterMember : Type 0 where
  pub cluster_id : ℕ
  pub log_entry_id : ℕ

pub record ClusterEmbedding : Type 0 where
  pub id : ℕ
  pub scope : String
  pub last_seen : Option ℕ
  pub updated_at : ℕ

pub record ClusterRun : Type 0 where
  pub id : ℕ
  pub scope : String
  pub window_end : ℕ

pub record Cluster : Type 0 where
  pub id : ℕ
  pub cluster_run_id : ℕ

pub record Explanation : Type 0 where
  pub id : ℕ
  pub scope : String
  pub created_at : ℕ

pub data JobStatus : Type 0 where
  pending : JobStatus
  running : JobStatus
  finished : JobStatus
  failed : JobStatus

pub record WorkerJob : Type 0 where
  pub job_type : String
  pub status : JobStatus

pub record Db : Type 0 where
  pub log_entries : List LogEntry
  pub log_embeddings : List LogEmbedding
  pub cluster_members : List ClusterMember
  pub cluster_embeddings : List ClusterEmbedding
  pub cluster_runs : List ClusterRun
  pub clusters : List Cluster
  pub explanations : List Explanation
  pub scope_retention : List ScopeRetention
  pub worker_jobs : List WorkerJob
  pub last_purge_at : Option ℕ

-- `COALESCE(last_seen, updated_at, created_at)`, where `updated_at` is never null
unfoldable pub embedding_expiry : ClusterEmbedding → ℕ
embedding_expiry e = elim e.last_seen [ none ↦ e.updated_at | some t ↦ t ]

abbrev pub entry_id : LogEntry → ℕ
entry_id r = r.id

abbrev pub entry_scope : LogEntry → String
entry_scope r = r.scope

abbrev pub entry_expiry : LogEntry → ℕ
entry_expiry r = r.created_at

abbrev pub embedding_id : ClusterEmbedding → ℕ
embedding_id r = r.id

abbrev pub embedding_scope : ClusterEmbedding → String
embedding_scope r = r.scope

abbrev pub run_id : ClusterRun → ℕ
run_id r = r.id

abbrev pub run_scope : ClusterRun → String
run_scope r = r.scope

-- `COALESCE(window_end, created_at)`, where `window_end` is never null
abbrev pub run_expiry : ClusterRun → ℕ
run_expiry r = r.window_end

abbrev pub explanation_id : Explanation → ℕ
explanation_id r = r.id

abbrev pub explanation_scope : Explanation → String
explanation_scope r = r.scope

abbrev pub explanation_expiry : Explanation → ℕ
explanation_expiry r = r.created_at

abbrev pub embedded_entry : LogEmbedding → ℕ
embedded_entry r = r.log_entry_id

abbrev pub member_entry : ClusterMember → ℕ
member_entry r = r.log_entry_id

abbrev pub member_cluster : ClusterMember → ℕ
member_cluster r = r.cluster_id

abbrev pub cluster_id : Cluster → ℕ
cluster_id r = r.id

abbrev pub cluster_run : Cluster → ℕ
cluster_run r = r.cluster_run_id

-- `delete_log_entries_statement`, with its cascades
unfoldable pub delete_log_entries : List ℕ → Db → Db
unfolding delete_ids delete_owned
delete_log_entries ids db = record db {
  log_entries = delete_ids entry_id ids db.log_entries;
  log_embeddings = delete_owned embedded_entry ids db.log_embeddings;
  cluster_members = delete_owned member_entry ids db.cluster_members;
}

-- `delete_cluster_embeddings_statement`
unfoldable pub delete_cluster_embeddings : List ℕ → Db → Db
unfolding delete_ids
delete_cluster_embeddings ids db = record db {
  cluster_embeddings = delete_ids embedding_id ids db.cluster_embeddings;
}

-- `delete_explanations_statement`
unfoldable pub delete_explanations : List ℕ → Db → Db
unfolding delete_ids
delete_explanations ids db = record db {
  explanations = delete_ids explanation_id ids db.explanations;
}

-- `delete_cluster_runs_statement`, with its cascades: the clusters, and their members
unfoldable pub delete_cluster_runs : List ℕ → Db → Db
unfolding delete_ids delete_owned
delete_cluster_runs ids db = record db {
  cluster_runs = delete_ids run_id ids db.cluster_runs;
  clusters = delete_owned cluster_run ids db.clusters;
  cluster_members =
      delete_owned member_cluster
        (map cluster_id (filter (λ c. id_mem (cluster_run c) ids) db.clusters)) db.cluster_members;
}

module _ (scope : String) (cutoff : ℕ) where
  unfoldable pub select_expired_log_entry_ids : ℕ → Db → List ℕ
  unfolding select_expired_ids
  select_expired_log_entry_ids limit db =
      select_expired_ids entry_id entry_scope entry_expiry scope cutoff limit db.log_entries

  unfoldable pub select_expired_cluster_embedding_ids : ℕ → Db → List ℕ
  unfolding select_expired_ids embedding_expiry
  select_expired_cluster_embedding_ids limit db =
      select_expired_ids embedding_id embedding_scope embedding_expiry scope cutoff limit
        db.cluster_embeddings

  unfoldable pub select_expired_explanation_ids : ℕ → Db → List ℕ
  unfolding select_expired_ids
  select_expired_explanation_ids limit db =
      select_expired_ids explanation_id explanation_scope explanation_expiry scope cutoff limit
        db.explanations

  unfoldable pub select_expired_cluster_run_ids : ℕ → Db → List ℕ
  unfolding select_expired_ids
  select_expired_cluster_run_ids limit db =
      select_expired_ids run_id run_scope run_expiry scope cutoff limit db.cluster_runs

  -- `count_expired_log_entries_statement`, and likewise below
  unfoldable pub count_expired_log_entries : Db → ℕ
  unfolding count_expired
  count_expired_log_entries db =
      count_expired entry_id entry_scope entry_expiry scope cutoff db.log_entries

  -- The ids of the expired entries: the join of a table that they own.
  unfoldable pub expired_entries : Db → List ℕ
  unfolding filter is_expired
  expired_entries db =
      map entry_id
        (filter (is_expired entry_id entry_scope entry_expiry scope cutoff) db.log_entries)

  unfoldable pub count_expired_log_embeddings : Db → ℕ
  unfolding count_owned expired_entries
  count_expired_log_embeddings db =
      count_owned embedded_entry (expired_entries db) db.log_embeddings

  unfoldable pub count_expired_cluster_embeddings : Db → ℕ
  unfolding count_expired embedding_expiry
  count_expired_cluster_embeddings db =
      count_expired embedding_id embedding_scope embedding_expiry scope cutoff db.cluster_embeddings

  unfoldable pub count_expired_explanations : Db → ℕ
  unfolding count_expired
  count_expired_explanations db =
      count_expired explanation_id explanation_scope explanation_expiry scope cutoff db.explanations

  unfoldable pub count_expired_cluster_runs : Db → ℕ
  unfolding count_expired
  count_expired_cluster_runs db =
      count_expired run_id run_scope run_expiry scope cutoff db.cluster_runs

  unfoldable pub expired_runs : Db → List ℕ
  unfolding filter is_expired
  expired_runs db =
      map run_id (filter (is_expired run_id run_scope run_expiry scope cutoff) db.cluster_runs)

  unfoldable pub count_expired_clusters : Db → ℕ
  unfolding count_owned expired_runs
  count_expired_clusters db = count_owned cluster_run (expired_runs db) db.clusters
