-- ===== src/Retention/Purge.antt =====
-- One batch of the purge of a scope: src/core/retention/purge.py down to `list_scopes_to_purge`. A
-- chunk returns what it counted and the tables it leaves. The metrics that it records are left out.
pub mod Chunks
pub mod Tiers
pub mod Deletes
pub mod Counted
pub mod Batch
pub mod Spared
use raglogs.Base.{
  length, str_mem, ℕ, ◌+◌, String, Bool, true, false, ◌&&◌, ◌||◌, Option, none, some, List, [], ◌∷◌,
  ◌++◌, leb, ◌==◌, if◌then◌else◌,
}
use raglogs.Retention.Attempt.{Attempt, done, ◌>>=◌}
use raglogs.Retention.Policy.{RetentionPolicy, compute_cutoff}
use raglogs.Retention.Rows.{count_owned}
use raglogs.Retention.Store.{
  Db, embedded_entry, cluster_run, delete_log_entries, delete_cluster_embeddings,
  delete_explanations, delete_cluster_runs, select_expired_log_entry_ids,
  select_expired_cluster_embedding_ids, select_expired_explanation_ids,
  select_expired_cluster_run_ids, count_expired_log_entries, count_expired_log_embeddings,
  count_expired_cluster_embeddings, count_expired_explanations, count_expired_cluster_runs,
  count_expired_clusters,
}
use Prim.Native.Char.{Char}

pub record PurgeCounts : Type 0 where
  pub raw : ℕ
  pub summary : ℕ
  pub embedding : ℕ
  pub scopes : List String
  pub more_remaining : Bool

unfoldable pub add_scopes : List String → List String → List String
unfolding str_mem
add_scopes mine [] = mine
add_scopes mine (scope ∷ rest) =
    add_scopes (if str_mem scope mine then mine else mine ++ (scope ∷ [])) rest

-- `counts.add(other)`
unfoldable pub add : PurgeCounts → PurgeCounts → PurgeCounts
unfolding add_scopes
add counts other = record {
  raw = counts.raw + other.raw;
  summary = counts.summary + other.summary;
  embedding = counts.embedding + other.embedding;
  scopes = add_scopes counts.scopes other.scopes;
  more_remaining = counts.more_remaining || other.more_remaining;
}

unfoldable pub is_empty : PurgeCounts → Bool
is_empty counts = counts.raw == 0 && counts.summary == 0 && counts.embedding == 0

-- `PurgeCounts(scopes=…)`
unfoldable pub new_counts : List String → PurgeCounts
new_counts scopes = record {
  raw = 0;
  summary = 0;
  embedding = 0;
  scopes = scopes;
  more_remaining = false;
}

-- `if not ids`
unfoldable pub is_nil : List ℕ → Bool
is_nil [] = true
is_nil (i ∷ ids) = false

module _ (scope : String) (cutoff limit : ℕ) (dry_run : Bool) where
  unfoldable pub purge_raw_chunk : Db → PurgeCounts × Db
  unfolding new_counts select_expired_log_entry_ids count_owned delete_log_entries is_nil
  purge_raw_chunk db =
      let ids = select_expired_log_entry_ids scope cutoff limit db in
      if is_nil ids then (new_counts [], db) else (
        record {
          raw = length ids;
          summary = 0;
          embedding = count_owned embedded_entry ids db.log_embeddings;
          scopes = [];
          more_remaining = leb limit (length ids);
        },
        if dry_run then db else delete_log_entries ids db,
      )

  -- the three parts of `purge_summary_chunk`, each on the counts so far
  unfoldable pub purge_cluster_embeddings : PurgeCounts → Db → PurgeCounts × Db
  unfolding select_expired_cluster_embedding_ids delete_cluster_embeddings is_nil
  purge_cluster_embeddings counts db =
      let ids = select_expired_cluster_embedding_ids scope cutoff limit db in
      if is_nil ids then (counts, db) else (
        record counts {
          embedding = counts.embedding + length ids;
          more_remaining = counts.more_remaining || leb limit (length ids);
        },
        if dry_run then db else delete_cluster_embeddings ids db,
      )

  unfoldable pub purge_explanations : PurgeCounts → Db → PurgeCounts × Db
  unfolding select_expired_explanation_ids delete_explanations is_nil
  purge_explanations counts db =
      let ids = select_expired_explanation_ids scope cutoff limit db in
      if is_nil ids then (counts, db) else (
        record counts {
          summary = counts.summary + length ids;
          more_remaining = counts.more_remaining || leb limit (length ids);
        },
        if dry_run then db else delete_explanations ids db,
      )

  unfoldable pub purge_cluster_runs : PurgeCounts → Db → PurgeCounts × Db
  unfolding select_expired_cluster_run_ids count_owned delete_cluster_runs is_nil
  purge_cluster_runs counts db =
      let ids = select_expired_cluster_run_ids scope cutoff limit db in
      let cluster_n = count_owned cluster_run ids db.clusters in
      if is_nil ids then (counts, db) else (
        record counts {
          summary = counts.summary + (length ids + cluster_n);
          more_remaining = counts.more_remaining || leb limit (length ids);
        },
        if dry_run then db else delete_cluster_runs ids db,
      )

  unfoldable pub purge_summary_chunk : Db → PurgeCounts × Db
  unfolding new_counts purge_cluster_embeddings purge_explanations purge_cluster_runs
  purge_summary_chunk db =
      let (c1, db1) = purge_cluster_embeddings (new_counts []) db in
      let (c2, db2) = purge_explanations c1 db1 in purge_cluster_runs c2 db2

-- A step that a tier without a cutoff leaves out.
unfoldable pub add_tier :
    Option ℕ → (ℕ → Db → PurgeCounts × Db) → PurgeCounts × Db → PurgeCounts × Db
unfolding add
add_tier none step before_ = before_
add_tier (some cutoff) step before_ =
    let after = step cutoff before_.1 in (add before_.0 after.0, after.1)

-- the counts of `count_scope_expired` for one tier
unfoldable pub count_raw : String → ℕ → Db → PurgeCounts
unfolding new_counts count_expired_log_entries count_expired_log_embeddings
count_raw scope cutoff db = record (new_counts []) {
  raw = count_expired_log_entries scope cutoff db;
  embedding = count_expired_log_embeddings scope cutoff db;
}

unfoldable pub count_summary : String → ℕ → Db → PurgeCounts
unfolding new_counts count_expired_cluster_embeddings count_expired_explanations
    count_expired_cluster_runs count_expired_clusters
count_summary scope cutoff db = record (new_counts []) {
  embedding = count_expired_cluster_embeddings scope cutoff db;
  summary =
      count_expired_explanations scope cutoff db
      + count_expired_cluster_runs scope cutoff db
      + count_expired_clusters scope cutoff db;
}

module _ (is_digit : Char → Bool) (lower : String → String)
    (timedelta : String → ℕ → Option ℕ) where
  unfoldable pub purge_scope_batch :
      RetentionPolicy → (now limit : ℕ) → (dry_run : Bool) → Db → Attempt (PurgeCounts × Db)
  unfolding compute_cutoff purge_raw_chunk purge_summary_chunk add_tier new_counts
  purge_scope_batch policy now limit dry_run db =
      compute_cutoff is_digit lower timedelta (some policy.raw_interval) now >>= (λ raw_cutoff.
        let first =
          add_tier raw_cutoff (λ cutoff. purge_raw_chunk policy.scope cutoff limit dry_run)
            (new_counts (policy.scope ∷ []), db) in
        compute_cutoff is_digit lower timedelta (some policy.summary_interval) now
        >>= (λ summary_cutoff. done (
            add_tier summary_cutoff
              (λ cutoff. purge_summary_chunk policy.scope cutoff limit dry_run) first)))

  unfoldable pub count_scope_expired : RetentionPolicy → ℕ → Db → Attempt PurgeCounts
  unfolding compute_cutoff count_raw count_summary add_tier new_counts
  count_scope_expired policy now db =
      compute_cutoff is_digit lower timedelta (some policy.raw_interval) now >>= (λ raw_cutoff.
        compute_cutoff is_digit lower timedelta (some policy.summary_interval) now
        >>= (λ summary_cutoff.
            done
              (add_tier summary_cutoff (λ cutoff d. (count_summary policy.scope cutoff d, d))
                (add_tier raw_cutoff (λ cutoff d. (count_raw policy.scope cutoff d, d))
                  (new_counts (policy.scope ∷ []), db))).0))
