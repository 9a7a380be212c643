-- ===== src/Retention/Purge/Tiers.antt =====
-- What one tier of a batch takes and leaves, for src/core/retention/purge.py.
use raglogs.Base.{
  length-filter, length, filter, ℕ, ◌+◌, ◌≤◌, String, ◌≡◌, refl, false, ◌||◌, List, [], ◌∷◌, map,
  arith, leb,
}
use raglogs.Retention.Rows.{is_expired, select_expired_ids, count_expired, IsKeyed, count_owned}
use raglogs.Retention.Rows.Deleted.{length-select_expired_ids, count_expired-delete_ids}
use raglogs.Retention.Rows.Owned.{count_owned-delete}
use raglogs.Retention.Store.{
  Db, entry_id, entry_scope, entry_expiry, embedding_id, run_id, explanation_id, embedded_entry,
  delete_log_entries, select_expired_log_entry_ids, count_expired_log_entries, expired_entries,
  count_expired_log_embeddings, embedding_expiry, embedding_scope, run_scope, run_expiry,
  explanation_scope, explanation_expiry, cluster_run, delete_cluster_embeddings,
  delete_explanations, delete_cluster_runs, select_expired_cluster_embedding_ids,
  select_expired_explanation_ids, select_expired_cluster_run_ids, count_expired_cluster_embeddings,
  count_expired_explanations, count_expired_cluster_runs, expired_runs, count_expired_clusters,
}
use raglogs.Retention.Purge.{PurgeCounts, purge_raw_chunk, new_counts, purge_summary_chunk}
use raglogs.Retention.Purge.Chunks.{
  purge_raw_chunk_flat, own_none, purge_cluster_embeddings_flat, purge_explanations_flat,
  purge_cluster_runs_flat,
}

-- The primary keys of the tables that the purge selects from.
abbrev pub IsKeyedDb : Db → Type 0
IsKeyedDb db =
    IsKeyed entry_id db.log_entries
    × IsKeyed embedding_id db.cluster_embeddings
    × IsKeyed run_id db.cluster_runs
    × IsKeyed explanation_id db.explanations

module _ {R : Type 0} (id : R → ℕ) (scope_of : R → String) (expiry : R → ℕ) (scope : String)
    (cutoff : ℕ) (rows : List R) where
  -- An empty chunk says that nothing is expired.
  pub empty-count_expired :
      (limit : ℕ)
      → 1 ≤ limit
      → length (select_expired_ids id scope_of expiry scope cutoff limit rows) ≡ 0
      → count_expired id scope_of expiry scope cutoff rows ≡ 0
  empty-count_expired limit pos e =
      omega (arith, length-select_expired_ids id scope_of expiry scope cutoff limit rows)

  -- Nothing is owned by the expired rows when there are none.
  pub count_owned-none :
      {D : Type 0} (owner : D → ℕ) (ds : List D)
      → count_expired id scope_of expiry scope cutoff rows ≡ 0
      → count_owned owner (map id (filter (is_expired id scope_of expiry scope cutoff) rows)) ds ≡ 0
  unfolding count_expired
  count_owned-none owner ds e =
      rw
        (no_rows (filter (is_expired id scope_of expiry scope cutoff) rows)
          (omega (arith, length-filter (is_expired id scope_of expiry scope cutoff) rows)))
        (own_none owner ds)
    where
      no_rows : (l : List R) → length l ≡ 0 → l ≡ []
      no_rows [] h = refl
      no_rows (x ∷ l) h = absurd (omega arith)

module _ (scope : String) (limit : ℕ) (pos : 1 ≤ limit) (cutoff : ℕ) (db : Db)
    (k : IsKeyedDb db) where
  abbrev raw_ : PurgeCounts × Db
  raw_ = purge_raw_chunk scope cutoff limit false db

  pub raw-count_expired_log_entries :
      (raw_.0).raw + count_expired_log_entries scope cutoff raw_.1
      ≡ count_expired_log_entries scope cutoff db
  unfolding count_expired_log_entries delete_log_entries select_expired_log_entry_ids
  raw-count_expired_log_entries = rw (purge_raw_chunk_flat scope cutoff limit pos db) (
      omega (
        arith,
        count_expired-delete_ids entry_id entry_scope entry_expiry scope cutoff limit db.log_entries
            k.0,
      ))

  pub raw-count_expired_log_embeddings :
      (raw_.0).embedding + count_expired_log_embeddings scope cutoff raw_.1
      ≡ count_expired_log_embeddings scope cutoff db
  unfolding count_expired_log_embeddings delete_log_entries select_expired_log_entry_ids
      expired_entries
  raw-count_expired_log_embeddings = rw (purge_raw_chunk_flat scope cutoff limit pos db) (
      omega (
        arith,
        count_owned-delete entry_id embedded_entry entry_scope entry_expiry scope cutoff limit
            db.log_entries db.log_embeddings,
      ))

  pub raw-summary : (raw_.0).summary ≡ 0
  unfolding new_counts
  raw-summary = rw (purge_raw_chunk_flat scope cutoff limit pos db) refl

  -- A raw chunk that took nothing left nothing.
  pub raw-empty : (raw_.0).raw ≡ 0 → count_expired_log_entries scope cutoff db ≡ 0
  unfolding count_expired_log_entries select_expired_log_entry_ids
  raw-empty e =
      empty-count_expired entry_id entry_scope entry_expiry scope cutoff db.log_entries limit pos
        (rw (purge_raw_chunk_flat scope cutoff limit pos db) at e)

  abbrev summary_ : PurgeCounts × Db
  summary_ = purge_summary_chunk scope cutoff limit false db

  pub purge_summary_chunk_flat :
      let ids1 = select_expired_cluster_embedding_ids scope cutoff limit db in
      let ids2 = select_expired_explanation_ids scope cutoff limit db in
      let ids3 = select_expired_cluster_run_ids scope cutoff limit db in
      summary_ ≡ (
        record (new_counts []) {
          embedding = 0 + length ids1;
          summary = 0 + length ids2 + (length ids3 + count_owned cluster_run ids3 db.clusters);
          more_remaining =
              (leb limit (length ids1) || leb limit (length ids2)) || leb limit (length ids3);
        },
        delete_cluster_runs ids3 (delete_explanations ids2 (delete_cluster_embeddings ids1 db)),
      )
  unfolding purge_summary_chunk new_counts delete_cluster_embeddings delete_explanations
      select_expired_explanation_ids select_expired_cluster_run_ids
  purge_summary_chunk_flat =
      let ids1 = select_expired_cluster_embedding_ids scope cutoff limit db in
      let c1 : PurgeCounts = record (new_counts []) {
        embedding = 0 + length ids1;
        more_remaining = leb limit (length ids1);
      } in
      let db1 = delete_cluster_embeddings ids1 db in
      let ids2 = select_expired_explanation_ids scope cutoff limit db1 in
      let c2 : PurgeCounts = record c1 {
        summary = 0 + length ids2;
        more_remaining = leb limit (length ids1) || leb limit (length ids2);
      } in
      let db2 = delete_explanations ids2 db1 in
      rw
        (
          purge_cluster_embeddings_flat scope cutoff limit pos (new_counts []) db,
          purge_explanations_flat scope cutoff limit pos c1 db1,
          purge_cluster_runs_flat scope cutoff limit pos c2 db2,
        )
        refl

  pub summary-embedding :
      (summary_.0).embedding + count_expired_cluster_embeddings scope cutoff summary_.1
      ≡ count_expired_cluster_embeddings scope cutoff db
  unfolding count_expired_cluster_embeddings new_counts delete_cluster_runs delete_explanations
      delete_cluster_embeddings select_expired_cluster_embedding_ids
  summary-embedding = rw purge_summary_chunk_flat (
      omega (
        arith,
        count_expired-delete_ids embedding_id embedding_scope embedding_expiry scope cutoff limit
            db.cluster_embeddings k.1,
      ))

  pub summary-summary :
      (summary_.0).summary
        + (count_expired_explanations scope cutoff summary_.1
            + count_expired_cluster_runs scope cutoff summary_.1
            + count_expired_clusters scope cutoff summary_.1)
      ≡ count_expired_explanations scope cutoff db
        + count_expired_cluster_runs scope cutoff db
        + count_expired_clusters scope cutoff db
  unfolding count_expired_explanations count_expired_cluster_runs count_expired_clusters
      expired_runs new_counts delete_cluster_runs delete_explanations delete_cluster_embeddings
      select_expired_explanation_ids select_expired_cluster_run_ids
  summary-summary = rw purge_summary_chunk_flat (
      omega (
        arith,
        count_expired-delete_ids explanation_id explanation_scope explanation_expiry scope cutoff
            limit db.explanations k.3,
        count_expired-delete_ids run_id run_scope run_expiry scope cutoff limit db.cluster_runs k.2,
        count_owned-delete run_id cluster_run run_scope run_expiry scope cutoff limit
            db.cluster_runs db.clusters,
      ))

  pub summary-raw : (summary_.0).raw ≡ 0
  unfolding new_counts
  summary-raw = rw purge_summary_chunk_flat refl

  -- A summary chunk that took nothing left nothing.
  pub summary-empty :
      (summary_.0).embedding ≡ 0
      → (summary_.0).summary ≡ 0
      → count_expired_cluster_embeddings scope cutoff db
          + count_expired_explanations scope cutoff db
          + count_expired_cluster_runs scope cutoff db
        ≡ 0
  unfolding count_expired_cluster_embeddings count_expired_explanations count_expired_cluster_runs
      select_expired_cluster_embedding_ids select_expired_explanation_ids
      select_expired_cluster_run_ids
  summary-empty e f =
      let e1 = rw purge_summary_chunk_flat at e in
      let f1 = rw purge_summary_chunk_flat at f in
      omega (
        arith,
        empty-count_expired embedding_id embedding_scope embedding_expiry scope cutoff
            db.cluster_embeddings limit pos (omega (arith, e1)),
        empty-count_expired explanation_id explanation_scope explanation_expiry scope cutoff
            db.explanations limit pos (omega (arith, f1)),
        empty-count_expired run_id run_scope run_expiry scope cutoff db.cluster_runs limit pos
            (omega (arith, f1)),
      )
