-- ===== src/Retention/Purge/Chunks.antt =====
-- What a chunk of the purge does whether or not it found anything, for src/core/retention/purge.py.
use raglogs.Base.{
  id_mem, tally, length, filter, ℕ, ◌+◌, ◌≤◌, String, ◌≡◌, refl, ◌⊎◌, inl, inr, Bool, true, false,
  ◌||◌, List, [], ◌∷◌, map, arith, leb,
}
use raglogs.Retention.Rows.{delete_ids, count_owned, delete_owned}
use raglogs.Retention.Store.{
  Db, entry_id, embedded_entry, member_entry, delete_log_entries, select_expired_log_entry_ids,
  Cluster, embedding_id, run_id, explanation_id, member_cluster, cluster_id, cluster_run,
  delete_cluster_embeddings, delete_explanations, delete_cluster_runs,
  select_expired_cluster_embedding_ids, select_expired_explanation_ids,
  select_expired_cluster_run_ids,
}
use raglogs.Retention.Purge.{
  new_counts, is_nil, purge_raw_chunk, PurgeCounts, purge_cluster_embeddings, purge_explanations,
  purge_cluster_runs,
}

nil-cases : (ids : List ℕ) → (ids ≡ []) ⊎ (is_nil ids ≡ false)
unfolding is_nil
nil-cases [] = inl refl
nil-cases (i ∷ ids) = inr refl

filter_all : {R : Type 0} (rows : List R) → filter (λ r. true) rows ≡ rows
unfolding filter
filter_all [] = refl
filter_all (x ∷ rows) = rw (filter_all rows) refl

delete_none : {R : Type 0} (id : R → ℕ) (rows : List R) → delete_ids id [] rows ≡ rows
unfolding delete_ids id_mem
delete_none id rows = filter_all rows

keep_all : {D : Type 0} (owner : D → ℕ) (ds : List D) → delete_owned owner [] ds ≡ ds
unfolding delete_owned id_mem
keep_all owner ds = filter_all ds

pub own_none : {D : Type 0} (owner : D → ℕ) (ds : List D) → count_owned owner [] ds ≡ 0
unfolding count_owned id_mem tally
own_none owner [] = refl
own_none owner (d ∷ ds) = omega (arith, own_none owner ds)

delete_log_entries-nil : (db : Db) → delete_log_entries [] db ≡ db
unfolding delete_log_entries
delete_log_entries-nil db =
    rw
      (
        delete_none entry_id db.log_entries,
        keep_all embedded_entry db.log_embeddings,
        keep_all member_entry db.cluster_members,
      )
      refl

delete_cluster_runs-nil : (db : Db) → delete_cluster_runs [] db ≡ db
unfolding delete_cluster_runs id_mem filter
delete_cluster_runs-nil db =
    rw
      (
        delete_none run_id db.cluster_runs,
        keep_all cluster_run db.clusters,
        none_named db.clusters,
        keep_all member_cluster db.cluster_members,
      )
      refl
  where
    none_named : (cs : List Cluster) → map cluster_id (filter (λ c. false) cs) ≡ []
    none_named [] = refl
    none_named (c ∷ cs) = none_named cs

positive-leb : (limit : ℕ) → 1 ≤ limit → leb limit 0 ≡ false
positive-leb limit pos = ground arith

or_false : (b : Bool) → (b || false) ≡ b
or_false true = refl
or_false false = refl

add_none : (n : ℕ) → n + 0 ≡ n
add_none n = omega arith

module _ (scope : String) (cutoff limit : ℕ) (pos : 1 ≤ limit) where
  -- A raw chunk counts its ids and what they own, and deletes them.
  pub purge_raw_chunk_flat :
      (db : Db)
      → purge_raw_chunk scope cutoff limit false db ≡ (
        record (new_counts []) {
          raw = length (select_expired_log_entry_ids scope cutoff limit db);
          embedding =
              count_owned embedded_entry
                (select_expired_log_entry_ids scope cutoff limit db)
                db.log_embeddings;
          more_remaining = leb limit (length (select_expired_log_entry_ids scope cutoff limit db));
        },
        delete_log_entries (select_expired_log_entry_ids scope cutoff limit db) db,
      )
  unfolding purge_raw_chunk new_counts is_nil
  purge_raw_chunk_flat db = elim (nil-cases (select_expired_log_entry_ids scope cutoff limit db)) [
    | inl none_ ↦
        rw
          (
            purge_raw_chunk,
            none_,
            delete_log_entries-nil db,
            own_none embedded_entry db.log_embeddings,
            positive-leb limit pos,
          )
          refl
    | inr some_ ↦ rw some_ refl
  ]

  -- Each part of a summary chunk adds its ids, and deletes them.
  pub purge_cluster_embeddings_flat :
      (counts : PurgeCounts) (db : Db)
      → purge_cluster_embeddings scope cutoff limit false counts db ≡ (
        record counts {
          embedding =
              counts.embedding
              + length (select_expired_cluster_embedding_ids scope cutoff limit db);
          more_remaining =
              counts.more_remaining
              || leb limit (length (select_expired_cluster_embedding_ids scope cutoff limit db));
        },
        delete_cluster_embeddings (select_expired_cluster_embedding_ids scope cutoff limit db) db,
      )
  unfolding purge_cluster_embeddings delete_cluster_embeddings is_nil
  purge_cluster_embeddings_flat counts db =
      elim (nil-cases (select_expired_cluster_embedding_ids scope cutoff limit db)) [
        | inl none_ ↦
            rw
              (
                purge_cluster_embeddings,
                none_,
                delete_none embedding_id db.cluster_embeddings,
                positive-leb limit pos,
                or_false counts.more_remaining,
                add_none counts.embedding,
              )
              refl
        | inr some_ ↦ rw some_ refl
      ]

  pub purge_explanations_flat :
      (counts : PurgeCounts) (db : Db)
      → purge_explanations scope cutoff limit false counts db ≡ (
        record counts {
          summary = counts.summary + length (select_expired_explanation_ids scope cutoff limit db);
          more_remaining =
              counts.more_remaining
              || leb limit (length (select_expired_explanation_ids scope cutoff limit db));
        },
        delete_explanations (select_expired_explanation_ids scope cutoff limit db) db,
      )
  unfolding purge_explanations delete_explanations is_nil
  purge_explanations_flat counts db =
      elim (nil-cases (select_expired_explanation_ids scope cutoff limit db)) [
        | inl none_ ↦
            rw
              (
                purge_explanations,
                none_,
                delete_none explanation_id db.explanations,
                positive-leb limit pos,
                or_false counts.more_remaining,
                add_none counts.summary,
              )
              refl
        | inr some_ ↦ rw some_ refl
      ]

  pub purge_cluster_runs_flat :
      (counts : PurgeCounts) (db : Db)
      → purge_cluster_runs scope cutoff limit false counts db ≡ (
        record counts {
          summary =
              counts.summary
              + (length (select_expired_cluster_run_ids scope cutoff limit db)
                  + count_owned cluster_run
                      (select_expired_cluster_run_ids scope cutoff limit db)
                      db.clusters);
          more_remaining =
              counts.more_remaining
              || leb limit (length (select_expired_cluster_run_ids scope cutoff limit db));
        },
        delete_cluster_runs (select_expired_cluster_run_ids scope cutoff limit db) db,
      )
  unfolding purge_cluster_runs is_nil
  purge_cluster_runs_flat counts db =
      elim (nil-cases (select_expired_cluster_run_ids scope cutoff limit db)) [
        | inl none_ ↦
            rw
              (
                purge_cluster_runs,
                none_,
                delete_cluster_runs-nil db,
                own_none cluster_run db.clusters,
                positive-leb limit pos,
                or_false counts.more_remaining,
                add_none counts.summary,
              )
              refl
        | inr some_ ↦ rw some_ refl
      ]
