-- ===== src/Retention/Purge/Spared.antt =====
-- What a batch of the purge does not touch, for src/core/retention/purge.py.
use raglogs.Base.{
  length-filter, length-tally, tally_split, length, filter, str_eq, ℕ, ◌+◌, ◌≤◌, String, ◌≡◌, refl,
  ap, ◌∙◌, Bool, true, false, not, ◌&&◌, Option, none, some, List, arith, ltb,
}
use Prim.Native.Char.{Char}
use raglogs.Retention.Attempt.{done}
use raglogs.Retention.Policy.{RetentionPolicy, compute_cutoff}
use raglogs.Retention.Rows.{is_expired, count_expired}
use raglogs.Retention.Rows.Deleted.{filter-delete_ids, length-select_expired_ids}
use raglogs.Retention.Store.{
  LogEntry, ClusterEmbedding, ClusterRun, Explanation, Db, embedding_expiry, entry_id, entry_scope,
  entry_expiry, embedding_id, embedding_scope, run_id, run_scope, run_expiry, explanation_id,
  explanation_scope, explanation_expiry, delete_log_entries, delete_cluster_embeddings,
  delete_explanations, delete_cluster_runs, select_expired_log_entry_ids,
  select_expired_cluster_embedding_ids, select_expired_explanation_ids,
  select_expired_cluster_run_ids, count_expired_log_entries,
}
use raglogs.Retention.Purge.{PurgeCounts, add_tier, add, new_counts, purge_scope_batch}
use raglogs.Retention.Purge.Chunks.{purge_raw_chunk_flat}
use raglogs.Retention.Purge.Tiers.{IsKeyedDb, purge_summary_chunk_flat}
use raglogs.Retention.Purge.Deletes.{Deletes-IsKeyedDb, expired_raw}
use raglogs.Retention.Purge.Batch.{
  raw_tier, summary_tier, batch_of, raw_tier-Deletes, summary_tier-counted, raw_tier-counted,
  summary_tier-others,
}

module _ {R : Type 0} (id : R → ℕ) (scope_of : R → String) (expiry : R → ℕ) where
  -- The rows that are of another scope or not expired at the cutoff of their tier.
  abbrev pub spared : String → Option ℕ → List R → List R
  spared scope none rows = rows
  spared scope (some cutoff) rows =
      filter (λ r. not (str_eq (scope_of r) scope && ltb (expiry r) cutoff)) rows

-- The rows of the four tables that a purge of the scope spares.
abbrev pub spared_rows :
    String
    → Option ℕ
    → Option ℕ
    → Db
    → List LogEntry × List ClusterEmbedding × List ClusterRun × List Explanation
spared_rows scope r s db = (
  spared entry_id entry_scope entry_expiry scope r db.log_entries,
  spared embedding_id embedding_scope embedding_expiry scope s db.cluster_embeddings,
  spared run_id run_scope run_expiry scope s db.cluster_runs,
  spared explanation_id explanation_scope explanation_expiry scope s db.explanations,
)

module _ (scope : String) (limit : ℕ) (pos : 1 ≤ limit) (db : Db) (k : IsKeyedDb db) where
  raw_spares :
      (r s : Option ℕ)
      → spared_rows scope r s (raw_tier scope limit r db).1 ≡ spared_rows scope r s db
  unfolding add_tier delete_log_entries select_expired_log_entry_ids is_expired
  raw_spares none s = refl
  raw_spares (some c) s = rw (purge_raw_chunk_flat scope c limit pos db) (
      ap
        (λ l. (
          l,
          spared embedding_id embedding_scope embedding_expiry scope s db.cluster_embeddings,
          spared run_id run_scope run_expiry scope s db.cluster_runs,
          spared explanation_id explanation_scope explanation_expiry scope s db.explanations,
        ))
        (filter-delete_ids entry_id entry_scope entry_expiry scope c limit db.log_entries k.0))

  summary_spares :
      (r s : Option ℕ) (counts : PurgeCounts)
      → spared_rows scope r s (summary_tier scope limit s (counts, db)).1 ≡ spared_rows scope r s db
  unfolding add_tier delete_cluster_runs delete_explanations delete_cluster_embeddings
      select_expired_cluster_embedding_ids select_expired_explanation_ids
      select_expired_cluster_run_ids
  summary_spares r none counts = refl
  summary_spares r (some c) counts = rw (purge_summary_chunk_flat scope limit pos c db k) (λ i. (
    spared entry_id entry_scope entry_expiry scope r db.log_entries,
    filter-delete_ids embedding_id embedding_scope embedding_expiry scope c limit
        db.cluster_embeddings k.1 i,
    filter-delete_ids run_id run_scope run_expiry scope c limit db.cluster_runs k.2 i,
    filter-delete_ids explanation_id explanation_scope explanation_expiry scope c limit
        db.explanations k.3 i,
  ))

  raw_bounded : (r : Option ℕ) → ((raw_tier scope limit r db).0).raw ≤ limit
  unfolding add_tier add new_counts select_expired_log_entry_ids
  raw_bounded none = omega arith
  raw_bounded (some c) = rw (purge_raw_chunk_flat scope c limit pos db) (
      omega (
        arith,
        length-select_expired_ids entry_id entry_scope entry_expiry scope c limit db.log_entries,
      ))

-- The log entries are the expired ones and the spared ones.
entries-split :
    (scope : String) (r : Option ℕ) (db : Db)
    → length db.log_entries
      ≡ expired_raw scope r db
        + length (spared entry_id entry_scope entry_expiry scope r db.log_entries)
unfolding count_expired_log_entries count_expired is_expired
entries-split scope none db = omega arith
entries-split scope (some c) db =
    let expired : LogEntry → Bool = λ e. str_eq (entry_scope e) scope && ltb (entry_expiry e) c in
    omega (
      arith,
      length-tally db.log_entries,
      tally_split (λ _. true) expired db.log_entries,
      length-filter (λ e. not (expired e)) db.log_entries,
    )

module _ (is_digit : Char → Bool) (lower : String → String)
    (timedelta : String → ℕ → Option ℕ) where
  -- On tables with their primary keys, at a positive limit and at the cutoffs of its policy, a batch
  -- returns. Its raw count, at most the limit, is the number of log entries by which the table has
  -- shrunk, and no row of the four tables is gone that is of another scope or not older than the
  -- cutoff of its tier; a tier without a cutoff keeps every row.
  pub purge_scope_batch-spares :
      (policy : RetentionPolicy) (now limit : ℕ) (r s : Option ℕ) (db : Db)
      → 1 ≤ limit
      → IsKeyedDb db
      → compute_cutoff is_digit lower timedelta (some policy.raw_interval) now ≡ done r
      → compute_cutoff is_digit lower timedelta (some policy.summary_interval) now ≡ done s
      → (b : PurgeCounts × Db) × (purge_scope_batch is_digit lower timedelta policy now limit false
            db
          ≡ done b)
        × (spared_rows policy.scope r s b.1 ≡ spared_rows policy.scope r s db)
        × ((b.0).raw ≤ limit)
        × (length b.1.log_entries + (b.0).raw ≡ length db.log_entries)
  unfolding purge_scope_batch
  purge_scope_batch-spares policy now limit r s db pos k er es =
      let first = raw_tier policy.scope limit r db in
      let k1 = Deletes-IsKeyedDb (raw_tier-Deletes policy.scope limit pos db k r) k in
      let bound = raw_bounded policy.scope limit pos db k r in
      let same_raw = summary_tier-counted policy.scope limit pos first.1 k1 s first.0 in
      let batch = batch_of policy.scope limit r s db in
      let kept =
        summary_spares policy.scope limit pos first.1 k1 r s first.0
        ∙ raw_spares policy.scope limit pos db k r s in
      let same_kept = ap (λ rows. length rows.0) kept in
      let counted_raw = (raw_tier-counted policy.scope limit pos db k r).0 in
      let still = (summary_tier-others policy.scope limit pos first.1 k1 s r first.0).0 in
      (
        batch,
        rw (er, es) refl,
        kept,
        omega (arith, bound, same_raw.0),
        omega (
          arith,
          entries-split policy.scope r db,
          entries-split policy.scope r batch.1,
          same_kept,
          counted_raw,
          still,
          same_raw.0,
        ),
      )
