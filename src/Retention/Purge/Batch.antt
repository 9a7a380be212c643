-- ===== src/Retention/Purge/Batch.antt =====
-- A batch of the purge against the counts of a dry run, for src/core/retention/purge.py.
use raglogs.Base.{ℕ, ◌+◌, ◌≤◌, String, ◌≡◌, refl, true, false, Option, none, some, [], ◌∷◌, arith}
use raglogs.Retention.Purge.Counted.{
  counted, is_empty-zero, embedded, vectors, summaries, counted_lem,
}
use raglogs.Retention.Store.{
  Db, select_expired_log_entry_ids, count_expired_log_embeddings, count_expired_cluster_embeddings,
  count_expired_explanations, count_expired_cluster_runs, count_expired_clusters,
  count_expired_log_entries, expired_entries, expired_runs, delete_log_entries,
  delete_cluster_embeddings, delete_explanations, delete_cluster_runs,
}
use raglogs.Retention.Purge.{
  PurgeCounts, add, is_empty, new_counts, purge_raw_chunk, purge_summary_chunk, add_tier,
}
use raglogs.Retention.Purge.Chunks.{purge_raw_chunk_flat}
use raglogs.Retention.Purge.Tiers.{
  IsKeyedDb, purge_summary_chunk_flat, raw-count_expired_log_entries,
  raw-count_expired_log_embeddings, summary-embedding, summary-summary, raw-summary, raw-empty,
  summary-raw, summary-empty,
}
use raglogs.Retention.Purge.Deletes.{
  entries, embeddings, explanations, runs, Deletes, stay, next, expired_raw, expired_summary,
  Deletes-append, Deletes-IsKeyedDb, Deletes-expired,
}

module _ (scope : String) (limit : ℕ) where
  -- The tiers of a batch.
  abbrev pub raw_tier : Option ℕ → Db → PurgeCounts × Db
  raw_tier o db =
      add_tier o (λ cutoff. purge_raw_chunk scope cutoff limit false) (new_counts (scope ∷ []), db)

  abbrev pub summary_tier : Option ℕ → PurgeCounts × Db → PurgeCounts × Db
  summary_tier o before_ =
      add_tier o (λ cutoff. purge_summary_chunk scope cutoff limit false) before_

  -- What the batch of a scope returns at the cutoffs of its tiers, and what a dry run counts.
  abbrev pub batch_of : Option ℕ → Option ℕ → Db → PurgeCounts × Db
  batch_of raw_cutoff summary_cutoff db = summary_tier summary_cutoff (raw_tier raw_cutoff db)

module _ (scope : String) where
  module _ (limit : ℕ) (pos : 1 ≤ limit) (db : Db) (k : IsKeyedDb db) where
    pub raw_tier-Deletes : (o : Option ℕ) → Deletes db (raw_tier scope limit o db).1
    unfolding add_tier
    raw_tier-Deletes none = stay db
    raw_tier-Deletes (some c) =
        rw (purge_raw_chunk_flat scope c limit pos db)
          (next (stay db) (entries (select_expired_log_entry_ids scope c limit db) db))

    summary_tier-Deletes :
        (o : Option ℕ) (counts : PurgeCounts)
        → Deletes db (summary_tier scope limit o (counts, db)).1
    unfolding add_tier
    summary_tier-Deletes none counts = stay db
    summary_tier-Deletes (some c) counts =
        rw (purge_summary_chunk_flat scope limit pos c db k)
          (next (next (next (stay db) (embeddings _ _)) (explanations _ _)) (runs _ _))

    pub raw_tier-counted :
        (o : Option ℕ)
        → let t = raw_tier scope limit o db in
          ((t.0).raw + expired_raw scope o t.1 ≡ expired_raw scope o db)
          × ((t.0).embedding + embedded scope o t.1 ≡ embedded scope o db)
          × ((t.0).summary ≡ 0)
          × ((t.0).raw ≡ 0 → expired_raw scope o db ≡ 0)
    unfolding add_tier add new_counts
    raw_tier-counted none = (refl, refl, refl, λ e. refl)
    raw_tier-counted (some c) = (
      omega (arith, raw-count_expired_log_entries scope limit pos c db k),
      omega (arith, raw-count_expired_log_embeddings scope limit pos c db k),
      omega (arith, raw-summary scope limit pos c db k),
      λ e. raw-empty scope limit pos c db k (omega (arith, e)),
    )

    pub summary_tier-counted :
        (o : Option ℕ) (counts : PurgeCounts)
        → let t = summary_tier scope limit o (counts, db) in
          ((t.0).raw ≡ counts.raw)
          × ((t.0).embedding + vectors scope o t.1 ≡ counts.embedding + vectors scope o db)
          × ((t.0).summary + summaries scope o t.1 ≡ counts.summary + summaries scope o db)
          × ((t.0).embedding ≡ 0 → (t.0).summary ≡ 0 → expired_summary scope o db ≡ 0)
    unfolding add_tier add
    summary_tier-counted none counts = (refl, refl, refl, λ e f. refl)
    summary_tier-counted (some c) counts = (
      omega (arith, summary-raw scope limit pos c db k),
      omega (arith, summary-embedding scope limit pos c db k),
      omega (arith, summary-summary scope limit pos c db k),
      λ e f. summary-empty scope limit pos c db k (omega (arith, e)) (omega (arith, f)),
    )

    raw_tier-others :
        (o s : Option ℕ)
        → let t = raw_tier scope limit o db in
          (vectors scope s t.1 ≡ vectors scope s db)
          × (summaries scope s t.1 ≡ summaries scope s db)
          × (expired_summary scope s t.1 ≡ expired_summary scope s db)
    unfolding add_tier delete_log_entries count_expired_cluster_embeddings
        count_expired_explanations count_expired_cluster_runs count_expired_clusters expired_runs
    raw_tier-others none s = (refl, refl, refl)
    raw_tier-others (some c) none = (refl, refl, refl)
    raw_tier-others (some c) (some d) =
        rw (purge_raw_chunk_flat scope c limit pos db) (refl, refl, refl)

    pub summary_tier-others :
        (o r : Option ℕ) (counts : PurgeCounts)
        → let t = summary_tier scope limit o (counts, db) in
          (expired_raw scope r t.1 ≡ expired_raw scope r db)
          × (embedded scope r t.1 ≡ embedded scope r db)
    unfolding add_tier delete_cluster_runs delete_explanations delete_cluster_embeddings
        count_expired_log_entries count_expired_log_embeddings expired_entries
    summary_tier-others none r counts = (refl, refl)
    summary_tier-others (some c) none counts = (refl, refl)
    summary_tier-others (some c) (some d) counts =
        rw (purge_summary_chunk_flat scope limit pos c db k) (refl, refl)

  module _ (limit : ℕ) (pos : 1 ≤ limit) (r s : Option ℕ) (db : Db) (k : IsKeyedDb db) where
    abbrev first : PurgeCounts × Db
    first = raw_tier scope limit r db

    abbrev batch : PurgeCounts × Db
    batch = batch_of scope limit r s db

    first-IsKeyedDb : IsKeyedDb first.1
    first-IsKeyedDb = Deletes-IsKeyedDb (raw_tier-Deletes limit pos db k r) k

    -- A batch is a sequence of deletions.
    pub batch_of-Deletes : Deletes db batch.1
    batch_of-Deletes =
        Deletes-append (raw_tier-Deletes limit pos db k r)
          (summary_tier-Deletes limit pos first.1 first-IsKeyedDb s first.0)

    -- What a dry run counts before a batch is what the batch counts and what a dry run counts then.
    pub batch_of-counted :
        ((batch.0).raw + (counted scope r s batch.1).raw ≡ (counted scope r s db).raw)
        × ((batch.0).embedding + (counted scope r s batch.1).embedding
            ≡ (counted scope r s db).embedding)
        × ((batch.0).summary + (counted scope r s batch.1).summary ≡ (counted scope r s db).summary)
    batch_of-counted =
        let a = raw_tier-counted limit pos db k r in
        let b = summary_tier-counted limit pos first.1 first-IsKeyedDb s first.0 in
        let o = raw_tier-others limit pos db k r s in
        let p = summary_tier-others limit pos first.1 first-IsKeyedDb s r first.0 in
        let c = counted_lem scope r s db in
        let d = counted_lem scope r s batch.1 in
        (
          omega (arith, a.0, b.0, p.0, c.0, d.0),
          omega (arith, a.1, b.1, o.0, p.1, c.1, d.1),
          omega (arith, a.2, b.2, o.1, c.2, d.2),
        )

    -- A batch that counted nothing left nothing expired.
    pub batch_of-empty :
        is_empty batch.0 ≡ true
        → (expired_raw scope r batch.1 ≡ 0) × (expired_summary scope s batch.1 ≡ 0)
    unfolding is_empty
    batch_of-empty e =
        let a = raw_tier-counted limit pos db k r in
        let b = summary_tier-counted limit pos first.1 first-IsKeyedDb s first.0 in
        let n : ((batch.0).raw ≡ 0) × ((batch.0).summary ≡ 0) × ((batch.0).embedding ≡ 0) =
          is_empty-zero batch.0 e in
        let p = a.3 (omega (arith, b.0, n.0)) in
        let q = b.3 n.2 n.1 in
        let le = Deletes-expired scope r s batch_of-Deletes in
        let le2 =
          Deletes-expired scope r s
            (summary_tier-Deletes limit pos first.1 first-IsKeyedDb s first.0) in
        (omega (arith, le.0, p), omega (arith, le2.1, q))
