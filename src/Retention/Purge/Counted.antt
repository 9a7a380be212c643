-- ===== src/Retention/Purge/Counted.antt =====
-- What a dry run counts, for `count_scope_expired` in src/core/retention/purge.py.
use raglogs.Base.{
  id_mem, tally-le-length, length, ℕ, ◌+◌, ◌≤◌, String, ◌≡◌, refl, true, false, Option, none, some,
  [], ◌∷◌, arith,
}
use raglogs.Retention.Rows.{is_expired, count_expired, count_owned}
use raglogs.Retention.Store.{
  Db, entry_id, entry_scope, entry_expiry, run_id, run_scope, run_expiry, explanation_id,
  explanation_scope, explanation_expiry, embedded_entry, cluster_run, count_expired_log_entries,
  expired_entries, count_expired_log_embeddings, count_expired_cluster_embeddings,
  count_expired_explanations, count_expired_cluster_runs, expired_runs, count_expired_clusters,
}
use raglogs.Retention.Purge.{
  PurgeCounts, add, is_empty, new_counts, add_tier, count_raw, count_summary,
}
use raglogs.Retention.Purge.Tiers.{count_owned-none}
use raglogs.Retention.Purge.Deletes.{expired_raw, expired_summary, rows_of}

abbrev raw_counts : String → Option ℕ → Db → PurgeCounts × Db
raw_counts scope o db =
    add_tier o (λ cutoff d. (count_raw scope cutoff d, d)) (new_counts (scope ∷ []), db)

abbrev pub counted : String → Option ℕ → Option ℕ → Db → PurgeCounts
counted scope raw_cutoff summary_cutoff db =
    (add_tier summary_cutoff (λ cutoff d. (count_summary scope cutoff d, d))
      (raw_counts scope raw_cutoff db)).0

pub is_empty-zero :
    (c : PurgeCounts) → is_empty c ≡ true → (c.raw ≡ 0) × (c.summary ≡ 0) × (c.embedding ≡ 0)
unfolding is_empty
is_empty-zero c e = (ground arith, ground arith, ground arith)

pub is_empty-some : (c : PurgeCounts) → is_empty c ≡ false → 1 ≤ c.raw + c.embedding + c.summary
unfolding is_empty
is_empty-some c e = ground arith

module _ (scope : String) where
  -- The embeddings of expired entries, and the rows of the summary tier.
  abbrev pub embedded : Option ℕ → Db → ℕ
  embedded none db = 0
  embedded (some cutoff) db = count_expired_log_embeddings scope cutoff db

  abbrev pub vectors : Option ℕ → Db → ℕ
  vectors none db = 0
  vectors (some cutoff) db = count_expired_cluster_embeddings scope cutoff db

  abbrev pub summaries : Option ℕ → Db → ℕ
  summaries none db = 0
  summaries (some cutoff) db =
      count_expired_explanations scope cutoff db
      + count_expired_cluster_runs scope cutoff db
      + count_expired_clusters scope cutoff db

  -- What a dry run counts, read off the tables.
  pub counted_lem :
      (r s : Option ℕ) (db : Db)
      → ((counted scope r s db).raw ≡ expired_raw scope r db)
        × ((counted scope r s db).embedding ≡ embedded r db + vectors s db)
        × ((counted scope r s db).summary ≡ summaries s db)
  unfolding add_tier add count_raw count_summary new_counts
  counted_lem none none db = (refl, refl, refl)
  counted_lem none (some s) db = (omega arith, omega arith, omega arith)
  counted_lem (some r) none db = (omega arith, omega arith, omega arith)
  counted_lem (some r) (some s) db = (omega arith, omega arith, omega arith)

  embedded-none : (o : Option ℕ) (db : Db) → expired_raw scope o db ≡ 0 → embedded o db ≡ 0
  unfolding count_expired_log_entries count_expired_log_embeddings expired_entries
  embedded-none none db e = refl
  embedded-none (some c) db e =
      count_owned-none entry_id entry_scope entry_expiry scope c db.log_entries embedded_entry
        db.log_embeddings e

  summaries-none : (o : Option ℕ) (db : Db) → expired_summary scope o db ≡ 0 → summaries o db ≡ 0
  unfolding count_expired_cluster_runs count_expired_clusters expired_runs
  summaries-none none db e = refl
  summaries-none (some c) db e = omega (
    arith,
    count_owned-none run_id run_scope run_expiry scope c db.cluster_runs cluster_run db.clusters
        (omega arith),
  )

  vectors-none : (o : Option ℕ) (db : Db) → expired_summary scope o db ≡ 0 → vectors o db ≡ 0
  vectors-none none db e = refl
  vectors-none (some c) db e = omega arith

  -- When no row is expired, nothing is counted.
  pub expired-counted :
      (r s : Option ℕ) (db : Db)
      → expired_raw scope r db ≡ 0
      → expired_summary scope s db ≡ 0
      → is_empty (counted scope r s db) ≡ true
  unfolding is_empty
  expired-counted r s db er es =
      let c = counted_lem r s db in
      let a = embedded-none r db er in
      let b = summaries-none s db es in
      let v = vectors-none s db es in rw (c.0, c.1, c.2, er, a, b, v) refl

  embedded-le : (o : Option ℕ) (db : Db) → embedded o db ≤ length db.log_embeddings
  unfolding count_expired_log_embeddings count_owned
  embedded-le none db = omega arith
  embedded-le (some c) db = tally-le-length _ db.log_embeddings

  raw-le : (o : Option ℕ) (db : Db) → expired_raw scope o db ≤ length db.log_entries
  unfolding count_expired_log_entries count_expired
  raw-le none db = omega arith
  raw-le (some c) db = tally-le-length _ db.log_entries

  vectors-le : (o : Option ℕ) (db : Db) → vectors o db ≤ length db.cluster_embeddings
  unfolding count_expired_cluster_embeddings count_expired
  vectors-le none db = omega arith
  vectors-le (some c) db = tally-le-length _ db.cluster_embeddings

  summaries-le :
      (o : Option ℕ) (db : Db)
      → summaries o db ≤ length db.explanations + length db.cluster_runs + length db.clusters
  unfolding count_expired_explanations count_expired_cluster_runs count_expired_clusters
      count_expired count_owned
  summaries-le none db = omega arith
  summaries-le (some c) db = omega (
    arith,
    tally-le-length (is_expired explanation_id explanation_scope explanation_expiry scope c)
        db.explanations,
    tally-le-length (is_expired run_id run_scope run_expiry scope c) db.cluster_runs,
    tally-le-length (λ d. id_mem (cluster_run d) (expired_runs scope c db)) db.clusters,
  )

  -- A dry run counts no more than there is.
  pub counted-rows_of :
      (r s : Option ℕ) (db : Db)
      → (counted scope r s db).raw
          + (counted scope r s db).embedding
          + (counted scope r s db).summary
        ≤ rows_of db
  counted-rows_of r s db =
      let c = counted_lem r s db in
      omega
        (arith, c.0, c.1, c.2, raw-le r db, embedded-le r db, vectors-le s db, summaries-le s db)
