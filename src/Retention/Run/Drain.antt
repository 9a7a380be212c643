-- ===== src/Retention/Run/Drain.antt =====
-- A scope is drained: the `while True` of `run_purge` in src/core/retention/purge.py.
use raglogs.Base.{
  ℕ, zero, suc, ◌+◌, ◌≤◌, ◌<◌, String, ◌≡◌, refl, inl, inr, Bool, true, false, Option, none, some,
  arith, Bool-cases,
}
use raglogs.Retention.Purge.Counted.{counted, is_empty-zero, is_empty-some, expired-counted}
use raglogs.Retention.Attempt.{Attempt, done, ◌>>=◌}
use raglogs.Retention.Policy.{RetentionPolicy, compute_cutoff}
use raglogs.Retention.Store.{Db}
use raglogs.Retention.Purge.{PurgeCounts, add, is_empty, purge_scope_batch, count_scope_expired}
use raglogs.Retention.Purge.Tiers.{IsKeyedDb}
use raglogs.Retention.Purge.Deletes.{
  Deletes, Deletes-append, Deletes-IsKeyedDb, expired_raw, expired_summary,
}
use raglogs.Retention.Purge.Batch.{batch_of, batch_of-Deletes, batch_of-counted, batch_of-empty}
use raglogs.Retention.Run.{note_scope, reached, Progress, drain}
use Prim.Native.Char.{Char}

module _ (is_digit : Char → Bool) (lower : String → String)
    (timedelta : String → ℕ → Option ℕ) where
  abbrev pub cutoff_at : String → ℕ → Attempt (Option ℕ)
  cutoff_at interval now = compute_cutoff is_digit lower timedelta (some interval) now

  -- At the cutoffs of its policy, a batch does what its tiers do.
  pub purge_scope_batch_lem :
      (policy : RetentionPolicy) (now limit : ℕ) (r s : Option ℕ) (db : Db)
      → cutoff_at policy.raw_interval now ≡ done r
      → cutoff_at policy.summary_interval now ≡ done s
      → purge_scope_batch is_digit lower timedelta policy now limit false db
        ≡ done (batch_of policy.scope limit r s db)
  unfolding purge_scope_batch
  purge_scope_batch_lem policy now limit r s db er es = rw (er, es) refl

  -- The same of a dry run.
  pub count_scope_expired_lem :
      (policy : RetentionPolicy) (now : ℕ) (r s : Option ℕ) (db : Db)
      → cutoff_at policy.raw_interval now ≡ done r
      → cutoff_at policy.summary_interval now ≡ done s
      → count_scope_expired is_digit lower timedelta policy now db
        ≡ done (counted policy.scope r s db)
  unfolding count_scope_expired
  count_scope_expired_lem policy now r s db er es = rw (er, es) refl

-- How the progress `q` stands to the progress `p` once a scope is drained.
pub record IsDrained (scope : String) (r s : Option ℕ) (p q : Progress) : Type 0 where
  pub deletes : Deletes p.db q.db
  pub nothing_raw : expired_raw scope r q.db ≡ 0
  pub nothing_summary : expired_summary scope s q.db ≡ 0
  pub raw_total : q.totals.raw ≡ p.totals.raw + (counted scope r s p.db).raw
  pub embedding_total : q.totals.embedding ≡ p.totals.embedding + (counted scope r s p.db).embedding
  pub summary_total : q.totals.summary ≡ p.totals.summary + (counted scope r s p.db).summary
  pub same_more : q.more_remaining ≡ p.more_remaining

-- What is left to count.
abbrev pub pending_rows : PurgeCounts → ℕ
pending_rows c = c.raw + c.embedding + c.summary

module _ (scope : String) (limit : ℕ) (pos : 1 ≤ limit) (r s : Option ℕ) (p : Progress)
    (k : IsKeyedDb p.db) where
  abbrev batch : PurgeCounts × Db
  batch = batch_of scope limit r s p.db

  abbrev next_ : Progress
  next_ = record p { totals = add p.totals batch.0; db = batch.1 }

  -- An empty batch ends the loop.
  empty-IsDrained :
      is_empty batch.0 ≡ true
      → IsDrained scope r s p (record next_ { totals = note_scope scope next_.totals })
  unfolding note_scope add
  empty-IsDrained e =
      let (er, es) = batch_of-empty scope limit pos r s p.db k e in
      let c = batch_of-counted scope limit pos r s p.db k in
      let z = is_empty-zero (counted scope r s batch.1) (expired-counted scope r s batch.1 er es) in
      record {
        deletes = batch_of-Deletes scope limit pos r s p.db k;
        nothing_raw = er;
        nothing_summary = es;
        raw_total = omega (arith, c.0, z.0);
        embedding_total = omega (arith, c.1, z.2);
        summary_total = omega (arith, c.2, z.1);
        same_more = refl;
      }

  -- A batch that counted something passes the rest on.
  next-IsDrained : (q : Progress) → IsDrained scope r s next_ q → IsDrained scope r s p q
  unfolding add
  next-IsDrained q d =
      let c = batch_of-counted scope limit pos r s p.db k in
      record {
        deletes = Deletes-append (batch_of-Deletes scope limit pos r s p.db k) d.deletes;
        nothing_raw = d.nothing_raw;
        nothing_summary = d.nothing_summary;
        raw_total = omega (arith, c.0, d.raw_total);
        embedding_total = omega (arith, c.1, d.embedding_total);
        summary_total = omega (arith, c.2, d.summary_total);
        same_more = d.same_more;
      }

  -- and less is left to count.
  next_smaller :
      is_empty batch.0 ≡ false
      → pending_rows (counted scope r s batch.1) < pending_rows (counted scope r s p.db)
  next_smaller e =
      let c = batch_of-counted scope limit pos r s p.db k in
      let some_ = is_empty-some batch.0 e in omega (arith, c.0, c.1, c.2, some_)

module _ (is_digit : Char → Bool) (lower : String → String) (timedelta : String → ℕ → Option ℕ)
    (policy : RetentionPolicy) (now limit : ℕ) (pos : 1 ≤ limit) (r s : Option ℕ)
    (er : cutoff_at is_digit lower timedelta policy.raw_interval now ≡ done r)
    (es : cutoff_at is_digit lower timedelta policy.summary_interval now ≡ done s) where
  -- Without a bound on the chunks and with fuel for every row that a dry run counts, the loop of a scope
  -- ends.
  pub drain_ends :
      (fuel chunks : ℕ) (p : Progress)
      → IsKeyedDb p.db
      → pending_rows (counted policy.scope r s p.db) < fuel
      → (q : Progress) × (drain is_digit lower timedelta fuel policy now limit none chunks p
          ≡ done q)
        × IsDrained policy.scope r s p q
  unfolding drain reached
  drain_ends zero chunks p k l = absurd (omega arith)
  drain_ends (suc fuel) chunks p k l =
      let b = batch_of policy.scope limit r s p.db in
      let e = purge_scope_batch_lem is_digit lower timedelta policy now limit r s p.db er es in
      elim (Bool-cases (is_empty b.0)) [
        | inl none_ ↦
            (_, rw (e, ◌>>=◌, none_) refl, empty-IsDrained policy.scope limit pos r s p k none_)
        | inr some_ ↦
            let smaller = next_smaller policy.scope limit pos r s p k some_ in
            let (q, f, d) =
              drain_ends fuel (suc chunks) (next_ policy.scope limit pos r s p k)
                (Deletes-IsKeyedDb (batch_of-Deletes policy.scope limit pos r s p.db k) k)
                (omega (arith, smaller, l)) in
            (q, rw (e, ◌>>=◌, some_) f, next-IsDrained policy.scope limit pos r s p k q d)
      ]
