-- ===== src/Retention/Rows.antt =====
-- The statements of src/core/retention/purge.py, over any table: a row has an id, a scope and a time
-- at which it counts as old. Ids are numbers, times are whole seconds. Rows of other tables that an
-- id owns are deleted with it, by ON DELETE CASCADE.
pub mod Deleted
pub mod Owned
use raglogs.Base.{
  id_mem, tally, sorted, take, filter, str_eq, ℕ, ◌≤◌, String, Bool, not, ◌&&◌, List, map, ltb,
  ◌==◌, if◌then◌else◌,
}

module _ {R : Type 0} (id : R → ℕ) (scope_of : R → String) (expiry : R → ℕ) where
  -- `.where(scope == …).where(expiry < cutoff)`
  unfoldable pub is_expired : String → ℕ → R → Bool
  is_expired scope cutoff r = str_eq (scope_of r) scope && ltb (expiry r) cutoff

  -- `.order_by(expiry.asc(), id.asc())`
  unfoldable pub by_expiry : R → R → Bool
  by_expiry a b = if expiry a == expiry b then ltb (id a) (id b) else ltb (expiry a) (expiry b)

  -- `select_expired_…_ids(scope, cutoff, limit=…)`
  unfoldable pub select_expired_ids : String → ℕ → ℕ → List R → List ℕ
  unfolding is_expired by_expiry
  select_expired_ids scope cutoff limit rows =
      map id (take limit (sorted by_expiry (filter (is_expired scope cutoff) rows)))

  -- `count_expired_…_statement(scope, cutoff)`
  unfoldable pub count_expired : String → ℕ → List R → ℕ
  unfolding is_expired
  count_expired scope cutoff rows = tally (is_expired scope cutoff) rows

module _ {R : Type 0} (id : R → ℕ) where
  -- `delete(…).where(id.in_(ids))`
  unfoldable pub delete_ids : List ℕ → List R → List R
  delete_ids ids rows = filter (λ r. not (id_mem (id r) ids)) rows

  -- The primary key.
  abbrev pub IsKeyed : List R → Type 0
  IsKeyed rows = (i : ℕ) → tally (λ r. id r == i) rows ≤ 1

module _ {D : Type 0} (owner : D → ℕ) where
  -- the rows that the ids own
  unfoldable pub count_owned : List ℕ → List D → ℕ
  count_owned ids ds = tally (λ d. id_mem (owner d) ids) ds

  -- the cascade
  unfoldable pub delete_owned : List ℕ → List D → List D
  delete_owned ids ds = filter (λ d. not (id_mem (owner d) ids)) ds
