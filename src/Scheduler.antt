-- ===== src/Scheduler.antt =====
-- backend/services/scheduler.py: the nightly cleanup of old rows. `_delete_older_than_batch` deletes
-- in batches and commits each one; `cleanup_old_data_job` runs it over the prices and the
-- sentiments, after one DELETE over the advice. A table is a list in the order in which the database
-- scans it. Whether the statements that are still to come succeed with their commits is an argument:
-- `lives i` tells it of the statement that `i` others preceded.
pub mod Deletion
pub mod Batches
pub mod Cleanup
mod Tests
use stock_monitor.Base.{
  ℕ, zero, suc, ◌+◌, ◌-◌, ◌*◌, Bool, true, false, Option, none, some, List, map, ltb, ◌==◌,
  if◌then◌else◌, any, take, filter, length,
}
use stock_monitor.Table.{delete_where, count_where}

-- The columns that the deletion reads; a NULL timestamp is `none`.
pub record Model (A : Type 0) : Type 0 where
  pub id : A → ℕ
  pub timestamp : A → Option ℕ

-- How a run of statements ends: all done, with the number of statements so far, the rows deleted
-- and the table left, or an exception, with the table of the last commit.
pub data Swept (A : Type 0) : Type 0 where
  done : ℕ → ℕ → List A → Swept A
  raised : List A → Swept A
  out_of_fuel : Swept A

module _ {A : Type 0} (model : Model A) where
  -- `model.id.in_(ids)`
  abbrev pub is_in : List ℕ → A → Bool
  is_in ids x = any (λ i. i == model.id x) ids

module _ {A : Type 0} (model : Model A) (cutoff : ℕ) where
  -- `model.timestamp < cutoff`, which is not true of a NULL
  abbrev pub is_older : A → Bool
  is_older x = elim (model.timestamp x) [ none ↦ false | some t ↦ ltb t cutoff ]

  -- `select(model.id).where(model.timestamp < cutoff).limit(batch_size)`
  abbrev pub ids_subq : ℕ → List A → List ℕ
  ids_subq batch_size rows = take batch_size (map model.id (filter is_older rows))

module _ {A : Type 0} (model : Model A) (lives : ℕ → Bool) (cutoff : ℕ) where
  -- The `while True` of `_delete_older_than_batch`.
  unfoldable pub delete_batches : ℕ → ℕ → ℕ → ℕ → List A → Swept A
  delete_batches batch_size zero i total rows = out_of_fuel
  delete_batches batch_size (suc fuel) i total rows =
      let ids = ids_subq model cutoff batch_size rows in
      let deleted = count_where (is_in model ids) rows in
      let left = delete_where (is_in model ids) rows in
      let rest = delete_batches batch_size fuel (suc i) (total + deleted) left in
      if lives i
      then (if ltb deleted batch_size then done (suc i) (total + deleted) left else rest)
      else raised rows

  -- `_delete_older_than_batch`: each round but the last deletes a row, so the length of the table
  -- bounds the rounds.
  unfoldable pub delete_older_than_batch : ℕ → ℕ → List A → Swept A
  unfolding delete_batches
  delete_older_than_batch batch_size i rows = delete_batches batch_size (suc (length rows)) i 0 rows

  -- One DELETE with its commit.
  unfoldable pub delete_older : ℕ → List A → Swept A
  delete_older i rows =
      if lives i
      then done (suc i) (count_where (is_older model cutoff) rows)
          (delete_where (is_older model cutoff) rows)
      else raised rows

-- The settings that the job reads, and the tables that it cleans.
pub record Retention : Type 0 where
  pub price_history_retention_days : ℕ
  pub sentiment_retention_days : ℕ
  pub cleanup_batch_size : ℕ

pub record Tables (A P S : Type 0) : Type 0 where
  pub advices : List A
  pub price_history : List P
  pub sentiments : List S

-- `now - timedelta(days=days)`, in seconds; no row is older than the time 0.
abbrev pub days_before : ℕ → ℕ → ℕ
days_before now days = now - days * 86_400

abbrev pub advice_cutoff : ℕ → ℕ
advice_cutoff now = days_before now 7

abbrev pub price_cutoff : Retention → ℕ → ℕ
price_cutoff settings now = days_before now settings.price_history_retention_days

abbrev pub sentiment_cutoff : Retention → ℕ → ℕ
sentiment_cutoff settings now = days_before now settings.sentiment_retention_days

-- The counts that the job logs, or `none` after an exception, beside the tables as committed; an
-- exception ends the job.
abbrev pub Cleaned : (A P S : Type 0) → Type 0
Cleaned A P S = Option (ℕ × ℕ × ℕ) × Tables A P S

module _ {A P S : Type 0} (advice : Model A) (price : Model P) (sentiment : Model S)
    (settings : Retention) (lives : ℕ → Bool) (now : ℕ) where
  -- What follows the cleanup of the sentiments, of the prices and of the advice.
  unfoldable pub after_sentiments : ℕ → ℕ → Tables A P S → Swept S → Cleaned A P S
  after_sentiments advices_deleted prices_deleted tables (done i n rows) =
      (some (advices_deleted, prices_deleted, n), record tables { sentiments = rows })
  after_sentiments advices_deleted prices_deleted tables (raised rows) =
      (none, record tables { sentiments = rows })
  after_sentiments advices_deleted prices_deleted tables out_of_fuel = (none, tables)

  unfoldable pub after_prices : ℕ → Tables A P S → Swept P → Cleaned A P S
  unfolding delete_older_than_batch after_sentiments
  after_prices advices_deleted tables (done i n rows) =
      after_sentiments advices_deleted n (record tables { price_history = rows })
        (delete_older_than_batch sentiment lives (sentiment_cutoff settings now)
          settings.cleanup_batch_size i tables.sentiments)
  after_prices advices_deleted tables (raised rows) = (none, record tables { price_history = rows })
  after_prices advices_deleted tables out_of_fuel = (none, tables)

  unfoldable pub after_advices : Tables A P S → Swept A → Cleaned A P S
  unfolding delete_older_than_batch after_prices
  after_advices tables (done i n rows) =
      after_prices n (record tables { advices = rows })
        (delete_older_than_batch price lives (price_cutoff settings now) settings.cleanup_batch_size
          i tables.price_history)
  after_advices tables (raised rows) = (none, record tables { advices = rows })
  after_advices tables out_of_fuel = (none, tables)

  -- `cleanup_old_data_job`
  unfoldable pub cleanup_old_data_job : Tables A P S → Cleaned A P S
  unfolding delete_older after_advices
  cleanup_old_data_job tables =
      after_advices tables (delete_older advice lives (advice_cutoff now) 0 tables.advices)
