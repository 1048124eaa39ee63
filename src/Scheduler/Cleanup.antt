-- ===== src/Scheduler/Cleanup.antt =====
-- The nightly job as a whole: it ends, and what it leaves in the three tables.
use mathlib.Core.Path.{subst}
use stock_monitor.Base.{
  ℕ, ◌≤◌, ◌≡◌, refl, sym, Bool, false, Option, none, some, List, [], ◌∷◌, arith,
}
use stock_monitor.Table.{delete_where, count_where, IsUnique}
use stock_monitor.Scheduler.{
  Model, Swept, done, raised, out_of_fuel, Retention, Tables, is_older, advice_cutoff, price_cutoff,
  sentiment_cutoff, after_sentiments, after_prices, after_advices, cleanup_old_data_job,
  delete_older, delete_older_than_batch,
}
use stock_monitor.Scheduler.Batches.{
  same_id, Sweeps, delete_older_than_batch-Sweeps, delete_older-Sweeps,
}

module _ {A : Type 0} (p : A → Bool) where
  -- The rows that do not pass the test are those of before, and no more pass it.
  abbrev pub Keeps : List A → List A → Type 0
  Keeps before left =
      (delete_where p left ≡ delete_where p before) × (count_where p left ≤ count_where p before)

  -- Gone are the rows that pass the test, and no others; they are `n`.
  abbrev pub Clears : ℕ → List A → List A → Type 0
  Clears n before left = (n ≡ count_where p before) × (left ≡ delete_where p before)

  delete_twice : (rows : List A) → delete_where p (delete_where p rows) ≡ delete_where p rows
  delete_twice [] = refl
  delete_twice (x ∷ xs) = ground (arith, delete_twice xs)

  count_deleted : (rows : List A) → count_where p (delete_where p rows) ≡ 0
  count_deleted [] = refl
  count_deleted (x ∷ xs) = ground (arith, count_deleted xs)

  Clears-Keeps : (n : ℕ) (before left : List A) → Clears n before left → Keeps before left
  Clears-Keeps n before left h = rw h.1 (delete_twice before, omega (arith, count_deleted before))

  same-Keeps : (rows : List A) → Keeps rows rows
  same-Keeps rows = (refl, omega arith)

-- What the job leaves of the tables: with its counts, each lost its old rows and no others; after an
-- exception, of some statement, each lost old rows at most.
module _ {A P S : Type 0} (advice : Model A) (price : Model P) (sentiment : Model S)
    (settings : Retention) (lives : ℕ → Bool) (now : ℕ) (before : Tables A P S) where
  abbrev old_advice : A → Bool
  old_advice = is_older advice (advice_cutoff now)

  abbrev old_price : P → Bool
  old_price = is_older price (price_cutoff settings now)

  abbrev old_sentiment : S → Bool
  old_sentiment = is_older sentiment (sentiment_cutoff settings now)

  abbrev pub Cleans : Option (ℕ × ℕ × ℕ) × Tables A P S → Type 0
  Cleans (some (a, p, s), left) =
      Clears old_advice a before.advices left.advices
      × Clears old_price p before.price_history left.price_history
      × Clears old_sentiment s before.sentiments left.sentiments
  Cleans (none, left) =
      Keeps old_advice before.advices left.advices
      × Keeps old_price before.price_history left.price_history
      × Keeps old_sentiment before.sentiments left.sentiments
      × ((k : ℕ) × (lives k ≡ false))

  module _ (a : ℕ) (tables : Tables A P S)
      (cleared : Clears old_advice a before.advices tables.advices) where
    kept : Keeps old_advice before.advices tables.advices
    kept = Clears-Keeps old_advice a before.advices tables.advices cleared

    after_sentiments-Cleans :
        (p : ℕ) (r : Swept S)
        → Clears old_price p before.price_history tables.price_history
        → Sweeps sentiment lives (sentiment_cutoff settings now) 0 before.sentiments r
        → Cleans (after_sentiments advice price sentiment settings lives now a p tables r)
    unfolding after_sentiments
    after_sentiments-Cleans p (done i n left) c h = (cleared, c, (omega (arith, h.0), h.1))
    after_sentiments-Cleans p (raised left) c h = (
      kept,
      Clears-Keeps old_price p before.price_history tables.price_history c,
      (h.0, h.1),
      h.2,
    )
    after_sentiments-Cleans p out_of_fuel c h = absurd h

  after_prices-Cleans :
      (a : ℕ) (tables : Tables A P S)
      → Clears old_advice a before.advices tables.advices
      → (r : Swept P) → 1 ≤ settings.cleanup_batch_size
      → tables.sentiments ≡ before.sentiments
      → IsUnique (same_id sentiment) before.sentiments
      → Sweeps price lives (price_cutoff settings now) 0 before.price_history r
      → Cleans (after_prices advice price sentiment settings lives now a tables r)
  unfolding after_prices
  after_prices-Cleans a tables cleared (done i n left) b e u h =
      after_sentiments-Cleans a (record tables { price_history = left }) cleared n
        (delete_older_than_batch sentiment lives (sentiment_cutoff settings now)
          settings.cleanup_batch_size i tables.sentiments)
        (omega (arith, h.0), h.1)
        (subst
          (λ rows. Sweeps sentiment lives (sentiment_cutoff settings now) 0 before.sentiments (
            delete_older_than_batch sentiment lives (sentiment_cutoff settings now)
              settings.cleanup_batch_size i rows))
          (sym e)
          (delete_older_than_batch-Sweeps sentiment lives (sentiment_cutoff settings now)
            settings.cleanup_batch_size b i before.sentiments u))
  after_prices-Cleans a tables cleared (raised left) b e u h =
      (kept a tables cleared, (h.0, h.1), rw e (same-Keeps old_sentiment before.sentiments), h.2)
  after_prices-Cleans a tables cleared out_of_fuel b e u h = absurd h

  module _ (b : 1 ≤ settings.cleanup_batch_size)
      (unique_prices : IsUnique (same_id price) before.price_history)
      (unique_sentiments : IsUnique (same_id sentiment) before.sentiments) where
    after_advices-Cleans :
        (r : Swept A)
        → Sweeps advice lives (advice_cutoff now) 0 before.advices r
        → Cleans (after_advices advice price sentiment settings lives now before r)
    unfolding after_advices
    after_advices-Cleans (done i n left) h =
        after_prices-Cleans n (record before { advices = left }) (omega (arith, h.0), h.1)
          (delete_older_than_batch price lives (price_cutoff settings now)
            settings.cleanup_batch_size i before.price_history)
          b refl unique_sentiments
          (delete_older_than_batch-Sweeps price lives (price_cutoff settings now)
            settings.cleanup_batch_size b i before.price_history unique_prices)
    after_advices-Cleans (raised left) h = (
      (h.0, h.1),
      same-Keeps old_price before.price_history,
      same-Keeps old_sentiment before.sentiments,
      h.2,
    )
    after_advices-Cleans out_of_fuel h = absurd h

    -- With a positive batch size, and ids that are unique among the prices and among the sentiments,
    -- `cleanup_old_data_job` ends whatever statements fail. If it ends without an exception, each of
    -- the three tables has lost its rows older than its cutoff and no others, and the counts are
    -- theirs. After an exception some statement failed, and each table has lost old rows at most.
    pub cleanup_terminates :
        Cleans (cleanup_old_data_job advice price sentiment settings lives now before)
    unfolding cleanup_old_data_job
    cleanup_terminates =
        after_advices-Cleans (delete_older advice lives (advice_cutoff now) 0 before.advices)
          (delete_older-Sweeps advice lives (advice_cutoff now) 0 before.advices)
