-- ===== src/Scheduler/Tests.antt =====
-- The cleanup of three small tables, in batches of two, with and without a failing statement.
use stock_monitor.Base.{ℕ, ◌≡◌, refl, true, Option, none, some, [], ◌∷◌, arith, not, ◌==◌}
use stock_monitor.Scheduler.{Model, Retention, Tables, cleanup_old_data_job}
use stock_monitor.Table.{IsUnique}
use stock_monitor.Scheduler.Batches.{same_id}
use stock_monitor.Scheduler.Cleanup.{Cleans, cleanup_terminates}

abbrev Stamp : Type 0
Stamp = ℕ × Option ℕ

abbrev stamp : Model Stamp
stamp = record { id = λ x. x.0; timestamp = λ x. x.1 }

abbrev settings : Retention
settings = record {
  price_history_retention_days = 5;
  sentiment_retention_days = 3;
  cleanup_batch_size = 2;
}

-- The tenth day: prices from before the fifth day are old.
abbrev noon : ℕ
noon = 864_000

abbrev tables : Tables Stamp Stamp Stamp
tables = record {
  advices = (1, some 5) ∷ (2, some 800_000) ∷ (3, none) ∷ [];
  price_history =
      (1, some 1) ∷ (2, some 500_000) ∷ (3, some 3) ∷ (4, some 4) ∷ (5, some 5) ∷ (6, none) ∷ [];
  sentiments = (7, some 604_800) ∷ (8, some 604_799) ∷ [];
}

cleanup_runs : cleanup_old_data_job stamp stamp stamp settings (λ i. true) noon tables ≡ (
  some (1, 4, 1),
  record {
    advices = (2, some 800_000) ∷ (3, none) ∷ [];
    price_history = (2, some 500_000) ∷ (6, none) ∷ [];
    sentiments = (7, some 604_800) ∷ [];
  },
)
unfolding cleanup_old_data_job
cleanup_runs = refl

-- The third statement, the second batch of prices, fails: the first batch stays deleted.
cleanup_raises : cleanup_old_data_job stamp stamp stamp settings (λ i. not (i == 2)) noon tables ≡ (
  none,
  record tables {
    advices = (2, some 800_000) ∷ (3, none) ∷ [];
    price_history = (2, some 500_000) ∷ (4, some 4) ∷ (5, some 5) ∷ (6, none) ∷ [];
  },
)
unfolding cleanup_old_data_job
cleanup_raises = refl

price_history-IsUnique : IsUnique (same_id stamp) tables.price_history
price_history-IsUnique = (
  (refl, (refl, (refl, (refl, (refl, tt))))),
  (
    (refl, (refl, (refl, (refl, tt)))),
    ((refl, (refl, (refl, tt))), ((refl, (refl, tt)), ((refl, tt), (tt, tt)))),
  ),
)

cleanup_terminates_example :
    Cleans stamp stamp stamp settings
      (λ i. true)
      noon
      tables
      (cleanup_old_data_job stamp stamp stamp settings (λ i. true) noon tables)
cleanup_terminates_example =
    cleanup_terminates stamp stamp stamp settings (λ i. true) noon tables (omega arith)
      price_history-IsUnique ((refl, tt), (tt, tt))
