-- ===== src/Analytics.antt =====
-- backend/services/analytics.py, but for its rebalancing engine (Portfolio.Rebalance): the daily
-- series of a portfolio's value, and the caches of results.
pub mod Benchmarks
pub mod Caches
pub mod Series
