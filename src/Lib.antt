-- ===== src/Lib.antt =====
-- A model of StockMonitor, a service that keeps stock portfolios for several users.
--
-- The backend is a FastAPI application over a database that SQLAlchemy maps. A request handler
-- reads rows, decides, writes rows and commits. Each handler here is a function from the request
-- and the tables to the answer and the tables that it leaves; the answer is a value or an HTTP
-- status (Http). Tables are lists in the order of insertion, with the database's next id (Table).
-- What another session commits in between, and whether a commit succeeds, are arguments.
--
--   Auth         backend/routers/auth.py, backend/services/auth.py: login with its lockout, the
--                session check, the administration of users
--   RateLimit    backend/routers/advice.py: the limiter in front of the language model
--   Market       backend/utils/helpers.py and classify_new_stock of backend/services/market_data.py:
--                a ticker's market and currency
--   Portfolio    the rows of the database and who may touch them; its parts:
--     Stocks     _ensure_stocks of backend/routers/portfolio.py
--     Ledger     create_transaction and, in Ledger.Removal, delete_transaction, of the same file
--     Holdings   add_holding, update_holding, batch_update_holdings, remove_holding, of the same file
--     Targets    list_targets, create_target, delete_target, of the same file
--     Import     import_holdings, of the same file
--     Realized   get_realized_pnl, of the same file
--     Rebalance  compute_rebalance_plan and merge_rebalance_orders of backend/services/analytics.py,
--                rebalance_preview of backend/routers/portfolio.py
--     Valuation  build_portfolio_rows and, in Valuation.Summary, build_portfolio_summary of
--                backend/services/portfolio_service.py
--     Positions  what the tables of positions keep: ids, and one position for each user and stock
--   Alerting     backend/services/alerting.py: which messages a run of check_alerts sends, and the
--                throttle over the runs
--   Analytics    backend/services/analytics.py but for the rebalancing: the daily series of a
--                portfolio's value (Series), the comparison with indices (Benchmarks) and the caches of
--                results (Caches)
--   Quotes       backend/services/market_data.py: the prices of tickers, genuine and synthetic, and
--                their caches
--   Scheduler    backend/services/scheduler.py: the nightly cleanup of old rows
--   Settings     backend/routers/settings.py and backend/models/settings.py: the settings of a user
--                (Requests) and the alert rules (Alerts, Rules)
--   Telegram     backend/services/telegram_bot.py: how a long message is split and sent
--   Watchlist    backend/routers/watchlist.py: the requests that change a watchlist
--   Base         lists, tests, texts as lists of character codes, integers
--   Float        the numbers: a record of operations, the arithmetic of Python's floats, that the
--                handlers take as an instance argument
--
-- Numbers. A float is an abstract type with the operations the code uses; Float.Laws states the
-- laws of IEEE 754 that proofs assume, NaN included, and Float.Fixed is a concrete fixed-point
-- arithmetic that meets them, at which the theorems are tried.
--
-- Loops. The loops over lists are recursions over them, and the retry of add_holding has its three
-- attempts. Two loops run on fuel: the batches of the cleanup, on one more than the rows of the
-- table, since each round but the last deletes a row, and the cutting of a long line, on one more
-- than its characters, since each round takes at least one.
--
-- Not modelled: the network services (yfinance, Gemini, Telegram, news), bcrypt, JWT and the csv
-- module, which are parameters where the code relies on their answers; the requests that only
-- report (get_watchlist, list_transactions, get_dividends_calendar, the export); the demo data; the
-- risk metrics of backend/services/analytics.py; the deep dive, the candles, the indices and the
-- search of backend/services/market_data.py, its threads, and the sharing of one fetch between
-- concurrent requests; the texts that the bot sends and its commands; the storage and
-- parsing of advice; the jobs of the scheduler that only call a service; the migrations of the
-- database, and the frontends. Texts are ASCII where upper case
-- matters. Dates are numbers of days, times are numbers of seconds. Logs, locks of one process and
-- the texts of error messages are left out: a request here runs as one step, and what other
-- sessions do in between is an argument; the requests behind the caches of Analytics have a start and
-- an end, with anything in between.
pub mod Alerting
pub mod Analytics
pub mod Auth
pub mod Base
pub mod Float
pub mod Http
pub mod Market
pub mod Portfolio
pub mod Quotes
pub mod RateLimit
pub mod Scheduler
pub mod Settings
pub mod Table
pub mod Telegram
pub mod Watchlist
