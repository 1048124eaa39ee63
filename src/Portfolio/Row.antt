-- ===== src/Portfolio/Row.antt =====
-- A row of the list that `build_portfolio_rows` of backend/services/portfolio_service.py returns: a
-- dict there, all of whose keys are always set.
use stock_monitor.Base.{ℕ, Bool, Option}
use stock_monitor.Base.Text.{Text}

pub record Row (N : Type 0) : Type 0 where
  pub id : ℕ
  pub stock_id : ℕ
  pub ticker : Text
  pub name : Text
  pub market : Text
  pub currency : Text
  pub quantity : N
  pub avg_purchase_price : N
  pub current_price : N
  pub previous_close : Option N
  pub price_stale : Bool
  pub total_value : N
  pub total_invested : N
  pub total_value_eur : N
  pub total_invested_eur : N
  pub fx_rate_to_eur : N
  pub pnl_absolute : N
  pub pnl_percent : N
  pub daily_pnl : Option N
  pub purchase_date : Option ℕ
  pub notes : Text
