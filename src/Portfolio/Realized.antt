-- ===== src/Portfolio/Realized.antt =====
-- `get_realized_pnl` of backend/routers/portfolio.py: the realised profit of a user, the dividends
-- and the fees, over the ledger. Each row of the ledger has its stock, so the join drops none.
pub mod Totals
mod Tests
use stock_monitor.Base.{
  ℕ, suc, ◌+◌ as plus, Bool, true, false, ◌&&◌, Option, none, some, List, [], ◌∷◌, ltb,
  if◌then◌else◌, filter, length,
}
use stock_monitor.Base.Text.{Text, codes, text_eq}
use stock_monitor.Float.{Float, ◌+◌, ◌-◌, ◌*◌, ◌/◌, lt, le, decimal, round, zero}
use stock_monitor.Portfolio.{Transaction, Kind, buy, sell, dividend, CurrentUser, owner_eq}

-- The variables of the loop.
pub record Tally (N : Type 0) : Type 0 where
  pub gains : N
  pub dividends : N
  pub fees : N
  pub sell_fees : N
  pub wins : ℕ
  pub losses : ℕ

pub record RealizedPnl (N : Type 0) : Type 0 where
  pub total_realized_capital_gains : N
  pub total_dividends_collected : N
  pub total_fees_paid : N
  pub net_realized_profit : N
  pub trade_count : ℕ
  pub win_trades : ℕ
  pub loss_trades : ℕ
  pub win_rate_percent : N
  pub transactions_count : ℕ

module _ {N : Type 0} ⦃f : Float N⦄ where
  -- `Transaction.user_id == current_user.id`
  abbrev pub is_own : ℕ → Transaction N → Bool
  is_own user t = owner_eq t.user_id (some user)

  abbrev pub fx_of : N → Transaction N → N
  fx_of usd_to_eur t = if text_eq t.currency (codes "USD") then usd_to_eur else decimal 1 0

  abbrev pub dividend_of : N → Transaction N → N
  dividend_of fx t = (if lt zero t.quantity then t.price * t.quantity else t.price) * fx

  -- One round of the loop, behind the sum of the fees.
  abbrev pub add_kind : N → Transaction N → Tally N → Tally N
  add_kind fx t s = elim t.type [
    | buy ↦ s
    | sell ↦ elim t.realized_pnl [
      | none ↦ s
      | some pnl ↦ record s {
        gains = s.gains + pnl * fx;
        sell_fees = s.sell_fees + t.fee * fx;
        wins = if le zero (pnl * fx) then suc s.wins else s.wins;
        losses = if le zero (pnl * fx) then s.losses else suc s.losses;
      }
    ]
    | dividend ↦ record s { dividends = s.dividends + dividend_of fx t }
  ]

  unfoldable pub tally : N → List (Transaction N) → Tally N → Tally N
  tally usd_to_eur [] s = s
  tally usd_to_eur (t ∷ ts) s =
      let fx = fx_of usd_to_eur t in
      tally usd_to_eur ts (add_kind fx t (record s { fees = s.fees + t.fee * fx }))

  abbrev pub nothing : Tally N
  nothing = record {
    gains = zero;
    dividends = zero;
    fees = zero;
    sell_fees = zero;
    wins = 0;
    losses = 0;
  }

  -- `count` gives the float of a whole number.
  unfoldable pub get_realized_pnl : (ℕ → N) → CurrentUser → N → List (Transaction N) → RealizedPnl N
  unfolding tally
  get_realized_pnl count user usd_to_eur ts =
      let own = filter (is_own user.id) ts in
      let s = tally usd_to_eur own nothing in
      let trades = plus s.wins s.losses in
      record {
        total_realized_capital_gains = round 2 s.gains;
        total_dividends_collected = round 2 s.dividends;
        total_fees_paid = round 2 s.fees;
        net_realized_profit = round 2 (s.gains + s.dividends - (s.fees - s.sell_fees));
        trade_count = trades;
        win_trades = s.wins;
        loss_trades = s.losses;
        win_rate_percent =
            round 1 (if ltb 0 trades then count s.wins / count trades * decimal 100 0 else zero);
        transactions_count = length own;
      }
