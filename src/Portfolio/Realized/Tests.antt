-- ===== src/Portfolio/Realized/Tests.antt =====
-- A report, and the theorem at a concrete ledger.
use stock_monitor.Base.{ℕ, ◌+◌ as plus, ◌≡◌, refl, some, List, [], ◌∷◌, filter, map}
use stock_monitor.Base.Text.{text_eq}
use stock_monitor.Base.Int.{ℤ}
use stock_monitor.Float.{◌+◌, ◌-◌, round, sum}
use stock_monitor.Float.Fixed.{fixed}
use stock_monitor.Table.{count_where}
use stock_monitor.Portfolio.{Transaction, buy, sell}
use stock_monitor.Portfolio.Realized.{RealizedPnl, is_own, get_realized_pnl}
use stock_monitor.Portfolio.Realized.Totals.{
  is_settled, is_dividend, is_win, profit, fee, income, realized_totals,
}
use stock_monitor.Portfolio.Samples.{units, coupon, alice}

abbrev purchase : Transaction ℤ
purchase = record coupon {
  id = 2;
  type = buy;
  quantity = units 4;
  fee = units 1;
  realized_pnl = some (units 0);
}

abbrev sale : Transaction ℤ
sale = record purchase { id = 3; type = sell; fee = units 2; realized_pnl = some (units 10) }

abbrev ledger : List (Transaction ℤ)
ledger = coupon ∷ purchase ∷ sale ∷ record sale { id = 4; user_id = some 8 } ∷ []

abbrev net : RealizedPnl ℤ → ℤ × ℕ × ℕ
net r = (r.net_realized_profit, r.win_trades, r.transactions_count)

-- 10 of the sale, 3 of the dividend, less the fee of the purchase.
report_runs : net (get_realized_pnl units alice (units 1) ledger) ≡ (units 12, 1, 3)
unfolding get_realized_pnl text_eq
report_runs = refl

realized_totals_example :
    let own = filter (is_own 7) ledger in
    let r = get_realized_pnl units alice (units 1) ledger in
    let gains = sum (map (profit (units 1)) (filter is_settled own)) in
    let dividends = sum (map (income (units 1)) (filter is_dividend own)) in
    let fees = sum (map (fee (units 1)) own) in
    (r.total_realized_capital_gains ≡ round 2 gains)
    × (r.total_dividends_collected ≡ round 2 dividends)
    × (r.total_fees_paid ≡ round 2 fees)
    × (r.net_realized_profit
        ≡ round 2 (gains + dividends - (fees - sum (map (fee (units 1)) (filter is_settled own)))))
    × (r.win_trades ≡ count_where (is_win (units 1)) own)
    × (r.trade_count ≡ count_where is_settled own)
    × (plus r.win_trades r.loss_trades ≡ r.trade_count)
realized_totals_example = realized_totals (units 1) units alice ledger
