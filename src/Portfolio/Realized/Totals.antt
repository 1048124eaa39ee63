-- ===== src/Portfolio/Realized/Totals.antt =====
-- The totals of the report, told row by row.
use stock_monitor.Base.{
  ℕ, ◌+◌ as plus, ◌≡◌, refl, Bool, true, false, ◌&&◌, none, some, List, [], ◌∷◌, arith, filter, map,
}
use stock_monitor.Float.{Float, ◌+◌, ◌-◌, ◌*◌, le, round, sum, sum_from, zero}
use stock_monitor.Table.{count_where}
use stock_monitor.Portfolio.{Transaction, buy, sell, dividend, CurrentUser}
use stock_monitor.Portfolio.Realized.{
  Tally, is_own, fx_of, dividend_of, add_kind, tally, nothing, get_realized_pnl,
}

module _ {N : Type 0} where
  -- A sale with its profit.
  abbrev pub is_settled : Transaction N → Bool
  is_settled t = elim t.type [
    | buy ↦ false
    | sell ↦ elim t.realized_pnl [ none ↦ false | some p ↦ true ]
    | dividend ↦ false
  ]

  abbrev pub is_dividend : Transaction N → Bool
  is_dividend t = elim t.type [ buy ↦ false | sell ↦ false | dividend ↦ true ]

module _ {N : Type 0} ⦃f : Float N⦄ (usd_to_eur : N) where
  abbrev pub profit : Transaction N → N
  profit t = elim t.realized_pnl [ none ↦ zero | some p ↦ p * fx_of usd_to_eur t ]

  abbrev pub fee : Transaction N → N
  fee t = t.fee * fx_of usd_to_eur t

  abbrev pub income : Transaction N → N
  income t = dividend_of (fx_of usd_to_eur t) t

  abbrev pub is_win : Transaction N → Bool
  is_win t = is_settled t && le zero (profit t)

  -- What the loop has added to each variable.
  abbrev Adds : List (Transaction N) → Tally N → Tally N → Type 0
  Adds ts s s' =
      (s'.gains ≡ sum_from s.gains (map profit (filter is_settled ts)))
      × (s'.dividends ≡ sum_from s.dividends (map income (filter is_dividend ts)))
      × (s'.fees ≡ sum_from s.fees (map fee ts))
      × (s'.sell_fees ≡ sum_from s.sell_fees (map fee (filter is_settled ts)))
      × (s'.wins ≡ plus (count_where is_win ts) s.wins)
      × (plus s'.wins s'.losses ≡ plus (count_where is_settled ts) (plus s.wins s.losses))

  tally-Adds : (ts : List (Transaction N)) (s : Tally N) → Adds ts s (tally usd_to_eur ts s)
  unfolding tally
  tally-Adds [] s = (refl, refl, refl, refl, omega arith, omega arith)
  tally-Adds (t ∷ ts) s =
      let fx = fx_of usd_to_eur t in
      let ih = tally-Adds ts (add_kind fx t (record s { fees = s.fees + t.fee * fx })) in
      (
        ground (arith, ih.0),
        ground (arith, ih.1),
        ground (arith, ih.2),
        ground (arith, ih.3),
        ground (arith, ih.4),
        ground (arith, ih.5),
      )

  -- The report counts and adds up the user's rows alone: the gains are the sum of the profits of
  -- the sales that have one, the dividends that of the dividends, the fees that of all fees, each
  -- in euro; the net profit is gains and dividends less the fees of all rows but those sales; and
  -- the trades are those sales, won if the profit is at least zero. The sums run in the order of
  -- the rows.
  pub realized_totals :
      (count : ℕ → N) (user : CurrentUser) (ts : List (Transaction N))
      → let own = filter (is_own user.id) ts in
        let r = get_realized_pnl count user usd_to_eur ts in
        let gains = sum (map profit (filter is_settled own)) in
        let dividends = sum (map income (filter is_dividend own)) in
        let fees = sum (map fee own) in
        (r.total_realized_capital_gains ≡ round 2 gains)
        × (r.total_dividends_collected ≡ round 2 dividends)
        × (r.total_fees_paid ≡ round 2 fees)
        × (r.net_realized_profit
            ≡ round 2 (gains + dividends - (fees - sum (map fee (filter is_settled own)))))
        × (r.win_trades ≡ count_where is_win own)
        × (r.trade_count ≡ count_where is_settled own)
        × (plus r.win_trades r.loss_trades ≡ r.trade_count)
  unfolding get_realized_pnl
  realized_totals count user ts =
      let own = filter (is_own user.id) ts in
      let a = tally-Adds own nothing in
      (
        rw a.0 refl,
        rw a.1 refl,
        rw a.2 refl,
        rw (a.0, a.1, a.2, a.3) refl,
        omega (arith, a.4),
        omega (arith, a.5),
        refl,
      )
