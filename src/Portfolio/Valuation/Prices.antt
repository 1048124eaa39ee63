-- ===== src/Portfolio/Valuation/Prices.antt =====
-- Which price a position is valued at.
use stock_monitor.Base.{
  ℕ, ◌≡◌, ◌⊎◌, refl, true, false, Option, none, some, List, [], ◌∷◌, arith, All, inl, inr,
  Bool-cases, Option-cases,
}
use stock_monitor.Base.Text.{Text}
use stock_monitor.Float.{Float, zero, is_valid_float}
use stock_monitor.Portfolio.{Stock, Holding, Db}
use stock_monitor.Portfolio.Valuation.{
  Price, Quote, last_prices, active_holdings, fresh_close, missing_tickers, quote_close, is_live,
  first_price, pick_price, price_or, row_of, build_portfolio_rows,
}

module _ {N : Type 0} ⦃f : Float N⦄ where
  -- The last price of a position's stock is usable and fresh.
  abbrev pub IsPriced : ℕ → List (Price N) → Holding N × Stock → Type 0
  IsPriced now prices (h, s) = (c : N) × (fresh_close now (last_prices h.stock_id prices) ≡ some c)

  priced_not_missing :
      (now : ℕ) (prices : List (Price N)) (hs : List (Holding N × Stock))
      → All (IsPriced now prices) hs
      → missing_tickers now prices hs ≡ []
  unfolding missing_tickers
  priced_not_missing now prices [] a = refl
  priced_not_missing now prices ((h, s) ∷ hs) a =
      rw (a.0.1, missing_tickers) (priced_not_missing now prices hs a.1)

  -- While every position has a fresh price, the market service is not asked, and whatever it would
  -- answer changes no row.
  rows_offline :
      (fetch other : List Text → Text → Option (Quote N)) (user : Option ℕ) (usd_to_eur : N)
      (now : ℕ) (prices : List (Price N)) (db : Db N)
      → All (IsPriced now prices) (active_holdings user db.stocks db.holdings)
      → build_portfolio_rows fetch user usd_to_eur now prices db
        ≡ build_portfolio_rows other user usd_to_eur now prices db
  unfolding build_portfolio_rows
  rows_offline fetch other user usd_to_eur now prices db a =
      rw (priced_not_missing now prices (active_holdings user db.stocks db.holdings) a)

  fresh_close_valid :
      (now : ℕ) (ps : List (Price N)) (c : N)
      → fresh_close now ps ≡ some c
      → is_valid_float (some c) ≡ true
  fresh_close_valid now [] c e = cc
  fresh_close_valid now (p ∷ ps) c e = ground (arith, e)

  first_price_valid :
      (ps : List (Price N)) (p : Price N) → first_price ps ≡ some p → is_valid_float p.close ≡ true
  first_price_valid [] p e = cc
  first_price_valid (q ∷ qs) p e = ground (arith, e)

  -- What the price of a position that is not stale rests on.
  abbrev pub Genuine : ℕ → List (Price N) → Option (Quote N) → N → N → Type 0
  Genuine now ps quote avg price =
      (fresh_close now ps ≡ some price)
      ⊎ ((is_live quote ≡ true) × (quote_close quote ≡ some price))
      ⊎ ((first_price ps ≡ none) × (is_live quote ≡ false) × (price ≡ price_or none avg))

  module _ (now : ℕ) (ps : List (Price N)) (quote : Option (Quote N)) (avg : N) where
    abbrev picked : N
    picked = price_or (pick_price now ps quote).0 avg

    pub picked_valid : (is_valid_float (some picked) ≡ true) ⊎ (picked ≡ zero)
    unfolding pick_price
    picked_valid = valued (pick_price now ps quote).0
      where
        valued :
            (o : Option N)
            → (is_valid_float (some (price_or o avg)) ≡ true) ⊎ (price_or o avg ≡ zero)
        valued none = ground arith
        valued (some p) = ground arith

    -- The three fresh, live and stored sources in turn, with what each gives.
    picked_fresh :
        (c : N) → fresh_close now ps ≡ some c → (picked ≡ c) × ((pick_price now ps quote).2 ≡ false)
    unfolding pick_price
    picked_fresh c e = ground (arith, e, fresh_close_valid now ps c e)

    picked_live :
        (c : N)
        → fresh_close now ps ≡ none
        → is_live quote ≡ true
        → quote_close quote ≡ some c
        → (picked ≡ c) × ((pick_price now ps quote).2 ≡ false)
    unfolding pick_price
    picked_live c e l q = ground (arith, e, l, q)

    picked_stored :
        (p : Price N)
        → fresh_close now ps ≡ none
        → is_live quote ≡ false
        → first_price ps ≡ some p
        → (some picked ≡ p.close) × ((pick_price now ps quote).2 ≡ true)
    unfolding pick_price
    picked_stored p e l k = ground (arith, e, l, k, first_price_valid ps p k)

    live_close : is_live quote ≡ true → (c : N) × (quote_close quote ≡ some c)
    live_close l = ground (arith, l)

    -- No stored price, and no live one: the average purchase price stands in for a usable quote.
    picked_unknown :
        fresh_close now ps ≡ none
        → is_live quote ≡ false
        → first_price ps ≡ none
        → (pick_price now ps quote).2 ≡ false
        → picked ≡ price_or none avg
    unfolding pick_price
    picked_unknown e l k s = ground (arith, e, l, k, s)

    pub picked_stale :
        (pick_price now ps quote).2 ≡ true → (fresh_close now ps ≡ none) × (is_live quote ≡ false)
    picked_stale s = elim (Option-cases (fresh_close now ps)) [
      | inr (c, e) ↦ absurd (ground (arith, s, picked_fresh c e))
      | inl e ↦ elim (Bool-cases (is_live quote)) [
        | inl l ↦ let c = live_close l in absurd (ground (arith, s, picked_live c.0 e l c.1))
        | inr l ↦ (e, l)
      ]
    ]

    pub picked-Genuine : (pick_price now ps quote).2 ≡ false → Genuine now ps quote avg picked
    picked-Genuine s = elim (Option-cases (fresh_close now ps)) [
      | inr (c, e) ↦ inl (rw (picked_fresh c e).0 e)
      | inl e ↦ elim (Bool-cases (is_live quote)) [
        | inl l ↦ let c = live_close l in inr (inl (l, rw (picked_live c.0 e l c.1).0 c.1))
        | inr l ↦ elim (Option-cases (first_price ps)) [
          | inl k ↦ inr (inr (k, l, picked_unknown e l k s))
          | inr (p, k) ↦ absurd (ground (arith, s, picked_stored p e l k))
        ]
      ]
    ]

  -- Whatever the market service answers, the current price of a row is a finite number above zero,
  -- or 0.0. A row is marked stale only if its stock has no usable fresh price and the service no
  -- live one. The price of a row that is not marked rests on one of those, or else its stock has no
  -- usable stored price at all and the row is valued at its average purchase price, unmarked.
  pub row_price :
      (usd_to_eur : N) (now : ℕ) (prices : List (Price N)) (quotes : Text → Option (Quote N))
      (h : Holding N) (s : Stock)
      → let r = row_of usd_to_eur now prices quotes (h, s) in
        let ps = last_prices h.stock_id prices in
        ((is_valid_float (some r.current_price) ≡ true) ⊎ (r.current_price ≡ zero))
        × (r.price_stale ≡ true → (fresh_close now ps ≡ none) × (is_live (quotes s.ticker) ≡ false))
        × (r.price_stale ≡ false
            → Genuine now ps (quotes s.ticker) h.avg_purchase_price r.current_price)
  unfolding row_of
  row_price usd_to_eur now prices quotes h s =
      let ps = last_prices h.stock_id prices in
      let quote = quotes s.ticker in
      let avg = h.avg_purchase_price in
      (
        picked_valid now ps quote avg,
        picked_stale now ps quote avg,
        picked-Genuine now ps quote avg,
      )
