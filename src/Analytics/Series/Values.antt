-- ===== src/Analytics/Series/Values.antt =====
-- The series against its description: on each day the sum over the positions at the price that each
-- carries to that day.
use stock_monitor.Base.{
  ℕ, zero as none_left, suc, ◌-◌ as minus, ◌≤◌, ◌≡◌, refl, ap, sym, ◌∙◌, inl, inr, Bool, true,
  false, Option, none, some, List, [], ◌∷◌, ◌++◌, arith, ◌==◌, if◌then◌else◌, any, Bool-cases,
}
use stock_monitor.Base.Text.{Text}
use stock_monitor.Float.{Float, round, zero, sum}
use stock_monitor.Portfolio.Row.{Row}
use stock_monitor.Portfolio.Valuation.{Price}
use stock_monitor.Analytics.Series.{
  Candle, Point, Closes, close_on, first_close, Known, Day, start_prices, value_rows, value_days,
  daily_values, daily_closes, compute_daily_series,
}
use stock_monitor.Analytics.Series.Step.{
  terms, is_filled, IsKnown, Adds, value_rows-Adds, value_rows-in, value_rows-out,
}
use stock_monitor.Analytics.Series.Carry.{
  price_of, carried, latest_close-own, latest_close-first, latest_close-same,
}

price_of-elim :
    {N : Type 0} (o : Option (ℕ × N)) → elim o [ none ↦ none | some (d, c) ↦ some c ] ≡ price_of o
price_of-elim none = refl
price_of-elim (some (d, c)) = refl

module _ {N : Type 0} ⦃f : Float N⦄ where
  abbrev pub point_of : ℕ → List N → List (Point N)
  point_of day [] = []
  point_of day (t ∷ ts) = record { date = day; value = round 2 (sum (t ∷ ts)) } ∷ []

  -- `left` days of the series from `day` on: each with the sum of its terms, if it has any.
  unfoldable pub described : ℕ → (ℕ → Closes N) → List (Row N) → ℕ → ℕ → List (Point N)
  described start closes rows none_left day = []
  described start closes rows (suc left) day =
      point_of day (terms (λ stock. carried start day (closes stock)) rows)
      ++ described start closes rows left (suc day)

  -- A day's point, if there are terms, before the rest of the series.
  day_point :
      (day : ℕ) (ts : List N) (total : N) (has : Bool) (rest : List (Point N))
      → total ≡ sum ts
      → has ≡ is_filled ts
      → (if has then record { date = day; value = round 2 total } ∷ rest else rest)
        ≡ point_of day ts ++ rest
  day_point day [] total has rest e h = rw h refl
  day_point day (t ∷ ts) total has rest e h = rw (h, e) refl

  module _ (start : ℕ) (closes : ℕ → Closes N) (rows : List (Row N))
      (off : (stock : ℕ) → any (λ h. h.stock_id == stock) rows ≡ false → closes stock ≡ []) where
    abbrev price : ℕ → ℕ → Option N
    price day stock = carried start day (closes stock)

    price-own :
        (day stock : ℕ) (c : N)
        → start ≤ day
        → close_on day (closes stock) ≡ some c
        → price day stock ≡ some c
    price-own day stock c h e = rw (carried, latest_close-own start day (closes stock) c h e) refl

    abbrev IsReady : ℕ → Known N → Type 0
    IsReady day known =
        (stock : ℕ) → close_on day (closes stock) ≡ none → price day stock ≡ known stock

    abbrev opening : Known N → Day N
    opening known = record { last_known = known; total = zero; has_data = false }

    module _ (day : ℕ) (known : Known N) (h : start ≤ day) (ready : IsReady day known) where
      closing : Known N
      closing = (value_rows day closes rows (opening known)).last_known

      closing-price : (stock : ℕ) → price day stock ≡ closing stock
      unfolding closing IsKnown
      closing-price stock = elim (Bool-cases (any (λ h. h.stock_id == stock) rows)) [
        | inl e ↦ sym (
            value_rows-in day closes known (price day) (λ s c. price-own day s c h) ready rows
              (opening known) stock (λ s. inl refl) e)
        | inr e ↦
            ready stock (rw (off stock e) refl)
            ∙ sym (
                value_rows-out day closes known (price day) (λ s c. price-own day s c h) ready rows
                  (opening known) stock e)
      ]

      closing-IsReady : IsReady (suc day) closing
      closing-IsReady stock e =
          ap (λ l. elim l [ none ↦ price_of (first_close (closes stock)) | some (d, c) ↦ some c ])
            (latest_close-same start day (closes stock) e)
          ∙ closing-price stock

    value_days-described :
        (left day : ℕ) (known : Known N)
        → start ≤ day
        → IsReady day known
        → value_days closes rows left day known ≡ described start closes rows left day
    unfolding value_days described IsKnown Adds closing
    value_days-described none_left day known h ready = refl
    value_days-described (suc left) day known h ready =
        let s = value_rows day closes rows (opening known) in
        let adds =
          value_rows-Adds day closes known (price day) (λ s c. price-own day s c h) ready rows
            (opening known) (λ s. inl refl) in
        day_point day (terms (price day) rows) s.total s.has_data
          (value_days closes rows left (suc day) s.last_known) adds.0 adds.1
        ∙ ap (point_of day (terms (price day) rows) ++◌) (
            value_days-described left (suc day) s.last_known (omega arith)
              (closing-IsReady day known h ready))

  start_prices-in :
      (closes : ℕ → Closes N) (rows : List (Row N)) (stock : ℕ)
      → any (λ h. h.stock_id == stock) rows ≡ true
      → start_prices closes rows stock ≡ price_of (first_close (closes stock))
  start_prices-in closes [] stock e = cc
  start_prices-in closes (h ∷ hs) stock e = elim (Bool-cases (h.stock_id == stock)) [
    | inl same ↦ rw same (price_of-elim (first_close (closes stock)))
    | inr other ↦ rw other (start_prices-in closes hs stock (rw other at e))
  ]

  start_prices-out :
      (closes : ℕ → Closes N) (rows : List (Row N)) (stock : ℕ)
      → any (λ h. h.stock_id == stock) rows ≡ false
      → start_prices closes rows stock ≡ none
  start_prices-out closes [] stock e = refl
  start_prices-out closes (h ∷ hs) stock e = ground (arith, e, start_prices-out closes hs stock)

  daily_closes-out :
      (start : ℕ) (prices : List (Price N)) (fetch : Text → Option (List (Candle N)))
      (rows : List (Row N)) (stock : ℕ)
      → any (λ h. h.stock_id == stock) rows ≡ false
      → daily_closes start prices fetch rows stock ≡ []
  unfolding daily_closes
  daily_closes-out start prices fetch [] stock e = refl
  daily_closes-out start prices fetch (h ∷ hs) stock e =
      ground (arith, e, daily_closes-out start prices fetch hs stock)

  start_prices-IsReady :
      (start : ℕ) (closes : ℕ → Closes N) (rows : List (Row N))
      (off : (stock : ℕ) → any (λ h. h.stock_id == stock) rows ≡ false → closes stock ≡ [])
      → IsReady start closes rows off start (start_prices closes rows)
  start_prices-IsReady start closes rows off stock e =
      ap (λ l. elim l [ none ↦ price_of (first_close (closes stock)) | some (d, c) ↦ some c ])
        (latest_close-first start (closes stock) e)
      ∙ elim (Bool-cases (any (λ h. h.stock_id == stock) rows)) [
        | inl i ↦ sym (start_prices-in closes rows stock i)
        | inr o ↦ rw (start_prices-out closes rows stock o, off stock o) refl
      ]

  -- The series that `build_portfolio_daily_series` computes has one point for each day, from `days`
  -- days before today to today, on which some position has a price: the sum, in the order of the
  -- positions, of quantity times price times exchange rate, rounded. The price of a position on a
  -- day is the latest of its stock's closes from the first day of the series to that day, or, with
  -- none there, the first of all its closes.
  pub daily_series_described :
      (days today : ℕ) (prices : List (Price N)) (fetch : Text → Option (List (Candle N)))
      (rows : List (Row N))
      → compute_daily_series days today prices fetch rows
        ≡ described
            (minus today days)
            (daily_closes (minus today days) prices fetch rows)
            rows
            (suc (minus today (minus today days)))
            (minus today days)
  unfolding compute_daily_series daily_values
  daily_series_described days today prices fetch rows =
      let start = minus today days in
      let closes = daily_closes start prices fetch rows in
      let off = daily_closes-out start prices fetch rows in
      value_days-described start closes rows off (suc (minus today start)) start
        (start_prices closes rows) (omega arith) (start_prices-IsReady start closes rows off)
