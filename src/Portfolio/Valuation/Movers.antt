-- ===== src/Portfolio/Valuation/Movers.antt =====
-- The best and the worst position of a summary.
use stock_monitor.Base.{
  ◌≡◌, true, false, Option, none, some, List, [], ◌∷◌, All, inl, inr, Bool-cases, IsAmong,
  All-IsAmong,
}
use stock_monitor.Base.Text.{Text}
use stock_monitor.Float.{Float, lt, le, zero}
use stock_monitor.Float.Laws.{IsOrder, IsTotal, IsMonotone}
use stock_monitor.Table.{All-map}
use stock_monitor.Portfolio.Row.{Row}
use stock_monitor.Portfolio.Valuation.Summary.{
  last_row, insert_row, sorted_by_pnl, first_gainer, last_loser, build_portfolio_summary,
}

module _ {N : Type 0} ⦃f : Float N⦄ where
  -- The profit of the first row is at least that of the second.
  abbrev pub AtLeast : Row N → Row N → Type 0
  AtLeast r s = le s.pnl_percent r.pnl_percent ≡ true

  abbrev IsDescending : List (Row N) → Type 0
  IsDescending [] = Unit
  IsDescending (r ∷ rows) = All (AtLeast r) rows × IsDescending rows

  -- The profits are numbers, not NaN.
  abbrev pub IsNumber : Row N → Type 0
  IsNumber r = le r.pnl_percent r.pnl_percent ≡ true

  insert_row-All :
      (P : Row N → Type 0) (r : Row N) (rows : List (Row N))
      → P r
      → All P rows
      → All P (insert_row r rows)
  unfolding insert_row
  insert_row-All P r [] h a = (h, tt)
  insert_row-All P r (s ∷ rows) h a = elim (Bool-cases (lt r.pnl_percent s.pnl_percent)) [
    | inl e ↦ rw e (a.0, insert_row-All P r rows h a.1)
    | inr e ↦ rw e (h, a)
  ]

  sorted-All : (P : Row N → Type 0) (rows : List (Row N)) → All P rows → All P (sorted_by_pnl rows)
  unfolding sorted_by_pnl
  sorted-All P [] a = tt
  sorted-All P (r ∷ rows) a = insert_row-All P r (sorted_by_pnl rows) a.0 (sorted-All P rows a.1)

  -- What holds of all sorted rows holds of all rows.
  insert_row-All_back :
      (P : Row N → Type 0) (r : Row N) (rows : List (Row N))
      → All P (insert_row r rows)
      → P r × All P rows
  unfolding insert_row
  insert_row-All_back P r [] a = a
  insert_row-All_back P r (s ∷ rows) a = elim (Bool-cases (lt r.pnl_percent s.pnl_percent)) [
    | inl e ↦
        let b : P s × All P (insert_row r rows) = rw e at a in
        let c = insert_row-All_back P r rows b.1 in (c.0, (b.0, c.1))
    | inr e ↦ let b : P r × (P s × All P rows) = rw e at a in b
  ]

  sorted-All_back :
      (P : Row N → Type 0) (rows : List (Row N)) → All P (sorted_by_pnl rows) → All P rows
  unfolding sorted_by_pnl
  sorted-All_back P [] a = tt
  sorted-All_back P (r ∷ rows) a =
      let b = insert_row-All_back P r (sorted_by_pnl rows) a in (b.0, sorted-All_back P rows b.1)

  module _ (order : IsOrder f) (total : IsTotal f) where
    AtLeast-trans : (r s t : Row N) → AtLeast r s → AtLeast s t → AtLeast r t
    AtLeast-trans r s t h k = order.le_trans t.pnl_percent s.pnl_percent r.pnl_percent k h

    insert_row-IsDescending :
        (r : Row N) (rows : List (Row N))
        → IsNumber r
        → All IsNumber rows
        → IsDescending rows
        → IsDescending (insert_row r rows)
    unfolding insert_row
    insert_row-IsDescending r [] n a d = (tt, tt)
    insert_row-IsDescending r (s ∷ rows) n a d =
        elim (Bool-cases (lt r.pnl_percent s.pnl_percent)) [
          | inl e ↦ rw e (
            insert_row-All (AtLeast s) r rows (order.le_of_lt r.pnl_percent s.pnl_percent e) d.0,
            insert_row-IsDescending r rows n a.1 d.1,
          )
          | inr e ↦
              let h = total.le_of_not_lt r.pnl_percent s.pnl_percent n a.0 e in
              rw e ((h, All-map (λ t k. AtLeast-trans r s t h k) rows d.0), d)
        ]

    sorted-IsDescending :
        (rows : List (Row N)) → All IsNumber rows → IsDescending (sorted_by_pnl rows)
    unfolding sorted_by_pnl
    sorted-IsDescending [] a = tt
    sorted-IsDescending (r ∷ rows) a =
        insert_row-IsDescending r (sorted_by_pnl rows) a.0 (sorted-All IsNumber rows a.1)
          (sorted-IsDescending rows a.1)

  -- The best position: one of the rows, with a profit, that no row surpasses; none if no row has
  -- a profit.
  abbrev pub IsBest : List (Row N) → Option (Row N) → Type 0
  IsBest rows none = All (λ r. lt zero r.pnl_percent ≡ false) rows
  IsBest rows (some b) =
      IsAmong b rows × (lt zero b.pnl_percent ≡ true) × All (λ r. AtLeast b r) rows

  -- The worst position: one of the rows, with a loss, that surpasses no row; none if no row has a
  -- loss.
  abbrev pub IsWorst : List (Row N) → Option (Row N) → Type 0
  IsWorst rows none = All (λ r. lt r.pnl_percent zero ≡ false) rows
  IsWorst rows (some w) =
      IsAmong w rows × (lt w.pnl_percent zero ≡ true) × All (λ r. AtLeast r w) rows

  last_row-All :
      (P : Row N → Type 0) (r : Row N) (rows : List (Row N))
      → P r
      → All P rows
      → P (last_row r rows)
  last_row-All P r [] h a = h
  last_row-All P r (s ∷ rows) h a = last_row-All P s rows a.0 a.1

  module _ (order : IsOrder f) (total : IsTotal f) (mono : IsMonotone f) where
    descending_head :
        (r : Row N) (rows : List (Row N))
        → IsNumber r
        → IsDescending (r ∷ rows)
        → All (AtLeast r) (r ∷ rows)
    descending_head r rows n d = (n, d.0)

    descending_last :
        (r : Row N) (rows : List (Row N))
        → IsNumber r
        → All IsNumber rows
        → IsDescending (r ∷ rows)
        → All (λ s. AtLeast s (last_row r rows)) (r ∷ rows)
    descending_last r [] n a d = (n, tt)
    descending_last r (s ∷ rows) n a d =
        (last_row-All (AtLeast r) s rows d.0.0 d.0.1, descending_last s rows a.0 a.1 d.1)

    no_gain :
        (r s : Row N)
        → IsNumber r
        → lt zero r.pnl_percent ≡ false
        → AtLeast r s
        → lt zero s.pnl_percent ≡ false
    no_gain r s n h k = order.not_lt_of_le s.pnl_percent zero (
        order.le_trans s.pnl_percent r.pnl_percent zero k
          (total.le_of_not_lt zero r.pnl_percent mono.zero_self n h))

    no_loss :
        (r s : Row N)
        → IsNumber r
        → lt r.pnl_percent zero ≡ false
        → AtLeast s r
        → lt s.pnl_percent zero ≡ false
    no_loss r s n h k = order.not_lt_of_le zero s.pnl_percent (
        order.le_trans zero r.pnl_percent s.pnl_percent
          (total.le_of_not_lt r.pnl_percent zero n mono.zero_self h) k)

    -- What the first and the last of sorted rows are, among rows that are as many.
    first_gainer-IsBest :
        (more rows : List (Row N))
        → All (λ r. IsAmong r more) rows
        → All IsNumber rows
        → IsDescending rows
        → ((P : Row N → Type 0) → All P rows → All P more)
        → IsBest more (first_gainer rows)
    first_gainer-IsBest more [] a n d back = back (λ r. lt zero r.pnl_percent ≡ false) tt
    first_gainer-IsBest more (r ∷ rows) a n d back = elim (Bool-cases (lt zero r.pnl_percent)) [
      | inl e ↦ rw e (a.0, e, back (AtLeast r) (descending_head r rows n.0 d))
      | inr e ↦ rw e (
          back (λ s. lt zero s.pnl_percent ≡ false)
            (All-map (λ s k. no_gain r s n.0 e k) (r ∷ rows) (descending_head r rows n.0 d)))
    ]

    last_loser-IsWorst :
        (more rows : List (Row N))
        → All (λ r. IsAmong r more) rows
        → All IsNumber rows
        → IsDescending rows
        → ((P : Row N → Type 0) → All P rows → All P more)
        → IsWorst more (last_loser rows)
    last_loser-IsWorst more [] a n d back = back (λ r. lt r.pnl_percent zero ≡ false) tt
    last_loser-IsWorst more (r ∷ rows) a n d back =
        let w = last_row r rows in
        let least = descending_last r rows n.0 n.1 d in
        let n' = last_row-All IsNumber r rows n.0 n.1 in
        elim (Bool-cases (lt w.pnl_percent zero)) [
          | inl e ↦
              rw e (
                last_row-All (λ s. IsAmong s more) r rows a.0 a.1,
                e,
                back (λ s. AtLeast s w) least,
              )
          | inr e ↦ rw e (
              back (λ s. lt s.pnl_percent zero ≡ false)
                (All-map (λ s k. no_loss w s n' e k) (r ∷ rows) least))
        ]

    -- The summary's top gainer is a row with a profit in percent that no row surpasses, and its
    -- top loser a row with a loss that surpasses no row; each is missing only if no row has a
    -- profit, or a loss; if no row's profit is NaN.
    pub summary_movers :
        (yield_of : Text → N) (usd_to_eur : N) (rows : List (Row N))
        → All IsNumber rows
        → let s = build_portfolio_summary yield_of usd_to_eur rows in
          IsBest rows s.top_gainer × IsWorst rows s.top_loser
    unfolding build_portfolio_summary
    summary_movers yield_of usd_to_eur rows n =
        let sorted = sorted_by_pnl rows in
        let among = sorted-All (λ r. IsAmong r rows) rows (All-IsAmong rows rows (λ r h. h)) in
        let numbers = sorted-All IsNumber rows n in
        let d = sorted-IsDescending order total rows n in
        let back = λ (P : Row N → Type 0). sorted-All_back P rows in
        (
          first_gainer-IsBest rows sorted among numbers d back,
          last_loser-IsWorst rows sorted among numbers d back,
        )
