-- ===== src/Portfolio/Rebalance/Plan.antt =====
-- What a rebalancing plan promises: no sale beyond a position, one order for each ticker, the
-- purchases first.
use mathlib.Core.Path.{subst}
use stock_monitor.Base.{
  ℕ, ◌≡◌, ◌⊎◌, refl, sym, ◌∙◌, false, not, ◌&&◌, List, [], ◌∷◌, arith, length, All, All-append,
  All-filter, inl, inr, Bool-cases,
}
use stock_monitor.Base.Text.{Text, codes, text_eq, text_eq_iff}
use stock_monitor.Float.{Float, ◌+◌, lt, le, decimal, round, max, zero}
use stock_monitor.Float.Laws.{IsSigned}
use stock_monitor.Table.{IsUnique, All-map}
use stock_monitor.Portfolio.{TargetAllocation}
use stock_monitor.Portfolio.Row.{Row}
use stock_monitor.Portfolio.Rebalance.{
  is_buy, Leg, Merged, Order, or_zero, least, clamp, is_cash, wanted, is_skipped, bucket_legs,
  constituents, values, delta_of, target_legs, raw_orders, scope_of,
}
use stock_monitor.Portfolio.Rebalance.Merge.{
  merge_leg, merge_legs, order_of, orders_of, merge_rebalance_orders, compute_rebalance_plan,
}
use stock_monitor.Portfolio.Rebalance.Orders.{
  same_ticker, sort_orders-All, orders-IsUnique, BuysFirst, sort_orders-BuysFirst,
}

module _ {N : Type 0} ⦃f : Float N⦄ where
  -- The quantity `v` is that of a position in the ticker.
  abbrev pub HeldIn : List (Row N) → Text → N → Type 0
  HeldIn [] t v = ⊥
  HeldIn (h ∷ rows) t v = ((h.ticker ≡ t) × (v ≡ f.abs (or_zero h.quantity))) ⊎ HeldIn rows t v

  abbrev IsHeld : List (Row N) → Row N → Type 0
  IsHeld rows h = HeldIn rows h.ticker (f.abs (or_zero h.quantity))

  All-IsHeld : (rows : List (Row N)) → All (IsHeld rows) rows
  All-IsHeld [] = tt
  All-IsHeld (h ∷ rows) = (
    inl (refl, refl),
    All-map {P = IsHeld rows} {Q = IsHeld (h ∷ rows)} (λ g k. inr k) rows (All-IsHeld rows),
  )

  module _ (rows : List (Row N)) where
    abbrev LegHeld : Leg N → Type 0
    LegHeld l = HeldIn rows l.ticker l.held_quantity

    abbrev MergedHeld : Merged N → Type 0
    MergedHeld m = HeldIn rows m.ticker m.held_quantity

    bucket_legs_held :
        (t : TargetAllocation N) (delta bucket : N) (n : ℕ) (hs : List (Row N))
        → All (IsHeld rows) hs
        → All LegHeld (bucket_legs t delta bucket n hs)
    unfolding bucket_legs
    bucket_legs_held t delta bucket n [] a = tt
    bucket_legs_held t delta bucket n (h ∷ hs) a =
        elim (Bool-cases (is_skipped (wanted delta bucket n h) h)) [
          | inl e ↦ rw e (bucket_legs_held t delta bucket n hs a.1)
          | inr e ↦ rw e (a.0, bucket_legs_held t delta bucket n hs a.1)
        ]

    constituents-IsHeld : (t : TargetAllocation N) → All (IsHeld rows) (constituents t rows)
    unfolding constituents
    constituents-IsHeld t = elim (Bool-cases (text_eq (scope_of t) (codes "MARKET"))) [
      | inl e ↦ rw e (All-filter (IsHeld rows) _ rows (All-IsHeld rows))
      | inr e ↦ elim (Bool-cases (text_eq (scope_of t) (codes "TICKERS"))) [
        | inl k ↦ rw (e, k) (All-filter (IsHeld rows) _ rows (All-IsHeld rows))
        | inr k ↦ rw (e, k) tt
      ]
    ]

    target_legs_held :
        (total cash : N) (t : TargetAllocation N) → All LegHeld (target_legs total cash rows t)
    unfolding target_legs
    target_legs_held total cash t =
        let bucket = constituents t rows in
        let delta = delta_of total cash t rows in
        elim (Bool-cases (not (is_cash t) && le (decimal 1 0) (f.abs delta))) [
          | inl e ↦ rw e (
              bucket_legs_held t delta (values bucket) (length bucket) bucket
                (constituents-IsHeld t))
          | inr e ↦ rw e tt
        ]

    raw_orders_held :
        (total cash : N) (ts : List (TargetAllocation N))
        → All LegHeld (raw_orders total cash rows ts)
    unfolding raw_orders
    raw_orders_held total cash [] = tt
    raw_orders_held total cash (t ∷ ts) =
        All-append LegHeld (target_legs total cash rows t) (raw_orders total cash rows ts)
          (target_legs_held total cash t) (raw_orders_held total cash ts)

    -- The larger of two quantities held is one of them.
    max_held : (t : Text) (a b : N) → HeldIn rows t a → HeldIn rows t b → HeldIn rows t (max a b)
    max_held t a b ha hb = elim (Bool-cases (lt a b)) [ inl e ↦ rw e hb | inr e ↦ rw e ha ]

    merge_leg_held :
        (o : Leg N) (ms : List (Merged N))
        → LegHeld o
        → All MergedHeld ms
        → All MergedHeld (merge_leg o ms)
    unfolding merge_leg
    merge_leg_held o [] h a = (max_held o.ticker o.held_quantity o.held_quantity h h, tt)
    merge_leg_held o (m ∷ ms) h a = elim (Bool-cases (text_eq m.ticker o.ticker)) [
      | inl e ↦
          let same : o.ticker ≡ m.ticker = sym ((text_eq_iff m.ticker o.ticker).0 e) in
          rw e (
            max_held m.ticker m.held_quantity o.held_quantity a.0
                (subst (λ t. HeldIn rows t o.held_quantity) same h),
            a.1,
          )
      | inr e ↦ rw e (a.0, merge_leg_held o ms h a.1)
    ]

    merge_legs_held :
        (os : List (Leg N)) (ms : List (Merged N))
        → All LegHeld os
        → All MergedHeld ms
        → All MergedHeld (merge_legs os ms)
    unfolding merge_legs
    merge_legs_held [] ms h a = a
    merge_legs_held (o ∷ os) ms h a =
        merge_legs_held os (merge_leg o ms) h.1 (merge_leg_held o ms h.0 a)

    -- A sale is of no more than some position in its ticker, both rounded as the order is.
    abbrev pub Covered : Order N → Type 0
    Covered o =
        is_buy o.side ≡ false
        → (v : N) × HeldIn rows o.ticker v × (lt (round 4 v) o.quantity ≡ false)

    module _ (signs : IsSigned f) where
      -- What the clamp leaves of a sale does not exceed what is held.
      clamp_covered :
          (qty x : N)
          → lt zero (clamp qty (f.abs x)) ≡ false
          → lt (f.abs x) (f.abs (clamp qty (f.abs x))) ≡ false
      clamp_covered qty x e = elim (Bool-cases (lt qty zero)) [
        | inr k ↦ rw k (signs.abs_flat qty x k (rw k at e))
        | inl k ↦ elim (Bool-cases (lt qty (f.neg (f.abs x)))) [
          | inl l ↦
              let same : f.abs (f.neg (f.abs x)) ≡ f.abs x =
                signs.abs_neg (f.abs x) ∙ signs.abs_abs x in
              rw (k, l, same) (signs.lt_irrefl (f.abs x))
          | inr l ↦ rw (k, l, signs.abs_below qty k) (signs.neg_flip qty (f.abs x) l)
        ]
      ]

      HeldIn-abs : (rs : List (Row N)) (t : Text) (v : N) → HeldIn rs t v → (x : N) × (v ≡ f.abs x)
      HeldIn-abs [] t v h = absurd h
      HeldIn-abs (r ∷ rs) t v (inl h) = (or_zero r.quantity, h.1)
      HeldIn-abs (r ∷ rs) t v (inr h) = HeldIn-abs rs t v h

      order-Covered : (m : Merged N) → MergedHeld m → Covered (order_of m)
      order-Covered m h sale =
          let x = HeldIn-abs rows m.ticker m.held_quantity h in
          let qty = clamp m.signed_quantity m.held_quantity in
          let small : lt m.held_quantity (f.abs qty) ≡ false =
            subst
              (λ v.
                lt zero (clamp m.signed_quantity v) ≡ false
                → lt v (f.abs (clamp m.signed_quantity v)) ≡ false)
              (sym x.1) (clamp_covered m.signed_quantity x.0) (ground (arith, sale)) in
          (m.held_quantity, h, signs.round_keeps 4 (f.abs qty) m.held_quantity small)

      orders_of-Covered : (ms : List (Merged N)) → All MergedHeld ms → All Covered (orders_of ms)
      unfolding orders_of
      orders_of-Covered [] a = tt
      orders_of-Covered (m ∷ ms) a =
          elim (Bool-cases (lt (f.abs (clamp m.signed_quantity m.held_quantity)) least)) [
            | inl e ↦ rw e (orders_of-Covered ms a.1)
            | inr e ↦ rw e (order-Covered m a.0, orders_of-Covered ms a.1)
          ]

  -- A plan never sells more of a ticker than some position in it holds, whatever the targets, also
  -- where their buckets overlap: each sale is of no more than the quantity of a row of the
  -- portfolio with its ticker, both rounded to four decimals.
  pub plan-Covered :
      (rows : List (Row N)) (targets : List (TargetAllocation N)) (extra_cash : N)
      → IsSigned f
      → All (Covered rows) (compute_rebalance_plan rows targets extra_cash).orders
  unfolding compute_rebalance_plan merge_rebalance_orders
  plan-Covered rows targets extra_cash signs =
      let cash = max extra_cash zero in
      let legs = raw_orders (values rows + cash) cash rows targets in
      sort_orders-All (Covered rows) (orders_of (merge_legs legs [])) (
        orders_of-Covered rows signs (merge_legs legs []) (
          merge_legs_held rows legs [] (raw_orders_held rows (values rows + cash) cash targets) tt))

  -- The orders of a plan are of distinct tickers, so overlapping targets give no second order, and
  -- no purchase stands behind a sale.
  pub plan_orders :
      (rows : List (Row N)) (targets : List (TargetAllocation N)) (extra_cash : N)
      → IsUnique same_ticker (compute_rebalance_plan rows targets extra_cash).orders
        × BuysFirst (compute_rebalance_plan rows targets extra_cash).orders
  unfolding compute_rebalance_plan
  plan_orders rows targets extra_cash =
      let cash = max extra_cash zero in
      let legs = raw_orders (values rows + cash) cash rows targets in
      (orders-IsUnique legs, sort_orders-BuysFirst (merge_rebalance_orders legs))
