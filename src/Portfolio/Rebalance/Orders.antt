-- ===== src/Portfolio/Rebalance/Orders.antt =====
-- The orders of a plan: one for each ticker, in the order of the sort, none beyond what is held.
use stock_monitor.Base.{◌≡◌, ◌∙◌, Bool, false, List, [], ◌∷◌, arith, All, inl, inr, Bool-cases}
use stock_monitor.Base.Text.{Text, text_eq, text_eq_iff}
use stock_monitor.Float.{Float, lt}
use stock_monitor.Table.{IsUnique}
use stock_monitor.Portfolio.Rebalance.{is_buy, Leg, Merged, Order, least, clamp}
use stock_monitor.Portfolio.Rebalance.Merge.{
  merge_leg, merge_legs, orders_of, merge_rebalance_orders, goes_before, insert_order, sort_orders,
}

module _ {N : Type 0} where
  abbrev pub same_ticker : Order N → Order N → Bool
  same_ticker a b = text_eq a.ticker b.ticker

  abbrev same_key : Merged N → Merged N → Bool
  same_key a b = text_eq a.ticker b.ticker

text_eq_sym : (a b : Text) → text_eq a b ≡ text_eq b a
text_eq_sym a b = ground (arith, text_eq_iff a b, text_eq_iff b a)

module _ {N : Type 0} ⦃f : Float N⦄ where
  -- Merging a leg adds no key but that of the leg.
  merge_leg-All :
      (P : Text → Type 0) (o : Leg N) (ms : List (Merged N))
      → P o.ticker
      → All (λ (m : Merged N). P m.ticker) ms
      → All (λ (m : Merged N). P m.ticker) (merge_leg o ms)
  unfolding merge_leg
  merge_leg-All P o [] h a = (h, tt)
  merge_leg-All P o (m ∷ ms) h a = elim (Bool-cases (text_eq m.ticker o.ticker)) [
    | inl e ↦ rw e a
    | inr e ↦ rw e (a.0, merge_leg-All P o ms h a.1)
  ]

  merge_leg-IsUnique :
      (o : Leg N) (ms : List (Merged N)) → IsUnique same_key ms → IsUnique same_key (merge_leg o ms)
  unfolding merge_leg
  merge_leg-IsUnique o [] u = (tt, tt)
  merge_leg-IsUnique o (m ∷ ms) u = elim (Bool-cases (text_eq m.ticker o.ticker)) [
    | inl e ↦ rw e u
    | inr e ↦
        rw e
          (merge_leg-All (λ t. text_eq m.ticker t ≡ false) o ms e u.0, merge_leg-IsUnique o ms u.1)
  ]

  merge_legs-IsUnique :
      (os : List (Leg N)) (ms : List (Merged N))
      → IsUnique same_key ms
      → IsUnique same_key (merge_legs os ms)
  unfolding merge_legs
  merge_legs-IsUnique [] ms u = u
  merge_legs-IsUnique (o ∷ os) ms u =
      merge_legs-IsUnique os (merge_leg o ms) (merge_leg-IsUnique o ms u)

  orders_of-All :
      (P : Text → Type 0) (ms : List (Merged N))
      → All (λ (m : Merged N). P m.ticker) ms
      → All (λ (o : Order N). P o.ticker) (orders_of ms)
  unfolding orders_of
  orders_of-All P [] a = tt
  orders_of-All P (m ∷ ms) a =
      elim (Bool-cases (lt (f.abs (clamp m.signed_quantity m.held_quantity)) least)) [
        | inl e ↦ rw e (orders_of-All P ms a.1)
        | inr e ↦ rw e (a.0, orders_of-All P ms a.1)
      ]

  orders_of-IsUnique :
      (ms : List (Merged N)) → IsUnique same_key ms → IsUnique same_ticker (orders_of ms)
  unfolding orders_of
  orders_of-IsUnique [] u = tt
  orders_of-IsUnique (m ∷ ms) u =
      elim (Bool-cases (lt (f.abs (clamp m.signed_quantity m.held_quantity)) least)) [
        | inl e ↦ rw e (orders_of-IsUnique ms u.1)
        | inr e ↦
            rw e (orders_of-All (λ t. text_eq m.ticker t ≡ false) ms u.0, orders_of-IsUnique ms u.1)
      ]

  -- The sort loses and adds nothing.
  insert_order-All :
      (P : Order N → Type 0) (o : Order N) (ps : List (Order N))
      → P o
      → All P ps
      → All P (insert_order o ps)
  unfolding insert_order
  insert_order-All P o [] h a = (h, tt)
  insert_order-All P o (p ∷ ps) h a = elim (Bool-cases (goes_before p o)) [
    | inl e ↦ rw e (a.0, insert_order-All P o ps h a.1)
    | inr e ↦ rw e (h, a)
  ]

  pub sort_orders-All :
      (P : Order N → Type 0) (os : List (Order N)) → All P os → All P (sort_orders os)
  unfolding sort_orders
  sort_orders-All P [] a = tt
  sort_orders-All P (o ∷ os) a =
      insert_order-All P o (sort_orders os) a.0 (sort_orders-All P os a.1)

  insert_order-IsUnique :
      (o : Order N) (ps : List (Order N))
      → All (λ p. same_ticker o p ≡ false) ps
      → IsUnique same_ticker ps
      → IsUnique same_ticker (insert_order o ps)
  unfolding insert_order
  insert_order-IsUnique o [] a u = (tt, tt)
  insert_order-IsUnique o (p ∷ ps) a u = elim (Bool-cases (goes_before p o)) [
    | inl e ↦ rw e (
      insert_order-All (λ q. same_ticker p q ≡ false) o ps (text_eq_sym p.ticker o.ticker ∙ a.0)
          u.0,
      insert_order-IsUnique o ps a.1 u.1,
    )
    | inr e ↦ rw e (a, u)
  ]

  sort_orders-IsUnique :
      (os : List (Order N)) → IsUnique same_ticker os → IsUnique same_ticker (sort_orders os)
  unfolding sort_orders
  sort_orders-IsUnique [] u = tt
  sort_orders-IsUnique (o ∷ os) u =
      insert_order-IsUnique o (sort_orders os)
        (sort_orders-All (λ p. same_ticker o p ≡ false) os u.0) (sort_orders-IsUnique os u.1)

  pub orders-IsUnique :
      (legs : List (Leg N)) → IsUnique same_ticker (sort_orders (merge_rebalance_orders legs))
  unfolding merge_rebalance_orders
  orders-IsUnique legs =
      sort_orders-IsUnique (orders_of (merge_legs legs []))
        (orders_of-IsUnique (merge_legs legs []) (merge_legs-IsUnique legs [] tt))

  -- No purchase stands behind a sale.
  abbrev pub IsSale : Order N → Type 0
  IsSale o = is_buy o.side ≡ false

  abbrev pub BuysFirst : List (Order N) → Type 0
  BuysFirst [] = Unit
  BuysFirst (o ∷ os) = (is_buy o.side ≡ false → All IsSale os) × BuysFirst os

  insert_order-BuysFirst :
      (o : Order N) (ps : List (Order N)) → BuysFirst ps → BuysFirst (insert_order o ps)
  unfolding insert_order
  insert_order-BuysFirst o [] b = ((λ e. tt), tt)
  insert_order-BuysFirst o (p ∷ ps) b = elim (Bool-cases (goes_before p o)) [
    | inl e ↦ rw e (
      (λ s. insert_order-All IsSale o ps (ground (arith, e, s)) (b.0 s)),
      insert_order-BuysFirst o ps b.1,
    )
    | inr e ↦ rw e ((λ s. let t : is_buy p.side ≡ false = ground (arith, e, s) in (t, b.0 t)), b)
  ]

  pub sort_orders-BuysFirst : (os : List (Order N)) → BuysFirst (sort_orders os)
  unfolding sort_orders
  sort_orders-BuysFirst [] = tt
  sort_orders-BuysFirst (o ∷ os) =
      insert_order-BuysFirst o (sort_orders os) (sort_orders-BuysFirst os)
