-- ===== src/Portfolio/Ledger/Trades.antt =====
-- What `create_transaction` does to the positions: which sales go through, what each trade leaves
-- behind, and that a trade keeps the table valid and the other users' rows as they are.
use stock_monitor.Base.{
  ℕ, ◌≡◌, refl, Bool, true, false, ◌&&◌, Option, none, some, List, arith, ◌==◌, if◌then◌else◌, find,
  ◌∙◌,
}
use stock_monitor.Float.{Float, ◌+◌, ◌-◌, ◌*◌, ◌/◌, le, decimal, round, zero}
use stock_monitor.Float.Laws.{IsOrder, IsGrowing, not_le_of_slack}
use stock_monitor.Http.{ok, is_ok, Returns, Returns-if, Returns-bind}
use stock_monitor.Table.{update_where, delete_where, count_where, find-some}
use stock_monitor.Portfolio.{Stock, Holding, owner_eq}
use stock_monitor.Portfolio.Positions.{held_by, others}
use stock_monitor.Portfolio.Positions.Lookup.{
  IsValid, update-IsValid, delete-IsValid, find-update, find-delete, others-update, others-delete,
  count_row, Touches, Touches-owned, Touches-row,
}
use stock_monitor.Portfolio.Ledger.{
  TransactionCreate, buy_shares, sell_shares, sellable, take_shares, add_lot,
}

module _ {N : Type 0} ⦃f : Float N⦄ where
  -- The table stays valid, and the rows of the other users stay as they were.
  abbrev pub Keeps : ℕ → List (Holding N) → List (Holding N) → Type 0
  Keeps user hs hs' = IsValid hs' × (others user hs' ≡ others user hs)

  module _ (user : ℕ) (stock : Stock) (tx : TransactionCreate N) (hs : List (Holding N))
      (h : Holding N) (valid : IsValid hs) (found : find (held_by user stock.id) hs ≡ some h) where
    owned : held_by user stock.id h ≡ true
    owned = find-some (held_by user stock.id) hs h found

    sellable_row : sellable h.id user tx.quantity h ≡ le tx.quantity h.quantity
    sellable_row = ground (arith, owned)

    -- The guarded UPDATE of a sale changes one row exactly when the position covers the sale.
    sell_count :
        count_where (sellable h.id user tx.quantity) hs
        ≡ (if le tx.quantity h.quantity then 1 else 0)
    sell_count = rw (← sellable_row) (
        count_row (held_by user stock.id) (sellable h.id user tx.quantity) hs h
          (λ y e. ground arith) valid.keys found)

    -- A sale of a positive quantity at a positive price from an existing position goes through
    -- exactly when the quantity is at most the quantity held: the margin of 1e-9 in the first test
    -- admits nothing more, since the guarded UPDATE has none.
    pub sell_decision :
        IsOrder f
        → IsGrowing f
        → le tx.quantity zero ≡ false
        → le tx.price zero ≡ false
        → is_ok (sell_shares user stock tx hs) ≡ le tx.quantity h.quantity
    unfolding sell_shares
    sell_decision order grows q p = ground (
      arith,
      found,
      sell_count,
      not_le_of_slack order grows h.quantity tx.quantity 1 9 (omega arith),
    )

    sold_row : Holding N → Bool
    sold_row g = g.id == h.id && owner_eq g.user_id (some user)

    Touches-sold : Touches user (sellable h.id user tx.quantity) hs
    Touches-sold = Touches-owned user (sellable h.id user tx.quantity) hs (λ y e. ground arith)

    abbrev remaining : List (Holding N)
    remaining = update_where (sellable h.id user tx.quantity) (take_shares tx.quantity) hs

    remaining-IsValid : IsValid remaining
    remaining-IsValid =
        update-IsValid (sellable h.id user tx.quantity) (take_shares tx.quantity) hs
          (λ g. (refl, refl, refl)) valid

    remaining-others : others user remaining ≡ others user hs
    remaining-others =
        others-update user (sellable h.id user tx.quantity) (take_shares tx.quantity) hs
          (λ g. (refl, refl, refl)) Touches-sold

    remaining_row :
        le tx.quantity h.quantity ≡ true
        → find (held_by user stock.id) remaining ≡ some (take_shares tx.quantity h)
    remaining_row e = ground (
      arith,
      sellable_row,
      find-update (held_by user stock.id) (sellable h.id user tx.quantity) (take_shares tx.quantity)
          hs h (λ g. refl) found,
    )

    emptied : List (Holding N)
    emptied = delete_where (λ g. g.id == h.id && owner_eq g.user_id (some user)) remaining

    emptied-others : others user emptied ≡ others user hs
    unfolding emptied
    emptied-others =
        others-delete user (λ g. g.id == h.id && owner_eq g.user_id (some user)) remaining
          (Touches-owned user (λ g. g.id == h.id && owner_eq g.user_id (some user)) remaining
            (λ y e. ground arith))
        ∙ remaining-others

    emptied_row : le tx.quantity h.quantity ≡ true → find (held_by user stock.id) emptied ≡ none
    unfolding emptied
    emptied_row e =
        find-delete user stock.id (λ g. g.id == h.id && owner_eq g.user_id (some user)) remaining
          (take_shares tx.quantity h) (remaining_row e) (ground (arith, owned))
          remaining-IsValid.positions

    -- What a sale leaves of the position.
    abbrev pub left_over : Option (Holding N)
    left_over =
        if le (h.quantity - tx.quantity) (decimal 1 4)
        then none
        else some (take_shares tx.quantity h)

    -- A sale that goes through takes its quantity off the position, or removes the position if
    -- at most 0.0001 is left; it reports the profit over the average price before the sale, less
    -- the fee; and the rows of the other users stay as they were.
    pub sell_position :
        Returns
          (λ (profit, hs').
            (find (held_by user stock.id) hs' ≡ left_over)
            × (profit ≡ round 2 ((tx.price - h.avg_purchase_price) * tx.quantity - tx.fee))
            × (others user hs' ≡ others user hs))
          (sell_shares user stock tx hs)
    unfolding sell_shares emptied
    sell_position =
        ground
          (arith, found, sell_count, remaining_row, emptied_row, remaining-others, emptied-others)

    pub sell-Keeps : Returns (λ (profit, hs'). Keeps user hs hs') (sell_shares user stock tx hs)
    unfolding sell_shares emptied
    sell-Keeps =
        let kept : Keeps user hs remaining = (remaining-IsValid, remaining-others) in
        let gone : Keeps user hs emptied = (
          delete-IsValid (λ g. g.id == h.id && owner_eq g.user_id (some user)) remaining
              remaining-IsValid,
          emptied-others,
        ) in
        rw found (search (Returns-if, kept, gone, tt) depth 8)

    pub buy-Keeps : (date : ℕ) → Returns (Keeps user hs) (buy_shares user stock tx date hs)
    unfolding buy_shares
    buy-Keeps date = rw found (search (Returns-if, Returns-bind, tt, merged) depth 8)
      where
        merged :
            (quantity average : N)
            → Keeps user hs
                (update_where (λ g. g.id == h.id) (add_lot quantity average tx.notes) hs)
        merged quantity average = (
          update-IsValid (λ g. g.id == h.id) (add_lot quantity average tx.notes) hs
              (λ g. (refl, refl, refl)) valid,
          others-update user (λ g. g.id == h.id) (add_lot quantity average tx.notes) hs
              (λ g. (refl, refl, refl)) (Touches-row user stock.id hs h valid.keys found),
        )

    -- A purchase into a position that exists goes through exactly when the quantity and the price
    -- are positive and the new total is not 0.0; it sets the total and the average price weighted
    -- by the quantities, each rounded to four decimals, and leaves every other user's rows.
    buy_position :
        (date : ℕ)
        → le tx.quantity zero ≡ false
        → le tx.price zero ≡ false
        → f.eq (h.quantity + tx.quantity) zero ≡ false
        → (hs' : List (Holding N)) × (buy_shares user stock tx date hs ≡ ok hs')
          × (find (held_by user stock.id) hs'
              ≡ some (
                  add_lot
                    (round 4 (h.quantity + tx.quantity))
                    (round 4 (
                      (h.quantity * h.avg_purchase_price + tx.quantity * tx.price)
                      / (h.quantity + tx.quantity)))
                    tx.notes
                    h))
          × (others user hs' ≡ others user hs)
    unfolding buy_shares
    buy_position date q p e =
        let lot =
          add_lot (round 4 (h.quantity + tx.quantity))
            (round 4 (
              (h.quantity * h.avg_purchase_price + tx.quantity * tx.price)
              / (h.quantity + tx.quantity)))
            tx.notes in
        (
          update_where (λ g. g.id == h.id) lot hs,
          ground (arith, found),
          ground (
            arith,
            find-update (held_by user stock.id) (λ g. g.id == h.id) lot hs h (λ g. refl) found,
          ),
          others-update user (λ g. g.id == h.id) lot hs (λ g. (refl, refl, refl))
              (Touches-row user stock.id hs h valid.keys found),
        )
