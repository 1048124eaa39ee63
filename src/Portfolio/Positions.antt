-- ===== src/Portfolio/Positions.antt =====
-- The position of a user in a stock: the constraint UNIQUE(user_id, stock_id) of
-- backend/models/portfolio.py, and what each statement on the table of holdings does to it.
pub mod Lookup
use stock_monitor.Base.{ℕ, ◌≡◌, Bool, false, ◌&&◌, none, some, List, ◌==◌, find, filter, not}
use stock_monitor.Table.{
  IsUnique, insert, update_where, delete_where, insert-IsUnique, update-IsUnique, delete-IsUnique,
  find-none, All-map,
}
use stock_monitor.Portfolio.{Holding, owner_eq}

module _ {N : Type 0} where
  -- Both rows are the same user's position in the same stock.
  abbrev pub same_position : Holding N → Holding N → Bool
  same_position g h = owner_eq g.user_id h.user_id && g.stock_id == h.stock_id

  -- `Holding.user_id == user, Holding.stock_id == stock`
  abbrev pub held_by : ℕ → ℕ → Holding N → Bool
  held_by user stock h = owner_eq h.user_id (some user) && h.stock_id == stock

  -- No user has two positions in one stock.
  abbrev pub IsPortfolio : List (Holding N) → Type 0
  IsPortfolio = IsUnique same_position

  -- An update that does not move a row to another user or stock.
  abbrev pub KeepsKey : (Holding N → Holding N) → Type 0
  KeepsKey g = (h : Holding N) → ((g h).user_id ≡ h.user_id) × ((g h).stock_id ≡ h.stock_id)

  pub update-IsPortfolio :
      (p : Holding N → Bool) (g : Holding N → Holding N) (hs : List (Holding N))
      → KeepsKey g
      → IsPortfolio hs
      → IsPortfolio (update_where p g hs)
  update-IsPortfolio p g hs k =
      update-IsUnique same_position p g (λ x y. rw ((k x).0, (k x).1))
        (λ x y. rw ((k y).0, (k y).1)) hs

  pub delete-IsPortfolio :
      (p : Holding N → Bool) (hs : List (Holding N))
      → IsPortfolio hs
      → IsPortfolio (delete_where p hs)
  delete-IsPortfolio p hs = delete-IsUnique same_position p hs

  no_clash :
      (user stock : ℕ) (z : Holding N)
      → z.user_id ≡ some user
      → z.stock_id ≡ stock
      → (h : Holding N) → held_by user stock h ≡ false
      → same_position h z ≡ false
  no_clash user stock z eu es h e = rw (eu, es) e

  -- A new row for a position that no row holds yet.
  pub insert-IsPortfolio :
      (user stock : ℕ) (z : Holding N) (hs : List (Holding N))
      → z.user_id ≡ some user
      → z.stock_id ≡ stock
      → find (held_by user stock) hs ≡ none
      → IsPortfolio hs
      → IsPortfolio (insert z hs)
  insert-IsPortfolio user stock z hs eu es e h =
      insert-IsUnique same_position z hs h
        (All-map (no_clash user stock z eu es) hs (find-none (held_by user stock) hs e))

  -- The rows of the other users.
  abbrev pub others : ℕ → List (Holding N) → List (Holding N)
  others user = filter (λ h. not (owner_eq h.user_id (some user)))
