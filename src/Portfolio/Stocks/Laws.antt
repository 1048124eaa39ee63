-- ===== src/Portfolio/Stocks/Laws.antt =====
-- What `_ensure_stocks` leaves in the table of stocks.
use stock_monitor.Base.{
  ◌≡◌, refl, Bool, true, false, none, some, List, [], ◌∷◌, ◌++◌, arith, All, inl, inr, Option-cases,
  if◌then◌else◌, Bool-cases, sym, any,
}
use mathlib.Core.Path.{subst}
use stock_monitor.Base.Text.{Text, text_eq, text_eq_refl}
use stock_monitor.Http.{Returns, ok}
use stock_monitor.Table.{IsUnique, insert, insert-IsUnique, find-none}
use stock_monitor.Portfolio.{Stock}
use stock_monitor.Portfolio.Stocks.{
  Spec, Races, all_present, ensure_again, has_ticker, find_stock, new_stock, add_missing,
  ensure_stocks,
}

-- UNIQUE(stocks.ticker)
abbrev pub same_ticker : Stock → Stock → Bool
same_ticker s t = text_eq s.ticker t.ticker

abbrev pub Tickers : List Stock → Type 0
Tickers = IsUnique same_ticker

add_missing-Tickers :
    (specs : List Spec) (stocks : List Stock) → Tickers stocks → Tickers (add_missing specs stocks)
unfolding add_missing
add_missing-Tickers [] stocks h = h
add_missing-Tickers (spec ∷ specs) stocks h = elim (Option-cases (find_stock spec.ticker stocks)) [
  | inl e ↦ rw e (
      add_missing-Tickers specs (insert (new_stock stocks spec) stocks) (
        insert-IsUnique same_ticker (new_stock stocks spec) stocks h
          (find-none (has_ticker spec.ticker) stocks e)))
  | inr (s, e) ↦ rw e (add_missing-Tickers specs stocks h)
]

find-insert_old :
    (t : Text) (z : Stock) (stocks : List Stock) (s : Stock)
    → find_stock t stocks ≡ some s
    → find_stock t (insert z stocks) ≡ some s
find-insert_old t z [] s h = cc
find-insert_old t z (x ∷ xs) s h = elim (Bool-cases (has_ticker t x)) [
  | inl e ↦ ground (arith, h, e)
  | inr e ↦ rw e (find-insert_old t z xs s (ground (arith, h, e)))
]

find-insert_new :
    (t : Text) (z : Stock) (stocks : List Stock)
    → find_stock t stocks ≡ none
    → has_ticker t z ≡ true
    → find_stock t (insert z stocks) ≡ some z
find-insert_new t z [] h k = rw k
find-insert_new t z (x ∷ xs) h k = elim (Bool-cases (has_ticker t x)) [
  | inl e ↦ absurd (ground (arith, h, e))
  | inr e ↦ rw e (find-insert_new t z xs (ground (arith, h, e)) k)
]

-- A stock that is found stays the one that is found.
pub add_missing_keeps :
    (specs : List Spec) (stocks : List Stock) (t : Text) (s : Stock)
    → find_stock t stocks ≡ some s
    → find_stock t (add_missing specs stocks) ≡ some s
unfolding add_missing
add_missing_keeps [] stocks t s h = h
add_missing_keeps (spec ∷ specs) stocks t s h =
    elim (Option-cases (find_stock spec.ticker stocks)) [
      | inl e ↦ rw e (
          add_missing_keeps specs (insert (new_stock stocks spec) stocks) t s
            (find-insert_old t (new_stock stocks spec) stocks s h))
      | inr (r, e) ↦ rw e (add_missing_keeps specs stocks t s h)
    ]

abbrev pub IsFound : List Stock → Spec → Type 0
IsFound stocks spec = (s : Stock) × (find_stock spec.ticker stocks ≡ some s)

module _ (spec : Spec) (specs : List Spec) (stocks : List Stock) where
  add_missing_new :
      find_stock spec.ticker stocks ≡ none
      → add_missing (spec ∷ specs) stocks
        ≡ add_missing specs (insert (new_stock stocks spec) stocks)
  unfolding add_missing
  add_missing_new e = rw e

  add_missing_old :
      (s : Stock)
      → find_stock spec.ticker stocks ≡ some s
      → add_missing (spec ∷ specs) stocks ≡ add_missing specs stocks
  unfolding add_missing
  add_missing_old s e = rw e

add_missing-IsFound :
    (specs : List Spec) (stocks : List Stock) → All (IsFound (add_missing specs stocks)) specs
add_missing-IsFound [] stocks = tt
add_missing-IsFound (spec ∷ specs) stocks = elim (Option-cases (find_stock spec.ticker stocks)) [
  | inl e ↦
      let z = new_stock stocks spec in
      subst (λ r. All (IsFound r) (spec ∷ specs)) (sym (add_missing_new spec specs stocks e))
        (
          (
            z,
            add_missing_keeps specs (insert z stocks) spec.ticker z
                (find-insert_new spec.ticker z stocks e (text_eq_refl spec.ticker)),
          ),
          add_missing-IsFound specs (insert z stocks),
        )
  | inr (r, e) ↦
      subst (λ t. All (IsFound t) (spec ∷ specs)) (sym (add_missing_old spec specs stocks r e))
        ((r, add_missing_keeps specs stocks spec.ticker r e), add_missing-IsFound specs stocks)
]

find_present :
    (t : Text) (stocks : List Stock)
    → any (has_ticker t) stocks ≡ true
    → (s : Stock) × (find_stock t stocks ≡ some s)
find_present t [] h = cc
find_present t (x ∷ xs) h = elim (Bool-cases (has_ticker t x)) [
  | inl e ↦ (x, rw e)
  | inr e ↦ let (s, k) = find_present t xs (ground (arith, h, e)) in (s, rw e k)
]

present-IsFound :
    (specs : List Spec) (stocks : List Stock)
    → all_present specs stocks ≡ true
    → All (IsFound stocks) specs
present-IsFound [] stocks h = tt
present-IsFound (spec ∷ specs) stocks h = (
  find_present spec.ticker stocks (ground (arith, h)),
  present-IsFound specs stocks (ground (arith, h)),
)

-- What is visible to the last SELECT: the rows of another session too, once a flush has failed.
abbrev pub seen : List Spec → Races → List Stock → List Stock
seen specs [] stocks = stocks
seen specs (others ∷ races) stocks = if all_present specs stocks then stocks else stocks ++ others

abbrev pub Complete : List Spec → List Stock → List Stock → Type 0
Complete specs visible result =
    Tickers result
    × All (IsFound result) specs
    × ((t : Text) (s : Stock) → find_stock t visible ≡ some s → find_stock t result ≡ some s)

add_missing-Complete :
    (specs : List Spec) (stocks : List Stock)
    → Tickers stocks
    → Complete specs stocks (add_missing specs stocks)
add_missing-Complete specs stocks h = (
  add_missing-Tickers specs stocks h,
  add_missing-IsFound specs stocks,
  add_missing_keeps specs stocks,
)

present-Complete :
    (specs : List Spec) (stocks : List Stock)
    → Tickers stocks
    → all_present specs stocks ≡ true
    → Complete specs stocks stocks
present-Complete specs stocks h e = (h, present-IsFound specs stocks e, λ t s k. k)

ensure_again-Complete :
    (specs : List Spec) (races : Races) (stocks : List Stock)
    → Tickers stocks
    → Returns (Complete specs stocks) (ensure_again specs races stocks)
unfolding ensure_again
ensure_again-Complete specs [] stocks h = add_missing-Complete specs stocks h
ensure_again-Complete specs (others ∷ races) stocks h =
    elim (Bool-cases (all_present specs stocks)) [
      | inl e ↦ rw e (present-Complete specs stocks h e)
      | inr e ↦ rw e tt
    ]

-- In the table that `_ensure_stocks` returns, no two stocks share a ticker, every requested ticker is found, and each stock that was visible, also through a
-- lost race, is still the one found for its ticker; if no ticker was repeated among the visible.
pub ensure_stocks-Complete :
    (specs : List Spec) (races : Races) (stocks : List Stock)
    → Tickers (seen specs races stocks)
    → Returns (Complete specs (seen specs races stocks)) (ensure_stocks specs races stocks)
unfolding ensure_stocks
ensure_stocks-Complete specs [] stocks h = add_missing-Complete specs stocks h
ensure_stocks-Complete specs (others ∷ races) stocks h = cases (all_present specs stocks) refl h
  where
    cases :
        (b : Bool)
        → all_present specs stocks ≡ b
        → Tickers (if b then stocks else stocks ++ others)
        → Returns
            (Complete specs (if b then stocks else stocks ++ others))
            (if b then ok stocks else ensure_again specs races (stocks ++ others))
    cases true e k = present-Complete specs stocks k e
    cases false e k = ensure_again-Complete specs races (stocks ++ others) k
