-- ===== src/Portfolio/Stocks.antt =====
-- `_ensure_stocks` of backend/routers/portfolio.py. Another session may insert one of the same
-- tickers between the SELECT and the flush: the environment gives, for each flush that fails with
-- an IntegrityError, the rows that the other session had committed.
pub mod Laws
use stock_monitor.Base.{
  ℕ, Bool, ◌&&◌, Option, none, some, List, [], ◌∷◌, ◌++◌, map, true, if◌then◌else◌, find, any,
}
use stock_monitor.Base.Text.{Text, text_eq, or_else}
use stock_monitor.Http.{Reply, ok, fail}
use stock_monitor.Table.{insert, next_id}
use stock_monitor.Portfolio.{Stock}

pub record Spec : Type 0 where
  pub ticker : Text
  pub name : Text
  pub market : Text
  pub currency : Text

-- `Stock.ticker == ticker`
abbrev pub has_ticker : Text → Stock → Bool
has_ticker t s = text_eq s.ticker t

abbrev pub find_stock : Text → List Stock → Option Stock
find_stock t = find (has_ticker t)

abbrev pub new_stock : List Stock → Spec → Stock
new_stock stocks spec = record {
  id = next_id (map (λ (s : Stock). s.id) stocks);
  ticker = spec.ticker;
  name = or_else spec.name spec.ticker;
  market = spec.market;
  currency = spec.currency;
  is_active = true;
}

-- `_add_missing`: a pending row for each ticker that the fetched mapping lacks. The tickers of the
-- specs are distinct, since they are the keys of a dict.
unfoldable pub add_missing : List Spec → List Stock → List Stock
add_missing [] stocks = stocks
add_missing (spec ∷ specs) stocks = add_missing specs (elim (find_stock spec.ticker stocks) [
  | some s ↦ stocks
  | none ↦ insert (new_stock stocks spec) stocks
])

abbrev pub Races : Type 0
Races = List (List Stock)

abbrev pub all_present : List Spec → List Stock → Bool
all_present [] stocks = true
all_present (spec ∷ specs) stocks = any (has_ticker spec.ticker) stocks && all_present specs stocks

-- Behind the rollback: the second flush is not guarded, and its IntegrityError becomes a 500.
unfoldable pub ensure_again : List Spec → Races → List Stock → Reply (List Stock)
unfolding add_missing
ensure_again specs [] stocks = ok (add_missing specs stocks)
ensure_again specs (others ∷ races) stocks =
    if all_present specs stocks then ok stocks else fail 500

unfoldable pub ensure_stocks : List Spec → Races → List Stock → Reply (List Stock)
unfolding ensure_again
ensure_stocks specs [] stocks = ok (add_missing specs stocks)
ensure_stocks specs (others ∷ races) stocks =
    if all_present specs stocks then ok stocks else ensure_again specs races (stocks ++ others)
