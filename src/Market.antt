-- ===== src/Market.antt =====
-- The market and the currency of a ticker: backend/utils/helpers.py, and `classify_new_stock` of
-- backend/services/market_data.py. Tickers are ASCII.
use stock_monitor.Base.{Bool, List, [], ◌∷◌, not, if◌then◌else◌, any}
use stock_monitor.Base.Text.{Text, codes, text_eq, is_empty, or_else, strip, upper, ends_with}

-- `EU_SUFFIXES`
abbrev pub eu_suffixes : List Text
eu_suffixes =
    codes ".DE"
    ∷ codes ".PA"
    ∷ codes ".AS"
    ∷ codes ".MC"
    ∷ codes ".LS"
    ∷ codes ".BR"
    ∷ codes ".VI"
    ∷ []

-- `t.endswith(EU_SUFFIXES)`
abbrev pub ends_with_any : List Text → Text → Bool
ends_with_any ps t = any (λ p. ends_with p t) ps

-- The part of `detect_market_currency` behind the normalisation of the ticker.
unfoldable pub detect_suffix : Text → Text × Text
detect_suffix t =
    if is_empty t
    then (codes "US", codes "USD")
    else if ends_with (codes ".MI") t
    then (codes "IT", codes "EUR")
    else if ends_with_any eu_suffixes t
    then (codes "EU", codes "EUR")
    else if ends_with (codes "=X") t
    then (codes "FX", codes "USD")
    else if ends_with (codes "=F") t
    then (codes "COMMODITY", codes "USD")
    else if ends_with (codes "-USD") t
    then (codes "CRYPTO", codes "USD")
    else if ends_with (codes "-EUR") t
    then (codes "CRYPTO", codes "EUR")
    else if ends_with (codes "-GBP") t
    then (codes "CRYPTO", codes "GBP")
    else (codes "US", codes "USD")

unfoldable pub detect_market_currency : Text → Text × Text
unfolding detect_suffix
detect_market_currency ticker = detect_suffix (upper (strip ticker))

-- The dictionary that a data source returns for a ticker; a missing or empty entry is empty.
pub record Info : Type 0 where
  pub name : Text
  pub market : Text
  pub currency : Text

-- `str(a or b).strip().upper() or c`
abbrev pub clean_or : Text → Text → Text
clean_or a c = or_else (upper (strip a)) c

unfoldable pub classify_new_stock : Text → Info → Text × Text
unfolding detect_market_currency
classify_new_stock ticker info =
    let (suffix_market, suffix_currency) = detect_market_currency ticker in
    if not (text_eq suffix_market (codes "US")) then (suffix_market, suffix_currency) else (
      clean_or (or_else info.market (codes "US")) (codes "US"),
      clean_or (or_else (or_else info.currency suffix_currency) (codes "USD")) (codes "USD"),
    )
