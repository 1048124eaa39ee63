-- ===== src/Portfolio/Import/Tests.antt =====
-- Runs of an import, and the theorem at a concrete file.
use stock_monitor.Base.{ℕ, ◌+◌, ◌-◌, ◌*◌, ◌≡◌, refl, true, Option, none, some, List, [], ◌∷◌, map}
use stock_monitor.Base.Text.{Text, codes, text_eq, strip, upper, ends_with}
use stock_monitor.Base.Int.{ℤ}
use stock_monitor.Http.{ok}
use stock_monitor.Float.Fixed.{fixed}
use stock_monitor.Market.{detect_suffix}
use stock_monitor.Portfolio.{Holding, Outcome, committed}
use stock_monitor.Portfolio.Stocks.{ensure_stocks}
use stock_monitor.Portfolio.Import.{Cell, parse_rows}
use stock_monitor.Portfolio.Import.Write.{Outside, errors_of, import_holdings}
use stock_monitor.Portfolio.Import.Effect.{Imported, import_effect}
use stock_monitor.Portfolio.Samples.{units, holdings-IsValid, db, alice}

-- A stand-in for `float`: whole numbers without a sign.
abbrev digits : ℕ → Text → Option ℕ
digits n [] = some n
digits n (c ∷ cs) = digits (10 * n + (c - 48)) cs

abbrev parse_float : Text → Option ℤ
parse_float s = elim (digits 0 s) [ none ↦ none | some n ↦ some (units n) ]

abbrev parse_date : Text → Text → Option ℕ
parse_date s fmt = none

abbrev line : Text → Text → Text → List Cell
line ticker quantity price =
    (codes " Ticker", ticker) ∷ (codes "Qty", quantity) ∷ (codes "Prezzo", price) ∷ []

abbrev file : List (List Cell)
file =
    line (codes "enel.mi") (codes "3") (codes "7")
    ∷ line (codes "") (codes "3") (codes "7")
    ∷ line (codes "ENI.MI") (codes "4") (codes "14")
    ∷ line (codes "ENI.MI") (codes "0") (codes "14")
    ∷ line (codes "ENEL.MI ") (codes "5") (codes "6")
    ∷ []

abbrev env : Outside
env = record { today = 20_000; races = []; commit = committed }

abbrev value_of : Holding ℤ → Option ℕ × ℤ × ℤ
value_of h = (h.user_id, h.quantity, h.avg_purchase_price)

-- The last line for a ticker counts; the line without a quantity is an error.
import_answers :
    (import_holdings parse_float parse_date alice file true env db).0
    ≡ ok (record { imported = 1; updated = 2; errors = 1 })
unfolding import_holdings text_eq strip upper ends_with detect_suffix ensure_stocks
import_answers = refl

import_writes :
    map value_of (import_holdings parse_float parse_date alice file true env db).1.holdings
    ≡ (some 7, units 5, units 6) ∷ (some 8, units 10, units 5) ∷ (some 7, units 4, units 14) ∷ []
unfolding import_holdings text_eq strip upper ends_with detect_suffix ensure_stocks
import_writes = refl

import_effect_example :
    let (ps, n) = parse_rows parse_float parse_date file in
    Outcome
      (Imported alice.id ps (errors_of true ps n) db)
      db
      (import_holdings parse_float parse_date alice file true env db)
import_effect_example = import_effect parse_float parse_date alice file true env db holdings-IsValid
