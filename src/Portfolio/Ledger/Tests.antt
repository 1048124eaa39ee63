-- ===== src/Portfolio/Ledger/Tests.antt =====
-- Runs of the ledger's handlers, and the theorems at concrete inputs.
use stock_monitor.Base.{◌≡◌, refl, true, none, List, [], ◌∷◌, arith, find}
use stock_monitor.Base.Text.{codes, text_eq, strip, upper}
use stock_monitor.Base.Int.{ℤ}
use stock_monitor.Float.Fixed.{fixed, fixed-IsOrder, fixed-IsGrowing}
use stock_monitor.Http.{is_ok, Returns}
use stock_monitor.Portfolio.{Stock, committed}
use stock_monitor.Portfolio.Positions.{held_by, others}
use stock_monitor.Portfolio.Stocks.{Spec, ensure_stocks}
use stock_monitor.Portfolio.Stocks.Laws.{Complete, ensure_stocks-Complete}
use stock_monitor.Portfolio.Ledger.{TransactionCreate, Outside, sell_shares, create_transaction}
use stock_monitor.Portfolio.Ledger.Removal.{delete_transaction}
use stock_monitor.Portfolio.Ledger.Trades.{sell_decision, left_over, sell_position}
use stock_monitor.Portfolio.Ledger.Handler.{Recorded, create_transaction_effect}
use stock_monitor.Portfolio.Ledger.Recompute.{
  Removed, delete_transaction_effect, delete_transaction_drops_position,
}
use stock_monitor.Portfolio.Samples.{
  units, enel, lot, other_lot, holdings, holdings-IsValid, coupon, db, alice,
}

abbrev outside : Outside
outside = record {
  now = 172800;
  today = 2;
  info = record { name = []; market = []; currency = [] };
  races = [];
  commit = committed;
}

abbrev sale : TransactionCreate ℤ
sale = record {
  ticker = codes " enel.mi";
  type = codes "sell";
  quantity = units 4;
  price = units 6;
  fee = units 1;
  transaction_date = none;
  notes = none;
}

sale_runs :
    (create_transaction alice sale outside db).1.holdings
    ≡ record lot { quantity = units 6 } ∷ other_lot ∷ []
unfolding create_transaction text_eq strip upper
sale_runs = refl

sell_decision_example : is_ok (sell_shares 7 enel sale holdings) ≡ true
sell_decision_example =
    sell_decision 7 enel sale holdings lot holdings-IsValid refl fixed-IsOrder fixed-IsGrowing refl
      refl

sell_position_example :
    Returns
      (λ (profit, hs').
        (find (held_by 7 1) hs' ≡ left_over 7 enel sale holdings lot holdings-IsValid refl)
        × (profit ≡ units 3)
        × (others 7 hs' ≡ other_lot ∷ []))
      (sell_shares 7 enel sale holdings)
sell_position_example = sell_position 7 enel sale holdings lot holdings-IsValid refl

create_transaction_effect_example : Recorded alice db (create_transaction alice sale outside db)
create_transaction_effect_example = create_transaction_effect alice sale outside db holdings-IsValid

delete_transaction_effect_example : Removed alice coupon db (delete_transaction alice 1 outside db)
delete_transaction_effect_example =
    delete_transaction_effect alice 1 outside db coupon holdings-IsValid refl

delete_transaction_drops_position_example :
    find (held_by 7 1) (delete_transaction alice 1 outside db).1.holdings ≡ none
delete_transaction_drops_position_example =
    delete_transaction_drops_position alice 1 outside db coupon refl refl refl holdings-IsValid refl
      refl

abbrev eni : Stock
eni = record enel { id = 2; ticker = codes "ENI.MI" }

abbrev spec : List Spec
spec = record { ticker = codes "ENI.MI"; name = []; market = []; currency = [] } ∷ []

-- A request for a ticker that another session has just inserted: the first flush fails.
ensure_stocks-Complete_example :
    Returns (Complete spec (enel ∷ eni ∷ [])) (ensure_stocks spec ((eni ∷ []) ∷ []) (enel ∷ []))
unfolding text_eq
ensure_stocks-Complete_example =
    ensure_stocks-Complete spec ((eni ∷ []) ∷ []) (enel ∷ []) (ground arith)
