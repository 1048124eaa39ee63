-- ===== src/Portfolio/Samples.antt =====
-- A small portfolio of two users, at which the theorems on the portfolio are applied.
use stock_monitor.Base.{ℕ, true, false, some, none, List, [], ◌∷◌, arith, ◌*◌}
use stock_monitor.Base.Text.{codes}
use stock_monitor.Base.Int.{ℤ, pos}
use stock_monitor.Portfolio.{Stock, Holding, dividend, Transaction, Db, CurrentUser}
use stock_monitor.Portfolio.Positions.Lookup.{IsValid}

-- n whole units.
abbrev pub units : ℕ → ℤ
units n = pos (n * 1_000_000)

abbrev pub enel : Stock
enel = record {
  id = 1;
  ticker = codes "ENEL.MI";
  name = codes "Enel";
  market = codes "IT";
  currency = codes "EUR";
  is_active = true;
}

abbrev pub lot : Holding ℤ
lot = record {
  id = 1;
  user_id = some 7;
  stock_id = 1;
  quantity = units 10;
  avg_purchase_price = units 5;
  purchase_date = none;
  notes = none;
}

abbrev pub other_lot : Holding ℤ
other_lot = record lot { id = 2; user_id = some 8 }

abbrev pub holdings : List (Holding ℤ)
holdings = lot ∷ other_lot ∷ []

pub holdings-IsValid : IsValid holdings
holdings-IsValid = record { keys = ground arith; positions = ground arith }

abbrev pub coupon : Transaction ℤ
coupon = record {
  id = 1;
  user_id = some 7;
  stock_id = 1;
  type = dividend;
  quantity = units 0;
  price = units 3;
  fee = units 0;
  realized_pnl = some (units 3);
  currency = codes "EUR";
  transaction_date = 86400;
  notes = [];
}

abbrev pub db : Db ℤ
db = record { stocks = enel ∷ []; holdings = holdings; transactions = coupon ∷ []; targets = [] }

abbrev pub alice : CurrentUser
alice = record { id = 7; is_admin = false }

abbrev pub bob : CurrentUser
bob = record { id = 8; is_admin = false }
