-- ===== src/Portfolio/Holdings/Tests.antt =====
-- Runs of the edits of positions, and the theorems at concrete inputs.
use stock_monitor.Base.{ℕ, suc, ◌≡◌, refl, none, some, List, [], ◌∷◌}
use stock_monitor.Base.Text.{codes, text_eq, strip, upper, strip_chars}
use stock_monitor.Base.Int.{ℤ, pos}
use stock_monitor.Float.Fixed.{fixed}
use stock_monitor.Http.{ok, fail}
use stock_monitor.Portfolio.{Db, Outcome, committed, conflict}
use stock_monitor.Portfolio.Holdings.{
  HoldingCreate, HoldingUpdate, HoldingBatchItem, Turn, add_holding, update_holding,
  batch_update_holdings, remove_holding,
}
use stock_monitor.Portfolio.Holdings.Attempts.{Found, Added, IsCommitted, add_holding_effect}
use stock_monitor.Portfolio.Holdings.Batch.{Batched, batch_update_effect}
use stock_monitor.Portfolio.Holdings.Rows.{
  Edited, Dropped, update_holding_effect, remove_holding_effect,
}
use stock_monitor.Portfolio.Samples.{units, lot, other_lot, holdings-IsValid, db, alice, bob}

abbrev more : HoldingCreate ℤ
more = record {
  ticker = some (codes " enel.mi");
  stock_id = none;
  quantity = units 30;
  avg_purchase_price = units 7;
  purchase_date = none;
  notes = some (codes "core");
}

-- The first COMMIT meets a conflict, the second goes through.
abbrev env : ℕ → Turn ℤ
env n = record {
  info = record { name = []; market = []; currency = [] };
  races = [];
  commit = elim n [ suc (suc (suc m)) ↦ conflict | _ ↦ committed ];
  seen = db;
}

add_holding_runs :
    (add_holding alice more 2 env db).1.holdings
    ≡ record lot {
      quantity = units 40;
      avg_purchase_price = pos 6_500_000;
      notes = some (codes "core");
    }
      ∷ other_lot
      ∷ []
unfolding add_holding text_eq strip upper strip_chars
add_holding_runs = refl

add_holding_effect_example :
    let r = add_holding alice more 2 env db in
    (m : ℕ) × (b : Db ℤ) × Found env 3 db m b × Added 7 more b r × IsCommitted (env m).commit r
add_holding_effect_example =
    add_holding_effect alice more 2 env db (λ k. holdings-IsValid) holdings-IsValid

abbrev change : HoldingUpdate ℤ
change = record {
  quantity = some (units 3);
  avg_purchase_price = none;
  purchase_date = some 5;
  notes = none;
}

update_holding_runs : update_holding alice 1 change committed db ≡ (
  ok (record lot { quantity = units 3; purchase_date = some 5 }),
  record db {
    holdings = record lot { quantity = units 3; purchase_date = some 5 } ∷ other_lot ∷ [];
  },
)
unfolding update_holding
update_holding_runs = refl

update_holding_foreign : update_holding bob 1 change committed db ≡ (fail 404, db)
unfolding update_holding
update_holding_foreign = refl

update_holding_effect_example :
    Outcome (Edited alice 1 change db) db (update_holding alice 1 change committed db)
update_holding_effect_example = update_holding_effect alice 1 change committed db holdings-IsValid

abbrev items : List (HoldingBatchItem ℤ)
items =
    record { id = 1; quantity = units 2; avg_purchase_price = units 2; notes = none }
    ∷ record { id = 2; quantity = units 9; avg_purchase_price = units 9; notes = none }
    ∷ record { id = 1; quantity = units 4; avg_purchase_price = units 2; notes = none }
    ∷ []

batch_runs : batch_update_holdings alice items committed db ≡ (
  ok 2,
  record db {
    holdings = record lot { quantity = units 4; avg_purchase_price = units 2 } ∷ other_lot ∷ [];
  },
)
unfolding batch_update_holdings
batch_runs = refl

batch_update_effect_example :
    Outcome (Batched alice items db) db (batch_update_holdings alice items committed db)
batch_update_effect_example = batch_update_effect alice items committed db holdings-IsValid

remove_holding_effect_example :
    Outcome (Dropped alice 1 db) db (remove_holding alice 1 committed db)
remove_holding_effect_example = remove_holding_effect alice 1 committed db holdings-IsValid
