-- ===== src/Watchlist/Tests.antt =====
-- Runs of the watchlist, and the theorem at a concrete request.
use stock_monitor.Base.{ℕ, ◌≡◌, ◌⊎◌, refl, Option, none, some, [], ◌∷◌, arith, map}
use stock_monitor.Base.Text.{codes, text_eq, strip, upper}
use stock_monitor.Base.Int.{ℤ}
use stock_monitor.Portfolio.Samples.{units, enel, alice, bob}
use stock_monitor.Alerting.{WatchlistItem}
use stock_monitor.Watchlist.{WatchlistDb}
use stock_monitor.Watchlist.Laws.{IsWatchlist, Keeps}
use stock_monitor.Watchlist.Requests.{
  Request, add, remove, remove_ticker, IsOvertaken, handle, handle-Keeps,
}

abbrev mine : WatchlistItem ℤ
mine = record {
  id = 1;
  user_id = some 7;
  stock_id = 1;
  notes = none;
  alert_above = none;
  alert_below = none;
}

abbrev listed : WatchlistDb ℤ
listed = record { stocks = enel ∷ []; items = mine ∷ record mine { id = 2; user_id = some 8 } ∷ [] }

listed-IsWatchlist : IsWatchlist listed.items
listed-IsWatchlist = record { keys = ground arith; listings = ground arith }

abbrev threshold : Request ℤ
threshold =
    add
      (record {
        ticker = codes " enel.mi";
        notes = none;
        alert_above = some (units 6);
        alert_below = none;
      })
      (record { name = []; market = []; currency = [] }) [] []

abbrev alert_of : WatchlistItem ℤ → ℕ × Option ℤ
alert_of i = (i.id, i.alert_above)

threshold_runs :
    map alert_of (handle alice threshold listed).items ≡ (1, some (units 6)) ∷ (2, none) ∷ []
unfolding handle text_eq strip upper
threshold_runs = refl

-- The item of somebody else is not removed.
remove_runs : handle bob (remove 1) listed ≡ listed
unfolding handle
remove_runs = refl

remove_ticker_runs :
    map alert_of (handle bob (remove_ticker (codes "ENEL.MI")) listed).items ≡ (1, none) ∷ []
unfolding handle text_eq strip upper
remove_ticker_runs = refl

-- Two additions of the same stock by the same user that overlap leave two items.
overtaken :
    map alert_of
      (handle alice
        (add
          (record {
            ticker = codes "ENEL.MI";
            notes = none;
            alert_above = none;
            alert_below = none;
          })
          (record { name = []; market = []; currency = [] })
          []
          (mine ∷ []))
        (record { stocks = enel ∷ []; items = [] })).items
    ≡ (1, none) ∷ (2, none) ∷ []
unfolding handle text_eq strip upper
overtaken = refl

handle-Keeps_example :
    Keeps alice listed.items (handle alice threshold listed).items
    ⊎ IsOvertaken alice [] listed.items (handle alice threshold listed).items
handle-Keeps_example = handle-Keeps alice threshold listed listed-IsWatchlist
