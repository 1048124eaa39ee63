-- ===== src/Alerting/Tests.antt =====
-- Runs of the alerts, and the theorems at concrete inputs.
use mathlib.Core.Path.{subst}
use stock_monitor.Base.{
  ℕ, ◌≡◌, refl, true, false, Option, none, some, List, [], ◌∷◌, All, length, any,
}
use stock_monitor.Base.Text.{Text, codes, text_eq}
use stock_monitor.Base.Int.{ℤ}
use stock_monitor.Float.Fixed.{fixed, fixed-IsOrder, fixed-IsMonotone, fixed-IsOpposed}
use stock_monitor.Auth.{User}
use stock_monitor.Portfolio.Samples.{units, enel, lot}
use stock_monitor.Alerting.{
  AlertRule, WatchlistItem, Watched, Times, Entry, holding_key, key_eq, set_time,
  resolve_admin_user_id,
}
use stock_monitor.Alerting.Run.{tickers, stocks_of, valid_keys, run_user, check_alerts}
use stock_monitor.Alerting.Throttle.{Turn, Stays, IsSpaced, sent_at, alerts_apart}
use stock_monitor.Alerting.Genuine.{IsGenuine}
use stock_monitor.Alerting.Sent.{alerts-IsGenuine}

abbrev root : User
root = record {
  id = 7;
  username = codes "root";
  hashed_password = codes "x";
  is_admin = true;
  is_active = true;
  last_login = none;
  failed_attempts = some 0;
  locked_until = none;
}

abbrev rise : AlertRule ℤ
rise = record {
  id = 1;
  user_id = some 7;
  stock_id = 1;
  threshold_percent = some (units 3);
  direction = some (codes "UP");
  is_active = true;
}

abbrev item : WatchlistItem ℤ
item = record {
  id = 1;
  user_id = some 7;
  stock_id = 1;
  notes = none;
  alert_above = some (units 6);
  alert_below = none;
}

abbrev watched : Watched ℤ
watched = record {
  users = root ∷ [];
  stocks = enel ∷ [];
  rules = rise ∷ [];
  items = item ∷ [];
  holdings = lot ∷ [];
  prices = [];
}

abbrev live : List Text → Text → Option (Entry ℤ)
live asked ticker =
    some (record { close = some (units 6); change_percent = some (units 4); stale = false })

abbrev run_at : ℕ → Turn ℤ
run_at now = record {
  is_open = true;
  admin_name = codes "root";
  fetch = live;
  now = now;
  db = watched;
}

abbrev never : Times
never k = none

abbrev runs : List (Turn ℤ)
runs = run_at 100_000 ∷ run_at 101_000 ∷ run_at 120_000 ∷ []

-- The second run comes too early for the position, the third does not.
runs_sent : sent_at (holding_key 1) runs never ≡ 100_000 ∷ 120_000 ∷ []
unfolding sent_at check_alerts set_time text_eq
runs_sent = refl

run-Stays : (now : ℕ) → Stays (holding_key 1) (run_at now)
unfolding valid_keys resolve_admin_user_id text_eq
run-Stays now user h =
    let e : 7 ≡ user = cc in
    subst (λ u. any (key_eq (holding_key 1)) (valid_keys u watched) ≡ true) e refl

alerts_apart_example : IsSpaced (holding_key 1) none (sent_at (holding_key 1) runs never)
alerts_apart_example =
    alerts_apart (holding_key 1) runs never
      (run-Stays 100_000, (run-Stays 101_000, (run-Stays 120_000, tt)))

-- A rule, an item and a position: three messages.
three_sent : length (run_user live 7 100_000 watched never).1 ≡ 3
unfolding run_user set_time text_eq
three_sent = refl

alerts-IsGenuine_example :
    All
      (λ (k, a). IsGenuine [] (stocks_of 7 watched) (live (tickers (stocks_of 7 watched))) a)
      (run_user live 7 100_000 watched never).1
alerts-IsGenuine_example =
    alerts-IsGenuine fixed-IsOrder fixed-IsMonotone fixed-IsOpposed live 7 100_000 watched never
      (refl, tt)
