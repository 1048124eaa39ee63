-- ===== src/Settings/Tests.antt =====
-- Requests about settings and rules, and the theorems at concrete ones.
use stock_monitor.Base.{ℕ, ◌≡◌, refl, true, false, Option, none, some, List, [], ◌∷◌, All, map}
use stock_monitor.Base.Int.{ℤ}
use stock_monitor.Base.Text.{Text, codes, text_eq, upper, strip, ends_with, split, join}
use stock_monitor.Float.Fixed.{fixed, fixed-IsMonotone, fixed-IsTotal}
use stock_monitor.Http.{ok, fail}
use stock_monitor.Market.{Info, detect_suffix, detect_market_currency}
use stock_monitor.Portfolio.{CurrentUser}
use stock_monitor.Portfolio.Samples.{units, enel}
use stock_monitor.Alerting.{AlertRule}
use stock_monitor.Table.{insert}
use stock_monitor.Watchlist.{or_old}
use stock_monitor.Settings.{
  UserSettings, UserSettingsUpdate, listed, mask_gemini_key, is_valid_api_key,
}
use stock_monitor.Settings.Requests.{
  Arrivals, default_settings, create_settings, get_or_create_user_settings, get_settings,
  update_settings,
}
use stock_monitor.Settings.Saved.{settings_roundtrip}
use stock_monitor.Settings.Alerts.{
  AlertRuleCreate, RuleDb, rule_stock, checked, rule_stock_id, add_rule, create_alert, delete_alert,
}
use stock_monitor.Settings.Rules.{
  RuleRequest, create, delete, serve_all, IsReady, serve_all-IsReady,
}

abbrev user : CurrentUser
user = record { id = 7; is_admin = false }

abbrev alone : Arrivals ℤ
alone = record { before = []; during = [] }

abbrev blank : UserSettingsUpdate ℤ
blank = record {
  strategy = none;
  markets = none;
  total_budget = none;
  budget = none;
  advice_frequency = none;
  report_freq = none;
  advice_times = none;
  report_times = none;
}

abbrev sent : UserSettingsUpdate ℤ
sent = record blank {
  markets = some (listed (codes "IT" ∷ codes "US" ∷ []));
  report_times = some (listed (codes "08:30" ∷ []));
}

abbrev plain : Text → Option Text
plain = some

-- A key of four characters is shown whole.
masks :
    (mask_gemini_key (some (codes "AIzaSy12")) ≡ some (codes "****Sy12"))
    × (mask_gemini_key (some (codes "abcd")) ≡ some (codes "****abcd"))
    × (mask_gemini_key (some (codes "abc")) ≡ some (codes "********"))
unfolding mask_gemini_key
masks = (refl, refl, refl)

keys :
    (is_valid_api_key (some (codes "Your_Key")) ≡ false)
    × (is_valid_api_key (some (codes "PUT_KEY_HERE")) ≡ false)
    × (is_valid_api_key (some (codes "123:abc")) ≡ true)
unfolding is_valid_api_key
keys = (refl, refl, refl)

blank_fails : update_settings user blank alone [] ≡ (fail 400, [])
unfolding update_settings
blank_fails = refl

-- Saving no markets at all brings all of them back at the next GET.
abbrev no_markets : UserSettingsUpdate ℤ
no_markets = record blank { markets = some (listed []) }

all_again :
    (get_settings user plain none alone (update_settings user no_markets alone []).1).0.0.markets
    ≡ codes "IT" ∷ codes "US" ∷ codes "EU" ∷ []
unfolding get_settings update_settings get_or_create_user_settings join split create_settings
all_again = refl

-- Another user's row is added before the GET; no budget is sent, and the one of a new row stays.
abbrev between : List (UserSettings ℤ)
between = insert (default_settings 8 []) (update_settings user sent alone []).1

settings_roundtrip_example :
    let put = update_settings user sent alone [] in
    let view = (get_settings user plain none alone between).0.0 in
    (put.0 ≡ ok view)
    × (view.markets ≡ codes "IT" ∷ codes "US" ∷ [])
    × (view.report_times ≡ codes "08:30" ∷ [])
    × (view.budget ≡ or_old none (get_settings user plain none alone []).0.0.budget)
unfolding join update_settings get_or_create_user_settings create_settings
settings_roundtrip_example =
    settings_roundtrip user sent alone alone [] between plain none (codes "IT" ∷ codes "US" ∷ [])
      (codes "08:30" ∷ []) refl refl (((refl, (refl, tt)), ((refl, (refl, tt)), tt)), refl)
      (((refl, (refl, (refl, (refl, (refl, tt))))), tt), refl) refl

abbrev rule : AlertRuleCreate ℤ
rule = record {
  stock_id = none;
  ticker = some (codes " enel.mi");
  threshold_percent = none;
  threshold = some (units 4);
  direction = codes "up";
  active = none;
}

abbrev unknown : Text → Info
unknown ticker = record { name = []; market = []; currency = [] }

abbrev requests : List (RuleRequest ℤ)
requests =
    create user rule unknown []
    ∷ create user (record rule { threshold = some (units 0) }) unknown []
    ∷ create user (record rule { direction = codes "sideways" }) unknown []
    ∷ create user (record rule { stock_id = some 9 }) unknown []
    ∷ create user (record rule { ticker = some (codes "AAPL") }) unknown []
    ∷ delete (record { id = 8; is_admin = true }) 1
    ∷ []

abbrev none_yet : RuleDb ℤ
none_yet = record { stocks = enel ∷ []; rules = [] }

-- Of the requests the first and the fifth succeed; another user cannot delete the first rule.
abbrev ids : List (AlertRule ℤ) → List (ℕ × ℕ)
ids = map (λ r. (r.id, r.stock_id))

requests_run : ids (serve_all requests none_yet).rules ≡ (1, 1) ∷ (2, 2) ∷ []
unfolding serve_all create_alert delete_alert add_rule checked rule_stock_id rule_stock
    detect_market_currency detect_suffix text_eq upper strip ends_with
requests_run = refl

serve_all-IsReady_example : All IsReady (serve_all requests none_yet).rules
serve_all-IsReady_example =
    serve_all-IsReady fixed-IsTotal fixed-IsMonotone requests none_yet
      (refl, (refl, (refl, (refl, (refl, (tt, tt)))))) tt
