-- ===== src/Settings/Requests.antt =====
-- The requests about settings: the row of a user, read or created, with the answers. Other sessions
-- may commit new rows meanwhile; what they change in a user's row while a request of that user holds
-- it is not modelled.
use stock_monitor.Base.{
  ℕ, Bool, Option, none, some, List, [], ◌∷◌, ◌++◌, map, ltb, ◌==◌, if◌then◌else◌, find, length,
}
use stock_monitor.Base.Int.{ℤ, pos}
use stock_monitor.Base.Text.{Text, codes, is_empty, strip}
use stock_monitor.Float.{Float, decimal}
use stock_monitor.Http.{Reply, ok, fail}
use stock_monitor.Table.{insert, next_id, update_where}
use stock_monitor.Portfolio.{CurrentUser}
use stock_monitor.Settings.{
  UserSettings, UserSettingsUpdate, words_of, mask_gemini_key, is_valid_api_key, Source, normalized,
  is_blank, apply, is_settings_of, settings_id, effective_gemini,
}

-- The answer of the two requests; `total_budget` repeats `budget`.
pub record View (N : Type 0) : Type 0 where
  pub id : ℕ
  pub strategy : Option Text
  pub markets : List Text
  pub budget : Option N
  pub report_freq : Option ℤ
  pub report_times : List Text

pub record GeminiStatus : Type 0 where
  pub gemini : Bool
  pub source : Source
  pub masked : Option Text

abbrev pub view_of : {N : Type 0} → List Text → List Text → UserSettings N → View N
view_of markets times s = record {
  id = s.id;
  strategy = s.strategy;
  markets = words_of s.markets markets;
  budget = s.total_budget;
  report_freq = s.advice_frequency;
  report_times = words_of s.advice_times times;
}

-- What other sessions commit: before the second read, under the lock, and before the commit of a
-- new row.
pub record Arrivals (N : Type 0) : Type 0 where
  pub before : List (UserSettings N)
  pub during : List (UserSettings N)

-- What the GET shows for an empty column.
abbrev pub all_markets : List Text
all_markets = codes "IT" ∷ codes "US" ∷ codes "EU" ∷ []

abbrev pub two_times : List Text
two_times = codes "09:00" ∷ codes "18:00" ∷ []

module _ {N : Type 0} ⦃f : Float N⦄ where
  abbrev pub default_settings : ℕ → List (UserSettings N) → UserSettings N
  default_settings user rows = record {
    id = next_id (map settings_id rows);
    user_id = some user;
    strategy = some (codes "mixed");
    markets = some (codes "IT,US,EU");
    advice_times = some (codes "09:00,18:00");
    advice_frequency = some (pos 2);
    total_budget = some (decimal 10_000 0);
    gemini_api_key_encrypted = none;
  }

  -- The INSERT: a row of the user that was committed meanwhile violates the constraint, and is read.
  unfoldable pub create_settings :
      ℕ → List (UserSettings N) → List (UserSettings N) → UserSettings N × List (UserSettings N)
  create_settings user during rows = elim (find (is_settings_of user) (rows ++ during)) [
    | some s ↦ (s, rows ++ during)
    | none ↦ let s = default_settings user (rows ++ during) in (s, insert s (rows ++ during))
  ]

  -- `_get_or_create_user_settings`
  unfoldable pub get_or_create_user_settings :
      ℕ → Arrivals N → List (UserSettings N) → UserSettings N × List (UserSettings N)
  get_or_create_user_settings user arrivals rows = elim (find (is_settings_of user) rows) [
    | some s ↦ (s, rows)
    | none ↦ elim (find (is_settings_of user) (rows ++ arrivals.before)) [
      | some s ↦ (s, rows ++ arrivals.before)
      | none ↦ create_settings user arrivals.during (rows ++ arrivals.before)
    ]
  ]

  -- The answer of the GET: the settings, and what it tells of the key of Gemini.
  unfoldable pub get_settings :
      CurrentUser
      → (Text → Option Text)
      → Option Text
      → Arrivals N
      → List (UserSettings N)
      → (View N × GeminiStatus) × List (UserSettings N)
  get_settings user decrypt env_key arrivals rows =
      let (s, left) = get_or_create_user_settings user.id arrivals rows in
      let (key, source) = effective_gemini decrypt env_key s in
      (
        (
          view_of all_markets two_times s,
          record { gemini = is_valid_api_key key; source = source; masked = mask_gemini_key key },
        ),
        left,
      )

  unfoldable pub update_settings :
      CurrentUser
      → UserSettingsUpdate N
      → Arrivals N
      → List (UserSettings N)
      → Reply (View N) × List (UserSettings N)
  update_settings user update_data arrivals rows =
      let n = normalized update_data in
      if is_blank n
      then (fail 400, rows)
      else let (s, left) = get_or_create_user_settings user.id arrivals rows in
        (ok (view_of [] [] (apply n s)), update_where (λ t. t.id == s.id) (apply n) left)

  -- `save_gemini_key`: the answer is the masked key.
  unfoldable pub save_gemini_key :
      CurrentUser
      → Text
      → (Text → Text)
      → Arrivals N
      → List (UserSettings N)
      → Reply (Option Text) × List (UserSettings N)
  unfolding mask_gemini_key strip
  save_gemini_key user key encrypt arrivals rows =
      let raw = strip key in
      if is_empty raw
      then (fail 400, rows)
      else if ltb 500 (length raw)
      then (fail 400, rows)
      else let (s, left) = get_or_create_user_settings user.id arrivals rows in
        (
          ok (mask_gemini_key (some raw)),
          update_where (λ t. t.id == s.id)
              (λ t. record t { gemini_api_key_encrypted = some (encrypt raw) }) left,
        )
