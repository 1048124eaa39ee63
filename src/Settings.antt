-- ===== src/Settings.antt =====
-- backend/routers/settings.py and backend/models/settings.py: the settings of a user, one row each,
-- read, created and updated. Fernet is a parameter, `decrypt`, which gives nothing for a text that it
-- cannot read; `env_key` is the key of the environment. The alert rules are in Alerts.
pub mod Requests
pub mod Columns
pub mod Saved
pub mod Alerts
pub mod Rules
mod Tests
use stock_monitor.Base.{
  ℕ, suc, ◌-◌, Bool, true, false, not, ◌&&◌, ◌||◌, Option, none, some, List, [], ◌∷◌, ◌++◌, map,
  ltb, leb, ◌==◌, if◌then◌else◌, find, any, length, drop,
}
use stock_monitor.Base.Int.{ℤ, pos}
use stock_monitor.Base.Text.{
  Text, codes, is_empty, strip, lower, starts_with, ends_with, split, join,
}
use stock_monitor.Float.{Float, decimal}
use stock_monitor.Http.{Reply, ok, fail, ◌>>=◌}
use stock_monitor.Table.{insert, next_id, update_where}
use stock_monitor.Portfolio.{CurrentUser, owner_eq}
use stock_monitor.Watchlist.{or_old}

pub record UserSettings (N : Type 0) : Type 0 where
  pub id : ℕ
  pub user_id : Option ℕ
  pub strategy : Option Text
  pub markets : Option Text
  pub advice_times : Option Text
  pub advice_frequency : Option ℤ
  pub total_budget : Option N
  pub gemini_api_key_encrypted : Option Text

-- `Union[str, List[str]]`
pub data Words : Type 0 where
  line : Text → Words
  listed : List Text → Words

pub record UserSettingsUpdate (N : Type 0) : Type 0 where
  pub strategy : Option Text
  pub markets : Option Words
  pub total_budget : Option N
  pub budget : Option N
  pub advice_frequency : Option ℤ
  pub report_freq : Option ℤ
  pub advice_times : Option Words
  pub report_times : Option Words

-- The dict that `normalized` returns: a key that it lacks is `none`.
pub record Normalized (N : Type 0) : Type 0 where
  pub strategy : Option Text
  pub markets : Option Text
  pub total_budget : Option N
  pub advice_frequency : Option ℤ
  pub advice_times : Option Text

-- `",".join(x) if isinstance(x, list) else x`
abbrev pub text_of_words : Words → Text
text_of_words (line t) = t
text_of_words (listed ws) = join (codes ",") ws

abbrev pub joined : Option Words → Option Text
joined none = none
joined (some w) = some (text_of_words w)

abbrev pub is_none : {A : Type 0} → Option A → Bool
is_none none = true
is_none (some a) = false

-- The column as text: NULL is empty.
abbrev pub column : Option Text → Text
column none = []
column (some t) = t

-- `column.split(",") if column else default`
abbrev pub words_of : Option Text → List Text → List Text
words_of c default = if is_empty (column c) then default else split b',' (column c)

-- `mask_gemini_key`, with its bullets written as asterisks.
unfoldable pub mask_gemini_key : Option Text → Option Text
unfolding strip
mask_gemini_key none = none
mask_gemini_key (some plain) =
    let s = strip plain in
    if is_empty s
    then none
    else some (codes "****" ++ (if leb 4 (length s) then drop (length s - 4) s else codes "****"))

-- `part in text`
unfoldable pub is_part : Text → Text → Bool
unfolding starts_with
is_part part [] = is_empty part
is_part part (c ∷ cs) = starts_with part (c ∷ cs) || is_part part cs

unfoldable pub is_valid_api_key : Option Text → Bool
unfolding strip lower starts_with ends_with is_part
is_valid_api_key none = false
is_valid_api_key (some val) =
    let v = lower (strip val) in
    not (is_empty val)
    && not (
        is_empty v
        || (starts_with (codes "your_") v
            || (is_part (codes "placeholder") v
                || (ends_with (codes "_here") v
                    || (is_part (codes "token_here") v || is_part (codes "key_here") v)))))

pub data Source : Type 0 where
  from_db from_env from_none : Source

module _ {N : Type 0} where
  abbrev pub normalized : UserSettingsUpdate N → Normalized N
  normalized u = record {
    strategy = u.strategy;
    markets = joined u.markets;
    total_budget = or_old u.total_budget u.budget;
    advice_frequency = or_old u.advice_frequency u.report_freq;
    advice_times = joined (or_old u.advice_times u.report_times);
  }

  abbrev pub is_blank : Normalized N → Bool
  is_blank n =
      (is_none n.strategy && is_none n.markets)
      && (is_none n.total_budget && (is_none n.advice_frequency && is_none n.advice_times))

  -- `setattr` for each key of the dict.
  abbrev pub apply : Normalized N → UserSettings N → UserSettings N
  apply n s = record s {
    strategy = or_old n.strategy s.strategy;
    markets = or_old n.markets s.markets;
    total_budget = or_old n.total_budget s.total_budget;
    advice_frequency = or_old n.advice_frequency s.advice_frequency;
    advice_times = or_old n.advice_times s.advice_times;
  }

  -- `UserSettings.user_id == user_id`
  abbrev pub is_settings_of : ℕ → UserSettings N → Bool
  is_settings_of user s = owner_eq s.user_id (some user)

  abbrev pub settings_id : UserSettings N → ℕ
  settings_id s = s.id

  -- `_effective_gemini_for_settings`
  unfoldable pub effective_gemini :
      (Text → Option Text) → Option Text → UserSettings N → Option Text × Source
  unfolding strip
  effective_gemini decrypt env_key s =
      let enc = column s.gemini_api_key_encrypted in
      let plain = if is_empty enc then [] else strip (column (decrypt enc)) in
      let env = strip (column env_key) in
      if not (is_empty plain)
      then (some plain, from_db)
      else if not (is_empty env)
      then (some env, from_env)
      else (none, from_none)
