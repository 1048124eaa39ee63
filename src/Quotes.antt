-- ===== src/Quotes.antt =====
-- The prices of backend/services/market_data.py: what `fetch_current_price` and
-- `fetch_batch_prices` make of the answers of Yahoo, the synthetic prices that they fall back on,
-- and the two caches, for genuine and for synthetic prices. What Yahoo answers at a time, and the
-- number that md5 makes of a ticker and the date, are parameters. A request runs as one step: it
-- reads the caches at one time, and fills them at a later one.
pub mod Known
pub mod Store
pub mod Kinds
pub mod Caching
mod Tests
use stock_monitor.Base.{
  ℕ, ◌%◌, ◌+◌ as plus, ◌*◌ as times, Bool, true, false, Option, none, some, List, [], ◌∷◌, ◌++◌,
  ◌||◌, if◌then◌else◌,
}
use stock_monitor.Base.Text.{Text, codes, text_eq, is_empty, strip, upper, starts_with}
use stock_monitor.Float.{Float, ◌+◌, ◌-◌, ◌*◌, ◌/◌, decimal, round, truthy, zero}
use stock_monitor.Quotes.Known.{reference_price}

-- The dict of a price
pub record Payload (N : Type 0) : Type 0 where
  pub open_price : N
  pub high : N
  pub low : N
  pub close : N
  pub volume : ℕ
  pub previous_close : N
  pub change_abs : N
  pub change_percent : N
  pub stale : Bool

-- A day of a history; a volume that is no number has no `int`.
pub record Bar (N : Type 0) : Type 0 where
  pub open_price : N
  pub high : N
  pub low : N
  pub close : N
  pub volume : Option ℕ

-- `fast_info`: a missing attribute and None are `none`.
pub record FastInfo (N : Type 0) : Type 0 where
  pub last_price : Option N
  pub open_price : Option N
  pub day_high : Option N
  pub day_low : Option N
  pub last_volume : Option ℕ
  pub previous_close : Option N

-- The columns of a ticker in a download, less what is NaN in each; `none` is a missing column.
pub record Frame (N : Type 0) : Type 0 where
  pub closes : List N
  pub opens : Option (List N)
  pub highs : Option (List N)
  pub lows : Option (List N)
  pub volumes : Option (List ℕ)

-- What is outside at one time: Yahoo's answers for each ticker, where `none` is an exception, a
-- timeout or nothing, and the number made by md5.
pub record World (N : Type 0) : Type 0 where
  pub history : Text → Option (List (Bar N))
  pub fast_info : Text → Option (FastInfo N)
  pub frame : Text → Option (Frame N)
  pub seed : Text → ℕ

-- `word in t`
unfoldable pub contains : Text → Text → Bool
unfolding starts_with
contains word [] = is_empty word
contains word (c ∷ t) = starts_with word (c ∷ t) || contains word t

-- `iloc[-1]`
abbrev pub last_of : {A : Type 0} → List A → Option A
last_of [] = none
last_of (x ∷ []) = some x
last_of (x ∷ y ∷ xs) = last_of (y ∷ xs)

-- The last value, or the price when there is no column; an empty column raises.
abbrev pub column : {A : Type 0} → A → Option (List A) → Option A
column default none = some default
column default (some values) = last_of values

-- `int(volume or 0)`
abbrev pub or_none : Option ℕ → ℕ
or_none none = 0
or_none (some n) = n

infixl 20 ◌>>=◌
-- An exception ends the computation of a price.
abbrev pub ◌>>=◌ : {A B : Type 0} → Option A → (A → Option B) → Option B
none >>= f = none
some x >>= f = f x

module _ {N : Type 0} ⦃f : Float N⦄ where
  -- The prices, with the change from the previous close.
  abbrev pub payload : N → N → N → N → ℕ → N → Payload N
  payload open_price high low price volume prev = record {
    open_price = open_price;
    high = high;
    low = low;
    close = price;
    volume = volume;
    previous_close = prev;
    change_abs = round 3 (price - prev);
    change_percent = round 2 (if truthy prev then (price - prev) / prev * decimal 100 0 else zero);
    stale = false;
  }

  -- `_generate_fallback_price`
  unfoldable pub generate_fallback_price : (Text → ℕ) → Text → Payload N
  unfolding strip upper reference_price contains
  generate_fallback_price seed ticker =
      let t_up = upper (strip ticker) in
      let base_price = reference_price t_up in
      let variation = (decimal (seed t_up % 500) 0 - decimal 240 0) / decimal 100 0 in
      let digits = if contains (codes "EURUSD") t_up then 4 else 2 in
      let price = round digits (base_price * (decimal 1 0 + variation / decimal 100 0)) in
      let prev = round digits base_price in
      let chg_abs = round digits (price - prev) in
      record {
        open_price = round 2 (base_price * decimal 998 3);
        high = round 2 (price * decimal 1015 3);
        low = round 2 (price * decimal 985 3);
        close = price;
        volume = plus (times (seed t_up) 100 % 5000000) 100000;
        previous_close = prev;
        change_abs = chg_abs;
        change_percent = if truthy prev then round 2 (chg_abs / prev * decimal 100 0) else zero;
        stale = true;
      }

  -- `x or price`
  abbrev pub or_price : N → Option N → N
  or_price price none = price
  or_price price (some x) = if truthy x then x else price

  abbrev pub info_quote : FastInfo N → Option (Payload N)
  info_quote i = elim i.last_price [
    | none ↦ none
    | some price ↦ some (
        payload (or_price price i.open_price) (or_price price i.day_high) (or_price price i.day_low)
          price (or_none i.last_volume) (or_price price i.previous_close))
  ]

  -- The last day, with the previous close: that of the day before, or the day's opening.
  abbrev pub latest : N → Bar N → List (Bar N) → Bar N × N
  latest prev b [] = (b, prev)
  latest prev b (c ∷ bars) = latest b.close c bars

  abbrev pub bar_quote : Bar N × N → Option (Payload N)
  bar_quote (b, prev) = elim b.volume [
    | none ↦ none
    | some volume ↦ some (payload b.open_price b.high b.low b.close volume prev)
  ]

  -- The branches of `_sync_fetch` that answer with a genuine price.
  abbrev pub genuine_quote : Option (List (Bar N)) → Option (FastInfo N) → Option (Payload N)
  genuine_quote none info = none
  genuine_quote (some []) none = none
  genuine_quote (some []) (some i) = info_quote i
  genuine_quote (some (b ∷ bars)) info = bar_quote (latest b.open_price b bars)

  abbrev pub or_fallback : (Text → ℕ) → Text → Option (Payload N) → Payload N
  or_fallback seed ticker none = generate_fallback_price seed ticker
  or_fallback seed ticker (some q) = q

  -- `_sync_fetch`
  unfoldable pub sync_fetch : World N → Text → Payload N
  unfolding generate_fallback_price
  sync_fetch world ticker =
      or_fallback world.seed ticker (genuine_quote (world.history ticker) (world.fast_info ticker))

  abbrev pub prev_close : N → N → List N → N × N
  prev_close prev price [] = (prev, price)
  prev_close prev price (x ∷ closes) = prev_close price x closes

  -- `price_data` of one ticker of a batch
  abbrev pub frame_quote : Frame N → Option (Payload N)
  frame_quote d = elim d.closes [
    | [] ↦ none
    | c ∷ closes ↦
        let (prev, price) = prev_close c c closes in
        do
          open_price ← column price d.opens
          high ← column price d.highs
          low ← column price d.lows
          volume ← column 0 d.volumes
          some (payload open_price high low price volume prev)
  ]

  abbrev pub framed : Option (Frame N) → Option (Payload N)
  framed none = none
  framed (some d) = frame_quote d

  unfoldable pub batch_quote : World N → Text → Payload N
  unfolding generate_fallback_price
  batch_quote world ticker = or_fallback world.seed ticker (framed (world.frame ticker))
