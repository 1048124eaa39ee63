-- ===== src/Alerting/Sent.antt =====
-- The messages of a run, and the prices in them.
use mathlib.Core.Path.{subst}
use stock_monitor.Base.{
  ℕ, Option, some, List, [], ◌∷◌, ◌++◌, map, All, inl, inr, All-append, IsAmong, All-IsAmong,
  IsAmong-left, IsAmong-right,
}
use stock_monitor.Base.Text.{Text}
use stock_monitor.Float.{Float}
use stock_monitor.Float.Laws.{IsOrder, IsMonotone, IsOpposed}
use stock_monitor.Table.{All-map}
use stock_monitor.Portfolio.{Stock}
use stock_monitor.Alerting.{Times, Watched, Entry, Alert, Check, set_time, evict, stocks_by_id}
use stock_monitor.Alerting.Run.{
  prices_map, rule_check, item_check, holding_check, perform, checks_of, stocks_of, tickers,
  run_over, run_user, own_rules, own_items, own_holdings, valid_keys,
}
use stock_monitor.Alerting.Selection.{
  Known, stocks_by_id-IsAmong, with_stocks-Known, with_stocks-All,
}
use stock_monitor.Alerting.Throttle.{settle_cases}
use stock_monitor.Alerting.Genuine.{
  IsGenuine, HasThreshold, AreGenuine, some-AreGenuine, rule_check-AreGenuine,
  item_check-AreGenuine, holding_check-AreGenuine,
}

module _ {A B : Type 0} where
  All-image : (Q : B → Type 0) (g : A → B) (xs : List A) → All (λ x. Q (g x)) xs → All Q (map g xs)
  All-image Q g [] h = tt
  All-image Q g (x ∷ xs) h = (h.0, All-image Q g xs h.1)

  All-source : (Q : B → Type 0) (g : A → B) (xs : List A) → All Q (map g xs) → All (λ x. Q (g x)) xs
  All-source Q g [] h = tt
  All-source Q g (x ∷ xs) h = (h.0, All-source Q g xs h.1)

All-both :
    {A : Type 0} (P Q : A → Type 0) (xs : List A) → All P xs → All Q xs → All (λ x. P x × Q x) xs
All-both P Q [] h k = tt
All-both P Q (x ∷ xs) h k = ((h.0, k.0), All-both P Q xs h.1 k.1)

module _ {N : Type 0} where
  -- What holds of what every check comes to holds of every message.
  perform-All :
      (P : Alert N → Type 0) (Q : Option (Alert N) → Type 0)
      → ((a : Alert N) → Q (some a) → P a)
      → (now : ℕ) (cs : List (Check N)) (times : Times) → All (λ c. Q c.alert) cs
      → All (λ (k, a). P a) (perform now cs times).1
  unfolding perform
  perform-All P Q g now [] times h = tt
  perform-All P Q g now (c ∷ cs) times h = elim (settle_cases now c times) [
    | inl e ↦ rw (e, perform) (perform-All P Q g now cs times h.1)
    | inr (a, s, e, t) ↦
        rw (e, perform)
          (g a (subst Q s h.0), perform-All P Q g now cs (set_time c.key now times) h.1)
  ]

  -- Every row that a run selects is for one of the stocks that it looks at.
  module _ (user : ℕ) (db : Watched N) where
    abbrev stocks : {A : Type 0} → List (A × Stock) → List Stock
    stocks = map (λ p. p.1)

    abbrev involved : List Stock
    involved =
        stocks (own_rules user db) ++ stocks (own_items user db) ++ stocks (own_holdings user db)

    stocks-Known :
        {A : Type 0} (rows : List (A × Stock))
        → All (λ p. Known db.stocks p.1) rows
        → All (Known db.stocks) (stocks rows)
    stocks-Known rows h = All-image (Known db.stocks) (λ p. p.1) rows h

    involved-Known : All (Known db.stocks) involved
    involved-Known =
        let K = Known db.stocks in
        let r = stocks-Known (own_rules user db) (with_stocks-Known db.stocks _ _ db.rules) in
        let i = stocks-Known (own_items user db) (with_stocks-Known db.stocks _ _ db.items) in
        let h = stocks-Known (own_holdings user db) (with_stocks-Known db.stocks _ _ db.holdings) in
        All-append K _ (stocks (own_holdings user db))
          (All-append K _ (stocks (own_items user db)) r i) h

    rows-IsAmong :
        {A : Type 0} (rows : List (A × Stock))
        → ((s : Stock) → IsAmong s (stocks rows) → IsAmong s involved)
        → All (λ p. IsAmong p.1 (stocks_of user db)) rows
    unfolding stocks_of
    rows-IsAmong rows g =
        All-source (λ s. IsAmong s (stocks_by_id [] involved)) (λ p. p.1) rows
          (All-IsAmong (stocks rows) (stocks_by_id [] involved)
            (λ s h. stocks_by_id-IsAmong db.stocks s [] involved involved-Known (g s h)))

    rules-IsAmong : All (λ p. IsAmong p.1 (stocks_of user db)) (own_rules user db)
    rules-IsAmong = rows-IsAmong (own_rules user db) (λ s h.
        IsAmong-left s _ (stocks (own_holdings user db))
          (IsAmong-left s _ (stocks (own_items user db)) h))

    items-IsAmong : All (λ p. IsAmong p.1 (stocks_of user db)) (own_items user db)
    items-IsAmong = rows-IsAmong (own_items user db) (λ s h.
        IsAmong-left s _ (stocks (own_holdings user db))
          (IsAmong-right s (stocks (own_rules user db)) _ h))

    holdings-IsAmong : All (λ p. IsAmong p.1 (stocks_of user db)) (own_holdings user db)
    holdings-IsAmong = rows-IsAmong (own_holdings user db) (λ s h. IsAmong-right s _ _ h)

module _ {N : Type 0} ⦃f : Float N⦄ (order : IsOrder f) (mono : IsMonotone f)
    (opposed : IsOpposed f) where
  checks_of-AreGenuine :
      (ss : List Stock) (batch : Text → Option (Entry N)) (user : ℕ) (db : Watched N)
      → All (λ p. IsAmong p.1 ss) (own_rules user db)
      → All (λ p. IsAmong p.1 ss) (own_items user db)
      → All (λ p. IsAmong p.1 ss) (own_holdings user db)
      → All (λ p. HasThreshold p.0) (own_rules user db)
      → All
          (λ c. AreGenuine db.prices ss batch c.alert)
          (checks_of user db (prices_map db.prices ss batch))
  unfolding checks_of
  checks_of-AreGenuine ss batch user db r i h t =
      let ps = db.prices in
      let m = prices_map ps ss batch in
      let Q = λ (c : Check N). AreGenuine ps ss batch c.alert in
      let rules = All-image Q (rule_check m) (own_rules user db) (
        All-map (λ p k. rule_check-AreGenuine order mono opposed ps ss batch p.0 p.1 k.1 k.0)
          (own_rules user db)
          (All-both (λ p. IsAmong p.1 ss) (λ p. HasThreshold p.0) (own_rules user db) r t)) in
      let items = All-image Q (item_check m) (own_items user db) (
        All-map (λ p k. item_check-AreGenuine order mono opposed ps ss batch p.0 p.1 k)
          (own_items user db) i) in
      let holdings = All-image Q (holding_check m) (own_holdings user db) (
        All-map (λ p k. holding_check-AreGenuine order mono opposed ps ss batch p.0 p.1 k)
          (own_holdings user db) h) in
      All-append Q _ (map (holding_check m) (own_holdings user db))
        (All-append Q _ (map (item_check m) (own_items user db)) rules items) holdings

  -- The batch that a run asks for: of the stocks that it looks at.
  run_over-Genuine :
      (fetch : List Text → Text → Option (Entry N)) (user now : ℕ) (db : Watched N)
      (ss : List Stock) (times : Times)
      → All (λ p. IsAmong p.1 ss) (own_rules user db)
      → All (λ p. IsAmong p.1 ss) (own_items user db)
      → All (λ p. IsAmong p.1 ss) (own_holdings user db)
      → All (λ p. HasThreshold p.0) (own_rules user db)
      → All
          (λ (k, a). IsGenuine db.prices ss (fetch (tickers ss)) a)
          (run_over fetch user now db ss times).1
  unfolding run_over
  run_over-Genuine fetch user now db [] times r i h t = tt
  run_over-Genuine fetch user now db (s ∷ ss) times r i h t =
      let batch = fetch (tickers (s ∷ ss)) in
      perform-All (IsGenuine db.prices (s ∷ ss) batch) (AreGenuine db.prices (s ∷ ss) batch)
        (λ a k. some-AreGenuine db.prices (s ∷ ss) batch a k) now
        (checks_of user db (prices_map db.prices (s ∷ ss) batch)) times
        (checks_of-AreGenuine (s ∷ ss) batch user db r i h t)

  -- If the thresholds of the rules are above zero, as create_alert requires, then each price in a
  -- message of a run comes from an entry of the batch that is above zero and not marked stale, or
  -- else is the last close that is stored for a stock of that ticker.
  pub alerts-IsGenuine :
      (fetch : List Text → Text → Option (Entry N)) (user now : ℕ) (db : Watched N) (times : Times)
      → All HasThreshold db.rules
      → let ss = stocks_of user db in
        All
          (λ (k, a). IsGenuine db.prices ss (fetch (tickers ss)) a)
          (run_user fetch user now db times).1
  unfolding run_user
  alerts-IsGenuine fetch user now db times t =
      run_over-Genuine fetch user now db (stocks_of user db) (evict (valid_keys user db) times)
        (rules-IsAmong user db) (items-IsAmong user db) (holdings-IsAmong user db)
        (with_stocks-All db.stocks HasThreshold _ _ db.rules t)
