-- ===== src/Portfolio/Import/Effect.antt =====
-- What an import leaves of the database.
use stock_monitor.Base.{ℕ, ◌+◌, ◌≡◌, refl, Bool, Option, List, [], ◌∷◌, arith, length}
use stock_monitor.Base.Text.{Text}
use stock_monitor.Http.{Returns, Returns-then, Returns-bind}
use stock_monitor.Float.{Float}
use stock_monitor.Portfolio.{Db, CurrentUser, Outcome, commit-Outcome}
use stock_monitor.Portfolio.Positions.{others}
use stock_monitor.Portfolio.Positions.Lookup.{IsValid}
use stock_monitor.Portfolio.Stocks.{ensure_stocks}
use stock_monitor.Portfolio.Import.{Cell, Parsed, parse_rows}
use stock_monitor.Portfolio.Import.Write.{
  Outside, ImportResult, write_rows, import_rows, errors_of, import_holdings, specs_of,
}
use stock_monitor.Portfolio.Import.Rows.{last_for, IsWritten, Written, write_rows-Written}

module _ {N : Type 0} where
  -- What an import of parsed rows has done.
  abbrev pub Imported : ℕ → List (Parsed N) → ℕ → Db N → ImportResult → Db N → Type 0
  Imported user ps errors db result db' =
      IsValid db'.holdings
      × (others user db'.holdings ≡ others user db.holdings)
      × (result.imported + result.updated ≡ length ps)
      × (result.errors ≡ errors)
      × (db'.transactions ≡ db.transactions)
      × (db'.targets ≡ db.targets)
      × ((j : ℕ)
          → IsWritten user db'.stocks j (last_for user db'.stocks j ps) db.holdings db'.holdings)

  import_rows-Imported :
      (user : ℕ) (ps : List (Parsed N)) (errors : ℕ) (out : Outside) (db : Db N)
      → IsValid db.holdings
      → Returns (λ (r, db'). Imported user ps errors db r db') (import_rows user ps errors out db)
  unfolding import_rows
  import_rows-Imported user [] errors out db v = (v, refl, refl, refl, refl, refl, λ j. refl)
  import_rows-Imported user (p ∷ ps) errors out db v =
      let P : ImportResult × Db N → Type 0 = λ (r, db'). Imported user (p ∷ ps) errors db r db' in
      Returns-bind P (ensure_stocks (specs_of [] (p ∷ ps)) out.races db.stocks) _ λ stocks e.
        Returns-then P
          (Written user stocks (λ j. last_for user stocks j (p ∷ ps)) (length (p ∷ ps))
            (0, 0, db.holdings))
          (write_rows user out.today stocks (p ∷ ps) (0, 0, db.holdings)) _
          (write_rows-Written user stocks out.today (p ∷ ps) 0 0 db.holdings v)
          (λ r w. (w.0, w.1, omega (arith, w.2), refl, refl, refl, w.3))

module _ {N : Type 0} ⦃f : Float N⦄ where
  -- From a valid table of holdings, an import either answers with an error and leaves the whole
  -- database as it was, or leaves a valid table in which each of the user's positions has the
  -- quantity and the price of the last valid row for its stock, and is as before if no row is for
  -- it; it counts each valid row once, as new or as changed, and touches neither the rows of other
  -- users nor any transaction or target.
  pub import_effect :
      (parse_float : Text → Option N) (parse_date : Text → Text → Option ℕ) (user : CurrentUser)
      (rows : List (List Cell)) (has_text : Bool) (out : Outside) (db : Db N)
      → IsValid db.holdings
      → let (ps, n) = parse_rows parse_float parse_date rows in
        Outcome
          (Imported user.id ps (errors_of has_text ps n) db)
          db
          (import_holdings parse_float parse_date user rows has_text out db)
  unfolding import_holdings
  import_effect parse_float parse_date user rows has_text out db v =
      let r = parse_rows parse_float parse_date rows in
      commit-Outcome (Imported user.id r.0 (errors_of has_text r.0 r.1) db) out.commit db
        (import_rows user.id r.0 (errors_of has_text r.0 r.1) out db)
        (import_rows-Imported user.id r.0 (errors_of has_text r.0 r.1) out db v)
