-- ===== src/Portfolio/Import/Write.antt =====
-- The part of `import_holdings` of backend/routers/portfolio.py behind the parsing: the stocks and
-- the positions that the parsed rows write, in one transaction.
use stock_monitor.Base.{
  ℕ, suc, Bool, Option, none, some, List, [], ◌∷◌, ◌==◌, if◌then◌else◌, find, map,
}
use stock_monitor.Base.Text.{Text, text_eq, is_empty}
use stock_monitor.Http.{Reply, ok, fail, ◌>>=◌}
use stock_monitor.Float.{Float}
use stock_monitor.Table.{insert, next_id, update_where}
use stock_monitor.Market.{detect_market_currency}
use stock_monitor.Portfolio.{Holding, Stock, Db, CurrentUser, Commit, commit_write}
use stock_monitor.Portfolio.Positions.{held_by}
use stock_monitor.Portfolio.Positions.Lookup.{row_id}
use stock_monitor.Portfolio.Stocks.{Spec, Races, find_stock, ensure_stocks}
use stock_monitor.Portfolio.Import.{Cell, Parsed, parse_rows}

-- What a request meets: the day, the inserts of other sessions, the answer to its COMMIT.
pub record Outside : Type 0 where
  pub today : ℕ
  pub races : Races
  pub commit : Commit

-- The body of the answer.
pub record ImportResult : Type 0 where
  pub imported : ℕ
  pub updated : ℕ
  pub errors : ℕ

-- `specs[ticker] = …`
unfoldable pub put_spec : Spec → List Spec → List Spec
put_spec s [] = s ∷ []
put_spec s (t ∷ ts) =
    let rest = put_spec s ts in if text_eq t.ticker s.ticker then s ∷ ts else t ∷ rest

abbrev pub or_day : Option ℕ → ℕ → ℕ
or_day none day = day
or_day (some d) day = d

module _ {N : Type 0} where
  abbrev pub spec_of : Parsed N → Spec
  spec_of p = record {
    ticker = p.ticker;
    name = p.name;
    market = (detect_market_currency p.ticker).0;
    currency = (detect_market_currency p.ticker).1;
  }

  unfoldable pub specs_of : List Spec → List (Parsed N) → List Spec
  unfolding put_spec
  specs_of acc [] = acc
  specs_of acc (p ∷ ps) = specs_of (put_spec (spec_of p) acc) ps

  abbrev pub overwrite : Parsed N → Holding N → Holding N
  overwrite p h = record h {
    quantity = p.quantity;
    avg_purchase_price = p.avg_price;
    notes = if is_empty p.notes then h.notes else some p.notes;
    purchase_date = elim p.purchase_date [ none ↦ h.purchase_date | some d ↦ some d ];
  }

  abbrev pub opened_by : ℕ → ℕ → ℕ → Parsed N → List (Holding N) → Holding N
  opened_by user today stock p hs = record {
    id = next_id (map row_id hs);
    user_id = some user;
    stock_id = stock;
    quantity = p.quantity;
    avg_purchase_price = p.avg_price;
    purchase_date = some (or_day p.purchase_date today);
    notes = if is_empty p.notes then none else some p.notes;
  }

  -- A row in the table of holdings: the counts of new and of changed positions, and the table.
  unfoldable pub write_row :
      ℕ → ℕ → List Stock → Parsed N → ℕ × ℕ × List (Holding N) → Reply (ℕ × ℕ × List (Holding N))
  write_row user today stocks p (imported, updated, hs) = elim (find_stock p.ticker stocks) [
    | none ↦ fail 500
    | some s ↦ elim (find (held_by user s.id) hs) [
      | some h ↦ ok (imported, suc updated, update_where (λ g. g.id == h.id) (overwrite p) hs)
      | none ↦ ok (suc imported, updated, insert (opened_by user today s.id p hs) hs)
    ]
  ]

  unfoldable pub write_rows :
      ℕ
      → ℕ
      → List Stock
      → List (Parsed N)
      → ℕ × ℕ × List (Holding N)
      → Reply (ℕ × ℕ × List (Holding N))
  unfolding write_row
  write_rows user today stocks [] state = ok state
  write_rows user today stocks (p ∷ ps) state = do
    state' ← write_row user today stocks p state
    write_rows user today stocks ps state'

  -- The statements between BEGIN and COMMIT.
  unfoldable pub import_rows :
      ℕ → List (Parsed N) → ℕ → Outside → Db N → Reply (ImportResult × Db N)
  unfolding specs_of write_rows
  import_rows user [] errors out db = ok (record { imported = 0; updated = 0; errors = errors }, db)
  import_rows user (p ∷ ps) errors out db = do
    stocks ← ensure_stocks (specs_of [] (p ∷ ps)) out.races db.stocks
    (imported, updated, hs) ← write_rows user out.today stocks (p ∷ ps) (0, 0, db.holdings)
    ok (
      record { imported = imported; updated = updated; errors = errors },
      record db { stocks = stocks; holdings = hs },
    )

module _ {N : Type 0} ⦃f : Float N⦄ where
  -- One error more for a file that has a text but no valid row.
  abbrev pub errors_of : Bool → List (Parsed N) → ℕ → ℕ
  errors_of has_text [] n = if has_text then suc n else n
  errors_of has_text (p ∷ ps) n = n

  unfoldable pub import_holdings :
      (Text → Option N)
      → (Text → Text → Option ℕ)
      → CurrentUser
      → List (List Cell)
      → Bool
      → Outside
      → Db N
      → Reply ImportResult × Db N
  unfolding parse_rows import_rows
  import_holdings parse_float parse_date user rows has_text out db =
      let (ps, n) = parse_rows parse_float parse_date rows in
      commit_write out.commit db (import_rows user.id ps (errors_of has_text ps n) out db)
