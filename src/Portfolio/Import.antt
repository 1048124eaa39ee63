-- ===== src/Portfolio/Import.antt =====
-- `import_holdings` of backend/routers/portfolio.py. The csv module reads the file: a row is the
-- list of the items of its dict. `parse_float` and `parse_date` are Python's `float` and
-- `strptime`; texts are ASCII but for the headers and signs that the code names.
pub mod Write
pub mod Rows
pub mod Effect
mod Tests
use stock_monitor.Base.{
  ℕ, suc, ◌-◌, ◌+◌, Bool, true, false, not, ◌||◌, ◌&&◌, Option, none, some, List, [], ◌∷◌, ◌++◌,
  leb, ◌==◌, if◌then◌else◌, filter, find, length, map, any,
}
use stock_monitor.Base.Text.{Text, codes, text_eq, is_empty, or_else, upper, strip}
use stock_monitor.Http.{Reply, ok, fail, ◌>>=◌, or_fail}
use stock_monitor.Float.{Float, le, zero}
use stock_monitor.Table.{insert, next_id, update_where}
use stock_monitor.Market.{detect_market_currency}
use stock_monitor.Portfolio.{Holding, Stock, Db, CurrentUser, Commit, commit_write}
use stock_monitor.Portfolio.Positions.{held_by}
use stock_monitor.Portfolio.Positions.Lookup.{row_id}
use stock_monitor.Portfolio.Stocks.{Spec, Races, find_stock, ensure_stocks}

-- A cell of a row with its header.
abbrev pub Cell : Type 0
Cell = Text × Text

abbrev pub lower_code : ℕ → ℕ
lower_code c = if leb b'A' c && leb c b'Z' then c + 32 else c

-- `norm_row.get(key)`, over the cells with their headers stripped and in lower case: the last one
-- with the key counts.
unfoldable pub get_cell : Text → List Cell → Text
get_cell key [] = []
get_cell key ((k, v) ∷ cells) =
    let rest = get_cell key cells in
    let later = any (λ (c : Cell). text_eq (map lower_code (strip c.0)) key) cells in
    if later then rest else if text_eq (map lower_code (strip k)) key then strip v else []

-- `norm_row.get(a) or norm_row.get(b) or …`
unfoldable pub first_of : List Text → List Cell → Text
unfolding get_cell
first_of [] cells = []
first_of (k ∷ ks) cells = or_else (get_cell k cells) (first_of ks cells)

-- `s.replace(",", ".")`
abbrev pub with_points : Text → Text
with_points = map (λ c. if c == b',' then b'.' else c)

-- `s.replace("€", "").replace("$", "").strip()`
abbrev pub without_signs : Text → Text
without_signs s = strip (filter (λ c. not (c == 8364 || c == 36)) s)

pub record Parsed (N : Type 0) : Type 0 where
  pub ticker : Text
  pub name : Text
  pub quantity : N
  pub avg_price : N
  pub notes : Text
  pub purchase_date : Option ℕ

-- What a row comes to: it has no ticker, or an error, or values.
pub data RowResult (N : Type 0) : Type 0 where
  skipped refused : RowResult N
  parsed : Parsed N → RowResult N

abbrev pub date_formats : List Text
date_formats = codes "%Y-%m-%d" ∷ codes "%d/%m/%Y" ∷ codes "%d-%m-%Y" ∷ codes "%Y/%m/%d" ∷ []

unfoldable pub first_date : (Text → Text → Option ℕ) → List Text → Text → Option ℕ
first_date parse_date [] s = none
first_date parse_date (fmt ∷ fmts) s = elim (parse_date s fmt) [
  | some d ↦ some d
  | none ↦ first_date parse_date fmts s
]

abbrev pub ticker_keys : List Text
ticker_keys = codes "ticker" ∷ codes "simbolo" ∷ codes "azione" ∷ codes "titolo" ∷ []

abbrev pub quantity_keys : List Text
quantity_keys = codes "quantity" ∷ codes "quantita" ∷ codes "quantità" ∷ codes "qty" ∷ []

abbrev pub price_keys : List Text
price_keys =
    codes "avg_purchase_price"
    ∷ codes "avg_price"
    ∷ codes "prezzo"
    ∷ codes "prezzo_acquisto"
    ∷ codes "prezzo_medio"
    ∷ []

abbrev pub date_keys : List Text
date_keys = codes "purchase_date" ∷ codes "data" ∷ codes "data_acquisto" ∷ []

module _ {N : Type 0} ⦃f : Float N⦄ where
  unfoldable pub parse_row : (Text → Option N) → (Text → Text → Option ℕ) → List Cell → RowResult N
  unfolding first_of first_date
  parse_row parse_float parse_date cells =
      let ticker = upper (first_of ticker_keys cells) in
      let date = first_of date_keys cells in
      if is_empty (first_of ticker_keys cells)
      then skipped
      else elim (parse_float (with_points (or_else (first_of quantity_keys cells) (codes "0")))) [
        | none ↦ refused
        | some quantity ↦
            if le quantity zero
            then refused
            else elim (parse_float
                (without_signs (with_points (or_else (first_of price_keys cells) (codes "0"))))) [
                  | none ↦ refused
                  | some price ↦
                      if le price zero
                      then refused
                      else parsed (record {
                        ticker = ticker;
                        name = or_else (first_of (codes "name" ∷ codes "nome" ∷ []) cells) ticker;
                        quantity = quantity;
                        avg_price = price;
                        notes = first_of (codes "notes" ∷ codes "note" ∷ []) cells;
                        purchase_date =
                            if is_empty date then none else first_date parse_date date_formats date;
                      })
                ]
      ]

  -- The parsed rows and the number of errors.
  unfoldable pub parse_rows :
      (Text → Option N) → (Text → Text → Option ℕ) → List (List Cell) → List (Parsed N) × ℕ
  unfolding parse_row
  parse_rows parse_float parse_date [] = ([], 0)
  parse_rows parse_float parse_date (row ∷ rows) =
      let (ps, errors) = parse_rows parse_float parse_date rows in
      elim (parse_row parse_float parse_date row) [
        | skipped ↦ (ps, errors)
        | refused ↦ (ps, suc errors)
        | parsed p ↦ (p ∷ ps, errors)
      ]
