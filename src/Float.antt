-- ===== src/Float.antt =====
-- The program's `float`s. There are no floats in the logic, so the type and its operations are a
-- parameter: every component that computes with prices and quantities takes an instance of `Float`.
-- `decimal m k` is the literal m / 10^k; `round k x` is Python's `round(x, k)`. The division is
-- total here: where the source divides with no guard, `divide` below raises on zero.
pub mod Laws
pub mod Fixed
use stock_monitor.Base.{ℕ, Bool, false, not, ◌&&◌, Option, none, some, List, [], ◌∷◌, if◌then◌else◌}

pub record Float (N : Type 0) : Type 0 where
  pub add : N → N → N
  pub sub : N → N → N
  pub mul : N → N → N
  pub div : N → N → N
  pub neg : N → N
  pub abs : N → N
  pub round : ℕ → N → N
  pub decimal : ℕ → ℕ → N
  pub lt : N → N → Bool
  pub le : N → N → Bool
  pub eq : N → N → Bool
  pub is_finite : N → Bool

module _ {N : Type 0} ⦃f : Float N⦄ where
  infixl 65 ◌+◌ ◌-◌
  infixl 70 ◌*◌ ◌/◌
  abbrev pub ◌+◌ : N → N → N
  ◌+◌ = f.add

  abbrev pub ◌-◌ : N → N → N
  ◌-◌ = f.sub

  abbrev pub ◌*◌ : N → N → N
  ◌*◌ = f.mul

  abbrev pub ◌/◌ : N → N → N
  ◌/◌ = f.div

  abbrev pub lt : N → N → Bool
  lt = f.lt

  abbrev pub le : N → N → Bool
  le = f.le

  abbrev pub decimal : ℕ → ℕ → N
  decimal = f.decimal

  abbrev pub round : ℕ → N → N
  round = f.round

  abbrev pub zero : N
  zero = f.decimal 0 0

  -- The truth value of a float: false exactly at 0.0.
  abbrev pub truthy : N → Bool
  truthy x = not (f.eq x (f.decimal 0 0))

  -- `max(a, b)` and `min(a, b)` keep the first unless the second is strictly beyond it.
  abbrev pub max : N → N → N
  max a b = if f.lt a b then b else a

  abbrev pub min : N → N → N
  min a b = if f.lt b a then b else a

  -- `a / b` with its ZeroDivisionError.
  abbrev pub divide : N → N → Option N
  divide a b = if f.eq b (f.decimal 0 0) then none else some (f.div a b)

  -- `_is_valid_float` of backend/services/portfolio_service.py: a finite number above zero.
  abbrev pub is_valid_float : Option N → Bool
  is_valid_float none = false
  is_valid_float (some x) = f.is_finite x && f.lt (f.decimal 0 0) x

  abbrev pub sum_from : N → List N → N
  sum_from acc [] = acc
  sum_from acc (x ∷ xs) = sum_from (f.add acc x) xs

  -- Python's `sum`: from zero, left to right.
  abbrev pub sum : List N → N
  sum = sum_from (f.decimal 0 0)
