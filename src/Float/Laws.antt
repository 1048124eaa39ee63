-- ===== src/Float/Laws.antt =====
-- What the proofs assume of floats. Each law holds of IEEE 754 doubles, NaN and the
-- infinities included.
use stock_monitor.Base.{ℕ, ◌≤◌, true, false, ◌≡◌, inl, inr, Bool-cases}
use stock_monitor.Float.{Float}

-- A comparison that succeeds can be chained, and excludes its opposite.
pub record IsOrder {N : Type 0} (f : Float N) : Type 0 where
  pub le_trans : (a b c : N) → f.le a b ≡ true → f.le b c ≡ true → f.le a c ≡ true
  pub le_of_lt : (a b : N) → f.lt a b ≡ true → f.le a b ≡ true
  pub le_self : (a b : N) → f.le a b ≡ true → f.le b b ≡ true
  pub not_lt_of_le : (a b : N) → f.le a b ≡ true → f.lt b a ≡ false

-- Adding a literal m / 10^k, with m at most 1000, never lowers a float that is no NaN.
pub record IsGrowing {N : Type 0} (f : Float N) : Type 0 where
  pub le-add :
      (a : N) (m k : ℕ) → m ≤ 1000 → f.le a a ≡ true → f.le a (f.add a (f.decimal m k)) ≡ true

module _ {N : Type 0} {f : Float N} (order : IsOrder f) (grows : IsGrowing f) where
  -- What exceeds `a` and a margin does not lie below `a`.
  pub not_le_of_slack :
      (a b : N) (m k : ℕ) → m ≤ 1000 → f.lt (f.add a (f.decimal m k)) b ≡ true → f.le b a ≡ false
  not_le_of_slack a b m k small h = elim (Bool-cases (f.le b a)) [
    | inl e ↦
        let a' = f.add a (f.decimal m k) in
        cc (
          h,
          order.not_lt_of_le b a'
              (order.le_trans b a a' e (grows.le-add a m k small (order.le_self b a e))),
        )
    | inr e ↦ e
  ]

-- Adding what lies between 0 and 100 is monotone and does not lower a float that is no NaN, and a
-- strict comparison can be chained with a weak one.
pub record IsMonotone {N : Type 0} (f : Float N) : Type 0 where
  pub add_mono :
      (a b c : N)
      → f.le a b ≡ true
      → f.le (f.decimal 0 0) c ≡ true
      → f.le c (f.decimal 100 0) ≡ true
      → f.le (f.add a c) (f.add b c) ≡ true
  pub add_grow :
      (a c : N)
      → f.le a a ≡ true
      → f.le (f.decimal 0 0) c ≡ true
      → f.le c (f.decimal 100 0) ≡ true
      → f.le a (f.add a c) ≡ true
  pub lt_le_trans : (a b c : N) → f.lt a b ≡ true → f.le b c ≡ true → f.lt a c ≡ true
  pub zero_self : f.le (f.decimal 0 0) (f.decimal 0 0) ≡ true

-- Negation, absolute value and rounding: of two floats, neither rounded one nor negated one passes
-- the other unless the floats do.
pub record IsSigned {N : Type 0} (f : Float N) : Type 0 where
  pub lt_irrefl : (a : N) → f.lt a a ≡ false
  pub neg_flip : (a b : N) → f.lt a (f.neg b) ≡ false → f.lt b (f.neg a) ≡ false
  pub abs_neg : (a : N) → f.abs (f.neg a) ≡ f.abs a
  pub abs_abs : (a : N) → f.abs (f.abs a) ≡ f.abs a
  pub abs_below : (a : N) → f.lt a (f.decimal 0 0) ≡ true → f.abs a ≡ f.neg a
  -- What is neither positive nor negative is a zero, or no number.
  pub abs_flat :
      (a b : N)
      → f.lt a (f.decimal 0 0) ≡ false
      → f.lt (f.decimal 0 0) a ≡ false
      → f.lt (f.abs b) (f.abs a) ≡ false
  pub round_keeps : (k : ℕ) (a b : N) → f.lt b a ≡ false → f.lt (f.round k b) (f.round k a) ≡ false

-- Of two floats that are no NaN, the one that is not below the other is at least the other.
pub record IsTotal {N : Type 0} (f : Float N) : Type 0 where
  pub le_of_not_lt :
      (a b : N) → f.le a a ≡ true → f.le b b ≡ true → f.lt a b ≡ false → f.le b a ≡ true

-- Zero is its own absolute value, and the opposite of a positive float lies below it.
pub record IsOpposed {N : Type 0} (f : Float N) : Type 0 where
  pub abs_zero : f.abs (f.decimal 0 0) ≡ f.decimal 0 0
  pub neg_below : (a : N) → f.lt (f.decimal 0 0) a ≡ true → f.le (f.decimal 0 0) (f.neg a) ≡ false
