-- ===== src/Float/Fixed.antt =====
-- A concrete number type at which the theorems are applied: fixed-point numbers with six decimal
-- places, as integers. It meets the laws of `Laws`.
use stock_monitor.Base.{
  suc, ◌≤◌, false, ◌&&◌, ℕ, ◌-◌, ◌*◌, ◌/◌, ◌^◌, ◌≡◌, refl, true, arith, leb, if◌then◌else◌, inl,
  inr, Bool-cases,
}
use stock_monitor.Base.Int.{
  ℤ, pos, negsuc, pos_part, neg_part, sub_ℕ, ◌+ℤ◌, ◌-ℤ◌, ◌*ℤ◌, quotient, ltb_ℤ, leb_ℤ,
}
use stock_monitor.Float.{Float}
use stock_monitor.Float.Laws.{IsOrder, IsGrowing, IsMonotone, IsSigned, IsTotal, IsOpposed}

abbrev negate : ℤ → ℤ
negate a = sub_ℕ (neg_part a) (pos_part a)

abbrev magnitude : ℤ → ℤ
magnitude a = if ltb_ℤ a (pos 0) then sub_ℕ (neg_part a) (pos_part a) else a

abbrev divide : ℤ → ℤ → ℤ
divide a (pos n) = quotient (a *ℤ pos 1_000_000) n
divide a (negsuc n) = quotient (sub_ℕ (neg_part a) (pos_part a) *ℤ pos 1_000_000) (suc n)

-- Drops the digits behind the k-th decimal.
abbrev truncate : ℕ → ℤ → ℤ
truncate k a = if leb 6 k then a else quotient a (10 ^ (6 - k)) *ℤ pos (10 ^ (6 - k))

instance abbrev pub fixed : Float ℤ
fixed = record {
  add = ◌+ℤ◌;
  sub = ◌-ℤ◌;
  mul = λ a b. quotient (a *ℤ b) 1_000_000;
  div = divide;
  neg = negate;
  abs = magnitude;
  round = truncate;
  decimal = λ m k. pos (m * 1_000_000 / 10 ^ k);
  lt = ltb_ℤ;
  le = leb_ℤ;
  eq = λ a b. leb_ℤ a b && leb_ℤ b a;
  is_finite = λ a. true;
}

order_le_trans : (a b c : ℤ) → leb_ℤ a b ≡ true → leb_ℤ b c ≡ true → leb_ℤ a c ≡ true
order_le_trans a b c p q = ground arith

order_le_of_lt : (a b : ℤ) → ltb_ℤ a b ≡ true → leb_ℤ a b ≡ true
order_le_of_lt a b p = ground arith

order_le_self : (a b : ℤ) → leb_ℤ a b ≡ true → leb_ℤ b b ≡ true
order_le_self a b p = ground arith

order_not_lt_of_le : (a b : ℤ) → leb_ℤ a b ≡ true → ltb_ℤ b a ≡ false
order_not_lt_of_le a b p = ground arith

pub fixed-IsOrder : IsOrder fixed
fixed-IsOrder = record {
  le_trans = order_le_trans;
  le_of_lt = order_le_of_lt;
  le_self = order_le_self;
  not_lt_of_le = order_not_lt_of_le;
}

le-plus : (a : ℤ) (n : ℕ) → leb_ℤ a a ≡ true → leb_ℤ a (a +ℤ pos n) ≡ true
le-plus a n h = ground arith

pub fixed-IsGrowing : IsGrowing fixed
fixed-IsGrowing = record { le-add = λ a m k small. le-plus a (m * 1_000_000 / 10 ^ k) }

order_lt_le_trans : (a b c : ℤ) → ltb_ℤ a b ≡ true → leb_ℤ b c ≡ true → ltb_ℤ a c ≡ true
order_lt_le_trans a b c p q = ground arith

plus_mono : (a b c : ℤ) → leb_ℤ a b ≡ true → leb_ℤ (pos 0) c ≡ true → leb_ℤ (a +ℤ c) (b +ℤ c) ≡ true
plus_mono a b c p q = ground arith

plus_grow : (a c : ℤ) → leb_ℤ a a ≡ true → leb_ℤ (pos 0) c ≡ true → leb_ℤ a (a +ℤ c) ≡ true
plus_grow a c p q = ground arith

pub fixed-IsMonotone : IsMonotone fixed
fixed-IsMonotone = record {
  add_mono = λ a b c p q r. plus_mono a b c p q;
  add_grow = λ a c p q r. plus_grow a c p q;
  lt_le_trans = order_lt_le_trans;
  zero_self = refl;
}

negate_flip : (a b : ℤ) → ltb_ℤ a (negate b) ≡ false → ltb_ℤ b (negate a) ≡ false
negate_flip a b h = ground arith

magnitude-negate : (a : ℤ) → magnitude (negate a) ≡ magnitude a
magnitude-negate a = ground arith

magnitude-magnitude : (a : ℤ) → magnitude (magnitude a) ≡ magnitude a
magnitude-magnitude a = ground arith

magnitude_below : (a : ℤ) → ltb_ℤ a (pos 0) ≡ true → magnitude a ≡ negate a
magnitude_below a h = ground arith

magnitude_flat :
    (a b : ℤ)
    → ltb_ℤ a (pos 0) ≡ false
    → ltb_ℤ (pos 0) a ≡ false
    → ltb_ℤ (magnitude b) (magnitude a) ≡ false
magnitude_flat a b h k = ground arith

div_mono : (a b d : ℕ) → a ≤ b → a / d ≤ b / d
div_mono a b d h = grind arith

zero_div : (d : ℕ) → 0 / d ≡ 0
zero_div d = grind arith

quotient_keeps : (a b : ℤ) (d : ℕ) → ltb_ℤ b a ≡ false → ltb_ℤ (quotient b d) (quotient a d) ≡ false
quotient_keeps (pos a) (pos b) d h = ground (arith, div_mono a b d, zero_div d)
quotient_keeps (pos a) (negsuc b) d h = ground (arith, h)
quotient_keeps (negsuc a) (pos b) d h = ground (arith, zero_div d)
quotient_keeps (negsuc a) (negsuc b) d h = ground (arith, div_mono (suc b) (suc a) d, zero_div d)

scale_mono : (a b d : ℕ) → a ≤ b → a * d ≤ b * d
scale_mono a b d h = grind arith

scale_zero : (d : ℕ) → 0 * d ≡ 0
scale_zero d = omega arith

scale_keeps : (a b : ℤ) (d : ℕ) → ltb_ℤ b a ≡ false → ltb_ℤ (b *ℤ pos d) (a *ℤ pos d) ≡ false
scale_keeps (pos a) (pos b) d h = ground (arith, scale_mono a b d)
scale_keeps (pos a) (negsuc b) d h = ground (arith, h)
scale_keeps (negsuc a) (pos b) d h = ground arith
scale_keeps (negsuc a) (negsuc b) d h = ground (arith, scale_mono (suc b) (suc a) d)

truncate_keeps : (k : ℕ) (a b : ℤ) → ltb_ℤ b a ≡ false → ltb_ℤ (truncate k b) (truncate k a) ≡ false
truncate_keeps k a b h = elim (Bool-cases (leb 6 k)) [
  | inl e ↦ rw e h
  | inr e ↦
      let d = 10 ^ (6 - k) in
      rw e (scale_keeps (quotient a d) (quotient b d) d (quotient_keeps a b d h))
]

pub fixed-IsSigned : IsSigned fixed
fixed-IsSigned = record {
  lt_irrefl = λ a. ground arith;
  neg_flip = negate_flip;
  abs_neg = magnitude-negate;
  abs_abs = magnitude-magnitude;
  abs_below = magnitude_below;
  abs_flat = magnitude_flat;
  round_keeps = truncate_keeps;
}

order_le_of_not_lt : (a b : ℤ) → ltb_ℤ a b ≡ false → leb_ℤ b a ≡ true
order_le_of_not_lt a b p = ground arith

pub fixed-IsTotal : IsTotal fixed
fixed-IsTotal = record { le_of_not_lt = λ a b p q. order_le_of_not_lt a b }

negate_below : (a : ℤ) → ltb_ℤ (pos 0) a ≡ true → leb_ℤ (pos 0) (negate a) ≡ false
negate_below a h = ground arith

pub fixed-IsOpposed : IsOpposed fixed
fixed-IsOpposed = record { abs_zero = refl; neg_below = negate_below }
