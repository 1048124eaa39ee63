-- ===== src/Base/Digits.antt =====
-- `str(n)` of a natural number: its decimal digits, which tell numbers apart.
use Prim.Native.Nat.{ℕ, zero, suc, ◌+◌, ◌-◌, ◌*◌, ◌/◌, ◌%◌, ◌≤◌, ◌<◌}
use mathlib.Core.Path.{◌≡◌, refl, ap, sym, ◌∙◌}
use mathlib.Core.Logic.{inl, inr}
use mathlib.Core.List.{[], ◌∷◌, ◌++◌}
use native.Mathlib.Omega.{arith}
use stock_monitor.Base.Tests.{ltb, if◌then◌else◌, Bool-cases, ltb→lt, ltb→le}
use stock_monitor.Base.Lists.{All, All-append}
use stock_monitor.Base.Text.{Text}

-- A division by ten lowers a positive number, so the number bounds its digits.
unfoldable digits_upto : ℕ → ℕ → Text
digits_upto zero n = []
digits_upto (suc fuel) n =
    let rest = digits_upto fuel (n / 10) in
    if ltb n 10 then (b'0' + n) ∷ [] else rest ++ (b'0' + n % 10) ∷ []

unfoldable pub str : ℕ → Text
unfolding digits_upto
str n = digits_upto (suc n) n

value_from : ℕ → Text → ℕ
value_from acc [] = acc
value_from acc (c ∷ cs) = value_from (acc * 10 + (c - b'0')) cs

value_from-snoc :
    (acc c : ℕ) (cs : Text) → value_from acc (cs ++ c ∷ []) ≡ value_from acc cs * 10 + (c - b'0')
unfolding value_from
value_from-snoc acc c [] = refl
value_from-snoc acc c (d ∷ cs) = value_from-snoc (acc * 10 + (d - b'0')) c cs

digits-value : (fuel n : ℕ) → n < fuel → value_from 0 (digits_upto fuel n) ≡ n
unfolding digits_upto value_from
digits-value zero n h = absurd (omega arith)
digits-value (suc fuel) n h = elim (Bool-cases (ltb n 10)) [
  | inl e ↦ rw e (omega arith)
  | inr e ↦
      let big = ltb→le n 10 e in
      rw e (
        value_from-snoc 0 (b'0' + n % 10) (digits_upto fuel (n / 10))
        ∙ omega (arith, digits-value fuel (n / 10) (omega arith)))
]

pub str-injective : (m n : ℕ) → str m ≡ str n → m ≡ n
unfolding str
str-injective m n e =
    sym (digits-value (suc m) m (omega arith))
    ∙ ap (value_from 0) e
    ∙ digits-value (suc n) n (omega arith)

abbrev pub IsDigit : ℕ → Type 0
IsDigit c = (b'0' ≤ c) × (c ≤ b'9')

digits-IsDigit : (fuel n : ℕ) → All IsDigit (digits_upto fuel n)
unfolding digits_upto
digits-IsDigit zero n = tt
digits-IsDigit (suc fuel) n = elim (Bool-cases (ltb n 10)) [
  | inl e ↦ let small = ltb→lt n 10 e in rw e ((omega arith, omega arith), tt)
  | inr e ↦ rw e (
      All-append IsDigit (digits_upto fuel (n / 10)) ((b'0' + n % 10) ∷ [])
        (digits-IsDigit fuel (n / 10)) ((omega arith, omega arith), tt))
]

pub str-IsDigit : (n : ℕ) → All IsDigit (str n)
unfolding str
str-IsDigit n = digits-IsDigit (suc n) n
