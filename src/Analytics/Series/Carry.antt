-- ===== src/Analytics/Series/Carry.antt =====
-- The price that a stock carries to a day, described by itself: its latest close between the first
-- day and that one, or else its first close of all.
use stock_monitor.Base.{
  ℕ, suc, ◌≤◌, ◌≡◌, refl, ◌&&◌, Option, none, some, [], ◌∷◌, arith, ltb, leb, ◌==◌, if◌then◌else◌,
  Option-cases, Bool-cases, inl, inr,
}
use stock_monitor.Analytics.Series.{Closes, close_on, first_close}

module _ {N : Type 0} where
  -- Of the days between two, the latest with a close.
  unfoldable pub latest_close : ℕ → ℕ → Closes N → Option (ℕ × N)
  latest_close start day [] = none
  latest_close start day ((d, c) ∷ closes) =
      let rest = latest_close start day closes in
      let here = elim rest as (λ r. Option (ℕ × N)) [
        | none ↦ some (d, c)
        | some (e, b) ↦ if ltb d e then some (e, b) else some (d, c)
      ] in
      if leb start d && leb d day then here else rest

  latest_close-le :
      (start day : ℕ) (closes : Closes N) (e : ℕ) (b : N)
      → latest_close start day closes ≡ some (e, b)
      → e ≤ day
  unfolding latest_close
  latest_close-le start day [] e b h = cc
  latest_close-le start day ((d, c) ∷ closes) e b h =
      elim (Option-cases (latest_close start day closes)) [
        | inl none_left ↦ ground (arith, h, none_left)
        | inr ((d', c'), e') ↦ ground (arith, h, e', latest_close-le start day closes d' c' e')
      ]

  abbrev pub price_of : Option (ℕ × N) → Option N
  price_of none = none
  price_of (some (d, c)) = some c

  abbrev pub carried : ℕ → ℕ → Closes N → Option N
  carried start day closes = elim (latest_close start day closes) [
    | none ↦ price_of (first_close closes)
    | some (d, c) ↦ some c
  ]

  -- A day's own close comes first.
  pub latest_close-own :
      (start day : ℕ) (closes : Closes N) (c : N)
      → start ≤ day
      → close_on day closes ≡ some c
      → latest_close start day closes ≡ some (day, c)
  unfolding latest_close
  latest_close-own start day [] c h e = cc
  latest_close-own start day ((d, b) ∷ closes) c h e = elim (Bool-cases (d == day)) [
    | inl own ↦ elim (Option-cases (latest_close start day closes)) [
      | inl empty ↦ ground (arith, e, own, empty)
      | inr ((d', c'), e') ↦ ground (arith, e, own, e', latest_close-le start day closes d' c' e')
    ]
    | inr other ↦
        let rest : close_on day closes ≡ some c = rw other at e in
        ground (arith, other, latest_close-own start day closes c h rest)
  ]

  -- On the first day there is no other.
  pub latest_close-first :
      (start : ℕ) (closes : Closes N)
      → close_on start closes ≡ none
      → latest_close start start closes ≡ none
  unfolding latest_close
  latest_close-first start [] e = refl
  latest_close-first start ((d, b) ∷ closes) e = ground (arith, e, latest_close-first start closes)

  pub latest_close-same :
      (start day : ℕ) (closes : Closes N)
      → close_on (suc day) closes ≡ none
      → latest_close start (suc day) closes ≡ latest_close start day closes
  unfolding latest_close
  latest_close-same start day [] e = refl
  latest_close-same start day ((d, b) ∷ closes) e =
      ground (arith, e, latest_close-same start day closes)
