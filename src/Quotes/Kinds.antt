-- ===== src/Quotes/Kinds.antt =====
-- The mark of a price tells whether it is genuine.
use stock_monitor.Base.{◌≡◌, refl, false, Option, none, some, List, [], ◌∷◌, inl, inr, Option-cases}
use stock_monitor.Float.{Float}
use mathlib.Core.Path.{subst}
use stock_monitor.Quotes.{
  Payload, Bar, FastInfo, Frame, column, info_quote, bar_quote, genuine_quote, frame_quote, framed,
  prev_close, latest, ◌>>=◌,
}

module _ {N : Type 0} ⦃f : Float N⦄ where
  -- A price that is answered is not marked stale.
  abbrev pub IsUnmarked : Option (Payload N) → Type 0
  IsUnmarked none = Unit
  IsUnmarked (some q) = q.stale ≡ false

  bind-IsUnmarked :
      {A : Type 0} (m : Option A) (g : A → Option (Payload N))
      → ((x : A) → IsUnmarked (g x))
      → IsUnmarked (m >>= g)
  bind-IsUnmarked none g h = tt
  bind-IsUnmarked (some x) g h = h x

  info_quote-IsUnmarked : (i : FastInfo N) → IsUnmarked (info_quote i)
  info_quote-IsUnmarked i = elim (Option-cases i.last_price) [
    | inl e ↦ rw e tt
    | inr (price, e) ↦ rw e refl
  ]

  bar_quote-IsUnmarked : (b : Bar N) (prev : N) → IsUnmarked (bar_quote (b, prev))
  bar_quote-IsUnmarked b prev = elim (Option-cases b.volume) [
    | inl e ↦ rw e tt
    | inr (volume, e) ↦ rw e refl
  ]

  genuine_quote-IsUnmarked :
      (history : Option (List (Bar N))) (info : Option (FastInfo N))
      → IsUnmarked (genuine_quote history info)
  genuine_quote-IsUnmarked none info = tt
  genuine_quote-IsUnmarked (some []) none = tt
  genuine_quote-IsUnmarked (some []) (some i) = info_quote-IsUnmarked i
  genuine_quote-IsUnmarked (some (b ∷ bars)) info =
      let last = latest b.open_price b bars in bar_quote-IsUnmarked last.0 last.1

  framed-IsUnmarked : (d : Option (Frame N)) → IsUnmarked (framed d)
  framed-IsUnmarked none = tt
  framed-IsUnmarked (some d) = by_closes d.closes refl
    where
      by_closes : (closes : List N) → d.closes ≡ closes → IsUnmarked (frame_quote d)
      by_closes [] e = rw e tt
      by_closes (c ∷ closes) e =
          let price = (prev_close c c closes).1 in
          rw e (
            bind-IsUnmarked (column price d.opens) _ (λ open_price.
              bind-IsUnmarked (column price d.highs) _ (λ high.
                bind-IsUnmarked (column price d.lows) _
                  (λ low. bind-IsUnmarked (column 0 d.volumes) _ (λ volume. refl)))))

  unmarked : (o : Option (Payload N)) (q : Payload N) → o ≡ some q → IsUnmarked o → q.stale ≡ false
  unmarked o q e h = subst IsUnmarked e h

  pub genuine_quote_unmarked :
      (history : Option (List (Bar N))) (info : Option (FastInfo N)) (q : Payload N)
      → genuine_quote history info ≡ some q
      → q.stale ≡ false
  genuine_quote_unmarked history info q e =
      unmarked (genuine_quote history info) q e (genuine_quote-IsUnmarked history info)

  pub framed_unmarked : (d : Option (Frame N)) (q : Payload N) → framed d ≡ some q → q.stale ≡ false
  framed_unmarked d q e = unmarked (framed d) q e (framed-IsUnmarked d)
