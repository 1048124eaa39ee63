-- ===== src/Telegram/Content.antt =====
-- What a text says, line ends left aside, through the steps of a split.
use mathlib.Core.List.{append_assoc, append-nil}
use stock_monitor.Base.{
  ℕ, zero, suc, ◌-◌, ◌≤◌, ◌<◌, ◌≡◌, refl, ap, sym, ◌∙◌, false, not, List, [], ◌∷◌, ◌++◌, arith,
  ◌==◌, take, drop, filter, length, inl, inr, Bool-cases,
}
use stock_monitor.Base.Text.{Text, cons_head, split}
use stock_monitor.Telegram.{newline, flush, candidate}

-- A text without its line ends.
abbrev pub content : Text → Text
content = filter (λ c. not (c == newline))

abbrev pub contents : List Text → Text
contents [] = []
contents (c ∷ cs) = content c ++ contents cs

-- A piece that can be sent: it is not empty and not longer than the limit.
abbrev pub Fits : ℕ → Text → Type 0
Fits limit chunk = (0 < length chunk) × (length chunk ≤ limit)

pub content-append : (a b : Text) → content (a ++ b) ≡ content a ++ content b
content-append [] b = refl
content-append (c ∷ a) b = ground (arith, content-append a b)

pub contents-append : (xs ys : List Text) → contents (xs ++ ys) ≡ contents xs ++ contents ys
contents-append [] ys = refl
contents-append (x ∷ xs) ys = simp (contents-append xs ys, append_assoc)

pub take-drop : (n : ℕ) (s : Text) → take n s ++ drop n s ≡ s
take-drop zero s = refl
take-drop (suc n) [] = refl
take-drop (suc n) (c ∷ s) = ap (◌∷◌ c) (take-drop n s)

pub take-length : (n : ℕ) (s : Text) → n ≤ length s → length (take n s) ≡ n
take-length zero s h = refl
take-length (suc n) [] h = absurd (omega arith)
take-length (suc n) (c ∷ s) h = omega (arith, take-length n s (omega arith))

pub drop-length : (n : ℕ) (s : Text) → length (drop n s) ≡ length s - n
drop-length zero s = omega arith
drop-length (suc n) [] = omega arith
drop-length (suc n) (c ∷ s) = omega (arith, drop-length n s)

pub cut-contents :
    (chunks : List Text) (n : ℕ) (line : Text)
    → contents (chunks ++ take n line ∷ []) ++ content (drop n line)
      ≡ contents chunks ++ content line
cut-contents chunks n line =
    ap (◌++ content (drop n line)) (contents-append chunks (take n line ∷ []))
    ∙ simp (append_assoc, append-nil)
        (ap (contents chunks ++◌)
          (sym (content-append (take n line) (drop n line)) ∙ ap content (take-drop n line)))

pub flush-contents :
    (chunks : List Text) (current : Text)
    → contents (flush chunks current) ≡ contents chunks ++ content current
flush-contents chunks [] = sym (append-nil (contents chunks))
flush-contents chunks (c ∷ current) =
    contents-append chunks ((c ∷ current) ∷ [])
    ∙ ap (contents chunks ++◌) (append-nil (content (c ∷ current)))

pub candidate-content :
    (current line : Text) → content (candidate current line) ≡ content current ++ content line
candidate-content [] line = refl
candidate-content (c ∷ current) line = content-append (c ∷ current) (newline ∷ line)

pub cons_head-contents :
    (c : ℕ) (words : List Text)
    → (c == newline) ≡ false
    → contents (cons_head c words) ≡ c ∷ contents words
cons_head-contents c [] e = rw e refl
cons_head-contents c (w ∷ words) e = rw e refl

-- The pieces between two line ends, put together, are the text without them.
pub split-contents : (text : Text) → contents (split newline text) ≡ content text
unfolding split
split-contents [] = refl
split-contents (c ∷ text) = elim (Bool-cases (c == newline)) [
  | inl e ↦ rw e (split-contents text)
  | inr e ↦ rw e (cons_head-contents c (split newline text) e ∙ ap (◌∷◌ c) (split-contents text))
]
