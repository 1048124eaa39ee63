-- ===== src/Telegram/Chunks.antt =====
-- A split message: it ends, no piece is longer than the limit, and nothing but line ends is lost.
use mathlib.Core.List.{append_assoc, append-nil}
use stock_monitor.Base.{
  ℕ, zero, suc, ◌≤◌, ◌<◌, ◌≡◌, refl, ap, sym, ◌∙◌, Option, none, some, List, [], ◌∷◌, ◌++◌, arith,
  ltb, leb, take, drop, length, All, All-append, inl, inr, Bool-cases, ltb→lt, ltb→le, leb→le,
  le→leb,
}
use stock_monitor.Base.Text.{Text, split}
use stock_monitor.Telegram.Content.{
  content, contents, Fits, take-length, drop-length, cut-contents, flush-contents,
  candidate-content, split-contents,
}
use stock_monitor.Telegram.{newline, cut_line, flush, candidate, pack_lines, split_message}

-- What a cut line leaves: pieces that fit, a rest that fits or is empty, and the same content.
module _ (limit : ℕ) (positive : 0 < limit) where
  abbrev Cuts : List Text → Text → Option (List Text × Text) → Type 0
  Cuts chunks line none = ⊥
  Cuts chunks line (some (cut, rest)) =
      All (Fits limit) cut
      × (length rest ≤ limit)
      × (contents cut ++ content rest ≡ contents chunks ++ content line)

  Cuts-from :
      (chunks before : List Text) (line whole : Text) (r : Option (List Text × Text))
      → contents chunks ++ content line ≡ contents before ++ content whole
      → Cuts chunks line r
      → Cuts before whole r
  Cuts-from chunks before line whole none e h = h
  Cuts-from chunks before line whole (some (cut, rest)) e h = (h.0, h.1, h.2 ∙ e)

  cut_line-Cuts :
      (fuel : ℕ) (chunks : List Text) (line : Text)
      → length line < fuel
      → All (Fits limit) chunks
      → Cuts chunks line (cut_line limit fuel chunks line)
  unfolding cut_line
  cut_line-Cuts zero chunks line h fit = absurd (omega arith)
  cut_line-Cuts (suc fuel) chunks line h fit = elim (Bool-cases (ltb limit (length line))) [
    | inr short ↦ rw short (fit, ltb→le _ _ short, refl)
    | inl long ↦
        let far : limit < length line = ltb→lt _ _ long in
        let piece = take limit line in
        let measure = take-length limit line (omega arith) in
        rw long (
          Cuts-from (chunks ++ piece ∷ []) chunks (drop limit line) line
            (cut_line limit fuel (chunks ++ piece ∷ []) (drop limit line))
            (cut-contents chunks limit line)
            (cut_line-Cuts fuel (chunks ++ piece ∷ []) (drop limit line)
              (omega (arith, drop-length limit line))
              (All-append (Fits limit) chunks (piece ∷ []) fit
                ((omega (arith, measure), omega (arith, measure)), tt))))
  ]

  -- `current` fits or is empty.
  flush-Fits :
      (chunks : List Text) (current : Text)
      → All (Fits limit) chunks
      → length current ≤ limit
      → All (Fits limit) (flush chunks current)
  flush-Fits chunks [] fit h = fit
  flush-Fits chunks (c ∷ current) fit h =
      All-append (Fits limit) chunks ((c ∷ current) ∷ []) fit ((omega arith, h), tt)

module _ (limit : ℕ) (positive : 0 < limit) where
  -- What the loop returns: pieces that fit, with the content of what it had and of what it read.
  abbrev Packs : List Text → Text → List Text → Option (List Text) → Type 0
  Packs chunks current lines none = ⊥
  Packs chunks current lines (some out) =
      All (Fits limit) out × (contents out ≡ contents chunks ++ (content current ++ contents lines))

  Packs-from :
      (chunks before : List Text) (current had : Text) (lines read : List Text)
      (r : Option (List Text))
      → contents chunks ++ (content current ++ contents lines)
        ≡ contents before ++ (content had ++ contents read)
      → Packs chunks current lines r
      → Packs before had read r
  Packs-from chunks before current had lines read none e h = h
  Packs-from chunks before current had lines read (some out) e h = (h.0, h.1 ∙ e)

  -- The rest of the loop after a line that was cut.
  resume-Packs :
      (chunks : List Text) (current line : Text) (lines : List Text) (o : Option (List Text × Text))
      (k : List Text → Text → Option (List Text))
      → Cuts limit positive (flush chunks current) line o
      → ((cut : List Text) (rest : Text)
          → All (Fits limit) cut
          → length rest ≤ limit
          → Packs cut rest lines (k cut rest))
      → Packs chunks current (line ∷ lines) (elim o [ none ↦ none | some (cut, rest) ↦ k cut rest ])
  resume-Packs chunks current line lines none k h go = absurd h
  resume-Packs chunks current line lines (some (cut, rest)) k h go =
      Packs-from cut chunks rest current lines (line ∷ lines) (k cut rest)
        (sym (append_assoc (contents cut) (content rest) (contents lines))
          ∙ ap (◌++ contents lines) (h.2 ∙ ap (◌++ content line) (flush-contents chunks current))
          ∙ simp append_assoc)
        (go cut rest h.0 h.1)

  pack_lines-Packs :
      (lines chunks : List Text) (current : Text)
      → All (Fits limit) chunks
      → length current ≤ limit
      → Packs chunks current lines (pack_lines limit lines chunks current)
  unfolding pack_lines
  pack_lines-Packs [] chunks current fit h = (
    flush-Fits limit positive chunks current fit h,
    flush-contents chunks current ∙ ap (contents chunks ++◌) (sym (append-nil (content current))),
  )
  pack_lines-Packs (line ∷ lines) chunks current fit h =
      elim (Bool-cases (ltb limit (length (candidate current line)))) [
        | inr short ↦ rw short (
            Packs-from chunks chunks (candidate current line) current lines (line ∷ lines)
              (pack_lines limit lines chunks (candidate current line))
              (ap (contents chunks ++◌) (
                ap (◌++ contents lines) (candidate-content current line)
                ∙ append_assoc (content current) (content line) (contents lines)))
              (pack_lines-Packs lines chunks (candidate current line) fit (ltb→le _ _ short)))
        | inl long ↦ rw long (
            resume-Packs chunks current line lines
              (cut_line limit (suc (length line)) (flush chunks current) line)
              (λ cut rest. pack_lines limit lines cut rest)
              (cut_line-Cuts limit positive (suc (length line)) (flush chunks current) line
                (omega arith) (flush-Fits limit positive chunks current fit h))
              (λ cut rest f g. pack_lines-Packs lines cut rest f g))
      ]

-- A computation that ends, with a result of which `P` holds.
abbrev pub Yields : {A : Type 0} → (A → Type 0) → Option A → Type 0
Yields P none = ⊥
Yields P (some a) = P a

Splits : ℕ → Text → List Text → Type 0
Splits limit text out = All (Fits limit) out × (contents out ≡ content text)

Packs-Splits :
    (limit : ℕ) (positive : 0 < limit) (text : Text) (r : Option (List Text))
    → Packs limit positive [] [] (split newline text) r
    → Yields (Splits limit text) r
unfolding Splits
Packs-Splits limit positive text none h = h
Packs-Splits limit positive text (some out) h = (h.0, h.1 ∙ split-contents text)

split_message-Splits :
    (limit : ℕ) (text : Text)
    → 0 < limit
    → 0 < length text
    → Yields (Splits limit text) (split_message limit text)
unfolding split_message Splits
split_message-Splits limit text positive h = elim (Bool-cases (leb (length text) limit)) [
  | inl short ↦ rw short (((h, leb→le _ _ short), tt), append-nil (content text))
  | inr long ↦ rw long (
      Packs-Splits limit positive text (pack_lines limit (split newline text) [] [])
        (pack_lines-Packs limit positive (split newline text) [] [] tt (omega arith)))
]

Yields-map :
    {A : Type 0} {P Q : A → Type 0} (r : Option A) → ((a : A) → P a → Q a) → Yields P r → Yields Q r
Yields-map none f h = h
Yields-map (some a) f h = f a h

-- With a positive limit and a text that is not empty, `_split_message` ends, and each of its pieces
-- has at least one character and at most the limit.
pub split_message-Fits :
    (limit : ℕ) (text : Text)
    → 0 < limit
    → 0 < length text
    → Yields (All (Fits limit)) (split_message limit text)
unfolding Splits
split_message-Fits limit text positive h =
    Yields-map (split_message limit text) (λ out s. s.0)
      (split_message-Splits limit text positive h)

pub split_message-content :
    (limit : ℕ) (text : Text)
    → 0 < limit
    → Yields (λ out. contents out ≡ content text) (split_message limit text)
unfolding Splits split_message
split_message-content limit [] positive = rw (le→leb 0 limit (omega arith)) refl
split_message-content limit (c ∷ text) positive =
    Yields-map (split_message limit (c ∷ text)) (λ out s. s.1)
      (split_message-Splits limit (c ∷ text) positive (omega arith))
