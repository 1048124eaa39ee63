-- ===== src/Telegram.antt =====
-- backend/services/telegram_bot.py: what the bot sends and whom it obeys. `_split_message` cuts a
-- text at its line ends into messages that Telegram accepts, `send_message` posts them one after the
-- other, and `_authorized` admits one chat. A text is a list of character codes, as Python counts
-- them. Whether a post succeeds is an argument.
pub mod Content
pub mod Chunks
pub mod Posts
mod Tests
use stock_monitor.Base.{
  ℕ, zero, suc, Bool, true, false, not, ◌&&◌, ◌||◌, Option, none, some, List, [], ◌∷◌, ◌++◌, ltb,
  leb, ◌==◌, if◌then◌else◌, take, drop, length,
}
use stock_monitor.Base.Text.{Text, codes, text_eq, is_empty, strip, lower, starts_with, split}

-- `bool(s)` and `s` on a string that may be None.
abbrev pub is_set : Option Text → Bool
is_set none = false
is_set (some s) = not (is_empty s)

-- `_is_key_configured`
unfoldable pub is_key_configured : Option Text → Bool
unfolding strip lower starts_with
is_key_configured none = false
is_key_configured (some key) =
    not (is_empty key) && not (starts_with (codes "your_") (lower (strip key)))

-- `TELEGRAM_MAX_MESSAGE_LENGTH`
abbrev pub telegram_max_message_length : ℕ
telegram_max_message_length = 4096

abbrev pub newline : ℕ
newline = 10

-- `while len(line) > limit`: the pieces of the line are appended, and its rest is left; `none` when
-- the fuel runs out.
unfoldable pub cut_line : ℕ → ℕ → List Text → Text → Option (List Text × Text)
cut_line limit zero chunks line = none
cut_line limit (suc fuel) chunks line =
    let rest = cut_line limit fuel (chunks ++ take limit line ∷ []) (drop limit line) in
    if ltb limit (length line) then rest else some (chunks, line)

-- `if current: chunks.append(current)`
abbrev pub flush : List Text → Text → List Text
flush chunks current = if is_empty current then chunks else chunks ++ current ∷ []

abbrev pub candidate : Text → Text → Text
candidate current line = if is_empty current then line else current ++ newline ∷ line

-- The loop over the lines, with what follows it. A piece of a line is not empty, so the length of
-- the line bounds the pieces.
unfoldable pub pack_lines : ℕ → List Text → List Text → Text → Option (List Text)
unfolding cut_line
pack_lines limit [] chunks current = some (flush chunks current)
pack_lines limit (line ∷ lines) chunks current =
    let whole = candidate current line in
    let joined = pack_lines limit lines chunks whole in
    let parts : Option (List Text) =
      elim (cut_line limit (suc (length line)) (flush chunks current) line) [
        | none ↦ none
        | some (cut, rest) ↦ pack_lines limit lines cut rest
      ] in
    if ltb limit (length whole) then parts else joined

-- `_split_message`
unfoldable pub split_message : ℕ → Text → Option (List Text)
unfolding split pack_lines
split_message limit text =
    if leb (length text) limit
    then some (text ∷ [])
    else pack_lines limit (split newline text) [] []

pub record Settings : Type 0 where
  pub bot_token : Option Text
  pub chat_id : Option Text

-- The messages posted: `raise_for_status` ends the loop at the first that fails, which is posted too.
unfoldable pub post_all : (Text → Bool) → List Text → List Text
post_all accepts [] = []
post_all accepts (chunk ∷ chunks) =
    let rest = post_all accepts chunks in if accepts chunk then chunk ∷ rest else chunk ∷ []

abbrev pub is_configured : Settings → Bool
is_configured settings = is_key_configured settings.bot_token && is_set settings.chat_id

-- `TelegramService.send_message`: the texts of its posts; `none` if it does not end.
unfoldable pub send_message : Settings → (Text → Bool) → Text → Option (List Text)
unfolding is_key_configured split_message post_all
send_message settings accepts text =
    if is_configured settings
    then elim (split_message telegram_max_message_length text) [
      | none ↦ none
      | some chunks ↦ some (post_all accepts chunks)
    ]
    else some []

-- `InteractiveTelegramBot._authorized`, on the id of the chat as text.
unfoldable pub authorized : Settings → Text → Bool
unfolding text_eq
authorized settings chat = elim settings.chat_id [
  | none ↦ false
  | some id ↦ not (is_empty id) && text_eq chat id
]
