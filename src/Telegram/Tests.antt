-- ===== src/Telegram/Tests.antt =====
-- Messages cut at a small limit, at the edges of lines, and the theorems at concrete messages.
use stock_monitor.Base.{
  ℕ, zero, suc, ◌++◌, ◌≡◌, refl, true, false, none, some, [], ◌∷◌, arith, All, length, leb,
}
use stock_monitor.Base.Text.{Text, codes}
use stock_monitor.Telegram.{
  is_key_configured, split_message, Settings, is_configured, send_message, authorized,
}
use stock_monitor.Telegram.Content.{content, contents, Fits}
use stock_monitor.Telegram.Chunks.{Yields, split_message-Fits}
use stock_monitor.Telegram.Posts.{send_message_roundtrip}

abbrev report : Text
report = codes "ab\ncd\n\nefghijklm\nn"

-- Lines are joined while they fit; a line of nine is cut in three; the empty line is kept.
split_report :
    split_message 4 report
    ≡ some (codes "ab" ∷ codes "cd\n" ∷ codes "efgh" ∷ codes "ijkl" ∷ codes "m\nn" ∷ [])
unfolding split_message
split_report = refl

split_short : split_message 40 report ≡ some (report ∷ [])
unfolding split_message
split_short = refl

-- A limit of zero would never end.
split_zero : split_message 0 report ≡ none
unfolding split_message
split_zero = refl

abbrev settings : Settings
settings = record { bot_token = some (codes "12:ab"); chat_id = some (codes "77") }

keys :
    (is_key_configured (some (codes " YOUR_TOKEN ")) ≡ false)
    × (is_key_configured (some (codes "12:ab")) ≡ true)
unfolding is_key_configured
keys = (refl, refl)

-- A post that fails ends the sending.
send_fails : send_message settings (λ chunk. leb (length chunk) 3) report ≡ some (report ∷ [])
unfolding send_message
send_fails = refl

chats : (authorized settings (codes "77") ≡ true) × (authorized settings (codes "7") ≡ false)
unfolding authorized
chats = (refl, refl)

split_message-Fits_example : Yields (All (Fits 4)) (split_message 4 report)
split_message-Fits_example = split_message-Fits 4 report (omega arith) (omega arith)

configured : is_configured settings ≡ true
unfolding is_key_configured
configured = refl

-- A message of several posts.
abbrev reports : ℕ → Text
reports zero = []
reports (suc n) = report ++ reports n

send_message_roundtrip_example :
    Yields
      (λ posts. contents posts ≡ content (reports 400))
      (send_message settings (λ chunk. true) (reports 400))
send_message_roundtrip_example =
    send_message_roundtrip (λ chunk. true) (λ chunk. refl) settings (reports 400) configured
