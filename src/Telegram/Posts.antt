-- ===== src/Telegram/Posts.antt =====
-- What reaches Telegram: the posts of a message.
use stock_monitor.Base.{◌≡◌, refl, ap, Bool, true, Option, none, some, List, [], ◌∷◌, arith}
use stock_monitor.Base.Text.{Text}
use stock_monitor.Telegram.{
  telegram_max_message_length, Settings, is_configured, split_message, post_all, send_message,
}
use stock_monitor.Telegram.Content.{content, contents}
use stock_monitor.Telegram.Chunks.{Yields, split_message-content}

module _ (accepts : Text → Bool) (all : (chunk : Text) → accepts chunk ≡ true) where
  post_all-id : (chunks : List Text) → post_all accepts chunks ≡ chunks
  unfolding post_all
  post_all-id [] = refl
  post_all-id (chunk ∷ chunks) = rw (all chunk) (ap (◌∷◌ chunk) (post_all-id chunks))

  posts-content :
      (text : Text) (r : Option (List Text))
      → Yields (λ out. contents out ≡ content text) r
      → Yields
          (λ posts. contents posts ≡ content text)
          (elim r [ none ↦ none | some chunks ↦ some (post_all accepts chunks) ])
  posts-content text none h = h
  posts-content text (some out) h = rw (post_all-id out) h

  -- With a token and a chat configured, and every post accepted, `send_message` ends, and the texts
  -- that it posts, put together in their order, are the message, line ends left aside.
  pub send_message_roundtrip :
      (settings : Settings) (text : Text)
      → is_configured settings ≡ true
      → Yields (λ posts. contents posts ≡ content text) (send_message settings accepts text)
  unfolding send_message
  send_message_roundtrip settings text c = rw c (
      posts-content text (split_message telegram_max_message_length text)
        (split_message-content telegram_max_message_length text (omega arith)))
