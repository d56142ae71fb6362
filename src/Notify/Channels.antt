-- ===== src/Notify/Channels.antt =====
-- What `send_sync` of notify.py may send.
use remote_unlock.Base.{
  ◌≡◌, refl, Bool, true, false, ◌++◌, List, [], Text, Bytes, codes, ◌&&◌, arith, All, All-append,
  if◌then◌else◌,
}
use remote_unlock.Json.{Json, obj, str, Fields, field, end, get}
use remote_unlock.Outcome.{Outcome, returns, raises, attribute_error}
use remote_unlock.Notify.{
  Post, Net, starts_with, https, Message, Sent, post, post_after, try_ntfy, try_telegram,
  try_webhook, ntfy, telegram, webhook, then_posts, send_sync, send, is_true, json_headers,
}

-- The post goes to an endpoint that uses https.
abbrev pub IsSecure : Post → Type 0
IsSecure p = starts_with https p.url ≡ true

module _ (net : Net) where
  post-IsSecure :
      (url : Text) (body : Bytes) (headers : List (Text × Text))
      → All IsSecure (post net url body headers).0
  unfolding post
  post-IsSecure url body headers = ground arith

  post_after-IsSecure :
      (o : Outcome (Text × (Bytes × List (Text × Text)))) → All IsSecure (post_after net o).0
  post_after-IsSecure (raises e) = tt
  post_after-IsSecure (returns (url, (body, headers))) = post-IsSecure url body headers

  record SecureSent (sent : Sent) : Type 0 where
    secure : All IsSecure sent.0

  post_after-SecureSent :
      (o : Outcome (Text × (Bytes × List (Text × Text)))) → SecureSent (post_after net o)
  post_after-SecureSent o = record { secure = post_after-IsSecure o }

  try_ntfy-SecureSent : (n : Fields) (m : Message) → SecureSent (try_ntfy net n m)
  unfolding try_ntfy
  try_ntfy-SecureSent n m = post_after-SecureSent _

  if_posts :
      (b : Bool) (posts : List Post) → All IsSecure posts → All IsSecure (if b then posts else [])
  if_posts true posts h = h
  if_posts false posts h = tt

  -- A channel that does not raise posts to https only.
  abbrev AllSecure : Outcome (List Post) → Type 0
  AllSecure (returns posts) = All IsSecure posts
  AllSecure (raises e) = Unit

  raise_or_none : (b : Bool) → AllSecure (if b then raises attribute_error else returns [])
  raise_or_none true = tt
  raise_or_none false = tt

  ntfy-AllSecure : (n : Json) (m : Message) → AllSecure (ntfy net n m)
  unfolding ntfy
  ntfy-AllSecure (obj n) m =
      if_posts (is_true (get (codes "topic") n)) (try_ntfy net n m).0
        (try_ntfy-SecureSent n m).secure
  ntfy-AllSecure n m = raise_or_none (is_true n)

  try_telegram-IsSecure : (t : Fields) (m : Message) → All IsSecure (try_telegram net t m).0
  unfolding try_telegram
  try_telegram-IsSecure t m =
      post-IsSecure
        (codes "https://api.telegram.org/bot"
          ++ net.str_of (get (codes "bot_token") t)
          ++ codes "/sendMessage")
        _ _

  telegram-AllSecure : (t : Json) (m : Message) → AllSecure (telegram net t m)
  unfolding telegram
  telegram-AllSecure (obj t) m =
      if_posts (is_true (get (codes "bot_token") t) && is_true (get (codes "chat_id") t))
        (try_telegram net t m).0 (try_telegram-IsSecure t m)
  telegram-AllSecure t m = raise_or_none (is_true t)

  try_webhook-IsSecure : (w : Json) (m : Message) → All IsSecure (try_webhook net w m).0
  unfolding try_webhook
  try_webhook-IsSecure (str url) m =
      post-IsSecure url
        (net.dumps
          (obj (field (codes "text") (str (codes "*" ++ m.title ++ codes "*\n" ++ m.message)) end)))
        (json_headers net)
  try_webhook-IsSecure w m = tt

  webhook-IsSecure : (w : Json) (m : Message) → All IsSecure (webhook net w m)
  unfolding webhook
  webhook-IsSecure w m = if_posts (is_true w) (try_webhook net w m).0 (try_webhook-IsSecure w m)

  then_posts-IsSecure :
      (before : List Post) (o : Outcome (List Post)) (next : List Post → Sent)
      → All IsSecure before
      → AllSecure o
      → ((posts : List Post) → All IsSecure posts → All IsSecure (next posts).0)
      → All IsSecure (then_posts net before o next).0
  then_posts-IsSecure before (returns posts) next h a k =
      k (before ++ posts) (All-append IsSecure before posts h a)
  then_posts-IsSecure before (raises e) next h a k = h

  -- Every alert that is sent, over any of the channels and with any settings, goes to an endpoint
  -- whose address begins with https://.
  pub send-IsSecure : (cfg : Fields) (m : Message) → All IsSecure (send net cfg m)
  unfolding send send_sync
  send-IsSecure cfg m =
      then_posts-IsSecure [] (ntfy net (get (codes "ntfy") cfg) m) _ tt (ntfy-AllSecure _ m)
        (λ a ha.
          then_posts-IsSecure a (telegram net (get (codes "telegram") cfg) m) _ ha
            (telegram-AllSecure _ m)
            (λ b hb.
              All-append IsSecure b (webhook net (get (codes "webhook_url") cfg) m) hb
                (webhook-IsSecure _ m)))

module _ (net : Net) (delivery : Post → Outcome (Unit {0})) where
  abbrev elsewhere : Net
  elsewhere = record net { urlopen = delivery }

  post_same :
      (url : Text) (body : Bytes) (headers : List (Text × Text))
      → (post elsewhere url body headers).0 ≡ (post net url body headers).0
  unfolding post
  post_same url body headers = ground arith

  post_after_same :
      (o : Outcome (Text × (Bytes × List (Text × Text))))
      → (post_after elsewhere o).0 ≡ (post_after net o).0
  post_after_same (raises e) = refl
  post_after_same (returns (url, (body, headers))) = post_same url body headers

  ntfy_same : (n : Json) (m : Message) → ntfy elsewhere n m ≡ ntfy net n m
  unfolding ntfy try_ntfy
  ntfy_same (obj n) m = rw (post_after_same _) refl
  ntfy_same n m = refl

  telegram_same : (t : Json) (m : Message) → telegram elsewhere t m ≡ telegram net t m
  unfolding telegram try_telegram
  telegram_same (obj t) m = rw (post_same _ _ _) refl
  telegram_same t m = refl

  webhook_same : (w : Json) (m : Message) → webhook elsewhere w m ≡ webhook net w m
  unfolding webhook try_webhook
  webhook_same (str url) m = rw (post_same url _ _) refl
  webhook_same w m = refl

  -- Delivery has no part in what is sent: with the same settings, the same posts are made and the
  -- call ends in the same way whatever becomes of each post, so an alert that fails neither raises
  -- nor keeps another from being sent.
  pub send_sync_whatever_delivery :
      (cfg : Fields) (m : Message) → send_sync elsewhere cfg m ≡ send_sync net cfg m
  unfolding send_sync
  send_sync_whatever_delivery cfg m = rw (ntfy_same _ m, telegram_same _ m, webhook_same _ m) refl
