-- ===== src/Notify.antt =====
-- notify.py: the alerts that go to ntfy, Telegram and a webhook. A settings value is what
-- `json.loads` made of it; a call of `_post` that gets as far as `urlopen` is a `Post`.
pub mod Channels
use remote_unlock.Base.{
  Bool, true, false, not, ◌&&◌, Option, none, some, List, [], ◌∷◌, ◌++◌, map, Text, Bytes, codes,
  ltb, ◌==◌, if◌then◌else◌,
}
use mathlib.Core.List.{reverse}
use remote_unlock.Base.Int.{pos}
use remote_unlock.Json.{Json, null, bool, int, str, arr, obj, nil, Fields, field, end, find, get}
use remote_unlock.Outcome.{Outcome, returns, raises, value_error, attribute_error, ◌>>=◌}

-- What reaches `urllib.request.urlopen`.
pub record Post : Type 0 where
  pub url : Text
  pub body : Bytes
  pub headers : List (Text × Text)

-- The parts of Python's library that the notifier calls.
pub record Net : Type 0 where
  -- `str.encode()`, which fails on a lone surrogate
  pub encode : Text → Outcome Bytes
  -- `json.dumps(value).encode()`
  pub dumps : Json → Bytes
  -- a value in an f-string
  pub str_of : Json → Text
  -- `urlopen` and the read of the answer, by what is sent
  pub urlopen : Post → Outcome (Unit {0})

-- `s.startswith(prefix)`
unfoldable pub starts_with : Text → Text → Bool
starts_with [] s = true
starts_with (a ∷ prefix) [] = false
starts_with (a ∷ prefix) (b ∷ s) = a == b && starts_with prefix s

-- The truth of a value in an `if`.
unfoldable pub is_true : Json → Bool
is_true null = false
is_true (bool b) = b
is_true (int (pos n)) = not (n == 0)
is_true (str []) = false
is_true (arr nil) = false
is_true (obj end) = false
is_true j = true

-- `_ascii`: a character that ASCII has not becomes a question mark.
abbrev pub ascii : Text → Text
ascii s = map (λ n. if ltb n 128 then n else 63) s

-- `s.rstrip('/')`
abbrev drop_slashes : Text → Text
drop_slashes [] = []
drop_slashes (n ∷ t) = if n == 47 then drop_slashes t else n ∷ t

unfoldable pub rstrip_slash : Text → Text
rstrip_slash s = reverse (drop_slashes (reverse s))

-- `",".join(tags)`
abbrev pub join_tags : List Text → Text
join_tags [] = []
join_tags (t ∷ []) = t
join_tags (t ∷ u ∷ tags) = t ++ codes "," ++ join_tags (u ∷ tags)

-- The arguments of `send_sync`.
pub record Message : Type 0 where
  pub title : Text
  pub message : Text
  pub priority : Text
  pub tags : List Text

abbrev pub https : Text
https = codes "https://"

-- The posts that were made, and how the code that made them ends.
abbrev pub Sent : Type 0
Sent = List Post × Outcome (Unit {0})

-- `n.get(key)` with what `n` is: only a dict has `get`.
abbrev pub get_of : Text → Json → Outcome Json
get_of key (obj fs) = returns (get key fs)
get_of key j = raises attribute_error

-- the `except Exception` of a channel, which logs
abbrev pub swallow : Sent → List Post
swallow (posts, r) = posts

module _ (net : Net) where
  -- `_post`
  unfoldable pub post : Text → Bytes → List (Text × Text) → Sent
  post url body headers =
      let p : Post = record { url = url; body = body; headers = headers } in
      if not (starts_with https url) then ([], raises value_error) else (p ∷ [], net.urlopen p)

  -- What is evaluated before the call of `_post`.
  abbrev pub post_after : Outcome (Text × (Bytes × List (Text × Text))) → Sent
  post_after (raises e) = ([], raises e)
  post_after (returns (url, (body, headers))) = post url body headers

  -- `n.get('server', 'https://ntfy.sh').rstrip('/')`
  abbrev pub ntfy_server : Option Json → Outcome Text
  ntfy_server none = returns (codes "https://ntfy.sh")
  ntfy_server (some (str s)) = returns (rstrip_slash s)
  ntfy_server (some j) = raises attribute_error

  abbrev pub ntfy_headers : Fields → Message → List (Text × Text)
  ntfy_headers n m =
      let headers =
        (codes "Title", ascii m.title)
        ∷ (codes "Priority", m.priority)
        ∷ (codes "Tags", join_tags m.tags)
        ∷ [] in
      if is_true (get (codes "token") n)
      then headers
        ++ (codes "Authorization", codes "Bearer " ++ net.str_of (get (codes "token") n)) ∷ []
      else headers

  -- The body of the first `try`.
  unfoldable pub try_ntfy : Fields → Message → Sent
  try_ntfy n m = post_after (
      ntfy_server (find (codes "server") n) >>= λ server. net.encode m.message >>= λ body.
      returns (server ++ codes "/" ++ net.str_of (get (codes "topic") n), (body, ntfy_headers n m)))

  abbrev pub json_headers : List (Text × Text)
  json_headers = (codes "Content-Type", codes "application/json") ∷ []

  -- The body of the second `try`.
  unfoldable pub try_telegram : Fields → Message → Sent
  try_telegram t m =
      let body = net.dumps (
        obj (
          field (codes "chat_id") (get (codes "chat_id") t)
            (field (codes "text") (str (m.title ++ codes "\n" ++ m.message)) end))) in
      post
        (codes "https://api.telegram.org/bot"
          ++ net.str_of (get (codes "bot_token") t)
          ++ codes "/sendMessage")
        body json_headers

  -- The body of the third `try`: a value that is no text has no `startswith`.
  unfoldable pub try_webhook : Json → Message → Sent
  try_webhook (str url) m =
      post url
        (net.dumps
          (obj (field (codes "text") (str (codes "*" ++ m.title ++ codes "*\n" ++ m.message)) end)))
        json_headers
  try_webhook w m = ([], raises attribute_error)

  -- The three channels, each with its test. A test that raises ends `send_sync`.
  unfoldable pub ntfy : Json → Message → Outcome (List Post)
  ntfy (obj n) m = returns (if is_true (get (codes "topic") n) then swallow (try_ntfy n m) else [])
  ntfy n m = if is_true n then raises attribute_error else returns []

  unfoldable pub telegram : Json → Message → Outcome (List Post)
  telegram (obj t) m = returns (
      if is_true (get (codes "bot_token") t) && is_true (get (codes "chat_id") t)
      then swallow (try_telegram t m)
      else [])
  telegram t m = if is_true t then raises attribute_error else returns []

  unfoldable pub webhook : Json → Message → List Post
  webhook w m = if is_true w then swallow (try_webhook w m) else []

  -- One channel after the posts of those before it.
  abbrev pub then_posts : List Post → Outcome (List Post) → (List Post → Sent) → Sent
  then_posts before (returns posts) next = next (before ++ posts)
  then_posts before (raises e) next = (before, raises e)

  -- `send_sync`, on the settings under "alerts".
  unfoldable pub send_sync : Fields → Message → Sent
  send_sync cfg m = then_posts [] (ntfy (get (codes "ntfy") cfg) m) λ a.
      then_posts a (telegram (get (codes "telegram") cfg) m)
        λ b. (b ++ webhook (get (codes "webhook_url") cfg) m, returns tt)

  -- `send`, which swallows what `send_sync` raises.
  unfoldable pub send : Fields → Message → List Post
  send cfg m = swallow (send_sync cfg m)
