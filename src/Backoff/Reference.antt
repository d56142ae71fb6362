-- ===== src/Backoff/Reference.antt =====
-- Queries to `Backoff` (listener.py), and a reference that never deletes an entry.
use remote_unlock.Base.{
  ℕ, ◌+◌, ◌≤◌, Bool, true, false, List, [], ◌∷◌, Text, ltb, leb, if◌then◌else◌,
}
use remote_unlock.Backoff.{Backoff, remaining, counted, put, lockout_length, success}

-- What a caller asks, at a reading of the clock.
pub data Query : Type 0 where
  fails succeeds asks : ℕ → Text → Query

-- What it is told.
pub data Reply : Type 0 where
  hit : Bool → Reply
  left : ℕ → Reply
  done : Reply

abbrev pub time : Query → ℕ
time (fails now key) = now
time (succeeds now key) = now
time (asks now key) = now

-- The clock does not go back from one query to the next.
abbrev pub InOrder : ℕ → List Query → Type 0
InOrder now [] = Unit
InOrder now (c ∷ cs) = (now ≤ time c) × InOrder (time c) cs

-- The reference: a failure is counted and locks out in the same way, and nothing is deleted.
unfoldable pub fail_keeping : ℕ → Text → Backoff → Backoff × Bool
fail_keeping now key b =
    let st = counted now key b in
    if ltb now st.until
    then (put key (record st { last = now }) b, false)
    else if leb b.threshold (st.fails + 1)
    then (
      put key
          (record {
            fails = 0;
            level = st.level + 1;
            until = now + lockout_length b st;
            last = now;
          })
          b,
      true,
    )
    else (put key (record st { fails = st.fails + 1; last = now }) b, false)

-- A query answered with one of the two failure functions.
unfoldable pub answer_with :
    (ℕ → Text → Backoff → Backoff × Bool) → Query → Backoff → Backoff × Reply
answer_with f (fails now key) b = let (b', h) = f now key b in (b', hit h)
answer_with f (succeeds now key) b = (success key b, done)
answer_with f (asks now key) b = (b, left (remaining now key b))

unfoldable pub replies_with :
    (ℕ → Text → Backoff → Backoff × Bool) → List Query → Backoff → List Reply
replies_with f [] b = []
replies_with f (c ∷ cs) b = let (b', r) = answer_with f c b in r ∷ replies_with f cs b'
