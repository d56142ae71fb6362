-- ===== src/Service/Promise.antt =====
-- What the service promises, without its data: a machine that knows which nonces may still be
-- answered, and whether a login may proceed. It is what the module docstring of listener.py and the
-- comments of `GrantBroker` and `check_response` describe: nonces of one use, and grants of one use
-- that only an unlock gives.
pub mod Refines
use remote_unlock.Base.{ℕ, ◌+◌, ◌≤◌, ◌≡◌, List, [], ◌∷◌, Text, Text-discrete, ite, arith}

pub record Promise : Type 0 where
  -- 1 if the nonce may be answered
  pub pending : Text → ℕ
  -- 1 if a login may proceed
  pub grant : ℕ

-- What an observer sees of a step.
pub data Label : Type 0 where
  silent : Label
  -- a nonce is drawn
  draws : Text → Label
  -- a phone that answers the nonce is told that it may unlock
  unlocks : Text → Label
  -- a login is allowed to proceed
  logs_in : Label

unfoldable pub same_text : Text → Text → ℕ
same_text m n = ite (Text-discrete m n) 1 0

-- At any time nonces and the grant may lapse. A nonce may be drawn. An unlock needs its nonce, uses
-- it up, and may give a grant. A login needs the grant and uses it up.
pub data Permits : Promise → Label → Promise → Type 0 where
  lapse :
      {p q : Promise}
      → ((n : Text) → q.pending n ≤ p.pending n)
      → q.grant ≤ p.grant
      → Permits p silent q
  draw :
      {p q : Promise} (n : Text)
      → ((m : Text) → q.pending m ≤ p.pending m + same_text m n)
      → q.grant ≤ p.grant
      → Permits p (draws n) q
  unlock :
      {p q : Promise} (n : Text)
      → p.pending n ≡ 1
      → q.pending n ≡ 0
      → ((m : Text) → q.pending m ≤ p.pending m)
      → q.grant ≤ 1
      → Permits p (unlocks n) q
  login :
      {p q : Promise}
      → ((n : Text) → q.pending n ≤ p.pending n)
      → p.grant ≡ 1
      → q.grant ≡ 0
      → Permits p logs_in q

pub data Runs : Promise → List Label → Promise → Type 0 where
  rests : {p : Promise} → Runs p [] p
  goes :
      {p q r : Promise} {l : Label} {ls : List Label}
      → Permits p l q
      → Runs q ls r
      → Runs p (l ∷ ls) r

abbrev pub logins : List Label → ℕ
logins [] = 0
logins (logs_in ∷ ls) = 1 + logins ls
logins (l ∷ ls) = logins ls

abbrev pub all_unlocks : List Label → ℕ
all_unlocks [] = 0
all_unlocks (unlocks n ∷ ls) = 1 + all_unlocks ls
all_unlocks (l ∷ ls) = all_unlocks ls

-- Every login is paid for by an unlock, but for a grant that was there at the start.
pub logins-le :
    (p r : Promise) (ls : List Label) → Runs p ls r → logins ls + r.grant ≤ all_unlocks ls + p.grant
logins-le p _ _ Runs.rests = omega arith
logins-le p r _ (Runs.goes (Permits.lapse pending grant) rest) =
    omega (arith, logins-le _ r _ rest, grant)
logins-le p r _ (Runs.goes (Permits.draw n pending grant) rest) =
    omega (arith, logins-le _ r _ rest, grant)
logins-le p r _ (Runs.goes (Permits.unlock n had gone pending grant) rest) =
    omega (arith, logins-le _ r _ rest, grant)
logins-le p r _ (Runs.goes (Permits.login pending had gone) rest) =
    omega (arith, logins-le _ r _ rest, had, gone)
