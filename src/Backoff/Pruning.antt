-- ===== src/Backoff/Pruning.antt =====
-- `Backoff` (listener.py) beside a reference that never deletes an entry.
use remote_unlock.Base.{
  ℕ, ◌-◌, ◌≡◌, refl, ap, Option, none, some, List, [], ◌∷◌, Text, Text-discrete, arith,
}
use mathlib.Core.Path.{ap₂}
use remote_unlock.Base.Dict.{lookup}
use remote_unlock.Backoff.{Entry, Backoff, init, remaining, fail}
use remote_unlock.Backoff.Reference.{
  Query, time, InOrder, fail_keeping, answer_with, replies_with, fails, succeeds, asks, hit, left,
}
use remote_unlock.Backoff.Simulation.{
  Agree, Simulates, Simulates-later, remove-Simulates, fail-Simulates, written-Agree,
}

-- `remaining`, of what is held under the key.
abbrev left_of : ℕ → Option Entry → ℕ
left_of now none = 0
left_of now (some st) = st.until - now

Agree-left_of :
    (q now : ℕ) (o o' : Option Entry) → Agree q now o o' → left_of now o ≡ left_of now o'
Agree-left_of q now none none a = refl
Agree-left_of q now none (some e) a = ground arith
Agree-left_of q now (some d) none a = absurd a
Agree-left_of q now (some d) (some e) a = ground arith

remaining_lem :
    (now : ℕ) (key : Text) (b : Backoff)
    → remaining now key b ≡ left_of now (lookup Text-discrete key b.state)
unfolding remaining
remaining_lem now key b = go (lookup Text-discrete key b.state)
  where
    go : (o : Option Entry) → elim o [ none ↦ 0 | some st ↦ st.until - now ] ≡ left_of now o
    go none = refl
    go (some st) = refl

remaining_same :
    (now : ℕ) (key : Text) (b r : Backoff)
    → Simulates now b r
    → remaining now key b ≡ remaining now key r
remaining_same now key b r s =
    rw (remaining_lem now key b, remaining_lem now key r)
      (Agree-left_of b.quiet_reset now (lookup Text-discrete key b.state)
        (lookup Text-discrete key r.state) (s.agree key))

answer-Simulates :
    (c : Query) (b r : Backoff)
    → Simulates (time c) b r
    → Simulates (time c) (answer_with fail c b).0 (answer_with fail_keeping c r).0
      × ((answer_with fail c b).1 ≡ (answer_with fail_keeping c r).1)
unfolding answer_with
answer-Simulates (fails now key) b r s =
    (fail-Simulates now key b r s, ap hit (written-Agree now key b r s).1)
answer-Simulates (succeeds now key) b r s = (remove-Simulates now key b r s, refl)
answer-Simulates (asks now key) b r s = (s, ap left (remaining_same now key b r s))

replies_same :
    (now : ℕ) (cs : List Query) (b r : Backoff)
    → InOrder now cs
    → Simulates now b r
    → replies_with fail cs b ≡ replies_with fail_keeping cs r
unfolding replies_with
replies_same now [] b r o s = refl
replies_same now (c ∷ cs) b r o s =
    let (s', same) = answer-Simulates c b r (Simulates-later now (time c) b r o.0 s) in
    ap₂ ◌∷◌ same
      (replies_same (time c) cs (answer_with fail c b).0 (answer_with fail_keeping c r).0 o.1 s')

init-Simulates :
    (threshold base maximum quiet_reset : ℕ)
    → Simulates 0
        (init threshold base maximum quiet_reset)
        (init threshold base maximum quiet_reset)
unfolding lookup
init-Simulates threshold base maximum quiet_reset = record {
  threshold = refl;
  base = refl;
  maximum = refl;
  quiet_reset = refl;
  valid = tt;
  agree = λ j. tt;
}

-- Deleting stale entries is not observable: over any queries in the order of the clock, on a new
-- `Backoff`, each failure starts a lockout, and each key has as much left of its lockout, as if
-- nothing were ever deleted.
pub replies-fail_keeping :
    (threshold base maximum quiet_reset : ℕ) (cs : List Query)
    → InOrder 0 cs
    → replies_with fail cs (init threshold base maximum quiet_reset)
      ≡ replies_with fail_keeping cs (init threshold base maximum quiet_reset)
replies-fail_keeping threshold base maximum quiet_reset cs o =
    replies_same 0 cs _ _ o (init-Simulates threshold base maximum quiet_reset)
