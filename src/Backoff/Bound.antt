-- ===== src/Backoff/Bound.antt =====
-- `Backoff` (listener.py) over histories of failures and successes.
use remote_unlock.Base.{
  ℕ, ◌+◌, ◌≤◌, ◌≡◌, refl, Text, Text-discrete, List, [], ◌∷◌, arith, All, inl, inr, Option-cases,
}
use remote_unlock.Base.Dict.{lookup, All-insert, All-remove, All-keep_if, All-lookup}
use remote_unlock.Backoff.Lockout.{written, fail_writes}
use remote_unlock.Backoff.{
  Entry, Backoff, init, remaining, counted, put, is_kept, prune, fail, success,
}

-- A call on some key, at a reading of the clock.
pub data Call : Type 0 where
  fails succeeds : ℕ → Text → Call

abbrev pub time : Call → ℕ
time (fails now key) = now
time (succeeds now key) = now

unfoldable pub step : Backoff → Call → Backoff
step b (fails now key) = (fail now key b).0
step b (succeeds now key) = success key b

unfoldable pub run : List Call → Backoff → Backoff
run [] b = b
run (c ∷ cs) b = run cs (step b c)

-- The clock does not go back from one call to the next.
abbrev pub InOrder : ℕ → List Call → Type 0
InOrder now [] = Unit
InOrder now (c ∷ cs) = (now ≤ time c) × InOrder (time c) cs

abbrev pub last_time : ℕ → List Call → ℕ
last_time now [] = now
last_time now (c ∷ cs) = last_time (time c) cs

abbrev EndsBy : ℕ → Text × Entry → Type 0
EndsBy t e = e.1.until ≤ t

abbrev pub IsBounded : ℕ → Backoff → Type 0
IsBounded now b = All (EndsBy (now + b.maximum)) b.state

All-EndsBy_mono : (s t : ℕ) (d : List (Text × Entry)) → s ≤ t → All (EndsBy s) d → All (EndsBy t) d
All-EndsBy_mono s t [] le a = tt
All-EndsBy_mono s t (e ∷ d) le a = (omega arith, All-EndsBy_mono s t d le a.1)

pub IsBounded-later : (now t : ℕ) (b : Backoff) → now ≤ t → IsBounded now b → IsBounded t b
IsBounded-later now t b le h = All-EndsBy_mono _ _ b.state (omega arith) h

put-IsBounded :
    (now : ℕ) (key : Text) (st : Entry) (b : Backoff)
    → IsBounded now b
    → st.until ≤ now + b.maximum
    → IsBounded now (put key st b)
put-IsBounded now key st b h le = All-insert Text-discrete (EndsBy _) key st b.state le h

prune-IsBounded : (now : ℕ) (b : Backoff) → IsBounded now b → IsBounded now (prune now b)
unfolding prune
prune-IsBounded now b h = All-keep_if Text-discrete (EndsBy _) (is_kept b.quiet_reset now) b.state h

counted-EndsBy :
    (now : ℕ) (key : Text) (b : Backoff)
    → IsBounded now b
    → (counted now key b).until ≤ now + b.maximum
unfolding counted
counted-EndsBy now key b h = elim (Option-cases (lookup Text-discrete key b.state)) [
  | inl e ↦ ground arith
  | inr (st, e) ↦
      ground (arith, All-lookup Text-discrete (EndsBy (now + b.maximum)) key st b.state h e)
]

written-EndsBy :
    (now : ℕ) (key : Text) (b : Backoff)
    → IsBounded now b
    → (written now key b).until ≤ now + b.maximum
unfolding written
written-EndsBy now key b h = ground (arith, counted-EndsBy now key b h)

pub fail-IsBounded :
    (now : ℕ) (key : Text) (b : Backoff) → IsBounded now b → IsBounded now (fail now key b).0
fail-IsBounded now key b h =
    let st = written now key b in
    let wrote = put-IsBounded now key st b h (written-EndsBy now key b h) in
    elim (fail_writes now key b) [
      | inl e ↦ rw e wrote
      | inr e ↦ rw e (prune-IsBounded now (put key st b) wrote)
    ]

pub success-IsBounded :
    (now : ℕ) (key : Text) (b : Backoff) → IsBounded now b → IsBounded now (success key b)
unfolding success
success-IsBounded now key b h = All-remove Text-discrete (EndsBy _) key b.state h

pub fail-maximum : (now : ℕ) (key : Text) (b : Backoff) → (fail now key b).0.maximum ≡ b.maximum
unfolding fail prune
fail-maximum now key b = ground arith

step-IsBounded :
    (now : ℕ) (b : Backoff) (c : Call)
    → now ≤ time c
    → IsBounded now b
    → IsBounded (time c) (step b c) × ((step b c).maximum ≡ b.maximum)
unfolding step success
step-IsBounded now b (fails t key) le h =
    (fail-IsBounded t key b (IsBounded-later now t b le h), fail-maximum t key b)
step-IsBounded now b (succeeds t key) le h =
    (success-IsBounded t key b (IsBounded-later now t b le h), refl)

run-IsBounded :
    (now : ℕ) (cs : List Call) (b : Backoff)
    → InOrder now cs
    → IsBounded now b
    → IsBounded (last_time now cs) (run cs b) × ((run cs b).maximum ≡ b.maximum)
unfolding run
run-IsBounded now [] b o h = (h, refl)
run-IsBounded now (c ∷ cs) b o h =
    let (h', e) = step-IsBounded now b c o.0 h in
    let (h'', e') = run-IsBounded (time c) cs (step b c) o.1 h' in (h'', cc)

pub remaining-le :
    (now t : ℕ) (key : Text) (b : Backoff)
    → IsBounded now b
    → now ≤ t
    → remaining t key b ≤ b.maximum
unfolding remaining
remaining-le now t key b h le = elim (Option-cases (lookup Text-discrete key b.state)) [
  | inl e ↦ ground arith
  | inr (st, e) ↦
      ground (arith, All-lookup Text-discrete (EndsBy (now + b.maximum)) key st b.state h e)
]

-- After any calls in the order of the clock, on a new `Backoff`, at any later time, every key has
-- at most `maximum` left of its lockout.
pub remaining-run-le :
    (threshold base maximum quiet_reset : ℕ) (cs : List Call) (t : ℕ) (key : Text)
    → InOrder 0 cs
    → last_time 0 cs ≤ t
    → remaining t key (run cs (init threshold base maximum quiet_reset)) ≤ maximum
remaining-run-le threshold base maximum quiet_reset cs t key o le =
    let b = init threshold base maximum quiet_reset in
    let (h, e) = run-IsBounded 0 cs b o tt in
    omega (arith, remaining-le (last_time 0 cs) t key (run cs b) h le, e)
