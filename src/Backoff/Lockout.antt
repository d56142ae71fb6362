-- ===== src/Backoff/Lockout.antt =====
-- When `fail` starts a lockout, how long it lasts, and what it leaves alone.
use remote_unlock.Base.{
  ltb, leb, if◌then◌else◌, ◌⊎◌, ℕ, ◌+◌, ◌-◌, ◌≤◌, ◌<◌, ◌≡◌, ◌≢◌, ◌↔◌, true, false, some, Text,
  Text-discrete, arith, inl, inr, Option-cases,
}
use remote_unlock.Base.Dict.{
  lookup, lookup-insert, lookup-remove, Distinct, insert-Distinct, remove-Distinct, lookup-keep_if,
  keep_if-Distinct,
}
use remote_unlock.Backoff.{
  Entry, Backoff, remaining, counted, put, is_kept, prune, lockout_length, fail, success,
}

abbrev pub IsValid : Backoff → Type 0
IsValid b = Distinct Text-discrete b.state

-- The lookup of a key after a write of it.
pub lookup-put_self :
    (key : Text) (st : Entry) (b : Backoff)
    → lookup Text-discrete key (put key st b).state ≡ some st
lookup-put_self key st b = ground (arith, lookup-insert Text-discrete key key st b.state)

lookup-put_ne :
    (key j : Text) (st : Entry) (b : Backoff)
    → j ≢ key
    → lookup Text-discrete j (put key st b).state ≡ lookup Text-discrete j b.state
lookup-put_ne key j st b ne = ground (arith, lookup-insert Text-discrete j key st b.state)

-- A `fail` returns true exactly when the key is not locked and the count reaches the threshold.
pub fail_starts :
    (now : ℕ) (key : Text) (b : Backoff)
    → let st = counted now key b in
      ((fail now key b).1 ≡ true) ↔ ((st.until ≤ now) × (b.threshold ≤ st.fails + 1))
unfolding fail
fail_starts now key b = ground arith

-- The lockout that a failure starts.
pub remaining-fail_started :
    (now t : ℕ) (key : Text) (b : Backoff)
    → (fail now key b).1 ≡ true
    → remaining t key (fail now key b).0 ≡ now + lockout_length b (counted now key b) - t
unfolding fail remaining
remaining-fail_started now t key b h = ground (
  arith,
  lookup-put_self key
      (record {
        fails = 0;
        level = (counted now key b).level + 1;
        until = now + lockout_length b (counted now key b);
        last = now;
      })
      b,
)

pub fail_locked :
    (now t : ℕ) (key : Text) (b : Backoff)
    → 0 < remaining now key b
    → ((fail now key b).1 ≡ false) × (remaining t key (fail now key b).0 ≡ remaining t key b)
unfolding fail remaining counted
fail_locked now t key b h = elim (Option-cases (lookup Text-discrete key b.state)) [
  | inl e ↦ absurd (ground arith)
  | inr (st, e) ↦ ground (arith, lookup-put_self key (record st { last = now }) b)
]

-- Deleting the stale entries frees nobody who is locked.
remaining-prune :
    (now t : ℕ) (j : Text) (b : Backoff)
    → IsValid b
    → now ≤ t
    → remaining t j (prune now b) ≡ remaining t j b
unfolding remaining prune
remaining-prune now t j b v le =
    ground (arith, lookup-keep_if Text-discrete (is_kept b.quiet_reset now) j b.state v)

pub put-IsValid : (key : Text) (st : Entry) (b : Backoff) → IsValid b → IsValid (put key st b)
put-IsValid key st b v = insert-Distinct Text-discrete key st b.state v

remaining-put_ne :
    (t : ℕ) (key j : Text) (st : Entry) (b : Backoff)
    → j ≢ key
    → remaining t j (put key st b) ≡ remaining t j b
unfolding remaining
remaining-put_ne t key j st b ne = ground (arith, lookup-put_ne key j st b ne)

-- A failure of one key leaves every other key locked for as long as before, pruning included.
pub remaining-fail_ne :
    (now t : ℕ) (key j : Text) (b : Backoff)
    → IsValid b
    → j ≢ key
    → now ≤ t
    → remaining t j (fail now key b).0 ≡ remaining t j b
unfolding fail
remaining-fail_ne now t key j b v ne le =
    grind (arith, remaining-put_ne, remaining-prune, put-IsValid)

prune-IsValid : (now : ℕ) (b : Backoff) → IsValid b → IsValid (prune now b)
unfolding prune
prune-IsValid now b v = keep_if-Distinct Text-discrete (is_kept b.quiet_reset now) b.state v

pub fail-IsValid : (now : ℕ) (key : Text) (b : Backoff) → IsValid b → IsValid (fail now key b).0
unfolding fail
fail-IsValid now key b v = grind (arith, put-IsValid, prune-IsValid)

pub success-IsValid : (key : Text) (b : Backoff) → IsValid b → IsValid (success key b)
unfolding success
success-IsValid key b v = remove-Distinct Text-discrete key b.state v

-- After a success the key is not locked, and every other key is as locked as before.
pub remaining-success :
    (t : ℕ) (key j : Text) (b : Backoff)
    → (remaining t key (success key b) ≡ 0)
      × (j ≢ key → remaining t j (success key b) ≡ remaining t j b)
unfolding remaining success
remaining-success t key j b = (
  ground (arith, lookup-remove Text-discrete key key b.state),
  λ ne. ground (arith, lookup-remove Text-discrete j key b.state),
)

-- The entry that `fail` leaves under the key.
unfoldable pub written : ℕ → Text → Backoff → Entry
written now key b =
    let st = counted now key b in
    if ltb now st.until
    then record st { last = now }
    else if leb b.threshold (st.fails + 1)
    then record { fails = 0; level = st.level + 1; until = now + lockout_length b st; last = now }
    else record st { fails = st.fails + 1; last = now }

pub fail_writes :
    (now : ℕ) (key : Text) (b : Backoff)
    → ((fail now key b).0 ≡ put key (written now key b) b)
      ⊎ ((fail now key b).0 ≡ prune now (put key (written now key b) b))
unfolding fail written
fail_writes now key b = ground arith
