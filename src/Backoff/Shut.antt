-- ===== src/Backoff/Shut.antt =====
-- How long a key is locked after failures in a row (`Backoff` of listener.py).
use remote_unlock.Base.{
  ℕ, zero, suc, ◌+◌, ◌-◌, ◌*◌, ◌^◌, ◌≤◌, ◌≡◌, true, Text, List, [], ◌∷◌, ◌++◌, arith, length, min,
}
use native.Mathlib.Nat.{pow-suc}
use remote_unlock.Backoff.{Backoff, Entry, counted, fail, prune, remaining, lockout_length}
use remote_unlock.Backoff.Lockout.{remaining-fail_started}
use remote_unlock.Backoff.Threshold.{fail_all, falses}

abbrev pub last_of : ℕ → List ℕ → ℕ
last_of t [] = t
last_of t (u ∷ us) = last_of u us

pow_grows : (a k : ℕ) → a ≤ a * 2 ^ k
pow_grows a zero = omega arith
pow_grows a (suc k) = grind (arith, pow_grows a k, pow-suc 2 k)

-- A lockout is at least as long as the first.
lockout_length-le : (b : Backoff) (st : Entry) → min b.base b.maximum ≤ lockout_length b st
lockout_length-le b st = ground (arith, pow_grows b.base st.level)

fail_limits :
    (now : ℕ) (key : Text) (b : Backoff)
    → ((fail now key b).0.base ≡ b.base) × ((fail now key b).0.maximum ≡ b.maximum)
unfolding fail prune
fail_limits now key b = ground arith

-- If the last of the failures starts a lockout, that much of it is left at the time `u`.
pub fail_all-locked :
    (u t : ℕ) (ts : List ℕ) (key : Text) (b : Backoff)
    → (fail_all (t ∷ ts) key b).1 ≡ falses (length ts) ++ true ∷ []
    → last_of t ts + min b.base b.maximum - u ≤ remaining u key (fail_all (t ∷ ts) key b).0
unfolding fail_all
fail_all-locked u t [] key b h =
    let hit : (fail t key b).1 ≡ true = ground arith in
    omega (arith, remaining-fail_started t u key b hit, lockout_length-le b (counted t key b))
fail_all-locked u t (v ∷ ts) key b h =
    let rest : (fail_all (v ∷ ts) key (fail t key b).0).1 ≡ falses (length ts) ++ true ∷ [] =
      ground arith in
    ground (arith, fail_all-locked u v ts key (fail t key b).0 rest, fail_limits t key b)
