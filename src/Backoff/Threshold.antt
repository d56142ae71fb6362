-- ===== src/Backoff/Threshold.antt =====
-- `Backoff` (listener.py) under failures in a row.
use remote_unlock.Base.{
  ℕ, suc, ◌+◌, ◌≤◌, ◌<◌, ◌≡◌, Bool, true, false, none, some, Text, Text-discrete, List, [], ◌∷◌,
  ◌++◌, arith, length, inl, inr, zero, ap,
}
use mathlib.Core.Path.{ap₂, sym, subst}
use remote_unlock.Base.Dict.{lookup, lookup-keep_if}
use remote_unlock.Backoff.{Entry, Backoff, counted, put, is_kept, prune, fail}
use remote_unlock.Backoff.Lockout.{
  IsValid, fail-IsValid, put-IsValid, lookup-put_self, written, fail_writes, fail_starts,
}

-- Failures of one key at the times listed: the state, and what each call returned.
unfoldable pub fail_all : List ℕ → Text → Backoff → Backoff × List Bool
fail_all [] key b = (b, [])
fail_all (t ∷ ts) key b =
    let (b', hit) = fail t key b in let (b'', hits) = fail_all ts key b' in (b'', hit ∷ hits)

-- Each time follows the one before it by no more than `quiet`.
abbrev pub Steady : ℕ → ℕ → List ℕ → Type 0
Steady quiet s [] = Unit
Steady quiet s (t ∷ ts) = (s ≤ t) × (t ≤ s + quiet) × Steady quiet t ts

-- At any time up to `quiet_reset` after `s` the key counts `k` failures and is not locked.
abbrev Ready : Text → ℕ → ℕ → Backoff → Type 0
Ready key k s b =
    (t : ℕ)
    → s ≤ t
    → t ≤ s + b.quiet_reset
    → ((counted t key b).fails ≡ k) × ((counted t key b).until ≤ t)

lookup-prune_fresh :
    (now : ℕ) (key : Text) (st : Entry) (b : Backoff)
    → IsValid b
    → lookup Text-discrete key b.state ≡ some st
    → now ≤ st.last
    → lookup Text-discrete key (prune now b).state ≡ some st
unfolding prune
lookup-prune_fresh now key st b v e le =
    ground (arith, lookup-keep_if Text-discrete (is_kept b.quiet_reset now) key b.state v)

written-last : (now : ℕ) (key : Text) (b : Backoff) → (written now key b).last ≡ now
unfolding written
written-last now key b = ground arith

-- What a failure writes is there afterwards: pruning spares it.
lookup-fail :
    (now : ℕ) (key : Text) (b : Backoff)
    → IsValid b
    → lookup Text-discrete key (fail now key b).0.state ≡ some (written now key b)
lookup-fail now key b v =
    let st = written now key b in
    let found = lookup-put_self key st b in
    elim (fail_writes now key b) [
      | inl e ↦ rw e found
      | inr e ↦ rw e (
          lookup-prune_fresh now key st (put key st b) (put-IsValid key st b v) found
            (omega (arith, written-last now key b)))
    ]

fail_settings :
    (now : ℕ) (key : Text) (b : Backoff)
    → ((fail now key b).0.threshold ≡ b.threshold)
      × ((fail now key b).0.quiet_reset ≡ b.quiet_reset)
unfolding fail prune
fail_settings now key b = ground arith

fail_below :
    (t k : ℕ) (key : Text) (b : Backoff)
    → (counted t key b).fails ≡ k
    → k + 1 < b.threshold
    → (fail t key b).1 ≡ false
unfolding fail
fail_below t k key b count lt = ground arith

written-Ready :
    (t k : ℕ) (key : Text) (b b' : Backoff)
    → lookup Text-discrete key b'.state ≡ some (written t key b)
    → b'.quiet_reset ≡ b.quiet_reset
    → (counted t key b).fails ≡ k
    → (counted t key b).until ≤ t
    → k + 1 < b.threshold
    → Ready key (k + 1) t b'
unfolding counted written
written-Ready t k key b b' found same count free lt u lo hi = ground arith

-- A failure below the threshold is counted, and starts no lockout.
fail-Ready :
    (t s k : ℕ) (key : Text) (b : Backoff)
    → IsValid b
    → Ready key k s b
    → s ≤ t
    → t ≤ s + b.quiet_reset
    → k + 1 < b.threshold
    → Ready key (k + 1) t (fail t key b).0 × ((fail t key b).1 ≡ false)
fail-Ready t s k key b v ready lo hi lt =
    let (count, free) = ready t lo hi in
    (
      written-Ready t k key b (fail t key b).0 (lookup-fail t key b v) (fail_settings t key b).1
          count free lt,
      fail_below t k key b count lt,
    )

abbrev pub falses : ℕ → List Bool
falses zero = []
falses (suc n) = false ∷ falses n

fail_all-hits :
    (ts : List ℕ) (t s k : ℕ) (key : Text) (b : Backoff)
    → IsValid b
    → Ready key k s b
    → Steady b.quiet_reset s (t ∷ ts)
    → k + length (t ∷ ts) ≡ b.threshold
    → (fail_all (t ∷ ts) key b).1 ≡ falses (length ts) ++ true ∷ []
unfolding fail_all
fail_all-hits [] t s k key b v ready steady e =
    let (count, free) = ready t steady.0 steady.1 in
    let hit : (fail t key b).1 ≡ true = (fail_starts t key b).1 (free, omega arith) in
    ap (λ (h : Bool). h ∷ []) hit
fail_all-hits (u ∷ us) t s k key b v ready steady e =
    let (ready', miss) = fail-Ready t s k key b v ready steady.0 steady.1 (omega arith) in
    let (same, quiet) = fail_settings t key b in
    let rest =
      fail_all-hits us u t (k + 1) key (fail t key b).0 (fail-IsValid t key b v) ready'
        (subst (λ q. Steady q t (u ∷ us)) (sym quiet) steady.2) (omega (arith, same)) in
    ap₂ (λ (h : Bool) hs. h ∷ hs) miss rest

-- From an unknown key of a valid state, `threshold` failures in a row, each within the quiet time
-- of the one before, start a lockout at the last of them and at no other.
pub locks_at_threshold :
    (t : ℕ) (ts : List ℕ) (key : Text) (b : Backoff)
    → IsValid b
    → lookup Text-discrete key b.state ≡ none
    → Steady b.quiet_reset t ts
    → length (t ∷ ts) ≡ b.threshold
    → (fail_all (t ∷ ts) key b).1 ≡ falses (length ts) ++ true ∷ []
unfolding counted
locks_at_threshold t ts key b v new steady e =
    fail_all-hits ts t t 0 key b v (λ u lo hi. (ground arith, ground arith))
      (omega arith, omega arith, steady) (omega arith)
