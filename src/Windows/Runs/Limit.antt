-- ===== src/Windows/Runs/Limit.antt =====
-- The rate limit of `verify` of windows/listener_windows.py over a run.
use remote_unlock.Base.{
  ℕ, ◌+◌, ◌≤◌, ◌<◌, ◌≡◌, refl, Bool, true, false, ◌⊎◌, inl, inr, List, [], ◌∷◌, ◌++◌, Text, arith,
  Bool-cases, Option-cases, Text-discrete, All, length, leb, if◌then◌else◌,
}
use remote_unlock.Base.Dict.{lookup}
use remote_unlock.Protocol.Signature.{Crypto}
use remote_unlock.Windows.{
  Tables, Response, issue_challenge, drop_old, rate_limited, rate_limit_window,
  rate_limit_max_fails, judge, take_nonce, verify,
}
use remote_unlock.Windows.Runs.{
  Event, challenges, verifies, time_of, InOrder, KnownAction, is_known, bit, new_tables, step,
  refuses, refused,
}

-- The times from `a` on.
since : ℕ → List ℕ → ℕ
since a [] = 0
since a (t ∷ ts) = bit (leb a t) + since a ts

since-append : (a now : ℕ) (ts : List ℕ) → since a (ts ++ now ∷ []) ≡ since a ts + bit (leb a now)
unfolding since
since-append a now [] = ground arith
since-append a now (t ∷ ts) = ground (arith, since-append a now ts)

since-le-length : (a : ℕ) (ts : List ℕ) → since a ts ≤ length ts
unfolding since
since-le-length a [] = ground arith
since-le-length a (t ∷ ts) = ground (arith, since-le-length a ts)

-- What is dropped within the window is older than its start.
since-drop_old :
    (a now : ℕ) (ts : List ℕ) → now ≤ a + rate_limit_window → since a (drop_old now ts) ≡ since a ts
unfolding since drop_old
since-drop_old a now [] h = refl
since-drop_old a now (t ∷ ts) h = ground (arith, since-drop_old a now ts h)

module _ {PrivateKey PublicKey : Type 0} (c : Crypto PrivateKey PublicKey) (float_text : ℕ → Text)
    (laptop_key : PrivateKey) (phone_key : PublicKey) where
  -- A response that is judged and refused is recorded, and nothing else is.
  abbrev Records : ℕ → Tables → Tables × Bool → Type 0
  Records now s (s', true) = s'.fail_times ≡ s.fail_times
  Records now s (s', false) = s'.fail_times ≡ s.fail_times ++ now ∷ []

  judge-Records :
      (now : ℕ) (r : Response) (t : ℕ) (s : Tables)
      → Records now s (judge c float_text phone_key now r t s)
  unfolding judge
  judge-Records now r t s = ground arith

  take_nonce-Records :
      (now : ℕ) (r : Response) (s : Tables)
      → Records now s (take_nonce c float_text phone_key now r s)
  unfolding take_nonce
  take_nonce-Records now r s = elim (Option-cases (lookup Text-discrete r.nonce s.pending_nonces)) [
    | inl e ↦ rw (e, take_nonce) refl
    | inr (t, e) ↦ rw (e, take_nonce) (judge-Records now r t _)
  ]

  -- A call that judges has kept fewer failures than the limit; one that does not records nothing.
  verify_lem :
      (now : ℕ) (r : Response) (s : Tables)
      → is_known r.action ≡ true
      → let kept = drop_old now s.fail_times in
        let (s', ok) = verify c float_text phone_key now r s in
        (((rate_limited now s).1 ≡ true) × (s'.fail_times ≡ kept))
        ⊎ (((rate_limited now s).1 ≡ false)
            × (length kept < rate_limit_max_fails)
            × (s'.fail_times ≡ (if ok then kept else kept ++ now ∷ [])))
  unfolding verify rate_limited
  verify_lem now r s k = elim (Bool-cases (rate_limited now s).1) [
    | inl limited ↦ inl (limited, ground arith)
    | inr free ↦
        inr (free, ground arith, ground (arith, take_nonce-Records now r (rate_limited now s).0))
  ]

  -- One call within the window or before it.
  refuses-step :
      (a : ℕ) (e : Event) (s : Tables)
      → KnownAction e
      → time_of e ≤ a + rate_limit_window
      → since a s.fail_times ≤ rate_limit_max_fails
      → let kept = (step c float_text laptop_key phone_key e s).fail_times in
        (refuses c float_text laptop_key phone_key a e s + since a s.fail_times ≤ since a kept)
        × (since a kept ≤ rate_limit_max_fails)
  unfolding step refuses issue_challenge
  refuses-step a (challenges token random now) s k h m = (omega arith, m)
  refuses-step a (verifies now r) s k h m =
      let ft = s.fail_times in
      ground (
        arith,
        verify_lem now r s k,
        since-drop_old a now ft h,
        since-le-length a (drop_old now ft),
        since-append a now (drop_old now ft),
      )

  -- After the window nothing counts.
  refused_later :
      (a : ℕ) (es : List Event) (s : Tables) (t : ℕ)
      → a + rate_limit_window < t
      → InOrder t es
      → refused c float_text laptop_key phone_key a es s ≡ 0
  unfolding refused refuses
  refused_later a [] s t h o = refl
  refused_later a (challenges token random now ∷ es) s t h o = omega (
    arith,
    refused_later a es (step c float_text laptop_key phone_key (challenges token random now) s) now
        (omega (arith, o.0)) o.1,
  )
  refused_later a (verifies now r ∷ es) s t h o = ground (
    arith,
    refused_later a es (step c float_text laptop_key phone_key (verifies now r) s) now,
    o.0,
    o.1,
  )

  refused_bounded :
      (a : ℕ) (es : List Event) (s : Tables) (t : ℕ)
      → InOrder t es
      → All KnownAction es
      → since a s.fail_times ≤ rate_limit_max_fails
      → refused c float_text laptop_key phone_key a es s + since a s.fail_times
        ≤ rate_limit_max_fails
  unfolding refused
  refused_bounded a [] s t o k m = ground arith
  refused_bounded a (e ∷ es) s t o k m =
      elim (Bool-cases (leb (time_of e) (a + rate_limit_window))) [
        | inl within ↦
            let s' = step c float_text laptop_key phone_key e s in
            let (paid, kept) = refuses-step a e s k.0 (ground arith) m in
            let later = refused_bounded a es s' (time_of e) o.1 k.1 kept in
            omega (arith, paid, later)
        | inr after ↦
            let zero_ = refused_later a (e ∷ es) s (time_of e) (ground arith) (omega arith, o.1) in
            omega (arith, zero_, m)
      ]

  -- In any run from the start, in the order of the clock and with the actions that the handler lets
  -- through, at most 5 responses are judged and refused within any 60 seconds.
  pub refused-le-max :
      (a : ℕ) (es : List Event) (t : ℕ)
      → InOrder t es
      → All KnownAction es
      → refused c float_text laptop_key phone_key a es new_tables ≤ rate_limit_max_fails
  unfolding since
  refused-le-max a es t o k = omega (arith, refused_bounded a es new_tables t o k (omega arith))
