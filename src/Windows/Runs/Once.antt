-- ===== src/Windows/Runs/Once.antt =====
-- A nonce is accepted once: runs of `verify` of windows/listener_windows.py.
use remote_unlock.Base.{
  ℕ, ◌+◌, ◌≤◌, ◌≡◌, refl, Bool, true, false, inl, inr, List, [], ◌∷◌, Text, text_eq_iff, arith,
  Bool-cases, Option-cases, Text-discrete,
}
use remote_unlock.Base.Dict.{lookup}
use remote_unlock.Protocol.Signature.{Crypto}
use remote_unlock.Windows.{
  Tables, Response, is_used, issue_challenge, rate_limited, judge, take_nonce, verify,
}
use remote_unlock.Windows.Accepted.{verify-true}
use remote_unlock.Windows.Runs.{Event, challenges, verifies, bit, step, accepts, accepted}

-- The used nonces after a call that accepts, or does not.
abbrev Uses : Response → Tables → Tables × Bool → Type 0
Uses r s (s', true) = s'.used_nonces ≡ r.nonce ∷ s.used_nonces
Uses r s (s', false) = s'.used_nonces ≡ s.used_nonces

module _ {PrivateKey PublicKey : Type 0} (c : Crypto PrivateKey PublicKey) (float_text : ℕ → Text)
    (laptop_key : PrivateKey) (phone_key : PublicKey) where
  judge-Uses :
      (now : ℕ) (r : Response) (t : ℕ) (s : Tables)
      → Uses r s (judge c float_text phone_key now r t s)
  unfolding judge
  judge-Uses now r t s = ground arith

  take_nonce-Uses :
      (now : ℕ) (r : Response) (s : Tables) → Uses r s (take_nonce c float_text phone_key now r s)
  unfolding take_nonce
  take_nonce-Uses now r s = elim (Option-cases (lookup Text-discrete r.nonce s.pending_nonces)) [
    | inl e ↦ rw (e, take_nonce) refl
    | inr (t, e) ↦ rw (e, take_nonce) (judge-Uses now r t _)
  ]

  verify-Uses :
      (now : ℕ) (r : Response) (s : Tables) → Uses r s (verify c float_text phone_key now r s)
  unfolding verify rate_limited
  verify-Uses now r s = ground (arith, take_nonce-Uses now r (rate_limited now s).0)

  accepts-step :
      (n : Text) (e : Event) (s : Tables)
      → accepts c float_text laptop_key phone_key n e s + bit (is_used n s.used_nonces)
        ≤ bit (is_used n (step c float_text laptop_key phone_key e s).used_nonces)
  unfolding step accepts issue_challenge is_used
  accepts-step n (challenges token random now) s = ground arith
  accepts-step n (verifies now r) s =
      let p = verify c float_text phone_key now r s in
      elim (Bool-cases p.1) [
        | inl yes_ ↦
            let unused = (verify-true c float_text phone_key now r s yes_).unused in
            ground (arith, verify-Uses now r s, text_eq_iff r.nonce n, unused)
        | inr no_ ↦ ground (arith, verify-Uses now r s)
      ]

  -- Whatever the tables hold and in any run, a nonce is accepted at most once, and not at all if it
  -- has been used.
  pub accepted_once :
      (n : Text) (es : List Event) (s : Tables)
      → accepted c float_text laptop_key phone_key n es s + bit (is_used n s.used_nonces) ≤ 1
  unfolding accepted
  accepted_once n [] s = ground arith
  accepted_once n (e ∷ es) s =
      ground
        (arith, accepts-step n e s, accepted_once n es (step c float_text laptop_key phone_key e s))
