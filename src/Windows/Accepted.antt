-- ===== src/Windows/Accepted.antt =====
-- What it takes that `verify` of windows/listener_windows.py accepts a response.
use remote_unlock.Base.{
  ap, sym, ◌∙◌, ℕ, ◌-◌, ◌≤◌, ◌≡◌, true, false, ◌||◌, none, some, Text, codes, Text-discrete,
  text_eq, text_eq_refl, arith, Bool-cases, Option-cases, inl, inr,
}
use remote_unlock.Base.Dict.{lookup, remove, lookup-remove}
use remote_unlock.Protocol.Signature.{Crypto}
use remote_unlock.Windows.{
  nonce_ttl, Tables, Response, rate_limited, is_used, passes, judge, take_nonce, verify,
}

module _ {PrivateKey PublicKey : Type 0} (c : Crypto PrivateKey PublicKey)
    (float_text : ℕ → Text) where
  -- Why a response is accepted, and what is left of its nonce.
  pub record Accepted (key : PublicKey) (now : ℕ) (r : Response) (s s' : Tables) : Type 0 where
    pub issue_time : ℕ
    pub was_pending : lookup Text-discrete r.nonce s.pending_nonces ≡ some issue_time
    pub unused : is_used r.nonce s.used_nonces ≡ false
    pub fresh : now - issue_time ≤ nonce_ttl
    pub signed : passes c float_text key r ≡ true
    pub taken : lookup Text-discrete r.nonce s'.pending_nonces ≡ none
    pub used : is_used r.nonce s'.used_nonces ≡ true

  judge-true :
      (key : PublicKey) (now : ℕ) (r : Response) (t : ℕ) (s : Tables)
      → (judge c float_text key now r t s).1 ≡ true
      → lookup Text-discrete r.nonce s.pending_nonces ≡ none
      → (is_used r.nonce s.used_nonces ≡ false)
        × (now - t ≤ nonce_ttl)
        × (passes c float_text key r ≡ true)
        × (lookup Text-discrete r.nonce (judge c float_text key now r t s).0.pending_nonces ≡ none)
        × (is_used r.nonce (judge c float_text key now r t s).0.used_nonces ≡ true)
  unfolding judge is_used
  judge-true key now r t s h gone = ground (arith, text_eq_refl r.nonce)

  take_nonce-true :
      (key : PublicKey) (now : ℕ) (r : Response) (s : Tables)
      → (take_nonce c float_text key now r s).1 ≡ true
      → Accepted key now r s (take_nonce c float_text key now r s).0
  unfolding take_nonce
  take_nonce-true key now r s h =
      elim (Option-cases (lookup Text-discrete r.nonce s.pending_nonces)) [
        | inl e ↦ absurd (ground arith)
        | inr (t, e) ↦
            let s₁ = record s { pending_nonces = remove Text-discrete r.nonce s.pending_nonces } in
            let gone : lookup Text-discrete r.nonce s₁.pending_nonces ≡ none =
              ground (arith, lookup-remove Text-discrete r.nonce r.nonce s.pending_nonces) in
            let opened : take_nonce c float_text key now r s ≡ judge c float_text key now r t s₁ =
              rw (e, take_nonce) in
            let judged : (judge c float_text key now r t s₁).1 ≡ true =
              sym (ap (λ p. p.1) opened) ∙ h in
            let (unused, fresh, signed, taken, used) = judge-true key now r t s₁ judged gone in
            record {
              issue_time = t;
              was_pending = e;
              unused = unused;
              fresh = fresh;
              signed = signed;
              taken = ap (λ p. lookup Text-discrete r.nonce p.0.pending_nonces) opened ∙ taken;
              used = ap (λ p. is_used r.nonce p.0.used_nonces) opened ∙ used;
            }
      ]

  -- A response is accepted only if its nonce was pending and unused, its challenge is at most
  -- `nonce_ttl` old and the phone's key verifies it, and then the nonce is used and no longer
  -- pending.
  pub verify-true :
      (key : PublicKey) (now : ℕ) (r : Response) (s : Tables)
      → (verify c float_text key now r s).1 ≡ true
      → Accepted key now r s (verify c float_text key now r s).0
  unfolding verify rate_limited
  verify-true key now r s h =
      elim (Bool-cases (text_eq r.action (codes "unlock") || text_eq r.action (codes "shutdown"))) [
        | inr other ↦ absurd (ground arith)
        | inl known ↦ elim (Bool-cases (rate_limited now s).1) [
          | inl limited ↦ absurd (ground arith)
          | inr free ↦
              let s₀ = (rate_limited now s).0 in
              let taken : (take_nonce c float_text key now r s₀).1 ≡ true = ground arith in
              let a : Accepted key now r s₀ (take_nonce c float_text key now r s₀).0 =
                take_nonce-true key now r s₀ taken in
              let opened : verify c float_text key now r s ≡ take_nonce c float_text key now r s₀ =
                ground arith in
              record {
                issue_time = a.issue_time;
                was_pending = a.was_pending;
                unused = a.unused;
                fresh = a.fresh;
                signed = a.signed;
                taken = ap (λ p. lookup Text-discrete r.nonce p.0.pending_nonces) opened ∙ a.taken;
                used = ap (λ p. is_used r.nonce p.0.used_nonces) opened ∙ a.used;
              }
        ]
      ]

  -- A nonce that has been used is never accepted again, whatever else the response says.
  pub verify_used :
      (key : PublicKey) (now : ℕ) (r : Response) (s : Tables)
      → is_used r.nonce s.used_nonces ≡ true
      → (verify c float_text key now r s).1 ≡ false
  verify_used key now r s used = elim (Bool-cases (verify c float_text key now r s).1) [
    | inl accepted ↦ absurd (ground (arith, (verify-true key now r s accepted).unused))
    | inr refused ↦ refused
  ]
