-- ===== src/Windows.antt =====
-- windows/listener_windows.py, `UnlockService`: challenges and the check of a response, for unlock
-- and shutdown. Each call takes one reading of the clock. The text of a float in the signed message
-- is `float_text`, and a timestamp is a natural number of the clock's unit.
pub mod Accepted
pub mod Runs
pub mod Handler
pub mod Connection
pub mod Secrets
pub mod Setup
pub mod Serve
pub mod Certificate
use remote_unlock.Base.{
  ℕ, ◌+◌, ◌-◌, Bool, true, false, not, ◌||◌, none, some, List, [], ◌∷◌, ◌++◌, Text, Bytes, codes,
  Text-discrete, text_eq, ltb, leb, length, keep_if, if◌then◌else◌,
}
use remote_unlock.Base.Dict.{Dict, lookup, insert, remove}
use remote_unlock.Outcome.{returns, raises}
use remote_unlock.Protocol.Hex.{to_hex, from_hex}
use remote_unlock.Protocol.Signature.{Crypto}

abbrev pub nonce_ttl : ℕ
nonce_ttl = 10

abbrev pub max_clock_skew : ℕ
max_clock_skew = 5

abbrev pub rate_limit_window : ℕ
rate_limit_window = 60

abbrev pub rate_limit_max_fails : ℕ
rate_limit_max_fails = 5

-- The tables of the service.
pub record Tables : Type 0 where
  pub pending_nonces : Dict Text ℕ
  pub used_nonces : List Text
  pub fail_times : List ℕ

-- The old failures at the front are dropped.
unfoldable pub drop_old : ℕ → List ℕ → List ℕ
drop_old now [] = []
drop_old now (t ∷ ts) =
    let rest = drop_old now ts in if ltb rate_limit_window (now - t) then rest else t ∷ ts

-- `_rate_limited`
unfoldable pub rate_limited : ℕ → Tables → Tables × Bool
unfolding drop_old
rate_limited now s =
    let kept = drop_old now s.fail_times in
    (record s { fail_times = kept }, leb rate_limit_max_fails (length kept))

-- `_record_failure`
abbrev pub record_failure : ℕ → Tables → Tables
record_failure now s = record s { fail_times = s.fail_times ++ now ∷ [] }

-- `nonce in self._used_nonces`
unfoldable pub is_used : Text → List Text → Bool
is_used n [] = false
is_used n (u ∷ us) = text_eq n u || is_used n us

-- What `verify` is given.
pub record Response : Type 0 where
  pub nonce : Text
  pub timestamp : ℕ
  pub signature_hex : Text
  pub action : Text

-- The difference without its sign.
abbrev pub distance : ℕ → ℕ → ℕ
distance a b = (a - b) + (b - a)

abbrev pub signed_bytes : Text → (ℕ → Text) → ℕ → Text → Bytes
signed_bytes action float_text timestamp nonce =
    action ++ (b':' ∷ (nonce ++ (b':' ∷ float_text timestamp)))

module _ {PrivateKey PublicKey : Type 0} (c : Crypto PrivateKey PublicKey)
    (float_text : ℕ → Text) where
  -- `issue_challenge`: the nonce is added before the old ones are dropped. The tables, the nonce and
  -- the signature's hex form.
  unfoldable pub issue_challenge : PrivateKey → Bytes → ℕ → ℕ → Tables → Tables × Text × Text
  issue_challenge key token random now s =
      let nonce = to_hex token in
      (
        record s {
          pending_nonces =
              keep_if (λ e. ltb (now - e.1) nonce_ttl)
                (insert Text-discrete nonce now s.pending_nonces);
        },
        nonce,
        to_hex (c.ecdsa_sign key (signed_bytes (codes "challenge") float_text now nonce) random),
      )

  -- `self.phone_public_key.verify(bytes.fromhex(signature_hex), message)`, if it returns.
  unfoldable pub passes : PublicKey → Response → Bool
  passes key r = elim (from_hex r.signature_hex) [
    | none ↦ false
    | some sig ↦
        elim (c.ecdsa_verify key sig (signed_bytes r.action float_text r.timestamp r.nonce)) [
          | returns u ↦ true
          | raises e ↦ false
        ]
  ]

  -- The end of `verify`, for a nonce that was issued at a time and is taken out.
  unfoldable pub judge : PublicKey → ℕ → Response → ℕ → Tables → Tables × Bool
  unfolding passes is_used
  judge key now r issue_time s =
      if is_used r.nonce s.used_nonces
      then (record_failure now s, false)
      else if ltb nonce_ttl (now - issue_time)
      then (record_failure now s, false)
      else if ltb (max_clock_skew + nonce_ttl) (distance now r.timestamp)
      then (record_failure now s, false)
      else if passes key r
      then (record s { used_nonces = r.nonce ∷ s.used_nonces }, true)
      else (record_failure now s, false)

  unfoldable pub take_nonce : PublicKey → ℕ → Response → Tables → Tables × Bool
  unfolding judge
  take_nonce key now r s = elim (lookup Text-discrete r.nonce s.pending_nonces) [
    | none ↦ (record_failure now s, false)
    | some issue_time ↦
        judge key now r issue_time
          (record s { pending_nonces = remove Text-discrete r.nonce s.pending_nonces })
  ]

  -- `verify`
  unfoldable pub verify : PublicKey → ℕ → Response → Tables → Tables × Bool
  unfolding rate_limited take_nonce
  verify key now r s =
      if not (text_eq r.action (codes "unlock") || text_eq r.action (codes "shutdown"))
      then (record_failure now s, false)
      else if (rate_limited now s).1
      then ((rate_limited now s).0, false)
      else take_nonce key now r (rate_limited now s).0
