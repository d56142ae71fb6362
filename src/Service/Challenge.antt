-- ===== src/Service/Challenge.antt =====
-- `issue_challenge` and `check_response` of listener.py.
pub mod Held
use remote_unlock.Base.{
  ℕ, ◌-◌, Bool, not, Option, none, some, Text, Bytes, codes, Text-discrete, text_eq, ltb, leb,
  if◌then◌else◌, keep_if, length,
}
use remote_unlock.Base.Int.{pos}
use remote_unlock.Base.Dict.{lookup, insert, remove}
use remote_unlock.Json.{Json, str}
use remote_unlock.Outcome.{Outcome, returns, raises, Exception, runtime_error, ◌>>=◌}
use remote_unlock.Protocol.Forms.{is_nonce}
use remote_unlock.Protocol.Hex.{to_hex}
use remote_unlock.Protocol.Message.{signed_message}
use remote_unlock.Protocol.Signature.{sign, verify_sig, load_public_key}
use remote_unlock.Config.{Device}
use remote_unlock.Service.State.{Env, Pending, Service, settings}

abbrev pub max_pending : ℕ
max_pending = 64

-- The reasons of a rejection, by the text that the source gives to `_fail`.
pub data Reason : Type 0 where
  malformed_nonce unknown_or_replayed_nonce nonce_issued_to_other_device : Reason
  challenge_expired bad_signature : Reason
  no_registered_client_certificate bad_hello unknown_device_or_id_mismatch : Reason
  bad_response_type internal_error : Reason
  malformed_or_late : Exception → Reason

-- What a call of `issue_challenge` draws: the clock, int(time.time() * 1000), the 16 bytes of
-- secrets.token_hex(16), and the randomness of the signature.
pub record Draw : Type 0 where
  pub now : ℕ
  pub wall_ms : ℕ
  pub token : Bytes
  pub random : ℕ

-- The message `{"type": "challenge", ...}`.
pub record ChallengeMessage : Type 0 where
  pub nonce : Text
  pub issued_ms : ℕ
  pub target_id : Text
  pub server_sig : Text

-- `now - r[1] <= ttl`
abbrev pub is_live : ℕ → ℕ → Text × Pending → Bool
is_live now ttl e = leb (now - e.1.issued_at) ttl

unfoldable pub drop_expired : ℕ → Service → Service
drop_expired now s = record s {
  pending = keep_if (is_live now (settings s).challenge_ttl) s.pending;
}

abbrev pub nonce_of : Draw → Text
nonce_of d = to_hex d.token

abbrev pub add_pending : Draw → Text → Service → Service
add_pending d device_id s = record s {
  pending =
      insert Text-discrete (nonce_of d)
        (record { device_id = device_id; issued_at = d.now; issued_ms = d.wall_ms }) s.pending;
}

module _ {PrivateKey PublicKey : Type 0} (env : Env PrivateKey PublicKey) where
  -- The challenge for a nonce that is pending.
  unfoldable pub challenge_message : Draw → Text → Service → Outcome ChallengeMessage
  challenge_message d device_id s = do
    msg ←
        signed_message (codes "challenge") (nonce_of d) (pos d.wall_ms) device_id
          (settings s).target_id
    returns (record {
      nonce = nonce_of d;
      issued_ms = d.wall_ms;
      target_id = (settings s).target_id;
      server_sig = sign env.crypto env.signing_key msg d.random;
    })

  unfoldable pub issue_challenge : Draw → Text → Service → Service × Outcome ChallengeMessage
  unfolding drop_expired
  issue_challenge d device_id s =
      let s₁ = drop_expired d.now s in
      if leb max_pending (length s₁.pending)
      then (s₁, raises runtime_error)
      else (add_pending d device_id s₁, challenge_message d device_id s)

  -- What follows `self.pending.pop(nonce, None)`.
  unfoldable pub judge : ℕ → Device → Text → Json → Pending → Service → Outcome (Option Reason)
  judge now device nonce signature rec s =
      if not (text_eq rec.device_id device.id)
      then returns (some nonce_issued_to_other_device)
      else if ltb (settings s).challenge_ttl (now - rec.issued_at)
      then returns (some challenge_expired)
      else do
        msg ←
            signed_message (codes "response") nonce (pos rec.issued_ms) rec.device_id
              (settings s).target_id
        key ← load_public_key env.crypto device.public_key_pem
        ok ← verify_sig env.crypto key msg signature
        returns (if ok then none else some bad_signature)

  unfoldable pub take_nonce : ℕ → Device → Text → Json → Service → Service × Outcome (Option Reason)
  unfolding judge
  take_nonce now device nonce signature s = elim (lookup Text-discrete nonce s.pending) [
    | none ↦ (s, returns (some unknown_or_replayed_nonce))
    | some rec ↦ (
      record s { pending = remove Text-discrete nonce s.pending },
      judge now device nonce signature rec s,
    )
  ]

  -- `check_response`: the service afterwards, and None or the reason of the failure.
  unfoldable pub check_response :
      ℕ → Device → Json → Json → Service → Service × Outcome (Option Reason)
  unfolding take_nonce
  check_response now device (str nonce) signature s =
      if is_nonce nonce
      then take_nonce now device nonce signature s
      else (s, returns (some malformed_nonce))
  check_response now device _ signature s = (s, returns (some malformed_nonce))
