-- ===== src/Client/Exchange.antt =====
-- The steps of an exchange between client_example.py and listener.py that goes as it should.
use remote_unlock.Base.{
  zero, text_eq_iff, le→ltb, ℕ, suc, ◌-◌, ◌/◌, ◌%◌, ◌≤◌, ◌<◌, ◌≡◌, refl, true, ◌||◌, Option, none,
  some, [], ◌∷◌, Text, Bytes, Text-discrete, codes, text_eq, text_eq_refl, All, length, keep_if,
  arith,
}
use remote_unlock.Base.Int.{ℤ, pos}
use remote_unlock.Base.Dict.{lookup}
use remote_unlock.Json.{str, obj, Fields, field, end, find, get}
use remote_unlock.Outcome.{Outcome, returns, raises}
use remote_unlock.Config.{Device}
use remote_unlock.Audit.{equals_text}
use remote_unlock.Protocol.Forms.{is_nonce, is_id, is_hex, hex_then_end}
use remote_unlock.Protocol.Hex.{hex_digit, to_hex, IsByte}
use remote_unlock.Protocol.Message.{message, signed_message}
use remote_unlock.Protocol.Signature.{sign, verify_sig, load_public_key}
use remote_unlock.Service.State.{Env, Service, Pending, settings}
use remote_unlock.Service.Challenge.{
  Draw, ChallengeMessage, is_live, max_pending, drop_expired, add_pending, challenge_message,
  issue_challenge, check_response, take_nonce, judge, Reason,
}
use remote_unlock.Service.Session.{Frame.text, recv_json, on_response, answer, conclude}
use remote_unlock.Service.Session.Grants.{Granted, authorize_lem}
use remote_unlock.Client.{challenge_fields, item, respond}

hex_digit-is_hex : (d : ℕ) → d < 16 → is_hex (hex_digit d) ≡ true
unfolding hex_digit
hex_digit-is_hex d h = ground arith

abbrev twice : ℕ → ℕ
twice zero = zero
twice (suc n) = suc (suc (twice n))

to_hex-hex : (bs : Bytes) → All IsByte bs → hex_then_end (twice (length bs)) (to_hex bs) ≡ true
unfolding hex_then_end to_hex
to_hex-hex [] h = refl
to_hex-hex (b ∷ bs) h =
    let hi : b / 16 < 16 = omega (arith, h.0) in
    let lo : b % 16 < 16 = omega arith in
    rw (hex_digit-is_hex (b / 16) hi, hex_digit-is_hex (b % 16) lo) (to_hex-hex bs h.1)

-- The nonce that `secrets.token_hex(16)` makes has the form of a nonce.
pub to_hex-is_nonce : (bs : Bytes) → All IsByte bs → length bs ≡ 16 → is_nonce (to_hex bs) ≡ true
unfolding is_nonce
to_hex-is_nonce bs h n =
    let whole : hex_then_end (twice (length bs)) (to_hex bs) ≡ true = to_hex-hex bs h in
    rw n at whole

pub signed_message_lem :
    (role n : Text) (z : ℤ) (device_id target_id : Text)
    → (text_eq role (codes "challenge") || text_eq role (codes "response")) ≡ true
    → is_nonce n ≡ true
    → is_id device_id ≡ true
    → is_id target_id ≡ true
    → signed_message role n z device_id target_id ≡ returns (message role n z device_id target_id)
unfolding signed_message
signed_message_lem role n z device_id target_id r f d t = ground arith

-- The response of the client.
abbrev pub response_fields : Text → Text → Fields
response_fields n signature =
    field (codes "type") (str (codes "response"))
      (field (codes "nonce") (str n) (field (codes "signature") (str signature) end))

module _ {PrivateKey PublicKey : Type 0} (env : Env PrivateKey PublicKey) where
  pub check_response_accepts :
      (now : ℕ) (device : Device) (n signature : Text) (issued : Pending) (public : PublicKey)
      (rm : Bytes) (s : Service)
      → is_nonce n ≡ true
      → lookup Text-discrete n s.pending ≡ some issued
      → issued.device_id ≡ device.id
      → now - issued.issued_at ≤ (settings s).challenge_ttl
      → signed_message
          (codes "response")
          n
          (pos issued.issued_ms)
          issued.device_id
          (settings s).target_id
        ≡ returns rm
      → load_public_key env.crypto device.public_key_pem ≡ returns public
      → verify_sig env.crypto public rm (str signature) ≡ returns true
      → (check_response env now device (str n) (str signature) s).1 ≡ returns none
  unfolding check_response take_nonce judge
  check_response_accepts now device n signature issued public rm s form found same fresh msg key
        ok =
      let eq : text_eq issued.device_id device.id ≡ true =
        (text_eq_iff issued.device_id device.id).1 same in
      rw (form, take_nonce, found, judge, eq, le→ltb _ _ fresh, msg, key, ok)

  pub issue_challenge_open :
      (d : Draw) (device_id : Text) (s : Service)
      → length (keep_if (is_live d.now (settings s).challenge_ttl) s.pending) < max_pending
      → issue_challenge env d device_id s
        ≡ (add_pending d device_id (drop_expired d.now s), challenge_message env d device_id s)
  unfolding issue_challenge drop_expired
  issue_challenge_open d device_id s room = ground arith

  conclude-Granted :
      (now : ℕ) (ip : Text) (device : Device) (r : Service × Outcome (Option Reason))
      → r.1 ≡ returns none
      → Granted env now r.0 (conclude env now ip device r)
  conclude-Granted now ip device (s, returns none) h =
      let (said, issued, _) = authorize_lem env now ip device s in (said, issued)
  conclude-Granted now ip device (s, returns (some reason)) h = absurd (ground arith)
  conclude-Granted now ip device (s, raises e) h = absurd (ground arith)

  pub on_response_accepts :
      (now : ℕ) (ip raw n signature : Text) (device : Device) (s : Service)
      → env.loads raw ≡ returns (obj (response_fields n signature))
      → (check_response env now device (str n) (str signature) s).1 ≡ returns none
      → Granted env now
          (check_response env now device (str n) (str signature) s).0
          (on_response env now ip device (returns (text raw)) s)
  unfolding on_response recv_json equals_text get find answer Text-discrete text_eq
  on_response_accepts now ip raw n signature device s decoded passed =
      rw (decoded, recv_json)
        (conclude-Granted now ip device (check_response env now device (str n) (str signature) s)
          passed)

  module _ (int_of : Text → Outcome ℤ) where
    pub respond_lem :
        (key : PrivateKey) (laptop_pub : PublicKey) (device_id : Text) (random : ℕ)
        (m : ChallengeMessage) (sm rm : Bytes)
        → signed_message (codes "challenge") m.nonce (pos m.issued_ms) device_id m.target_id
          ≡ returns sm
        → verify_sig env.crypto laptop_pub sm (str m.server_sig) ≡ returns true
        → signed_message (codes "response") m.nonce (pos m.issued_ms) device_id m.target_id
          ≡ returns rm
        → respond env.crypto int_of key laptop_pub device_id m.target_id random (challenge_fields m)
          ≡ returns (response_fields m.nonce (sign env.crypto key rm random))
    unfolding respond item get find equals_text Text-discrete text_eq
    respond_lem key laptop_pub device_id random m sm rm s v r =
        rw (text_eq_refl m.target_id, s, v, r)
