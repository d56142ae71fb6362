-- ===== src/Client.antt =====
-- client_example.py, the reference for the phone's app: `unlock`, cut at its awaits.
pub mod Exchange
pub mod EndToEnd
pub mod Whole
pub mod Keygen
use remote_unlock.Base.{
  ℕ, Bool, true, false, not, ◌||◌, none, some, Text, Bytes, codes, if◌then◌else◌,
}
use remote_unlock.Base.Int.{ℤ, pos}
use remote_unlock.Json.{Json, bool, int, str, Fields, field, end, find, get}
use remote_unlock.Outcome.{
  Outcome, returns, raises, type_error, key_error, other_error, ◌>>=◌, ◌>>◌, raise_if,
}
use remote_unlock.Audit.{equals_text}
use remote_unlock.Protocol.Message.{signed_message}
use remote_unlock.Protocol.Signature.{Crypto, sign, verify_sig}
use remote_unlock.Service.Challenge.{ChallengeMessage}

-- The message that `issue_challenge` returns, as the client receives it.
abbrev pub challenge_fields : ChallengeMessage → Fields
challenge_fields m = field (codes "type") (str (codes "challenge")) (
    field (codes "nonce") (str m.nonce) (
      field (codes "issued_ms") (int (pos m.issued_ms)) (
        field (codes "target_id") (str m.target_id)
          (field (codes "server_sig") (str m.server_sig) end))))

-- `ch[key]`
unfoldable pub item : Text → Fields → Outcome Json
item key fs = elim (find key fs) [ none ↦ raises key_error | some v ↦ returns v ]

-- The first message of the client.
abbrev pub hello_fields : Text → Fields
hello_fields device_id =
    field (codes "type") (str (codes "hello")) (field (codes "device_id") (str device_id) end)

module _ {PrivateKey PublicKey : Type 0} (c : Crypto PrivateKey PublicKey)
    (int_of : Text → Outcome ℤ) where
  -- int() of a decoded value; `int_of` reads a text.
  abbrev pub to_int : Json → Outcome ℤ
  to_int (int z) = returns z
  to_int (bool b) = returns (pos (if b then 1 else 0))
  to_int (str t) = int_of t
  to_int _ = raises type_error

  -- `signed_message` on the values of the challenge. A nonce that is no text makes `match` raise.
  abbrev pub client_message : Text → Json → Json → Text → Text → Outcome Bytes
  client_message role (str nonce) issued_ms device_id target_id =
      to_int issued_ms >>= λ ms. signed_message role nonce ms device_id target_id
  client_message role _ issued_ms device_id target_id = raises type_error

  -- From the challenge to the response.
  unfoldable pub respond : PrivateKey → PublicKey → Text → Text → ℕ → Fields → Outcome Fields
  unfolding item
  respond device_key laptop_pub device_id target_id random ch =
      if not (equals_text (get (codes "type") ch) (codes "challenge"))
        || not (equals_text (get (codes "target_id") ch) target_id)
      then raises other_error
      else do
        nonce ← item (codes "nonce") ch
        issued_ms ← item (codes "issued_ms") ch
        smsg ← client_message (codes "challenge") nonce issued_ms device_id target_id
        ok ← verify_sig c laptop_pub smsg (get (codes "server_sig") ch)
        raise_if (not ok) other_error
        rmsg ← client_message (codes "response") nonce issued_ms device_id target_id
        returns (
            field (codes "type") (str (codes "response")) (
              field (codes "nonce") nonce
                (field (codes "signature") (str (sign c device_key rmsg random)) end)))

  -- `res.get("ok") is True`
  abbrev pub is_true : Json → Bool
  is_true (bool true) = true
  is_true _ = false

  unfoldable pub succeeded : Fields → Bool
  succeeded res = is_true (get (codes "ok") res)
