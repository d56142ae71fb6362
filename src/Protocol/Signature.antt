-- ===== src/Protocol/Signature.antt =====
-- `sign` and `verify_sig` of common.py, over an ECDSA library that the program does not implement.
use remote_unlock.Base.{
  ℕ, ◌+◌, ◌*◌, ◌≤◌, ◌≡◌, refl, ◌≢◌, Bool, true, false, Option, none, some, [], ◌∷◌, Text, Bytes,
  arith, All, ltb, ◌==◌, if◌then◌else◌, length, take, drop, leb, ◌&&◌, ◌||◌, codes, not,
  Option-cases, inl, inr,
}
use mathlib.Core.List.{reverse}
use remote_unlock.Json.{Json, str}
use remote_unlock.Outcome.{
  Outcome, returns, raises, value_error, type_error, invalid_signature, ◌>>=◌, ◌>>◌, raise_if,
}
use remote_unlock.Protocol.Hex.{to_hex, from_hex, IsByte, from_hex-to_hex, length-to_hex}

-- What the program calls of the packages `cryptography` and hashlib.
pub record Crypto (PrivateKey PublicKey : Type 0) : Type 0 where
  -- a signature in DER; the number stands for the randomness that ECDSA draws
  pub ecdsa_sign : PrivateKey → Bytes → ℕ → Bytes
  -- `public_key.verify(signature, message)`, which returns None or raises
  pub ecdsa_verify : PublicKey → Bytes → Bytes → Outcome (Unit {0})
  -- `encode_dss_signature(r, s)`
  pub encode_dss : ℕ → ℕ → Bytes
  -- the key that a text holds, as `load_public_key` reads it
  pub load_pem : Text → Outcome PublicKey
  pub load_der : Bytes → Outcome PublicKey
  pub b64decode : Text → Outcome Bytes
  -- an EllipticCurvePublicKey on secp256r1
  pub is_p256 : PublicKey → Bool
  -- `public_pem(key)`: the key's PEM text
  pub public_pem : PublicKey → Text
  -- hashlib.sha256(data).hexdigest()
  pub sha256_hex : Bytes → Text

abbrev pub max_sig_hex : ℕ
max_sig_hex = 200

-- int.from_bytes(bytes, "big")
unfoldable pub from_bytes : ℕ → Bytes → ℕ
from_bytes acc [] = acc
from_bytes acc (b ∷ bs) = from_bytes (acc * 256 + b) bs

-- `str.isspace`, for one character.
abbrev pub is_str_space : ℕ → Bool
is_str_space n =
    (leb 9 n && leb n 13)
    || (leb 28 n && leb n 32)
    || n == 0x85
    || n == 0xa0
    || n == 0x1680
    || (leb 0x2000 n && leb n 0x200a)
    || n == 0x2028
    || n == 0x2029
    || n == 0x202f
    || n == 0x205f
    || n == 0x3000

abbrev pub lstrip : Text → Text
lstrip [] = []
lstrip (n ∷ t) = let rest = lstrip t in if is_str_space n then rest else n ∷ t

unfoldable pub strip : Text → Text
strip t = reverse (lstrip (reverse (lstrip t)))

abbrev pub starts_with : Text → Text → Bool
starts_with [] t = true
starts_with (a ∷ p) [] = false
starts_with (a ∷ p) (b ∷ t) = a == b && starts_with p t

-- `p in t`
unfoldable pub contains : Text → Text → Bool
contains p [] = starts_with p []
contains p (b ∷ t) = starts_with p (b ∷ t) || contains p t

module _ {PrivateKey PublicKey : Type 0} (c : Crypto PrivateKey PublicKey) where
  unfoldable pub sign : PrivateKey → Bytes → ℕ → Text
  sign key message random = to_hex (c.ecdsa_sign key message random)

  -- 64 bytes are taken for raw r || s.
  unfoldable pub as_der : Bytes → Bytes
  as_der sig =
      if length sig == 64
      then c.encode_dss (from_bytes 0 (take 32 sig)) (from_bytes 0 (drop 32 sig))
      else sig

  -- the `except` clause of `verify_sig`
  abbrev pub verdict : Outcome (Unit {0}) → Outcome Bool
  verdict (returns _) = returns true
  verdict (raises invalid_signature) = returns false
  verdict (raises value_error) = returns false
  verdict (raises type_error) = returns false
  verdict (raises e) = raises e

  verify_bytes : PublicKey → Bytes → Option Bytes → Outcome Bool
  verify_bytes key message none = returns false
  verify_bytes key message (some sig) = verdict (c.ecdsa_verify key (as_der sig) message)

  unfoldable pub verify_sig : PublicKey → Bytes → Json → Outcome Bool
  unfolding verify_bytes
  verify_sig key message (str sig_hex) =
      if ltb max_sig_hex (length sig_hex)
      then returns false
      else verify_bytes key message (from_hex sig_hex)
  verify_sig key message _ = returns false

  unfoldable pub load_public_key : Text → Outcome PublicKey
  load_public_key text =
      let stripped = strip text in
      do
        key ←
            if contains (codes "BEGIN") stripped
            then c.load_pem stripped
            else (c.b64decode stripped >>= c.load_der)
        raise_if (not (c.is_p256 key)) value_error
        returns key

  -- A signature from `sign` passes `verify_sig` under the matching key, if ECDSA verifies what it
  -- signs and the DER form is of bytes, of 100 at most and not of 64.
  pub verify_sig-sign :
      (private : PrivateKey) (public : PublicKey) (m : Bytes) (random : ℕ)
      → c.ecdsa_verify public (c.ecdsa_sign private m random) m ≡ returns tt
      → All IsByte (c.ecdsa_sign private m random)
      → length (c.ecdsa_sign private m random) ≤ 100
      → length (c.ecdsa_sign private m random) ≢ 64
      → verify_sig public m (str (sign private m random)) ≡ returns true
  unfolding sign verify_sig as_der
  verify_sig-sign private public m random ok bytes short ne =
      let sig = c.ecdsa_sign private m random in
      ground (arith, from_hex-to_hex sig bytes, length-to_hex sig)

  -- What `verify_sig` accepts: a text of at most 200 characters that is the hex form of bytes which
  -- the library verifies for the message, in DER or as r || s.
  pub verify_sig-true :
      (key : PublicKey) (m : Bytes) (sig : Json)
      → verify_sig key m sig ≡ returns true
      → (t : Text) × (bs : Bytes) × (sig ≡ str t)
        × (length t ≤ max_sig_hex)
        × (from_hex t ≡ some bs)
        × (c.ecdsa_verify key (as_der bs) m ≡ returns tt)
  unfolding verify_sig
  verify_sig-true key m (str t) h = elim (Option-cases (from_hex t)) [
    | inl e ↦ absurd (ground arith)
    | inr (bs, e) ↦ (t, bs, refl, ground arith, e, ground arith)
  ]
  verify_sig-true key m sig h = absurd (ground arith)
