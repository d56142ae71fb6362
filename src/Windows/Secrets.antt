-- ===== src/Windows/Secrets.antt =====
-- `encrypt_secret` of windows/pair_windows.py and `decrypt_secret` of windows/listener_windows.py.
use remote_unlock.Base.{ℕ, ◌≡◌, refl, Option, none, some, Text, Bytes, codes, Text-discrete}
use remote_unlock.Json.{Json, str, obj, Fields, field, end, find}
use remote_unlock.Outcome.{Outcome, returns, raises, Exception, key_error, attribute_error, ◌>>=◌}

-- What the two programs call of `cryptography` and base64.
pub record Cipher : Type 0 where
  -- `Scrypt(salt, length, n, r, p).derive`
  pub scrypt : Bytes → ℕ → ℕ → ℕ → ℕ → Bytes → Bytes
  pub urlsafe_b64encode : Bytes → Bytes
  -- `Fernet(key).encrypt`, with the randomness that it draws, and `decrypt`, which raises
  -- InvalidToken
  pub fernet_encrypt : Bytes → Bytes → ℕ → Text
  pub fernet_decrypt : Bytes → Text → Outcome Bytes
  pub b64encode : Bytes → Text
  pub b64decode : Text → Outcome Bytes
  -- `str.encode()` and `bytes.decode()`
  pub encode : Text → Bytes
  pub decode : Bytes → Outcome Text

-- `d[k]` where a text is needed; another value has no `encode`.
abbrev pub text_of : Option Json → Outcome Text
text_of none = raises key_error
text_of (some (str t)) = returns t
text_of (some j) = raises attribute_error

-- `config[k]` where an object is needed
abbrev pub object_of : Option Json → Outcome Fields
object_of none = raises key_error
object_of (some (obj fs)) = returns fs
object_of (some j) = raises Exception.type_error

abbrev pub scrypt_n : ℕ
scrypt_n = 131072

abbrev pub scrypt_r : ℕ
scrypt_r = 8

abbrev pub scrypt_p : ℕ
scrypt_p = 1

module _ (c : Cipher) where
  unfoldable pub derive_key : Text → Bytes → Bytes
  derive_key passphrase salt =
      c.urlsafe_b64encode (c.scrypt salt 32 scrypt_n scrypt_r scrypt_p (c.encode passphrase))

  -- `encrypt_secret`, with the salt and the randomness that it draws
  unfoldable pub encrypt_secret : Text → Text → Bytes → ℕ → Fields
  encrypt_secret secret passphrase salt random = field (codes "salt") (str (c.b64encode salt)) (
      field (codes "ciphertext")
        (str (c.fernet_encrypt (derive_key passphrase salt) (c.encode secret) random)) end)

  unfoldable pub decrypt_secret : Fields → Text → Outcome Text
  decrypt_secret encrypted passphrase = text_of (find (codes "salt") encrypted) >>= λ salt_text.
      c.b64decode salt_text >>= λ salt.
      text_of (find (codes "ciphertext") encrypted) >>= λ ciphertext.
      c.fernet_decrypt (derive_key passphrase salt) ciphertext >>= c.decode

  -- The documented behaviour of the packages: what is encoded or encrypted is got back.
  pub record IsInverse : Type 0 where
    pub base64 : (b : Bytes) → c.b64decode (c.b64encode b) ≡ returns b
    pub fernet :
        (key message : Bytes) (random : ℕ)
        → c.fernet_decrypt key (c.fernet_encrypt key message random) ≡ returns message
    pub text : (t : Text) → c.decode (c.encode t) ≡ returns t

  pub decrypt_secret-encrypt_secret :
      (secret passphrase : Text) (salt : Bytes) (random : ℕ)
      → IsInverse
      → decrypt_secret (encrypt_secret secret passphrase salt random) passphrase ≡ returns secret
  unfolding decrypt_secret encrypt_secret find Text-discrete
  decrypt_secret-encrypt_secret secret passphrase salt random i =
      rw
        (
          i.base64 salt,
          i.fernet (derive_key passphrase salt) (c.encode secret) random,
          i.text secret,
        )
        refl
