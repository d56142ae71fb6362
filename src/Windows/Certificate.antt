-- ===== src/Windows/Certificate.antt =====
-- `lock_down_config_dir` and `generate_tls_cert` of windows/pair_windows.py. The disk maps paths to
-- bytes; times are in seconds.
use remote_unlock.Base.{
  ℕ, ◌+◌, ◌*◌, ◌≡◌, ◌≢◌, List, [], ◌∷◌, some, Text, Bytes, codes, Text-discrete, arith,
}
use remote_unlock.Base.Dict.{Dict, lookup, insert, lookup-insert}
use remote_unlock.Outcome.{Outcome, returns, ◌>>=◌, bind_returns}

-- An entry that allows an account all access to the files.
pub record AllowedAce : Type 0 where
  pub account : Text

-- `lock_down_config_dir`: the list that replaces the one of the directory, for the user and SYSTEM.
unfoldable pub lock_down_config_dir : Text → Text → List AllowedAce
lock_down_config_dir user system = record { account = user } ∷ record { account = system } ∷ []

-- What `generate_tls_cert` puts into the certificate, and the key that signs it.
pub record SelfSigned (PrivateKey PublicKey : Type 0) : Type 0 where
  pub subject : Text
  pub issuer : Text
  pub public_key : PublicKey
  pub not_before : ℕ
  pub not_after : ℕ
  pub ip_address : Text
  pub signed_by : PrivateKey

-- What the program calls of `cryptography` and `ipaddress`.
pub record Maker (PrivateKey PublicKey : Type 0) : Type 0 where
  pub public_of : PrivateKey → PublicKey
  pub key_pem : PrivateKey → Bytes
  pub cert_pem : SelfSigned PrivateKey PublicKey → Bytes
  pub parse_ip : Text → Outcome Text

module _ {PrivateKey PublicKey : Type 0} (t : Maker PrivateKey PublicKey) where
  abbrev pub self_signed : ℕ → PrivateKey → Text → SelfSigned PrivateKey PublicKey
  self_signed now key address = record {
    subject = codes "remote-unlock-local";
    issuer = codes "remote-unlock-local";
    public_key = t.public_of key;
    not_before = now;
    not_after = now + 3650 * 86400;
    ip_address = address;
    signed_by = key;
  }

  -- `generate_tls_cert`, with the key that it draws: the disk afterwards.
  unfoldable pub generate_tls_cert :
      ℕ → PrivateKey → Text → Text → Text → Dict Text Bytes → Outcome (Dict Text Bytes)
  generate_tls_cert now key ip cert_path key_path disk = t.parse_ip ip >>= λ address. returns (
      insert Text-discrete cert_path (t.cert_pem (self_signed now key address))
        (insert Text-discrete key_path (t.key_pem key) disk))

  -- After it, under two different paths, there are the certificate for the address and the key that
  -- it was made with.
  generate_tls_cert_lem :
      (now : ℕ) (key : PrivateKey) (ip cert_path key_path : Text) (d d' : Dict Text Bytes)
      → cert_path ≢ key_path
      → generate_tls_cert now key ip cert_path key_path d ≡ returns d'
      → (address : Text) × (t.parse_ip ip ≡ returns address)
        × (lookup Text-discrete cert_path d' ≡ some (t.cert_pem (self_signed now key address)))
        × (lookup Text-discrete key_path d' ≡ some (t.key_pem key))
  unfolding generate_tls_cert
  generate_tls_cert_lem now key ip cert_path key_path d d' ne h =
      let (address, e, made) = bind_returns (t.parse_ip ip) _ d' h in
      let d₁ = insert Text-discrete key_path (t.key_pem key) d in
      (
        address,
        e,
        ground (
          arith,
          lookup-insert Text-discrete cert_path cert_path (t.cert_pem (self_signed now key address))
              d₁,
        ),
        ground (
          arith,
          lookup-insert Text-discrete key_path cert_path (t.cert_pem (self_signed now key address))
              d₁,
          lookup-insert Text-discrete key_path key_path (t.key_pem key) d,
        ),
      )
