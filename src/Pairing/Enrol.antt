-- ===== src/Pairing/Enrol.antt =====
-- The commands of pair.py on the configuration file: `add_device` with the certificate and the bundle
-- that it makes, `revoke_device` and `renew_server` with what they read and save.
pub mod Known
pub mod Revoked
use remote_unlock.Base.{
  ℕ, false, Option, none, some, [], Text, Bytes, codes, Text-discrete, if◌then◌else◌,
}
use remote_unlock.Base.Dict.{lookup}
use remote_unlock.Outcome.{Outcome, returns, raises, os_error, system_exit, handle, ◌>>=◌, ◌>>◌}
use remote_unlock.Protocol.Forms.{is_id}
use remote_unlock.Protocol.Signature.{Crypto}
use remote_unlock.Config.{Settings}
use remote_unlock.Files.{File, Disk, Calls, write_private}
use remote_unlock.Pairing.{Issued, add_device, revoke_device}
use remote_unlock.Pairing.Setup.{Tools, Certificate, client_auth, build_cert, ca_name}

-- The text of a configuration: the settings that it gives, and the bytes that are saved for them.
-- Settings is the part that the listener and the commands read; the merge with DEFAULTS, and what is
-- saved as it was read, are in Config/Data.
pub record Store : Type 0 where
  pub parse : Bytes → Outcome Settings
  pub print : Settings → Bytes

-- What `add_device` calls of `cryptography`, besides what `init` does: `load_pem_private_key` with
-- the passphrase, `load_pem_x509_certificate`, the DER and fingerprint of a certificate, the PKCS#12
-- bundle, the unencrypted PEM of a key, and `isoformat` of a time.
pub record Issuing (PrivateKey PublicKey : Type 0) : Type 0 where
  pub load_key : Bytes → Text → Outcome PrivateKey
  pub load_cert : Bytes → Outcome (Certificate PrivateKey PublicKey)
  pub der : Certificate PrivateKey PublicKey → Bytes
  pub p12 :
      Text
      → PrivateKey
      → Certificate PrivateKey PublicKey
      → Certificate PrivateKey PublicKey
      → Text
      → Bytes
  pub plain_pem : PrivateKey → Bytes
  pub isoformat : ℕ → Text

-- What `add_device` draws: the time, the device's key for TLS, and the password of the bundle.
pub record Draws (PrivateKey : Type 0) : Type 0 where
  pub now : ℕ
  pub key : PrivateKey
  pub p12_password : Text

-- The dict that `add_device` returns.
pub record Bundle : Type 0 where
  pub p12 : Bytes
  pub p12_password : Text
  pub cert_pem : Bytes
  pub key_pem : Bytes

-- `path.read_bytes()`
abbrev pub contents : Option File → Outcome Bytes
contents none = raises os_error
contents (some f) = returns f.data_

abbrev pub read_bytes : Text → Disk → Outcome Bytes
read_bytes path disk = contents (lookup Text-discrete path disk)

-- `Config(path)`, an update of its data with a result, and `save`.
abbrev pub update_config :
    {A : Type 0}
    → Store
    → Calls
    → Text
    → (Settings → Outcome (Settings × A))
    → Disk
    → Disk × Outcome A
update_config st calls path f disk =
    handle (read_bytes path disk >>= st.parse >>= f)
      (λ r.
        let (disk', ended) = write_private calls path (st.print r.0) disk in
        (disk', ended >> returns r.1))
      (λ e. (disk, raises e))

module _ {PrivateKey PublicKey : Type 0} (c : Crypto PrivateKey PublicKey)
    (t : Tools PrivateKey PublicKey) (i : Issuing PrivateKey PublicKey) where
  -- `_load_key` of the CA's key
  abbrev pub load_ca : Text → Disk → Outcome PrivateKey
  load_ca passphrase disk =
      read_bytes (t.path (codes "ca-key.pem")) disk >>= λ pem. i.load_key pem passphrase

  -- The CA's certificate
  abbrev pub load_ca_cert : Disk → Outcome (Certificate PrivateKey PublicKey)
  load_ca_cert disk = read_bytes (t.path (codes "ca-cert.pem")) disk >>= i.load_cert

  -- The certificate of a device.
  abbrev pub client_cert :
      Draws PrivateKey → Text → ℕ → PrivateKey → Certificate PrivateKey PublicKey
  client_cert w name days ca_key =
      build_cert t w.now name (t.public_of w.key) (ca_name t) ca_key days false []
        (some client_auth)

  abbrev pub issued_of : Draws PrivateKey → Certificate PrivateKey PublicKey → Issued
  issued_of w cert = record {
    fingerprint = c.sha256_hex (i.der cert);
    expires = i.isoformat cert.not_after;
    created = i.isoformat w.now;
  }

  abbrev pub bundle_of :
      Draws PrivateKey
      → Text
      → Certificate PrivateKey PublicKey
      → Certificate PrivateKey PublicKey
      → Bundle
  bundle_of w name cert ca_cert = record {
    p12 = i.p12 name w.key cert ca_cert w.p12_password;
    p12_password = w.p12_password;
    cert_pem = t.cert_pem cert;
    key_pem = i.plain_pem w.key;
  }

  abbrev pub Certificates : Type 0
  Certificates = Certificate PrivateKey PublicKey × Certificate PrivateKey PublicKey

  -- The device's certificate, and the CA's.
  abbrev pub make : Draws PrivateKey → Text → Text → ℕ → Disk → Outcome Certificates
  make w name passphrase days disk = load_ca passphrase disk >>= λ ca_key.
      load_ca_cert disk >>= λ ca_cert.
      let made : Certificates = (client_cert w name days ca_key, ca_cert) in returns made

  -- The body of `add_device` between the reading and the saving of the configuration. What is made
  -- before the device is appended leaves no trace if a later step raises.
  unfoldable pub register :
      Draws PrivateKey → Text → Text → Text → ℕ → Disk → Settings → Outcome (Settings × Bundle)
  register w name phone_pubkey passphrase days disk s =
      add_device c name phone_pubkey
        (make w name passphrase days disk >>= λ m. returns (issued_of w m.0)) s
      >>= λ s'. make w name passphrase days disk >>= λ m. returns (s', bundle_of w name m.0 m.1)

  -- `add_device`
  unfoldable pub enrol :
      Store → Calls → Draws PrivateKey → Text → Text → Text → ℕ → Disk → Disk × Outcome Bundle
  unfolding register
  enrol st calls w name phone_pubkey passphrase days disk =
      if is_id name
      then update_config st calls (t.path (codes "config.json"))
          (register w name phone_pubkey passphrase days disk) disk
      else (disk, raises system_exit)

-- `revoke_device`, at the time `now`
unfoldable pub revoke : Store → Calls → Text → Text → Text → Disk → Disk × Outcome (Unit {0})
revoke st calls path name now disk =
    update_config st calls path (λ s. revoke_device name now s >>= λ s'. returns (s', tt)) disk
