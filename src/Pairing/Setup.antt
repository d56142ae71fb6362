-- ===== src/Pairing/Setup.antt =====
-- `init`, `_issue_server` and `_build_cert` of pair.py: the certificates, the files and the first
-- configuration. Paths are names in the configuration's directory, which `path` puts in place.
pub mod Stored
use remote_unlock.Base.{
  ℕ, ◌+◌, ◌-◌, ◌*◌, Bool, true, false, not, Option, none, some, List, [], ◌∷◌, ◌++◌, Text, Bytes,
  codes, if◌then◌else◌,
}
use remote_unlock.Base.Int.{pos}
use remote_unlock.Json.{null, int, str, obj, Fields, field, end}
use remote_unlock.Outcome.{Outcome, returns, raises, handle, ◌>>=◌}
use remote_unlock.Files.{Disk, Calls, write_private}
use remote_unlock.Config.Data.{defaults, update}
use remote_unlock.Pairing.{init_checks}

-- An entry of SubjectAlternativeName.
pub data AlternativeName : Type 0 where
  ip_address dns_name : Text → AlternativeName

-- `ExtendedKeyUsageOID`
pub data KeyPurpose : Type 0 where
  server_auth client_auth : KeyPurpose

-- What `_build_cert` puts into a certificate, and the key that signs it. Times are in seconds. The
-- serial number, and the key usages that are always false, are left out.
pub record Certificate (PrivateKey PublicKey : Type 0) : Type 0 where
  pub subject : Text
  pub issuer : Text
  pub public_key : PublicKey
  pub not_before : ℕ
  pub not_after : ℕ
  pub subject_key : PublicKey
  pub authority_key : PublicKey
  pub ca : Bool
  pub path_length : Option ℕ
  pub digital_signature : Bool
  pub key_cert_sign : Bool
  pub crl_sign : Bool
  pub extended_key_usage : Option KeyPurpose
  pub alternative_names : List AlternativeName
  pub signed_by : PrivateKey

-- What pair.py calls of `cryptography`, `ipaddress` and json, and where the files are.
pub record Tools (PrivateKey PublicKey : Type 0) : Type 0 where
  pub public_of : PrivateKey → PublicKey
  pub public_pem : PublicKey → Text
  -- `_enc_pem`, with the passphrase, and `_cert_pem`
  pub enc_pem : PrivateKey → Text → Bytes
  pub cert_pem : Certificate PrivateKey PublicKey → Bytes
  -- `ipaddress.ip_address`, in its canonical text
  pub parse_ip : Text → Outcome Text
  pub dumps : Fields → Bytes
  pub path : Text → Text

-- What `init` draws: the time, three keys, and the random part of the topic.
pub record Drawn (PrivateKey : Type 0) : Type 0 where
  pub now : ℕ
  pub ca_key : PrivateKey
  pub server_key : PrivateKey
  pub sign_key : PrivateKey
  pub topic : Text

-- The arguments of `init`.
pub record Arguments : Type 0 where
  pub ip : Text
  pub port : ℕ
  pub target_id : Text
  pub unlock_user : Text
  pub passphrase : Text
  pub force : Bool

abbrev pub day : ℕ
day = 86400

-- One file after the other; the first that fails ends it.
unfoldable pub write_all : (Text → Calls) → List (Text × Bytes) → Disk → Disk × Outcome (Unit {0})
write_all calls [] disk = (disk, returns tt)
write_all calls ((path, data_) ∷ files) disk =
    let (disk', ended) = write_private (calls path) path data_ disk in
    handle ended (λ _. write_all calls files disk') (λ e. (disk', raises e))

module _ {PrivateKey PublicKey : Type 0} (t : Tools PrivateKey PublicKey) where
  -- `_build_cert`, with the alternative names and the purpose.
  unfoldable pub build_cert :
      ℕ
      → Text
      → PublicKey
      → Text
      → PrivateKey
      → ℕ
      → Bool
      → List AlternativeName
      → Option KeyPurpose
      → Certificate PrivateKey PublicKey
  build_cert now cn pub_ issuer_cn issuer_key days ca sans eku = record {
    subject = cn;
    issuer = issuer_cn;
    public_key = pub_;
    not_before = now - 300;
    not_after = now + days * day;
    subject_key = pub_;
    authority_key = t.public_of issuer_key;
    ca = ca;
    path_length = if ca then some 0 else none;
    digital_signature = not ca;
    key_cert_sign = ca;
    crl_sign = ca;
    extended_key_usage = eku;
    alternative_names = sans;
    signed_by = issuer_key;
  }

  -- The two files of `_issue_server`, for an address that has been read.
  unfoldable pub server_files :
      ℕ → PrivateKey → PrivateKey → Text → Text → Text → Text → List (Text × Bytes)
  unfolding build_cert
  server_files now key ca_key ca_name target_id address pw =
      (t.path (codes "server-key.pem"), t.enc_pem key pw)
      ∷ (
        t.path (codes "server-cert.pem"),
        t.cert_pem (
            build_cert now target_id (t.public_of key) ca_name ca_key 365 false
              (ip_address address ∷ dns_name target_id ∷ []) (some server_auth)),
      )
      ∷ []

  -- `_issue_server`
  unfoldable pub issue_server :
      (Text → Calls)
      → ℕ
      → PrivateKey
      → PrivateKey
      → Text
      → Text
      → Text
      → Text
      → Disk
      → Disk × Outcome (Unit {0})
  unfolding server_files
  issue_server calls now key ca_key ca_name target_id ip pw disk =
      handle (t.parse_ip ip)
        (λ address. write_all calls (server_files now key ca_key ca_name target_id address pw) disk)
        (λ e. (disk, raises e))

  abbrev pub ca_name : Text
  ca_name = codes "remote-unlock-ca"

  -- The configuration that `init` writes.
  unfoldable pub init_data : Drawn PrivateKey → Arguments → Fields
  init_data w a =
      update
        (field (codes "target_id") (str a.target_id) (
          field (codes "listener_ip") (str a.ip) (
            field (codes "listener_port") (int (pos a.port)) (
              field (codes "unlock_user") (str a.unlock_user) (
                field (codes "laptop_public_key_pem") (str (t.public_pem (t.public_of w.sign_key)))
                  (field (codes "tls")
                    (obj (
                      field (codes "ca_cert") (str (codes "ca-cert.pem")) (
                        field (codes "server_cert") (str (codes "server-cert.pem"))
                          (field (codes "server_key") (str (codes "server-key.pem")) end))))
                    (field (codes "signing_key") (str (codes "laptop-signing-key.pem")) (
                      field (codes "alerts")
                        (obj (
                          field (codes "ntfy")
                            (obj (
                              field (codes "server") (str (codes "https://ntfy.sh")) (
                                field (codes "topic") (str (codes "ru-" ++ w.topic))
                                  (field (codes "token") null end))))
                            end))
                        end))))))))
        defaults

  -- The files of `init`, in the order in which they are written.
  unfoldable pub init_files : Drawn PrivateKey → Arguments → Text → List (Text × Bytes)
  unfolding build_cert server_files init_data
  init_files w a address =
      (t.path (codes "ca-key.pem"), t.enc_pem w.ca_key a.passphrase)
        ∷ (
          t.path (codes "ca-cert.pem"),
          t.cert_pem
              (build_cert w.now ca_name (t.public_of w.ca_key) ca_name w.ca_key 3650 true [] none),
        )
        ∷ server_files w.now w.server_key w.ca_key ca_name a.target_id address a.passphrase
      ++ (t.path (codes "laptop-signing-key.pem"), t.enc_pem w.sign_key a.passphrase)
        ∷ (t.path (codes "config.json"), t.dumps (init_data w a))
        ∷ []

  -- `init`; `exists_` is whether there is a configuration. The address is read once for the test and
  -- once for the certificate, with the same result.
  unfoldable pub init :
      (Text → Calls) → Drawn PrivateKey → Arguments → Bool → Disk → Disk × Outcome (Unit {0})
  unfolding init_files
  init calls w a exists_ disk =
      handle
        (init_checks a.passphrase a.target_id a.ip (t.parse_ip a.ip >>= λ _. returns tt) exists_
          a.force)
        (λ _.
          handle (t.parse_ip a.ip) (λ address. write_all calls (init_files w a address) disk)
            (λ e. (disk, raises e)))
        (λ e. (disk, raises e))
