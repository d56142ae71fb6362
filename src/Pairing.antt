-- ===== src/Pairing.antt =====
-- pair.py: the commands that change the registered devices, on the settings in the configuration
-- file. What `cryptography` makes (keys, certificates, bundles) enters as outcomes.
pub mod Revocation
pub mod Registry
pub mod Setup
pub mod Enrol
pub mod Hostname
pub mod Command
use remote_unlock.Base.{
  ℕ, Bool, true, false, not, ◌||◌, Option, none, some, List, [], ◌∷◌, ◌++◌, Text, text_eq, ltb,
  length, codes, if◌then◌else◌,
}
use remote_unlock.Outcome.{Outcome, returns, raises, system_exit, ◌>>=◌, ◌>>◌, raise_if}
use remote_unlock.Protocol.Forms.{is_id}
use remote_unlock.Protocol.Signature.{Crypto, load_public_key}
use remote_unlock.Config.{Device, Settings}

abbrev pub min_passphrase : ℕ
min_passphrase = 12

-- `any(d["id"] == name for d in cfg["devices"])`
unfoldable pub has_id : Text → List Device → Bool
has_id name [] = false
has_id name (d ∷ ds) = text_eq d.id name || has_id name ds

-- The certificate that `add_device` issues: its fingerprint, its expiry and the time of creation.
pub record Issued : Type 0 where
  pub fingerprint : Text
  pub expires : Text
  pub created : Text

module _ {PrivateKey PublicKey : Type 0} (c : Crypto PrivateKey PublicKey) where
  -- the entry that `add_device` appends
  abbrev pub new_device : Text → PublicKey → Issued → Device
  new_device name key issued = record {
    id = name;
    public_key_pem = c.public_pem key;
    cert_sha256 = issued.fingerprint;
    enabled = some true;
    created = issued.created;
    cert_expires = issued.expires;
    revoked = none;
  }

  -- `add_device`; `issue` is the outcome of loading the CA key and issuing the certificate.
  unfoldable pub add_device : Text → Text → Outcome Issued → Settings → Outcome Settings
  add_device name phone_pubkey issue s = do
    raise_if (not (is_id name)) system_exit
    raise_if (has_id name s.devices) system_exit
    key ← load_public_key c phone_pubkey
    issued ← issue
    returns (record s { devices = s.devices ++ new_device name key issued ∷ [] })

-- The loop of `revoke_device`: the first device with the name is disabled.
unfoldable pub disable : Text → Text → List Device → Option (List Device)
disable name now [] = none
disable name now (d ∷ ds) =
    let rest = disable name now ds in
    if text_eq d.id name
    then some (record d { enabled = some false; revoked = some now } ∷ ds)
    else elim rest [ none ↦ none | some ds' ↦ some (d ∷ ds') ]

abbrev pub with_devices : Settings → Option (List Device) → Outcome Settings
with_devices s none = raises system_exit
with_devices s (some ds) = returns (record s { devices = ds })

-- `revoke_device`, at the time `now`
unfoldable pub revoke_device : Text → Text → Settings → Outcome Settings
revoke_device name now s = with_devices s (disable name now s.devices)

-- `renew_server`; `reissue` is the outcome of loading the CA key and writing the new certificate.
unfoldable pub renew_server : Option Text → Outcome (Unit {0}) → Settings → Outcome Settings
renew_server none reissue s = do reissue; returns s
renew_server (some []) reissue s = do reissue; returns s
renew_server (some (a ∷ ip)) reissue s = do reissue; returns (record s { listener_ip = a ∷ ip })

-- The checks of `init`, before anything is written: the passphrase, the target id, the address
-- (`ip_address` is the outcome of ipaddress.ip_address), and an existing configuration.
unfoldable pub init_checks :
    (passphrase target_id ip : Text) → Outcome (Unit {0}) → Bool → Bool → Outcome (Unit {0})
init_checks passphrase target_id ip ip_address exists force = do
  raise_if (ltb (length passphrase) min_passphrase) system_exit
  raise_if (not (is_id target_id)) system_exit
  ip_address
  raise_if (text_eq ip (codes "0.0.0.0") || text_eq ip (codes "::")) system_exit
  raise_if (if exists then not force else false) system_exit
  returns tt
