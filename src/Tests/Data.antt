-- ===== src/Tests/Data.antt =====
-- The inputs of the tests: a signature is the key and a checksum of the message.
use remote_unlock.Base.{
  refl, ℕ, ◌+◌, ◌%◌, true, false, none, List, [], ◌∷◌, Text, Bytes, codes, text_eq, if◌then◌else◌,
}
use remote_unlock.Base.Int.{pos}
use remote_unlock.Json.{Json, str, obj, Fields, field, end}
use remote_unlock.Outcome.{Outcome, returns, raises, invalid_signature, os_error}
use remote_unlock.Config.{Device, Settings, Config, ConfigFile}
use remote_unlock.Audit.{whole, AuditLog, genesis}
use remote_unlock.Protocol.Hex.{to_hex}
use remote_unlock.Protocol.Message.{message}
use remote_unlock.Protocol.Signature.{Crypto, sign}
use remote_unlock.Files.{Calls}
use remote_unlock.Service.State.{Env, Service, new_service}
use remote_unlock.Service.Challenge.{Draw}
use remote_unlock.Client.Exchange.{response_fields}

abbrev checksum : Bytes → ℕ
checksum [] = 0
checksum (b ∷ bs) = b + checksum bs

abbrev signature_of : ℕ → Bytes → Bytes
signature_of key m = key % 256 ∷ checksum m % 256 ∷ []

abbrev pub toy : Crypto ℕ ℕ
toy = record {
  ecdsa_sign = λ key m random. signature_of key m;
  ecdsa_verify = λ key sig m.
      if text_eq sig (signature_of key m) then returns tt else raises invalid_signature;
  encode_dss = λ r s. [];
  load_pem = λ t. returns 5;
  load_der = λ b. returns 6;
  b64decode = λ t. returns t;
  is_p256 = λ key. true;
  public_pem = λ key. codes "BEGIN";
  sha256_hex = λ b. codes "ab";
}

abbrev pub token : Bytes
token = 0 ∷ 1 ∷ 2 ∷ 3 ∷ 4 ∷ 5 ∷ 6 ∷ 7 ∷ 8 ∷ 9 ∷ 10 ∷ 11 ∷ 12 ∷ 13 ∷ 14 ∷ 255 ∷ []

abbrev pub draw : Draw
draw = record { now = 100; wall_ms = 1000; token = token; random = 0 }

abbrev pub phone : Device
phone = record {
  id = codes "phone1";
  public_key_pem = codes "BEGIN";
  cert_sha256 = codes "ab";
  enabled = none;
  created = codes "2025-01-01";
  cert_expires = codes "2027-01-01";
  revoked = none;
}

abbrev pub with_phones : List Device → Settings
with_phones ds = record {
  target_id = codes "laptop";
  unlock_user = codes "ann";
  listener_ip = codes "100.64.0.5";
  listener_port = 8765;
  laptop_public_key_pem = codes "BEGIN";
  signing_key = codes "signing.pem";
  server_cert = codes "server.crt";
  server_key = codes "server.key";
  ca_cert = codes "ca.crt";
  pam_socket = codes "pam.sock";
  audit_log = none;
  challenge_ttl = 10;
  grant_ttl = 20;
  pam_wait = 15;
  pam_allowed_uids = 0 ∷ [];
  require_mtls = true;
  allow_any_interface = false;
  max_connections = 8;
  lockout = record { threshold = 3; base_seconds = 30; max_seconds = 3600 };
  devices = ds;
}

abbrev pub config : Config
config = record { settings = with_phones (phone ∷ []); mtime = 1 }

abbrev pub file : ConfigFile
file = record { mtime = 2; content = returns (with_phones []) }

-- The file as it was read.
abbrev pub unchanged : ConfigFile
unchanged = record { mtime = 1; content = returns (with_phones (phone ∷ [])) }

abbrev pub wire : Fields
wire = response_fields (to_hex token) (
    sign toy 5
      (message (codes "response") (to_hex token) (pos 1000) (codes "phone1") (codes "laptop")) 0)

abbrev pub hello : Fields
hello =
    field (codes "type") (str (codes "hello"))
      (field (codes "device_id") (str (codes "phone1")) end)

-- The empty text stands for the response, any other for the hello.
abbrev decoded : Text → Outcome Json
decoded [] = returns (obj wire)
decoded (c ∷ cs) = returns (obj hello)

abbrev pub hash : Text → Fields → Text
hash prev entry = codes "h"

abbrev pub env : Env ℕ ℕ
env = record {
  crypto = toy;
  signing_key = 7;
  hash = hash;
  loads = decoded;
  str_of = λ j. codes "value";
  stamp = λ now. codes "12:00";
  writes = λ n. whole;
  is_whole = λ n. refl;
  second = 1;
}

abbrev pub log : AuditLog
log = record { lines = []; seq = 0; head = genesis; tamper_error = none }

abbrev pub service : Service
service = new_service env config log

abbrev pub user_ann : Fields
user_ann = field (codes "user") (str (codes "ann")) end

-- A call of `write_private` in which only `fsync` fails.
abbrev pub failing : Calls
failing = record {
  mkdir = returns tt;
  mkstemp = returns (codes ".tmp-1");
  fchmod = returns tt;
  write = returns tt;
  flush = returns tt;
  fsync = raises os_error;
  replace = returns tt;
  unlink = returns tt;
  partly = [];
}

abbrev pub working : Calls
working = record failing { fsync = returns tt }
