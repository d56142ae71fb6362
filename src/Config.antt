-- ===== src/Config.antt =====
-- `class Config` of common.py: the settings that the other parts read, the registered devices and
-- the reload of a changed file.
pub mod Lookup
pub mod Data
use remote_unlock.Base.{
  ℕ, Bool, true, ◌&&◌, Option, none, some, List, [], ◌∷◌, Text, text_eq, ◌==◌, if◌then◌else◌,
}
use remote_unlock.Outcome.{Outcome, returns, raises, os_error, value_error}

-- One entry of `devices`. `enabled` may be missing.
pub record Device : Type 0 where
  pub id : Text
  pub public_key_pem : Text
  pub cert_sha256 : Text
  pub enabled : Option Bool
  pub created : Text
  pub cert_expires : Text
  pub revoked : Option Text

-- `lockout`
pub record Lockout : Type 0 where
  pub threshold : ℕ
  pub base_seconds : ℕ
  pub max_seconds : ℕ

-- `self.data`, the keys that the modelled code reads. Durations are in the clock's unit.
pub record Settings : Type 0 where
  pub target_id : Text
  pub unlock_user : Text
  pub listener_ip : Text
  pub listener_port : ℕ
  pub laptop_public_key_pem : Text
  pub signing_key : Text
  -- `tls`
  pub server_cert : Text
  pub server_key : Text
  pub ca_cert : Text
  pub pam_socket : Text
  -- null is no text
  pub audit_log : Option Text
  pub challenge_ttl : ℕ
  pub grant_ttl : ℕ
  pub pam_wait : ℕ
  pub pam_allowed_uids : List ℕ
  pub require_mtls : Bool
  pub allow_any_interface : Bool
  pub max_connections : ℕ
  pub lockout : Lockout
  pub devices : List Device

-- The file: its modification time, and what reading, parsing and merging it into DEFAULTS gives.
pub record ConfigFile : Type 0 where
  pub mtime : ℕ
  pub content : Outcome Settings

pub record Config : Type 0 where
  pub settings : Settings
  pub mtime : ℕ

unfoldable pub reload : ConfigFile → Outcome Config
reload f = elim f.content [
  | returns s ↦ returns (record { settings = s; mtime = f.mtime })
  | raises e ↦ raises e
]

-- the `except (OSError, ValueError): pass` of `reload_if_changed`
abbrev pub or_last_good : Config → Outcome Config → Outcome Config
or_last_good cfg (returns cfg') = returns cfg'
or_last_good cfg (raises os_error) = returns cfg
or_last_good cfg (raises value_error) = returns cfg
or_last_good cfg (raises e) = raises e

unfoldable pub reload_if_changed : ConfigFile → Config → Outcome Config
unfolding reload
reload_if_changed f cfg = if f.mtime == cfg.mtime then returns cfg else or_last_good cfg (reload f)

-- `d.get("enabled", True)`
abbrev pub is_enabled : Device → Bool
is_enabled d = elim d.enabled [ none ↦ true | some b ↦ b ]

-- The first device that is enabled and passes a test.
unfoldable pub first_enabled : (Device → Bool) → List Device → Option Device
first_enabled p [] = none
first_enabled p (d ∷ ds) = if is_enabled d && p d then some d else first_enabled p ds

unfoldable pub device_by_fp : Text → Settings → Option Device
unfolding first_enabled
device_by_fp fp s = first_enabled (λ d. text_eq d.cert_sha256 fp) s.devices

unfoldable pub device_by_id : Text → Settings → Option Device
unfolding first_enabled
device_by_id device_id s = first_enabled (λ d. text_eq d.id device_id) s.devices
