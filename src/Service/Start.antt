-- ===== src/Service/Start.antt =====
-- `start` and `build_ssl_context` of listener.py: what is checked and loaded before anything is
-- opened, and what is opened. The log lines and the server objects are not modelled.
pub mod Guarded
use remote_unlock.Base.{
  ℕ, Bool, not, ◌&&◌, ◌||◌, Option, none, some, List, [], ◌∷◌, ◌++◌, Text, Bytes, codes,
  Text-discrete, text_eq, ◌==◌, if◌then◌else◌,
}
use remote_unlock.Base.Dict.{lookup}
use remote_unlock.Base.Int.{pos}
use remote_unlock.Json.{bool, int, str, field, end}
use remote_unlock.Outcome.{
  Outcome, returns, raises, os_error, system_exit, raise_if, handle, ◌>>=◌, ◌>>◌,
}
use remote_unlock.Files.{File, Disk, owner_only, check_private}
use remote_unlock.Config.{Settings, Config, ConfigFile, reload}
use remote_unlock.Audit.{Line, Fault, AuditLog, open_log}
use remote_unlock.Audit.Report.{fault_text}
use remote_unlock.Service.State.{Env, Service, settings, record_event, new_service}

-- What `start` finds and calls outside the program.
pub record Host (PrivateKey : Type 0) : Type 0 where
  -- `os.getuid()`
  pub uid : ℕ
  pub disk : Disk
  -- `cfg.resolve`
  pub resolve : Text → Text
  -- the configuration file at a path
  pub config_file : Text → ConfigFile
  -- `load_pem_private_key`, with the passphrase
  pub load_private_key : Bytes → Text → Outcome PrivateKey
  -- `load_cert_chain(certificate, key, passphrase)` and `load_verify_locations`
  pub load_cert_chain : Text → Text → Text → Outcome (Unit {0})
  pub load_verify_locations : Text → Outcome (Unit {0})
  -- `state_dir() / "audit.log"`, and the lines of the log at a path, if there is one
  pub default_log : Text
  pub log_lines : Text → Option (List Line)
  -- the umask before the start
  pub umask : ℕ
  -- how the calls end that open the socket and the port
  pub mkdir : Outcome (Unit {0})
  pub unlink : Outcome (Unit {0})
  pub start_unix_server : Outcome (Unit {0})
  pub chmod : Outcome (Unit {0})
  pub serve : Outcome (Unit {0})

-- Whether a peer must show a certificate.
pub data VerifyMode : Type 0 where
  cert_required cert_optional : VerifyMode

-- What the system is asked to do, in its order.
pub data Effect : Type 0 where
  unlinks : Text → Effect
  sets_umask : ℕ → Effect
  opens_pam : Text → Effect
  chmods : Text → ℕ → Effect
  serves : Text → ℕ → VerifyMode → Effect
  closes_port closes_pam : Effect

-- `build_ssl_context`, for TLS 1.3 and above
unfoldable pub build_ssl_context :
    {PrivateKey : Type 0} → Host PrivateKey → Settings → Text → Outcome VerifyMode
build_ssl_context h s passphrase =
    h.load_cert_chain (h.resolve s.server_cert) (h.resolve s.server_key) passphrase
    >> (h.load_verify_locations (h.resolve s.ca_cert)
        >> returns (if s.require_mtls then cert_required else cert_optional))

abbrev pub is_wildcard : Text → Bool
is_wildcard ip = text_eq ip (codes "0.0.0.0") || text_eq ip (codes "::") || text_eq ip []

-- The tests on the configuration, up to the refusal of a wildcard address.
unfoldable pub check_config :
    {PrivateKey : Type 0} → Host PrivateKey → Text → Config → Outcome Config
check_config h cfg_path cfg =
    let s = cfg.settings in
    check_private (h.resolve s.signing_key) h.disk
    >> (check_private (h.resolve s.server_key) h.disk
        >> (check_private cfg_path h.disk
            >> (raise_if (is_wildcard s.listener_ip && not s.allow_any_interface) system_exit
                >> returns cfg)))

unfoldable pub start_checks : {PrivateKey : Type 0} → Host PrivateKey → Text → Bool → Outcome Config
start_checks h cfg_path allow_root =
    raise_if (h.uid == 0 && not allow_root) system_exit
    >> (reload (h.config_file cfg_path) >>= check_config h cfg_path)

-- `cfg.resolve(cfg["signing_key"]).read_bytes()`
abbrev pub read_bytes : Option File → Outcome Bytes
read_bytes none = raises os_error
read_bytes (some f) = returns f.data_

-- The path of the log: a missing or empty setting means the default.
abbrev pub log_path : Option Text → Text → Text
log_path none default = default
log_path (some []) default = default
log_path (some (a ∷ t)) default = a ∷ t

-- What is loaded before anything is opened.
pub record Loaded (PrivateKey : Type 0) : Type 0 where
  pub config : Config
  pub key : PrivateKey
  pub verify_mode : VerifyMode
  pub log : AuditLog

-- 0o177
abbrev pub no_others : ℕ
no_others = 127

module _ {PrivateKey PublicKey : Type 0} (env : Env PrivateKey PublicKey) where
  unfoldable pub load : Host PrivateKey → Text → Config → Outcome (Loaded PrivateKey)
  load h passphrase cfg =
      read_bytes (lookup Text-discrete (h.resolve cfg.settings.signing_key) h.disk) >>= λ pem.
      h.load_private_key pem passphrase >>= λ key.
      build_ssl_context h cfg.settings passphrase >>= λ mode.
      open_log env.hash (h.log_lines (log_path cfg.settings.audit_log h.default_log)) >>= λ log.
      returns (record { config = cfg; key = key; verify_mode = mode; log = log })

  -- The record of a log that does not verify, if it does not.
  abbrev pub record_tamper : ℕ → Option Fault → Service → Service
  record_tamper now none s = s
  record_tamper now (some f) s =
      record_event env now (codes "audit_tamper_detected")
        (some (codes "AUDIT LOG TAMPERING DETECTED", codes "urgent"))
        (field (codes "error") (str (fault_text f)) end) s

  -- The two records at the end of `start`.
  unfoldable pub record_start : ℕ → Loaded PrivateKey → Service → Service
  record_start now l s =
      record_event env now (codes "service_start")
        (some (codes "remote-unlock started", codes "low"))
        (field (codes "ip") (str (settings s).listener_ip) (
          field (codes "port") (int (pos (settings s).listener_port))
            (field (codes "mtls") (bool (settings s).require_mtls) end)))
        (record_tamper now l.log.tamper_error s)

  -- From the directory of the socket to the end. A socket that is not there is no failure of the
  -- `unlink`.
  unfoldable pub open_all : ℕ → Host PrivateKey → Loaded PrivateKey → List Effect × Outcome Service
  open_all now h l =
      let s = l.config.settings in
      let path = s.pam_socket in
      let made = unlinks path ∷ [] in
      let bound = made ++ sets_umask no_others ∷ opens_pam path ∷ sets_umask h.umask ∷ [] in
      let changed = bound ++ chmods path owner_only ∷ [] in
      let served = changed ++ serves s.listener_ip s.listener_port l.verify_mode ∷ [] in
      handle h.mkdir
        (λ _.
          handle h.unlink
            (λ _.
              handle h.start_unix_server
                (λ _.
                  handle h.chmod
                    (λ _.
                      handle h.serve
                        (λ _. (
                          served,
                          returns (
                              record_start now l
                                (new_service (record env { signing_key = l.key }) l.config l.log)),
                        ))
                        (λ e. (served, raises e)))
                    (λ e. (changed, raises e)))
                (λ e. (bound, raises e)))
            (λ e. (made, raises e)))
        (λ e. ([], raises e))

  -- `start`, with the configuration's path and the passphrase.
  unfoldable pub start : ℕ → Host PrivateKey → Text → Text → Bool → List Effect × Outcome Service
  start now h cfg_path passphrase allow_root =
      handle (start_checks h cfg_path allow_root >>= load h passphrase) (λ l. open_all now h l)
        (λ e. ([], raises e))
