-- ===== src/Service/Start/Guarded.antt =====
-- What `start` of listener.py has made sure of when it opens the socket and the port.
use remote_unlock.Base.{
  ℕ, ◌≡◌, ◌≢◌, refl, text_eq_iff, codes, ◌⊎◌, inl, inr, sym, subst, Bool, true, false, not, ◌&&◌,
  List, [], ◌∷◌, Text, Text-discrete, ◌==◌, if◌then◌else◌, All, arith,
}
use remote_unlock.Base.Dict.{lookup}
use remote_unlock.Outcome.{
  bind_returns, then_returns, raise_if-returns, Outcome, returns, raise_if, handle_split,
  system_exit, ◌>>=◌, ◌>>◌,
}
use remote_unlock.Files.{owner_only, check_private}
use remote_unlock.Config.{Settings, Config, reload}
use remote_unlock.Audit.{open_log}
use remote_unlock.Service.State.{Env, Service}
use remote_unlock.Service.Start.{
  Host, VerifyMode, cert_required, cert_optional, Effect, unlinks, sets_umask, opens_pam, chmods,
  closes_port, closes_pam, serves, build_ssl_context, is_wildcard, check_config, start_checks,
  read_bytes, log_path, Loaded, no_others, load, open_all, start,
}

-- What is known of the user, the files and the address.
pub record Checked {PrivateKey : Type 0} (h : Host PrivateKey) (cfg_path : Text) (allow_root : Bool)
    (cfg : Config) : Type 0 where
  pub read : reload (h.config_file cfg_path) ≡ returns cfg
  pub not_root : h.uid ≡ 0 → allow_root ≡ true
  pub signing_key : check_private (h.resolve cfg.settings.signing_key) h.disk ≡ returns tt
  pub server_key : check_private (h.resolve cfg.settings.server_key) h.disk ≡ returns tt
  pub config : check_private cfg_path h.disk ≡ returns tt
  pub address :
      cfg.settings.allow_any_interface ≡ false
      → (cfg.settings.listener_ip ≢ codes "0.0.0.0")
        × (cfg.settings.listener_ip ≢ codes "::")
        × (cfg.settings.listener_ip ≢ [])

-- A configuration that passes is the one that was read.
check_config-Checked :
    {PrivateKey : Type 0} (h : Host PrivateKey) (cfg_path : Text) (allow_root : Bool)
    (cfg cfg' : Config)
    → reload (h.config_file cfg_path) ≡ returns cfg
    → (h.uid == 0 && not allow_root) ≡ false
    → check_config h cfg_path cfg ≡ returns cfg'
    → (cfg ≡ cfg') × Checked h cfg_path allow_root cfg
unfolding check_config
check_config-Checked h cfg_path allow_root cfg cfg' read user e =
    let s = cfg.settings in
    let (signing, e₁) = then_returns (check_private (h.resolve s.signing_key) h.disk) _ cfg' e in
    let (tls, e₂) = then_returns (check_private (h.resolve s.server_key) h.disk) _ cfg' e₁ in
    let (config, e₃) = then_returns (check_private cfg_path h.disk) _ cfg' e₂ in
    let (wild, same) =
      then_returns (raise_if (is_wildcard s.listener_ip && not s.allow_any_interface) system_exit) _
        cfg' e₃ in
    let wild' =
      raise_if-returns (is_wildcard s.listener_ip && not s.allow_any_interface) system_exit wild in
    (
      ground arith,
      record {
        read = read;
        not_root = λ root. ground arith;
        signing_key = signing;
        server_key = tls;
        config = config;
        address = λ off. (
          λ e. ground (arith, (text_eq_iff s.listener_ip (codes "0.0.0.0")).1 e),
          λ e. ground (arith, (text_eq_iff s.listener_ip (codes "::")).1 e),
          λ e. ground (arith, (text_eq_iff s.listener_ip []).1 e),
        );
      },
    )

start_checks-Checked :
    {PrivateKey : Type 0} (h : Host PrivateKey) (cfg_path : Text) (allow_root : Bool) (cfg : Config)
    → start_checks h cfg_path allow_root ≡ returns cfg
    → Checked h cfg_path allow_root cfg
unfolding start_checks
start_checks-Checked h cfg_path allow_root cfg e =
    let root = h.uid == 0 && not allow_root in
    let (user, e₁) =
      then_returns (raise_if root system_exit)
        (reload (h.config_file cfg_path) >>= check_config h cfg_path) cfg e in
    let (cfg', read, e₂) =
      bind_returns (reload (h.config_file cfg_path)) (check_config h cfg_path) cfg e₁ in
    let (same, checked) =
      check_config-Checked h cfg_path allow_root cfg' cfg read
        (raise_if-returns root system_exit user) e₂ in
    subst (Checked h cfg_path allow_root) same checked

-- The address and the port are the configured ones, and a certificate is required if mTLS is.
-- Only the owner may use the socket.
abbrev pub IsSound : Config → Effect → Type 0
IsSound cfg (serves ip port mode) =
    (ip ≡ cfg.settings.listener_ip)
    × (port ≡ cfg.settings.listener_port)
    × (cfg.settings.require_mtls ≡ true → mode ≡ cert_required)
IsSound cfg (chmods path mode) = (path ≡ cfg.settings.pam_socket) × (mode ≡ owner_only)
IsSound cfg (opens_pam path) = path ≡ cfg.settings.pam_socket
IsSound cfg (unlinks path) = path ≡ cfg.settings.pam_socket
IsSound cfg (sets_umask mask) = Unit
IsSound cfg closes_port = Unit
IsSound cfg closes_pam = Unit

-- From one umask on, the socket is made under the umask that leaves others nothing, and the last
-- umask is the one before the start.
abbrev pub Masked : ℕ → ℕ → List Effect → Type 0
Masked before mask [] = mask ≡ before
Masked before mask (sets_umask mask' ∷ es) = Masked before mask' es
Masked before mask (opens_pam path ∷ es) = (mask ≡ no_others) × Masked before mask es
Masked before mask (e ∷ es) = Masked before mask es

-- What has been loaded is for the configuration.
record IsFor {PrivateKey : Type 0} (cfg : Config) (l : Loaded PrivateKey) : Type 0 where
  same : l.config ≡ cfg
  required : cfg.settings.require_mtls ≡ true → l.verify_mode ≡ cert_required

build_ssl_context-required :
    {PrivateKey : Type 0} (h : Host PrivateKey) (s : Settings) (passphrase : Text)
    (mode : VerifyMode)
    → build_ssl_context h s passphrase ≡ returns mode
    → s.require_mtls ≡ true
    → mode ≡ cert_required
unfolding build_ssl_context
build_ssl_context-required h s passphrase mode e mtls =
    let made : Outcome VerifyMode =
      returns (if s.require_mtls then cert_required else cert_optional) in
    let located = h.load_verify_locations (h.resolve s.ca_cert) >> made in
    let (_, e₁) =
      then_returns (h.load_cert_chain (h.resolve s.server_cert) (h.resolve s.server_key) passphrase)
        located mode e in
    let (_, e₂) = then_returns (h.load_verify_locations (h.resolve s.ca_cert)) made mode e₁ in
    ground arith

module _ {PrivateKey PublicKey : Type 0} (env : Env PrivateKey PublicKey) where
  load-IsFor :
      (h : Host PrivateKey) (passphrase : Text) (cfg : Config) (l : Loaded PrivateKey)
      → load env h passphrase cfg ≡ returns l
      → IsFor cfg l
  unfolding load
  load-IsFor h passphrase cfg l e =
      let s = cfg.settings in
      let (pem, _, e₁) =
        bind_returns (read_bytes (lookup Text-discrete (h.resolve s.signing_key) h.disk)) _ l e in
      let (key, _, e₂) = bind_returns (h.load_private_key pem passphrase) _ l e₁ in
      let (mode, tls, e₃) = bind_returns (build_ssl_context h s passphrase) _ l e₂ in
      let (log, _, e₄) =
        bind_returns (open_log env.hash (h.log_lines (log_path s.audit_log h.default_log))) _ l
          e₃ in
      record {
        same = ground arith;
        required = λ mtls. ground (arith, build_ssl_context-required h s passphrase mode tls mtls);
      }

  -- What a start comes to, on its effects.
  abbrev pub Guarded : Host PrivateKey → Text → Bool → List Effect → Type 0
  Guarded h cfg_path allow_root es =
      (es ≡ [])
      ⊎ ((cfg : Config) × Checked h cfg_path allow_root cfg
          × All (IsSound cfg) es
          × Masked h.umask h.umask es)

  abbrev SoundAll : Host PrivateKey → Config → List Effect × Outcome Service → Type 0
  SoundAll h cfg r = All (IsSound cfg) r.0 × Masked h.umask h.umask r.0

  open_all-SoundAll :
      (now : ℕ) (h : Host PrivateKey) (l : Loaded PrivateKey)
      → (l.config.settings.require_mtls ≡ true → l.verify_mode ≡ cert_required)
      → SoundAll h l.config (open_all env now h l)
  unfolding open_all
  open_all-SoundAll now h l required =
      let P = SoundAll h l.config in
      handle_split P h.mkdir _ _
        (λ _ _.
          handle_split P h.unlink _ _
            (λ _ _.
              handle_split P h.start_unix_server _ _
                (λ _ _.
                  handle_split P h.chmod _ _
                    (λ _ _.
                      handle_split P h.serve _ _
                        (λ _ _. (
                          (refl, (tt, (refl, (tt, ((refl, refl), ((refl, refl, required), tt)))))),
                          (refl, refl),
                        ))
                        (λ _ _. (
                          (refl, (tt, (refl, (tt, ((refl, refl), ((refl, refl, required), tt)))))),
                          (refl, refl),
                        )))
                    (λ _ _. ((refl, (tt, (refl, (tt, ((refl, refl), tt))))), (refl, refl))))
                (λ _ _. ((refl, (tt, (refl, (tt, tt)))), (refl, refl))))
            (λ _ _. ((refl, tt), refl)))
        (λ _ _. (tt, refl))

  -- Nothing is opened before everything is checked, however the start ends: either the system is
  -- asked for nothing; or the user is not root, unless that is allowed, the two keys and the
  -- configuration pass `check_private`, the address is none of `0.0.0.0`, `::` and the empty text,
  -- unless that is allowed, the socket and the port are the configured ones, the socket is made under a umask that leaves others
  -- nothing, which is set back, and only its owner may use it, and with `require_mtls` the port
  -- requires a certificate.
  pub start-Guarded :
      (now : ℕ) (h : Host PrivateKey) (cfg_path passphrase : Text) (allow_root : Bool)
      → Guarded h cfg_path allow_root (start env now h cfg_path passphrase allow_root).0
  unfolding start
  start-Guarded now h cfg_path passphrase allow_root =
      handle_split (λ (r : List Effect × Outcome Service). Guarded h cfg_path allow_root r.0)
        (start_checks h cfg_path allow_root >>= load env h passphrase) _ _
        (λ l e.
          let (cfg, checks, loads) =
            bind_returns (start_checks h cfg_path allow_root) (load env h passphrase) l e in
          let f = load-IsFor h passphrase cfg l loads in
          inr (
            l.config,
            subst (Checked h cfg_path allow_root) (sym f.same)
                (start_checks-Checked h cfg_path allow_root cfg checks),
            (open_all-SoundAll now h l (rw f.same f.required)).0,
            (open_all-SoundAll now h l (rw f.same f.required)).1,
          ))
        (λ e _. inl refl)
