-- ===== src/Windows/Setup.antt =====
-- `main` of windows/pair_windows.py, and `main` of windows/listener_windows.py up to the serving of
-- connections, with the part of `UnlockService.__init__` and `build_ssl_context` that reads the
-- configuration. Prompts are answered by texts; the printed lines are not modelled.
use remote_unlock.Base.{
  ℕ, ◌≡◌, refl, Bool, true, false, not, ◌||◌, ◌++◌, Text, Bytes, codes, text_eq, text_eq_refl,
  Text-discrete,
}
use remote_unlock.Base.Int.{pos}
use remote_unlock.Json.{Json, bool, int, str, arr, obj, cons, nil, Fields, field, end, find, get}
use remote_unlock.Outcome.{
  Outcome, returns, raises, system_exit, invalid_token, raise_if, ◌>>=◌, ◌>>◌,
}
use remote_unlock.Config.Data.{get_or}
use remote_unlock.Protocol.Hex.{to_hex}
use remote_unlock.Protocol.Signature.{strip}
use remote_unlock.Notify.{is_true}
use remote_unlock.Windows.Secrets.{
  Cipher, text_of, object_of, encrypt_secret, decrypt_secret, IsInverse,
  decrypt_secret-encrypt_secret,
}

-- What the user answers.
pub record Answers : Type 0 where
  pub ip : Text
  pub passphrase : Text
  pub confirm : Text
  pub password : Text
  pub shutdown : Text
  pub phone_public_key_pem : Text

-- What `main` of pair_windows.py draws and makes: the private key's PEM text, the salts and the
-- randomness of the two secrets, the topic's bytes, and how `generate_tls_cert` ends for the address.
pub record Made : Type 0 where
  pub private_pem : Text
  pub key_salt : Bytes
  pub key_random : ℕ
  pub password_salt : Bytes
  pub password_random : ℕ
  pub topic : Bytes
  pub cert_path : Text
  pub key_path : Text
  pub generate_tls_cert : Text → Outcome (Unit {0})

-- `answer.strip().lower() == "y"`
abbrev pub is_yes : Text → Bool
is_yes answer = text_eq (strip answer) (codes "y") || text_eq (strip answer) (codes "Y")

abbrev pub shutdown_command : Json
shutdown_command = arr (
    cons (str (codes "shutdown"))
      (cons (str (codes "/s")) (cons (str (codes "/t")) (cons (str (codes "0")) nil))))

-- What `main` of the listener reads out of the configuration and the secrets.
pub record Started : Type 0 where
  pub phone_public_key_pem : Text
  pub private_pem : Text
  pub password : Text
  pub port : Json
  pub ntfy_topic : Json
  pub shutdown_enabled : Bool
  pub command : Json
  pub bind_ip : Json

-- Outcomes of `load_pem_public_key`, `load_pem_private_key` and `load_cert_chain`.
pub record Loaders : Type 0 where
  pub load_public : Text → Outcome (Unit {0})
  pub load_private : Text → Outcome (Unit {0})
  pub load_cert_chain : Json → Json → Outcome (Unit {0})

module _ (c : Cipher) where
  -- `main` of pair_windows.py: the configuration that it saves.
  unfoldable pub pair : Answers → Made → Outcome Fields
  pair a w =
      raise_if (not (text_eq a.passphrase a.confirm)) system_exit
      >> (w.generate_tls_cert (strip a.ip)
          >> returns (
              field (codes "listener_ip") (str (strip a.ip)) (
                field (codes "listener_port") (int (pos 8765)) (
                  field (codes "phone_public_key_pem") (str a.phone_public_key_pem) (
                    field (codes "laptop_private_key_encrypted")
                      (obj (encrypt_secret c w.private_pem a.passphrase w.key_salt w.key_random))
                      (field (codes "windows_password_encrypted")
                        (obj (
                          encrypt_secret c a.password a.passphrase w.password_salt
                            w.password_random))
                        (field (codes "tls_cert_path") (str w.cert_path) (
                          field (codes "tls_key_path") (str w.key_path) (
                            field (codes "ntfy_topic")
                              (str (codes "remote-unlock-" ++ to_hex w.topic))
                              (field (codes "shutdown_enabled") (bool (is_yes a.shutdown))
                                (field (codes "shutdown_command") shutdown_command end)))))))))))

  -- The secret under a key of the configuration.
  unfoldable pub secret_at : Text → Fields → Text → Outcome Text
  secret_at key config passphrase =
      object_of (find key config) >>= λ encrypted. decrypt_secret c encrypted passphrase

  -- the `except InvalidToken`
  abbrev pub wrong_passphrase : {A : Type 0} → Outcome A → Outcome A
  wrong_passphrase (raises invalid_token) = raises system_exit
  wrong_passphrase o = o

  -- `build_ssl_context`, by the two paths
  unfoldable pub check_tls : Loaders → Json → Json → Outcome (Unit {0})
  check_tls l cert key =
      raise_if (not (is_true cert) || not (is_true key)) system_exit >> l.load_cert_chain cert key

  -- `main` of the listener, for the configuration that it has read.
  unfoldable pub main_start : Loaders → Fields → Text → Outcome Started
  unfolding secret_at check_tls
  main_start l config passphrase =
      secret_at (codes "laptop_private_key_encrypted") config passphrase >>= λ private_pem.
      wrong_passphrase (secret_at (codes "windows_password_encrypted") config passphrase)
      >>= λ password. text_of (find (codes "phone_public_key_pem") config) >>= λ phone.
          l.load_public phone
          >> (l.load_private private_pem
              >> (check_tls l (get (codes "tls_cert_path") config)
                    (get (codes "tls_key_path") config)
                  >> returns (record {
                    phone_public_key_pem = phone;
                    private_pem = private_pem;
                    password = password;
                    port = get_or (codes "listener_port") (int (pos 8765)) config;
                    ntfy_topic = get (codes "ntfy_topic") config;
                    shutdown_enabled =
                        is_true (get_or (codes "shutdown_enabled") (bool false) config);
                    command = get_or (codes "shutdown_command") shutdown_command config;
                    bind_ip = get_or (codes "listener_ip") (str (codes "0.0.0.0")) config;
                  })))

  -- What the listener reads is what was paired.
  abbrev pub of_pairing : Answers → Made → Started
  of_pairing a w = record {
    phone_public_key_pem = a.phone_public_key_pem;
    private_pem = w.private_pem;
    password = a.password;
    port = int (pos 8765);
    ntfy_topic = str (codes "remote-unlock-" ++ to_hex w.topic);
    shutdown_enabled = is_yes a.shutdown;
    command = shutdown_command;
    bind_ip = str (strip a.ip);
  }

  -- The listener starts from what the pairing has saved: if Fernet, base64 and the encoding give
  -- back what they were given, the two passphrases agree, the certificate is made under paths that
  -- are not empty and is loaded, and both keys are loaded, then with the same passphrase the
  -- listener has the private key, the Windows password, the phone's key, the address, the port, the
  -- topic and the choice about shutdowns that were paired.
  pub main_start-pair :
      (l : Loaders) (a : Answers) (w : Made)
      → IsInverse c
      → a.passphrase ≡ a.confirm
      → w.generate_tls_cert (strip a.ip) ≡ returns tt
      → is_true (str w.cert_path) ≡ true
      → is_true (str w.key_path) ≡ true
      → l.load_cert_chain (str w.cert_path) (str w.key_path) ≡ returns tt
      → l.load_public a.phone_public_key_pem ≡ returns tt
      → l.load_private w.private_pem ≡ returns tt
      → (pair a w >>= λ config. main_start l config a.passphrase) ≡ returns (of_pairing a w)
  unfolding pair main_start secret_at check_tls find get get_or Text-discrete is_true
  main_start-pair l a w inverse same made cert key chain public private_ =
      rw
        (
          same,
          text_eq_refl a.confirm,
          made,
          decrypt_secret-encrypt_secret c w.private_pem a.confirm w.key_salt w.key_random inverse,
          decrypt_secret-encrypt_secret c a.password a.confirm w.password_salt w.password_random
              inverse,
          public,
          private_,
          cert,
          key,
          chain,
        )
        refl
