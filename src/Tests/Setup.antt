-- ===== src/Tests/Setup.antt =====
-- The theorems on the setups of the two systems.
use remote_unlock.Base.{ℕ, ◌≡◌, refl, false, [], ◌∷◌, codes, Text, Text-discrete, text_eq, arith}
use remote_unlock.Base.Dict.{lookup, insert, remove}
use remote_unlock.Json.{str, bool, int, obj, Fields, field, end}
use remote_unlock.Outcome.{returns, raises, os_error}
use remote_unlock.Base.Int.{pos}
use remote_unlock.Base.{some}
use remote_unlock.Protocol.Hex.{to_hex, hex_digit}
use remote_unlock.Protocol.Signature.{strip}
use remote_unlock.Windows.Serve.{Found, serves, passphrase_of, main, main-pair}
use remote_unlock.Files.{write_private, write_temp}
use remote_unlock.Pairing.Setup.{Tools, Drawn, Arguments, server_files, write_all, init_files, init}
use remote_unlock.Pairing.{init_checks}
use remote_unlock.Protocol.Forms.{is_id}
use remote_unlock.Pairing.Setup.Stored.{IsFresh, Initialized, init-Initialized}
use remote_unlock.Notify.{is_true}
use remote_unlock.Base.{true}
use remote_unlock.Tests.Data.{working}
use remote_unlock.Windows.Secrets.{encrypt_secret, Cipher, IsInverse}
use remote_unlock.Windows.Setup.{Answers, Made, Loaders, pair, of_pairing, shutdown_command}

-- Keys are numbers, and a certificate is its key's.
abbrev pub tools : Tools ℕ ℕ
tools = record {
  public_of = λ key. key;
  public_pem = λ key. codes "BEGIN";
  enc_pem = λ key pw. key ∷ pw;
  cert_pem = λ cert. cert.signed_by ∷ [];
  parse_ip = λ ip. returns ip;
  dumps = λ fs. 7 ∷ [];
  path = λ name. 47 ∷ name;
}

abbrev drawn : Drawn ℕ
drawn = record { now = 1000; ca_key = 1; server_key = 2; sign_key = 3; topic = codes "x" }

abbrev arguments : Arguments
arguments = record {
  ip = codes "100.64.0.5";
  port = 8765;
  target_id = codes "laptop";
  unlock_user = codes "ann";
  passphrase = codes "long enough passphrase";
  force = false;
}

pub new_name : (tmp : Text) → working.mkstemp ≡ returns tmp → tmp ≡ codes ".tmp-1"
new_name tmp h = ground arith

init-IsFresh : IsFresh (λ path. working) (init_files tools drawn arguments (codes "100.64.0.5")) []
unfolding init_files server_files write_private write_temp lookup insert remove Text-discrete
init-IsFresh = (
  λ tmp h. refl,
  (
    λ tmp h. rw (new_name tmp h) refl,
    (
      λ tmp h. rw (new_name tmp h) refl,
      (
        λ tmp h. rw (new_name tmp h) refl,
        (λ tmp h. rw (new_name tmp h) refl, (λ tmp h. rw (new_name tmp h) refl, tt)),
      ),
    ),
  ),
)

init_returns : (init tools (λ path. working) drawn arguments false []).1 ≡ returns tt
unfolding init init_checks write_all write_private write_temp is_id text_eq init_files server_files
init_returns = refl

init-Initialized_example :
    Initialized tools drawn arguments
      (codes "100.64.0.5")
      (init tools (λ path. working) drawn arguments false []).0
init-Initialized_example =
    init-Initialized tools (λ path. working) drawn arguments false [] (codes "100.64.0.5")
      (λ a b e. ground arith) refl init-IsFresh init_returns

-- A cipher that hides nothing.
abbrev plain : Cipher
plain = record {
  scrypt = λ salt length n r p passphrase. salt;
  urlsafe_b64encode = λ b. b;
  fernet_encrypt = λ key message random. message;
  fernet_decrypt = λ key ciphertext. returns ciphertext;
  b64encode = λ b. b;
  b64decode = λ t. returns t;
  encode = λ t. t;
  decode = λ b. returns b;
}

plain-IsInverse : IsInverse plain
plain-IsInverse = record {
  base64 = λ b. refl;
  fernet = λ key message random. refl;
  text = λ t. refl;
}

abbrev replies : Answers
replies = record {
  ip = codes "100.64.0.5";
  passphrase = codes "pass";
  confirm = codes "pass";
  password = codes "secret";
  shutdown = codes "y";
  phone_public_key_pem = codes "BEGIN";
}

abbrev made : Made
made = record {
  private_pem = codes "PRIVATE";
  key_salt = 1 ∷ [];
  key_random = 2;
  password_salt = 3 ∷ [];
  password_random = 4;
  topic = 5 ∷ [];
  cert_path = codes "cert.pem";
  key_path = codes "key.pem";
  generate_tls_cert = λ ip. returns tt;
}

abbrev loaders : Loaders
loaders = record {
  load_public = λ t. returns tt;
  load_private = λ t. returns tt;
  load_cert_chain = λ cert key. returns tt;
}

cert_given : is_true (str (codes "cert.pem")) ≡ true
unfolding is_true
cert_given = refl

key_given : is_true (str (codes "key.pem")) ≡ true
unfolding is_true
key_given = refl

abbrev paired : Fields
paired = field (codes "listener_ip") (str (codes "100.64.0.5")) (
    field (codes "listener_port") (int (pos 8765)) (
      field (codes "phone_public_key_pem") (str (codes "BEGIN")) (
        field (codes "laptop_private_key_encrypted")
          (obj (encrypt_secret plain (codes "PRIVATE") (codes "pass") (1 ∷ []) 2))
          (field (codes "windows_password_encrypted")
            (obj (encrypt_secret plain (codes "secret") (codes "pass") (3 ∷ []) 4))
            (field (codes "tls_cert_path") (str (codes "cert.pem")) (
              field (codes "tls_key_path") (str (codes "key.pem")) (
                field (codes "ntfy_topic") (str (codes "remote-unlock-05")) (
                  field (codes "shutdown_enabled") (bool true)
                    (field (codes "shutdown_command") shutdown_command end)))))))))

paired_lem : pair plain replies made ≡ returns paired
unfolding pair strip text_eq to_hex hex_digit
paired_lem = refl

abbrev found : Found
found = record {
  exists_ = true;
  loaded = returns (obj paired);
  variable = some (codes "pass");
  prompted = raises os_error;
  listens = λ st. returns tt;
}

given : passphrase_of found.variable found.prompted ≡ returns replies.passphrase
unfolding passphrase_of
given = refl

main-pair_example : main plain loaders found ≡ serves (of_pairing plain replies made)
main-pair_example =
    main-pair plain loaders replies made found paired plain-IsInverse paired_lem refl refl
      cert_given key_given refl refl refl refl refl given refl
