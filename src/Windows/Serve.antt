-- ===== src/Windows/Serve.antt =====
-- `main` of windows/listener_windows.py as a whole, from the configuration file to the port.
use remote_unlock.Base.{◌≡◌, refl, Bool, true, Option, none, some, Text, if◌then◌else◌}
use remote_unlock.Json.{Json, str, obj, Fields}
use remote_unlock.Outcome.{Outcome, returns, raises, Exception, os_error, handle, ◌>>=◌}
use remote_unlock.Files.{set_text}
use remote_unlock.Notify.{is_true}
use remote_unlock.Windows.Secrets.{Cipher, IsInverse, object_of}
use remote_unlock.Protocol.Signature.{strip}
use remote_unlock.Windows.Setup.{
  Answers, Made, Started, Loaders, pair, main_start, of_pairing, main_start-pair,
}

-- How `main` ends, or that it serves connections.
pub data Ended : Type 0 where
  no_config : Ended
  failed : Exception → Ended
  not_bound : Ended
  serves : Started → Ended

-- What `main` finds: whether there is a configuration, what it holds, the variable
-- REMOTE_UNLOCK_PASSPHRASE, the answer at the prompt, and how listening ends.
pub record Found : Type 0 where
  pub exists_ : Bool
  pub loaded : Outcome Json
  pub variable : Option Text
  pub prompted : Outcome Text
  pub listens : Started → Outcome (Unit {0})

-- The variable, or else the prompt.
unfoldable pub passphrase_of : Option Text → Outcome Text → Outcome Text
passphrase_of variable prompted = elim (set_text variable) [
  | some passphrase ↦ returns passphrase
  | none ↦ prompted
]

-- The `except OSError` round the serving of connections.
abbrev pub listen : Started → Outcome (Unit {0}) → Ended
listen st (returns u) = serves st
listen st (raises os_error) = not_bound
listen st (raises e) = failed e

module _ (c : Cipher) where
  unfoldable pub main : Loaders → Found → Ended
  unfolding passphrase_of
  main l w =
      if w.exists_
      then handle
          (w.loaded >>= λ json. passphrase_of w.variable w.prompted >>= λ passphrase.
            object_of (some json) >>= λ config. main_start c l config passphrase)
          (λ st. listen st (w.listens st)) failed
      else no_config

  -- After a pairing, `main` serves connections with what was paired, if the packages give back what
  -- they were given, the file holds the configuration that was saved, the passphrase is the paired
  -- one and not empty, the certificate's paths are not empty, keys and certificate are loaded, and
  -- the port can be bound.
  pub main-pair :
      (l : Loaders) (a : Answers) (w : Made) (found : Found) (config : Fields)
      → IsInverse c
      → pair c a w ≡ returns config
      → a.passphrase ≡ a.confirm
      → w.generate_tls_cert (strip a.ip) ≡ returns tt
      → is_true (str w.cert_path) ≡ true
      → is_true (str w.key_path) ≡ true
      → l.load_cert_chain (str w.cert_path) (str w.key_path) ≡ returns tt
      → l.load_public a.phone_public_key_pem ≡ returns tt
      → l.load_private w.private_pem ≡ returns tt
      → found.exists_ ≡ true
      → found.loaded ≡ returns (obj config)
      → passphrase_of found.variable found.prompted ≡ returns a.passphrase
      → found.listens (of_pairing c a w) ≡ returns tt
      → main l found ≡ serves (of_pairing c a w)
  unfolding main
  main-pair l a w found config inverse saved same made cert key chain public private_ there read
        given bound =
      let started : main_start c l config a.passphrase ≡ returns (of_pairing c a w) =
        rw saved at (main_start-pair c l a w inverse same made cert key chain public private_) in
      rw (there, read, given, started, bound) refl
