-- ===== src/Client/EndToEnd.antt =====
-- The client of client_example.py with the service of listener.py.
use remote_unlock.Base.{ℕ, ◌≤◌, ◌≡◌, ◌≢◌, Text, Bytes, codes, All, length}
use remote_unlock.Base.Int.{ℤ, pos}
use remote_unlock.Outcome.{Outcome, returns}
use remote_unlock.Protocol.Hex.{IsByte}
use remote_unlock.Protocol.Message.{message}
use remote_unlock.Protocol.Signature.{Crypto, sign}
use remote_unlock.Service.State.{Env, Service, settings}
use remote_unlock.Service.Challenge.{Draw, ChallengeMessage, nonce_of}
use remote_unlock.Service.Session.{Frame.text}
use remote_unlock.Broker

-- Two keys belong together, at a message: what one signs the other verifies, and the signature is
-- bytes of a usual length.
pub record Signs {PrivateKey PublicKey : Type 0} (c : Crypto PrivateKey PublicKey)
    (key : PrivateKey) (public : PublicKey) (m : Bytes) (random : ℕ) : Type 0 where
  pub accepted : c.ecdsa_verify public (c.ecdsa_sign key m random) m ≡ returns tt
  pub bytes : All IsByte (c.ecdsa_sign key m random)
  pub short : length (c.ecdsa_sign key m random) ≤ 100
  pub no_raw : length (c.ecdsa_sign key m random) ≢ 64

module _ {PrivateKey PublicKey : Type 0} (env : Env PrivateKey PublicKey)
    (int_of : Text → Outcome ℤ) where
  -- The challenge of the service, with its signature.
  abbrev pub honest_challenge : Draw → Text → Service → ChallengeMessage
  honest_challenge d device_id s = record {
    nonce = nonce_of d;
    issued_ms = d.wall_ms;
    target_id = (settings s).target_id;
    server_sig =
        sign env.crypto env.signing_key
          (message (codes "challenge") (nonce_of d) (pos d.wall_ms) device_id
            (settings s).target_id)
          d.random;
  }

  -- The signature of the client on its answer to that challenge.
  abbrev pub honest_signature : PrivateKey → ℕ → Draw → Text → Service → Text
  honest_signature key random d device_id s =
      sign env.crypto key
        (message (codes "response") (nonce_of d) (pos d.wall_ms) device_id (settings s).target_id)
        random
