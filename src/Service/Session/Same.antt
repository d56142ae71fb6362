-- ===== src/Service/Session/Same.antt =====
-- The pieces of code (listener.py) that count no failure.
use remote_unlock.Base.{
  ℕ, ◌≡◌, refl, Bool, Option, none, some, Text, Text-discrete, arith, inl, inr, Option-cases,
}
use remote_unlock.Base.Dict.{lookup}
use remote_unlock.Json.{Json, Fields, str}
use remote_unlock.Config.{Device}
use remote_unlock.Service.State.{Env, Kind, Service, record_event}
use remote_unlock.Service.Challenge.{Draw, issue_challenge, check_response, take_nonce}
use remote_unlock.Service.Session.{locked, lockout_event}

-- The failures that are counted are as before.
pub record Same (s s' : Service) : Type 0 where
  pub ip : s'.ip_backoff ≡ s.ip_backoff
  pub dev : s'.dev_backoff ≡ s.dev_backoff

module _ {PrivateKey PublicKey : Type 0} (env : Env PrivateKey PublicKey) where
  pub record_event-Same :
      (now : ℕ) (event : Text) (alert : Option (Text × Text)) (data_ : Fields) (s : Service)
      → Same s (record_event env now event alert data_ s)
  unfolding record_event
  record_event-Same now event none data_ s = record { ip = refl; dev = refl }
  record_event-Same now event (some a) data_ s = record { ip = refl; dev = refl }

  pub locked-Same :
      (now : ℕ) (kind : Kind) (key : Text) (s : Service) → Same s (locked env now kind key s).0
  unfolding locked record_event
  locked-Same now kind key s = ground arith

  pub lockout_event-Same :
      (now : ℕ) (kind : Kind) (key : Text) (hit : Bool) (s : Service)
      → Same s (lockout_event env now kind key hit s)
  unfolding lockout_event record_event
  lockout_event-Same now kind key hit s = ground arith

  pub issue_challenge-Same :
      (d : Draw) (device_id : Text) (s : Service) → Same s (issue_challenge env d device_id s).0
  unfolding issue_challenge
  issue_challenge-Same d device_id s = ground arith

  pub check_response-Same :
      (now : ℕ) (device : Device) (nonce signature : Json) (s : Service)
      → Same s (check_response env now device nonce signature s).0
  unfolding check_response take_nonce
  check_response-Same now device (str nonce) signature s =
      elim (Option-cases (lookup Text-discrete nonce s.pending)) [
        | inl e ↦ ground arith
        | inr (rec, e) ↦ ground arith
      ]
  check_response-Same now device nonce signature s = record { ip = refl; dev = refl }
