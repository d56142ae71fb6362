-- ===== src/Service/Replay/Spared.antt =====
-- What runs of the service (listener.py) leave of the lockout of a device that sends no response.
use remote_unlock.Base.{ℕ, ◌≤◌, ◌≡◌, refl, ◌∙◌, ◌≢◌, List, [], ◌∷◌, Text}
use remote_unlock.Base.Dict.{lookup}
use remote_unlock.Backoff.{remaining}
use remote_unlock.Backoff.Lockout.{IsValid}
use remote_unlock.Config.{Config}
use remote_unlock.Audit.{AuditLog}
use remote_unlock.Service.State.{Env, Service, new_service}
use remote_unlock.Service.Replay.{Event, accepts, hellos, responds, step, run}
use remote_unlock.Service.Session.{accept, on_hello}
use remote_unlock.Service.Session.Untouched.{accept_dev, on_hello_dev}
use remote_unlock.Service.Session.Spared.{Spares, Untouched-Spares, on_response-Spares}

-- If the event is a response, it is one of another device than `k`, at `t` at the latest.
unfoldable pub OtherThan : Text → ℕ → Event → Type 0
OtherThan k t (responds now ip device frame) = (k ≢ device.id) × (now ≤ t)
OtherThan k t _ = Unit

unfoldable pub OthersOnly : Text → ℕ → List Event → Type 0
OthersOnly k t [] = Unit
OthersOnly k t (e ∷ es) = OtherThan k t e × OthersOnly k t es

module _ {PrivateKey PublicKey : Type 0} (env : Env PrivateKey PublicKey) where
  step-Spares :
      (k : Text) (t : ℕ) (e : Event) (s : Service)
      → OtherThan k t e
      → IsValid s.dev_backoff
      → Spares k t s (step env e s)
  unfolding step OtherThan
  step-Spares k t (accepts now ip der file) s o v =
      Untouched-Spares env k t s (accept env now ip der file s) v (accept_dev env now ip der file s)
  step-Spares k t (hellos d ip cert_device frame) s o v =
      Untouched-Spares env k t s (on_hello env d ip cert_device frame s) v
        (on_hello_dev env d ip cert_device frame s)
  step-Spares k t (responds now ip device frame) s (ne, le) v =
      on_response-Spares env k t now ip device frame s ne le v

  pub remaining-run :
      (k : Text) (t : ℕ) (es : List Event) (s : Service)
      → OthersOnly k t es
      → IsValid s.dev_backoff
      → remaining t k (run env es s).dev_backoff ≡ remaining t k s.dev_backoff
  unfolding run OthersOnly
  remaining-run k t [] s o v = refl
  remaining-run k t (e ∷ es) s (o, os) v =
      let p = step-Spares k t e s o v in remaining-run k t es (step env e s).0 os p.valid ∙ p.same

  -- From the start of the service, whatever other peers do, and however often they fail, a device
  -- has no lockout left at a time `t`, if no response of its own came, and the responses of the
  -- others came at `t` at the latest.
  pub others_lock_nothing :
      (k : Text) (t : ℕ) (es : List Event) (cfg : Config) (log : AuditLog)
      → OthersOnly k t es
      → remaining t k (run env es (new_service env cfg log)).dev_backoff ≡ 0
  unfolding new_service remaining lookup
  others_lock_nothing k t es cfg log o = remaining-run k t es (new_service env cfg log) o tt
