-- ===== src/Service/Replay/Limited.antt =====
-- How long lockouts last, in any run of the service (listener.py).
use remote_unlock.Base.{ℕ, ◌≤◌, refl, List, [], ◌∷◌, Text, arith}
use remote_unlock.Backoff.{remaining}
use remote_unlock.Backoff.Bound.{remaining-le}
use remote_unlock.Config.{Config}
use remote_unlock.Audit.{AuditLog}
use remote_unlock.Service.State.{Env, Service, new_service}
use remote_unlock.Service.Session.Limited.{
  Limited, Limited-later, accept-Limited, on_hello-Limited, on_response-Limited,
}
use remote_unlock.Service.Replay.{Event, accepts, hellos, responds, step, run}

abbrev pub time : Event → ℕ
time (accepts now ip der file) = now
time (hellos d ip cert_device frame) = d.now
time (responds now ip device frame) = now

-- The clock does not go back from one event to the next.
abbrev pub InOrder : ℕ → List Event → Type 0
InOrder now [] = Unit
InOrder now (e ∷ es) = (now ≤ time e) × InOrder (time e) es

abbrev pub last_time : ℕ → List Event → ℕ
last_time now [] = now
last_time now (e ∷ es) = last_time (time e) es

module _ {PrivateKey PublicKey : Type 0} (env : Env PrivateKey PublicKey) where
  step-Limited :
      (maximum : ℕ) (e : Event) (s : Service)
      → Limited (time e) maximum s
      → Limited (time e) maximum (step env e s).0
  unfolding step
  step-Limited maximum (accepts now ip der file) s h =
      accept-Limited env now maximum ip der file s h
  step-Limited maximum (hellos d ip cert_device frame) s h =
      on_hello-Limited env d maximum ip cert_device frame s h
  step-Limited maximum (responds now ip device frame) s h =
      on_response-Limited env now maximum ip device frame s h

  run-Limited :
      (now maximum : ℕ) (es : List Event) (s : Service)
      → InOrder now es
      → Limited now maximum s
      → Limited (last_time now es) maximum (run env es s)
  unfolding run
  run-Limited now maximum [] s o h = h
  run-Limited now maximum (e ∷ es) s (le, o) h =
      run-Limited (time e) maximum es (step env e s).0 o
        (step-Limited maximum e s (Limited-later now (time e) maximum s le h))

  -- In any run from the start of the service, in the order of the clock, by any peers, what is left
  -- of a lockout, of an address or of a device, is at any later time at most the `max_seconds` of
  -- the settings that the service was started with.
  pub remaining-run-max :
      (es : List Event) (cfg : Config) (log : AuditLog) (t : ℕ) (key : Text)
      → InOrder 0 es
      → last_time 0 es ≤ t
      → let s = run env es (new_service env cfg log) in
        (remaining t key s.ip_backoff ≤ cfg.settings.lockout.max_seconds)
        × (remaining t key s.dev_backoff ≤ cfg.settings.lockout.max_seconds)
  unfolding new_service
  remaining-run-max es cfg log t key o le =
      let s = run env es (new_service env cfg log) in
      let ((i, im), (d, dm)) =
        run-Limited 0 cfg.settings.lockout.max_seconds es (new_service env cfg log) o
          ((tt, refl), (tt, refl)) in
      (
        omega (arith, remaining-le (last_time 0 es) t key s.ip_backoff i le, im),
        omega (arith, remaining-le (last_time 0 es) t key s.dev_backoff d le, dm),
      )
