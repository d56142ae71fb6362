-- ===== src/Service/Stop.antt =====
-- `main` and `Runtime.close` of listener.py: the start from the command line, and the end after a
-- signal.
use remote_unlock.Base.{ℕ, Bool, false, not, none, List, [], ◌∷◌, Text, codes}
use remote_unlock.Json.{end}
use remote_unlock.Outcome.{Outcome, raises, system_exit, raise_if, handle, ◌>>◌}
use remote_unlock.Files.{Surroundings, get_passphrase}
use remote_unlock.Service.State.{Env, Service, record_event}
use remote_unlock.Service.Start.{Host, Effect, unlinks, closes_port, closes_pam, start}

-- `Runtime.close`, with how the two `wait_closed` and the `unlink` end. A socket that is not there
-- is no failure of the `unlink`.
unfoldable pub close :
    Text
    → Outcome (Unit {0})
    → Outcome (Unit {0})
    → Outcome (Unit {0})
    → List Effect × Outcome (Unit {0})
close path port_closed pam_closed unlink =
    handle port_closed
      (λ _.
        handle pam_closed (λ _. (closes_port ∷ closes_pam ∷ unlinks path ∷ [], unlink))
          (λ e. (closes_port ∷ closes_pam ∷ [], raises e)))
      (λ e. (closes_port ∷ [], raises e))

module _ {PrivateKey PublicKey : Type 0} (env : Env PrivateKey PublicKey) where
  -- `main`, up to the wait for a signal: whether there is a configuration, and what `get_passphrase`
  -- finds.
  unfoldable pub main_start :
      ℕ → Host PrivateKey → Text → Bool → Surroundings → List Effect × Outcome Service
  unfolding start get_passphrase
  main_start now h cfg_path exists_ found =
      handle (raise_if (not exists_) system_exit >> get_passphrase found false h.disk)
        (λ pw. start env now h cfg_path pw false) (λ e. ([], raises e))

  -- `main`, after the signal.
  unfoldable pub main_stop :
      ℕ
      → Text
      → Outcome (Unit {0})
      → Outcome (Unit {0})
      → Outcome (Unit {0})
      → Service
      → Service × List Effect × Outcome (Unit {0})
  unfolding close
  main_stop now path port_closed pam_closed unlink s =
      let (effects, ended) = close path port_closed pam_closed unlink in
      (record_event env now (codes "service_stop") none end s, effects, ended)
