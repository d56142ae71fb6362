-- ===== src/Service/Replay/Shut.antt =====
-- An address that keeps failing is shut out (listener.py).
use remote_unlock.Base.{ℕ, ◌≡◌, Bool, true, false, List, [], ◌∷◌, Text, ◌≢◌, if◌then◌else◌}
use remote_unlock.Backoff
use remote_unlock.Backoff.{Backoff}
use remote_unlock.Config.{Config}
use remote_unlock.Service.State.{Env, Service}
use remote_unlock.Service.Session.{result, Output, done, Piece}
use remote_unlock.Service.Session.Charged.{Charged}
use remote_unlock.Service.Replay.{Event, accepts, hellos, responds, step}
use remote_unlock.Service.Replay.Limited.{time}

abbrev pub address : Event → Text
address (accepts now ip der file) = ip
address (hellos d ip cert_device frame) = ip
address (responds now ip device frame) = ip

-- The piece tells the peer that it failed.
abbrev pub told_false : List Output → Bool
told_false (result false ∷ []) = true
told_false _ = false

-- The peer gets no further: the connection is over.
abbrev IsOver : Piece → Type 0
IsOver p = p.2 ≡ done

module _ {PrivateKey PublicKey : Type 0} (env : Env PrivateKey PublicKey) where
  -- The times of the pieces that tell their peer that it failed.
  unfoldable pub failures : List Event → Service → List ℕ
  failures [] s = []
  failures (e ∷ es) s =
      let rest = failures es (step env e s).0 in
      if told_false (step env e s).1 then time e ∷ rest else rest

  -- No piece tells its peer that it may unlock, and those that tell their peer that it failed are of
  -- connections from the address.
  abbrev pub OnlyFails : Text → List Event → Service → Type 0
  OnlyFails ip [] s = Unit
  OnlyFails ip (e ∷ es) s =
      (told_false (step env e s).1 ≡ true → address e ≡ ip)
      × ((step env e s).1 ≢ result true ∷ [])
      × OnlyFails ip es (step env e s).0
