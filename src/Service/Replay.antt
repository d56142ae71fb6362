-- ===== src/Service/Replay.antt =====
-- Whole runs of the service (listener.py): pieces of connections in any order, with any input.
pub mod Pending
pub mod Limited
pub mod Shut
pub mod Spared
pub mod Spent
use remote_unlock.Base.{ℕ, ◌+◌, true, Option, List, [], ◌∷◌, Text, Bytes, codes, ◌*◌, if◌then◌else◌}
use remote_unlock.Json.{Fields, get}
use remote_unlock.Outcome.{Outcome, returns, raises}
use remote_unlock.Config.{Device, ConfigFile}
use remote_unlock.Audit.{equals_text}
use remote_unlock.Service.State.{Env, Service}
use remote_unlock.Service.Challenge.{Draw}
use remote_unlock.Service.Challenge.Held.{drawn}
use remote_unlock.Service.Session.{
  Output, result, Piece, Frame, accept, on_hello, on_response, recv_json,
}

-- A piece of some connection, with what it is given.
pub data Event : Type 0 where
  accepts : ℕ → Text → Option Bytes → ConfigFile → Event
  hellos : Draw → Text → Option Device → Outcome Frame → Event
  responds : ℕ → Text → Device → Outcome Frame → Event

-- 1 if this is the message that allows the unlock.
unfoldable pub allows : List Output → ℕ
allows (result true ∷ []) = 1
allows _ = 0

-- 1 if the draw of this event is the nonce.
unfoldable pub draws : Text → Event → ℕ
draws n (hellos d ip cert_device frame) = drawn n d
draws n _ = 0

-- 1 if these are the fields of a response with the nonce.
unfoldable pub names : Text → Outcome Fields → ℕ
names n (returns resp) = if equals_text (get (codes "nonce") resp) n then 1 else 0
names n (raises e) = 0

module _ {PrivateKey PublicKey : Type 0} (env : Env PrivateKey PublicKey) where
  unfoldable pub step : Event → Service → Piece
  step (accepts now ip der file) s = accept env now ip der file s
  step (hellos d ip cert_device frame) s = on_hello env d ip cert_device frame s
  step (responds now ip device frame) s = on_response env now ip device frame s

  -- 1 if the piece allows the unlock, for a response with this nonce.
  unfoldable pub spends : Text → Event → Piece → ℕ
  spends n (responds now ip device frame) p = allows p.1 * names n (recv_json env frame)
  spends n _ p = 0

  unfoldable pub run : List Event → Service → Service
  unfolding step
  run [] s = s
  run (e ∷ es) s = run es (step e s).0

  -- How often a run spends the nonce.
  unfoldable pub spent : Text → List Event → Service → ℕ
  unfolding step spends
  spent n [] s = 0
  spent n (e ∷ es) s = spends n e (step e s) + spent n es (step e s).0

  unfoldable pub drawn_in : Text → List Event → ℕ
  unfolding draws
  drawn_in n [] = 0
  drawn_in n (e ∷ es) = draws n e + drawn_in n es
