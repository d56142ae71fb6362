-- ===== src/Service/Connections.antt =====
-- The service with all its connections: `handle` and `handle_pam` of listener.py for any peers and
-- logins, cut into pieces that interleave in any order. A connection that has ended stays listed.
pub mod Quiet
pub mod Balance
pub mod Recorded
use remote_unlock.Base.{ℕ, ◌+◌, ◌≤◌, ◌≡◌, Bool, Option, List, [], ◌∷◌, ◌++◌, Text, Bytes}
use remote_unlock.Json.{Json}
use remote_unlock.Outcome.{Outcome, returns}
use remote_unlock.Broker.{poll}
use remote_unlock.Config.{Settings, ConfigFile, Device}
use remote_unlock.Service.State.{Env, Service}
use remote_unlock.Service.Challenge.{Draw}
use remote_unlock.Service.Session.{
  Phase, Piece, Frame, accept, on_hello, on_response, wants_hello, wants_response,
}
use remote_unlock.Service.Session.Accounts.{live}
use remote_unlock.Service.Pam.{pam_request, pam_event}

pub record System : Type 0 where
  pub service : Service
  pub phases : List Phase

abbrev pub live_all : List Phase → ℕ
live_all [] = 0
live_all (p ∷ ps) = live p + live_all ps

-- The settings of the file, if it can be read, allow so many connections.
abbrev pub IsWithin : ℕ → ConfigFile → Type 0
IsWithin bound file = (st : Settings) → file.content ≡ returns st → st.max_connections ≤ bound

-- After a piece of the connection between the others.
abbrev pub moved : Piece → List Phase → List Phase → System
moved p xs ys = record { service = p.0; phases = xs ++ p.2 ∷ ys }

abbrev pub between : Service → List Phase → System
between s ps = record { service = s; phases = ps }

module _ {PrivateKey PublicKey : Type 0} (env : Env PrivateKey PublicKey) (bound : ℕ) where
  -- A connection is accepted; one that waits gets its frame; or a piece of `handle_pam` runs.
  pub data Step : System → System → Type 0 where
    accepts :
        (now : ℕ) (ip : Text) (der : Option Bytes) (file : ConfigFile) (s : Service)
        (ps : List Phase)
        → IsWithin bound file
        → Step (between s ps) (moved (accept env now ip der file s) [] ps)
    hellos :
        (d : Draw) (ip : Text) (cert_device : Option Device) (frame : Outcome Frame) (s : Service)
        (xs ys : List Phase)
        → Step
            (between s (xs ++ wants_hello cert_device ∷ ys))
            (moved (on_hello env d ip cert_device frame s) xs ys)
    responds :
        (now : ℕ) (ip : Text) (device : Device) (frame : Outcome Frame) (s : Service)
        (xs ys : List Phase)
        → Step
            (between s (xs ++ wants_response device ∷ ys))
            (moved (on_response env now ip device frame s) xs ys)
    asks :
        (now : ℕ) (peer : Outcome (ℕ × ℕ)) (line : Outcome Json) (s : Service) (ps : List Phase)
        → Step (between s ps) (between (pam_request env now peer line s).0 ps)
    polls :
        (deadline now : ℕ) (s : Service) (ps : List Phase)
        → Step (between s ps) (between (record s { broker = (poll deadline now s.broker).0 }) ps)
    tells :
        (now pid uid : ℕ) (user : Text) (ok : Bool) (s : Service) (ps : List Phase)
        → Step (between s ps) (between (pam_event env now pid uid user ok s) ps)

  pub data Reaches : System → System → Type 0 where
    stays : (sys : System) → Reaches sys sys
    steps : {a b c : System} → Reaches a b → Step b c → Reaches a c
