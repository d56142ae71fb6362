-- ===== src/Tests/Knocks.antt =====
-- The theorem on an address that keeps failing.
use remote_unlock.Base.{some, List, [], ◌∷◌, codes}
use remote_unlock.Outcome.{returns}
use remote_unlock.Service.Session.{Frame}
use remote_unlock.Service.Session
use remote_unlock.Service.Replay.{Event, accepts, hellos, responds}
use remote_unlock.Tests.Data.{phone, draw, unchanged}

-- Three frames that are no text, from one address, and a connection that waits in between.
abbrev knocks : List Event
knocks =
    hellos draw (codes "100.64.0.9") (some phone) (returns (Frame.binary []))
    ∷ accepts 102 (codes "100.64.0.7") (some (1 ∷ 2 ∷ [])) unchanged
    ∷ responds 105 (codes "100.64.0.9") phone (returns (Frame.binary []))
    ∷ responds 110 (codes "100.64.0.9") phone (returns (Frame.binary []))
    ∷ []
