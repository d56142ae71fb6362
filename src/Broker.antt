-- ===== src/Broker.antt =====
-- `class GrantBroker` of listener.py: the single-use, short-lived token that says that a verified
-- unlock has just happened. `loop.time()` is a reading `now` of the event loop's clock, which each
-- operation takes. Code between two awaits runs without interruption, so `consume` is the piece
-- that runs at each wake-up, and the event loop chooses when pieces run.
pub mod Safety
pub mod Waiting
pub mod Returns
use remote_unlock.Base.{ℕ, ◌+◌, ◌-◌, Bool, true, false, ltb, leb, if◌then◌else◌, List, [], ◌∷◌}

pub record Broker : Type 0 where
  pub ttl : ℕ
  -- `_expires`
  pub expires : ℕ
  -- `_event.is_set()`
  pub event : Bool

abbrev pub init : ℕ → Broker
init ttl = record { ttl = ttl; expires = 0; event = false }

unfoldable pub issue : ℕ → Broker → Broker
issue now b = record b { expires = now + b.ttl; event = true }

-- How one round of the loop in `consume` ends: by `return True`, by `return False`, or at the
-- `await`, with the time that `wait_for` is given.
pub data Poll : Type 0 where
  granted denied : Poll
  waits : ℕ → Poll

-- One round of the loop of `consume`, up to the return or the await.
unfoldable pub poll : ℕ → ℕ → Broker → Broker × Poll
poll deadline now b =
    if ltb now b.expires
    then (record b { expires = 0; event = false }, granted)
    else if leb deadline now
    then (b, denied)
    else (record b { event = false }, waits (deadline - now))

-- What the other tasks do to the broker while `consume` waits.
pub data Act : Type 0 where
  issues : ℕ → Act
  -- another request runs a round, with its deadline
  polls : ℕ → ℕ → Act

unfoldable pub act : Broker → Act → Broker
act b (issues now) = issue now b
act b (polls deadline now) = (poll deadline now b).0

unfoldable pub acts : List Act → Broker → Broker
acts [] b = b
acts (a ∷ rest) b = acts rest (act b a)

-- How the `await` ends: the event is set and the task runs again at a time, after what the others
-- did; or `wait_for` times out.
pub data Wake : Type 0 where
  woken : List Act → ℕ → Wake
  timed_out : List Act → Wake

-- The request is answered, or its list of wake-ups has ended while it still waits.
pub data Answer : Type 0 where
  answers : Bool → Answer
  unanswered : Answer

abbrev pub settle : Broker × Poll → Broker × Answer
settle (b, granted) = (b, answers true)
settle (b, denied) = (b, answers false)
settle (b, waits left) = (b, unanswered)

-- The loop of `consume` from a round on.
unfoldable pub rounds : ℕ → List Wake → ℕ → Broker → Broker × Answer
rounds deadline [] now b = settle (poll deadline now b)
rounds deadline (timed_out others ∷ ws) now b =
    let (b', p) = poll deadline now b in
    elim p [
      | granted ↦ (b', answers true)
      | denied ↦ (b', answers false)
      | waits left ↦ (acts others b', answers false)
    ]
rounds deadline (woken others t ∷ ws) now b =
    let (b', p) = poll deadline now b in
    elim p [
      | granted ↦ (b', answers true)
      | denied ↦ (b', answers false)
      | waits left ↦ rounds deadline ws t (acts others b')
    ]

-- `consume(timeout)`, called at `now`.
unfoldable pub consume : ℕ → List Wake → ℕ → Broker → Broker × Answer
consume timeout ws now b = rounds (now + timeout) ws now b
