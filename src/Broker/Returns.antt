-- ===== src/Broker/Returns.antt =====
-- The end of the loop of `consume` (listener.py).
use remote_unlock.Base.{ℕ, ◌+◌, ◌≤◌, ◌≡◌, refl, ◌≢◌, ◌⊎◌, inl, inr, Bool, List, [], ◌∷◌, arith}
use remote_unlock.Broker.{
  Broker, poll, acts, Wake, woken, timed_out, Answer, answers, unanswered, settle, rounds, consume,
}
use remote_unlock.Broker.Waiting.{poll_cases}

-- A wake-up at which the loop is left: `wait_for` times out, or the task runs again at the deadline
-- or after it.
abbrev pub IsLast : ℕ → Wake → Type 0
IsLast deadline (timed_out others) = Unit
IsLast deadline (woken others t) = deadline ≤ t

poll_late :
    (deadline now : ℕ) (b : Broker) → deadline ≤ now → (settle (poll deadline now b)).1 ≢ unanswered
unfolding poll
poll_late deadline now b le = λ e. ground arith

-- The event loop's side of the bargain: one of the wake-ups is the last.
abbrev pub HasLast : ℕ → List Wake → Type 0
HasLast deadline [] = ⊥
HasLast deadline (w ∷ ws) = IsLast deadline w ⊎ HasLast deadline ws

rounds_late :
    (deadline : ℕ) (ws : List Wake) (now : ℕ) (b : Broker)
    → deadline ≤ now
    → (rounds deadline ws now b).1 ≢ unanswered
unfolding rounds poll
rounds_late deadline [] now b le = λ e. ground arith
rounds_late deadline (timed_out others ∷ ws) now b le = λ e. ground arith
rounds_late deadline (woken others t ∷ ws) now b le = λ e. ground arith

rounds_answered :
    (deadline : ℕ) (ws : List Wake) (now : ℕ) (b : Broker)
    → HasLast deadline ws
    → (rounds deadline ws now b).1 ≢ unanswered
unfolding rounds
rounds_answered deadline [] now b h = absurd h
rounds_answered deadline (timed_out others ∷ ws) now b h =
    elim (poll_cases (poll deadline now b).1) [
      | inl e ↦ rw (e, rounds) (λ q. ground arith)
      | inr (inl e) ↦ rw (e, rounds) (λ q. ground arith)
      | inr (inr (left, e)) ↦ rw (e, rounds) (λ q. ground arith)
    ]
rounds_answered deadline (woken others t ∷ ws) now b h = elim (poll_cases (poll deadline now b).1) [
  | inl e ↦ rw (e, rounds) (λ q. ground arith)
  | inr (inl e) ↦ rw (e, rounds) (λ q. ground arith)
  | inr (inr (left, e)) ↦
      rw (e, rounds)
        (elim h [
          | inl le ↦ rounds_late deadline ws t (acts others (poll deadline now b).0) le
          | inr later ↦ rounds_answered deadline ws t (acts others (poll deadline now b).0) later
        ])
]

-- A call of `consume` returns: if one of its wake-ups is a timeout, or comes when its timeout has
-- passed, then it is answered, whatever the other tasks do and however often it is woken before.
pub consume_answered :
    (timeout : ℕ) (ws : List Wake) (now : ℕ) (b : Broker)
    → HasLast (now + timeout) ws
    → (ok : Bool) × ((consume timeout ws now b).1 ≡ answers ok)
unfolding consume
consume_answered timeout ws now b h =
    answered (rounds (now + timeout) ws now b).1 (rounds_answered (now + timeout) ws now b h)
  where
    answered : (a : Answer) → a ≢ unanswered → (ok : Bool) × (a ≡ answers ok)
    answered (answers ok) ne = (ok, refl)
    answered unanswered ne = absurd (ne refl)
