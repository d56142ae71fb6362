-- ===== src/Broker/Waiting.antt =====
-- What a whole call of `consume` comes to, with the other tasks running while it waits.
use remote_unlock.Base.{
  suc, inl, inr, ◌⊎◌, ℕ, ◌+◌, ◌≤◌, ◌<◌, ◌≡◌, refl, true, false, List, [], ◌∷◌, ◌++◌, arith, ◌∙◌, ap,
  ◌-◌, ◌≢◌,
}
use remote_unlock.Broker.{
  granted, denied, Poll, Broker, issue, waits, poll, Act, issues, act, acts, Wake, woken, timed_out,
  Answer, answers, unanswered, settle, rounds, consume,
}
use remote_unlock.Broker.Safety.{held, issued, grants-le, acts-ttl}

-- What the others do over a list of wake-ups.
abbrev pub others_of : Wake → List Act
others_of (woken others t) = others
others_of (timed_out others) = others

abbrev pub issued_over : List Wake → ℕ
issued_over [] = 0
issued_over (w ∷ ws) = issued (others_of w) + issued_over ws

abbrev pub said_true : Answer → ℕ
said_true (answers true) = 1
said_true (answers false) = 0
said_true unanswered = 0

poll_accounts :
    (deadline now : ℕ) (b : Broker)
    → said_true (settle (poll deadline now b)).1 + held (poll deadline now b).0 ≤ held b
unfolding poll held
poll_accounts deadline now b = ground arith

pub held-poll-le : (deadline now : ℕ) (b : Broker) → held (poll deadline now b).0 ≤ held b
unfolding poll held
held-poll-le deadline now b = ground arith

pub poll_spends :
    (deadline now : ℕ) (b : Broker)
    → (poll deadline now b).1 ≡ granted
    → suc (held (poll deadline now b).0) ≤ held b
unfolding poll held
poll_spends deadline now b h = ground arith

pub poll_cases : (p : Poll) → (p ≡ granted) ⊎ (p ≡ denied) ⊎ ((left : ℕ) × (p ≡ waits left))
poll_cases granted = inl refl
poll_cases denied = inr (inl refl)
poll_cases (waits left) = inr (inr (left, refl))

rounds_accounts :
    (deadline : ℕ) (ws : List Wake) (now : ℕ) (b : Broker)
    → said_true (rounds deadline ws now b).1 + held (rounds deadline ws now b).0
      ≤ held b + issued_over ws
unfolding rounds
rounds_accounts deadline [] now b = ground (arith, poll_accounts deadline now b)
rounds_accounts deadline (timed_out others ∷ ws) now b =
    ground (arith, poll_accounts deadline now b, grants-le others (poll deadline now b).0)
rounds_accounts deadline (woken others t ∷ ws) now b = elim (poll_cases (poll deadline now b).1) [
  | inl e ↦ rw (e, rounds) (omega (arith, poll_spends deadline now b e))
  | inr (inl e) ↦ rw (e, rounds) (omega (arith, held-poll-le deadline now b))
  | inr (inr (left, e)) ↦
      rw (e, rounds)
        (omega (
          arith,
          held-poll-le deadline now b,
          grants-le others (poll deadline now b).0,
          rounds_accounts deadline ws t (acts others (poll deadline now b).0),
        ))
]

-- A call that answers True leaves fewer grants: what it answers and what is held afterwards are
-- together at most what was held at the start and was issued over its wake-ups.
pub consume_accounts :
    (timeout : ℕ) (ws : List Wake) (now : ℕ) (b : Broker)
    → said_true (consume timeout ws now b).1 + held (consume timeout ws now b).0
      ≤ held b + issued_over ws
unfolding consume
consume_accounts timeout ws now b = rounds_accounts (now + timeout) ws now b

poll_open :
    (deadline now : ℕ) (b : Broker)
    → b.expires ≤ now
    → now < deadline
    → ((poll deadline now b).1 ≡ waits (deadline - now)) × ((poll deadline now b).0.ttl ≡ b.ttl)
unfolding poll
poll_open deadline now b old lt = ground arith

poll_clears :
    (deadline now : ℕ) (b : Broker)
    → b.expires ≤ now
    → now < deadline
    → (poll deadline now b).0.event ≡ false
unfolding poll
poll_clears deadline now b old lt = ground arith

-- A call that finds a grant is answered True at once.
pub rounds_held :
    (deadline : ℕ) (ws : List Wake) (now : ℕ) (b : Broker)
    → now < b.expires
    → (rounds deadline ws now b).1 ≡ answers true
unfolding rounds poll
rounds_held deadline [] now b h = ground arith
rounds_held deadline (timed_out others ∷ ws) now b h = ground arith
rounds_held deadline (woken others t ∷ ws) now b h = ground arith

-- A call that finds a grant uses it up.
pub rounds_taken :
    (deadline : ℕ) (ws : List Wake) (now : ℕ) (b : Broker)
    → now < b.expires
    → rounds deadline ws now b ≡ (record b { expires = 0; event = false }, answers true)
unfolding rounds poll
rounds_taken deadline [] now b h = ground arith
rounds_taken deadline (timed_out others ∷ ws) now b h = ground arith
rounds_taken deadline (woken others t ∷ ws) now b h = ground arith

acts-append_issue :
    (others : List Act) (t : ℕ) (b : Broker)
    → (acts (others ++ issues t ∷ []) b).expires ≡ t + b.ttl
unfolding acts act issue
acts-append_issue [] t b = refl
acts-append_issue (a ∷ others) t b =
    acts-append_issue others t (act b a) ∙ ap (◌+◌ t) (acts-ttl (a ∷ []) b)

acts-append_event :
    (others : List Act) (t : ℕ) (b : Broker) → (acts (others ++ issues t ∷ []) b).event ≡ true
unfolding acts act issue
acts-append_event [] t b = refl
acts-append_event (a ∷ others) t b = acts-append_event others t (act b a)

-- A call with a positive timeout that finds no grant in time clears the event and waits. If then an
-- issue is the last act of the others, whatever they did before it, the event that it waits for is
-- set; and if it runs again when the grant is less than `ttl` old, it is answered True.
pub consume_woken :
    (timeout now t t' : ℕ) (others : List Act) (ws : List Wake) (b : Broker)
    → b.expires ≤ now
    → 0 < timeout
    → t' < t + b.ttl
    → let waiting = poll (now + timeout) now b in
      (waiting.1 ≡ waits timeout)
      × (waiting.0.event ≡ false)
      × ((acts (others ++ issues t ∷ []) waiting.0).event ≡ true)
      × ((consume timeout (woken (others ++ issues t ∷ []) t' ∷ ws) now b).1 ≡ answers true)
unfolding consume rounds
consume_woken timeout now t t' others ws b old pos fresh =
    let b' = (poll (now + timeout) now b).0 in
    let (open_round, same) = poll_open (now + timeout) now b old (omega arith) in
    (
      open_round ∙ ap waits (omega arith),
      poll_clears (now + timeout) now b old (omega arith),
      acts-append_event others t b',
      rw (open_round, consume, rounds)
          (rounds_held (now + timeout) ws t' (acts (others ++ issues t ∷ []) b')
            (omega (arith, acts-append_issue others t b', same))),
    )

-- With nothing to take, and nothing issued while it waits, a call is never answered True.
pub consume_without_issue :
    (timeout now : ℕ) (ws : List Wake) (b : Broker)
    → held b ≡ 0
    → issued_over ws ≡ 0
    → (consume timeout ws now b).1 ≢ answers true
consume_without_issue timeout now ws b h i =
    λ e. omega (arith, consume_accounts timeout ws now b, ap said_true e)
