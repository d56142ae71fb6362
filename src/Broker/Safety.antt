-- ===== src/Broker/Safety.antt =====
-- `GrantBroker` (listener.py) over interleavings of tasks: who is granted what.
use remote_unlock.Base.{
  ℕ, zero, suc, ◌+◌, ◌≤◌, ◌<◌, ◌≡◌, refl, List, [], ◌∷◌, ◌++◌, arith, inl, inr, ◌⊎◌, ap, ◌∙◌,
}
use remote_unlock.Broker.{
  Broker, init, issue, granted, denied, waits, poll, Act, issues, polls, act, acts,
}

-- What an act hands out: 1 if it is a round that returns True.
unfoldable pub hands_out : Broker → Act → ℕ
hands_out b (issues now) = 0
hands_out b (polls deadline now) = elim (poll deadline now b).1 [
  | granted ↦ 1
  | denied ↦ 0
  | waits left ↦ 0
]

unfoldable pub grants : List Act → Broker → ℕ
grants [] b = 0
grants (a ∷ rest) b = hands_out b a + grants rest (act b a)

abbrev pub issued : List Act → ℕ
issued [] = 0
issued (issues now ∷ rest) = suc (issued rest)
issued (polls deadline now ∷ rest) = issued rest

-- One grant at most is held: none when `expires` is 0.
unfoldable pub held : Broker → ℕ
held b = elim b.expires [ zero ↦ 0 | suc e ↦ 1 ]

pub held-act :
    (b : Broker) (a : Act) (rest : List Act)
    → hands_out b a + held (act b a) + issued rest ≤ held b + issued (a ∷ rest)
unfolding held hands_out act poll issue
held-act b (issues now) rest = ground arith
held-act b (polls deadline now) rest = ground arith

pub grants-le :
    (history : List Act) (b : Broker)
    → grants history b + held (acts history b) ≤ held b + issued history
unfolding grants acts
grants-le [] b = omega arith
grants-le (a ∷ rest) b = omega (arith, grants-le rest (act b a), held-act b a rest)

-- Over every interleaving of issues and rounds of any number of requests, no more requests are
-- granted than grants are issued.
pub grants-le-issued : (ttl : ℕ) (history : List Act) → grants history (init ttl) ≤ issued history
unfolding held
grants-le-issued ttl history = omega (arith, grants-le history (init ttl))

act-ttl : (b : Broker) (a : Act) → (act b a).ttl ≡ b.ttl
unfolding act poll issue
act-ttl b (issues now) = refl
act-ttl b (polls deadline now) = ground arith

issue-expires : (now : ℕ) (b : Broker) → (act b (issues now)).expires ≡ now + b.ttl
unfolding act issue
issue-expires now b = refl

poll-expires :
    (deadline now : ℕ) (b : Broker)
    → ((act b (polls deadline now)).expires ≡ 0)
      ⊎ (((act b (polls deadline now)).expires ≡ b.expires)
          × (hands_out b (polls deadline now) ≡ 0))
unfolding act poll hands_out
poll-expires deadline now b = ground arith

poll_in_time : (deadline now : ℕ) (b : Broker) → (poll deadline now b).1 ≡ granted → now < b.expires
unfolding poll
poll_in_time deadline now b h = ground arith

pub acts-ttl : (history : List Act) (b : Broker) → (acts history b).ttl ≡ b.ttl
unfolding acts
acts-ttl [] b = refl
acts-ttl (a ∷ rest) b = acts-ttl rest (act b a) ∙ act-ttl b a

-- The last issue of a history, at `t`, with no grant after it.
pub record LastIssue (t : ℕ) (history : List Act) (b : Broker) : Type 0 where
  pub before : List Act
  pub after : List Act
  pub splits : history ≡ before ++ issues t ∷ after
  pub unissued : issued after ≡ 0
  pub unused : grants after (issue t (acts before b)) ≡ 0

LastIssue-cons :
    {t : ℕ} {history : List Act} {b : Broker} (a : Act)
    → LastIssue t history (act b a)
    → LastIssue t (a ∷ history) b
unfolding acts
LastIssue-cons a l = record {
  before = a ∷ l.before;
  after = l.after;
  splits = ap (◌∷◌ a) l.splits;
  unissued = l.unissued;
  unused = l.unused;
}

-- Where a held grant comes from: it was held at the start, or from the last issue.
data Origin (history : List Act) (b : Broker) : Type 0 where
  spent : (acts history b).expires ≡ 0 → Origin history b
  kept :
      (acts history b).expires ≡ b.expires
      → issued history ≡ 0
      → grants history b ≡ 0
      → Origin history b
  issued_at :
      (t : ℕ) → (acts history b).expires ≡ t + b.ttl → LastIssue t history b → Origin history b

Origin-cons : (a : Act) (rest : List Act) (b : Broker) → Origin rest (act b a) → Origin (a ∷ rest) b
unfolding acts grants issue act
Origin-cons a rest b (spent e) = spent e
Origin-cons a rest b (issued_at t e l) =
    issued_at t (e ∙ ap (◌+◌ t) (act-ttl b a)) (LastIssue-cons a l)
Origin-cons (issues now) rest b (kept e i g) =
    issued_at now (e ∙ issue-expires now b)
      (record { before = []; after = rest; splits = refl; unissued = i; unused = g })
Origin-cons (polls deadline now) rest b (kept e i g) = elim (poll-expires deadline now b) [
  | inl z ↦ spent (e ∙ z)
  | inr (same, h) ↦ kept (e ∙ same) i (omega (arith, h, g))
]

origin : (history : List Act) (b : Broker) → Origin history b
unfolding acts grants
origin [] b = kept refl refl refl
origin (a ∷ rest) b = Origin-cons a rest b (origin rest (act b a))

-- A request that is granted at `now`, after any history of a new broker, takes the grant of the
-- last issue: that issue is less than `ttl` old, and no request has been granted since.
pub poll-granted :
    (ttl deadline now : ℕ) (history : List Act)
    → (poll deadline now (acts history (init ttl))).1 ≡ granted
    → (t : ℕ) × (now < t + ttl) × LastIssue t history (init ttl)
poll-granted ttl deadline now history h = elim (origin history (init ttl)) [
  | spent e ↦ absurd (omega (arith, late, e))
  | kept e i g ↦ absurd (omega (arith, late, e))
  | issued_at t e l ↦ (t, omega (arith, late, e), l)
]
  where
    late : now < (acts history (init ttl)).expires
    late = poll_in_time deadline now (acts history (init ttl)) h
