-- ===== src/Backoff/Simulation.antt =====
-- `Backoff` (listener.py) and a reference that never deletes an entry, side by side.
use remote_unlock.Base.{
  if_split, if_pos, if_neg, ℕ, ◌+◌, ◌-◌, ◌≤◌, ◌<◌, ◌≡◌, Option, none, some, Text, Text-discrete,
  arith, ltb, leb, ◌&&◌, if◌then◌else◌, inl, inr, ◌⊎◌,
}
use remote_unlock.Base.Dict.{
  lookup, passing, lookup-insert, lookup-remove, lookup-keep_if, keep_if-Distinct, remove-Distinct,
}
use remote_unlock.Backoff.{
  entry_or_new, Entry, Backoff, counted, put, is_kept, prune, fail, success,
}
use remote_unlock.Backoff.Lockout.{IsValid, put-IsValid, written, fail_writes}
use remote_unlock.Backoff.Reference.{fail_keeping}

-- What is held under a key, beside what the reference holds, at a time: the same, but for lockouts
-- that are over and entries that are stale.
abbrev pub Agree : ℕ → ℕ → Option Entry → Option Entry → Type 0
Agree q now none none = Unit
Agree q now none (some e) = (e.until ≤ now) × (e.last + q < now)
Agree q now (some d) none = ⊥
Agree q now (some d) (some e) =
    (d.fails ≡ e.fails)
    × (d.level ≡ e.level)
    × (d.last ≡ e.last)
    × ((d.until ≡ e.until) ⊎ ((d.until ≤ now) × (e.until ≤ now)))

Agree-later : (q now t : ℕ) (o o' : Option Entry) → now ≤ t → Agree q now o o' → Agree q t o o'
Agree-later q now t none none le a = tt
Agree-later q now t none (some e) le a = omega arith
Agree-later q now t (some d) none le a = absurd a
Agree-later q now t (some d) (some e) le (f, l, s, u) = (f, l, s, ground arith)

abbrev Close : ℕ → Entry → Entry → Type 0
Close now d e =
    (d.fails ≡ e.fails)
    × (d.level ≡ e.level)
    × ((d.until ≡ e.until) ⊎ ((d.until ≤ now) × (e.until ≤ now)))

pub record Simulates (now : ℕ) (b r : Backoff) : Type 0 where
  pub threshold : b.threshold ≡ r.threshold
  pub base : b.base ≡ r.base
  pub maximum : b.maximum ≡ r.maximum
  pub quiet_reset : b.quiet_reset ≡ r.quiet_reset
  pub valid : IsValid b
  pub agree :
      (j : Text)
      → Agree b.quiet_reset now (lookup Text-discrete j b.state) (lookup Text-discrete j r.state)

-- `counted`, of what is held under the key.
abbrev refreshed : ℕ → ℕ → Option Entry → Entry
refreshed q now o =
    let st = entry_or_new now o in
    if ltb q (now - st.last) && leb st.until now then record st { fails = 0; level = 0 } else st

refreshed-Close :
    (q now : ℕ) (o o' : Option Entry)
    → Agree q now o o'
    → Close now (refreshed q now o) (refreshed q now o')
refreshed-Close q now none none a = ground arith
refreshed-Close q now none (some e) a = ground arith
refreshed-Close q now (some d) none a = absurd a
refreshed-Close q now (some d) (some e) a = ground arith

counted-Close :
    (now : ℕ) (key : Text) (b r : Backoff)
    → Simulates now b r
    → Close now (counted now key b) (counted now key r)
unfolding counted
counted-Close now key b r s = rw (← s.quiet_reset) (
    refreshed-Close b.quiet_reset now (lookup Text-discrete key b.state)
      (lookup Text-discrete key r.state) (s.agree key))

-- What a failure writes agrees, and so does whether it starts a lockout.
pub written-Agree :
    (now : ℕ) (key : Text) (b r : Backoff)
    → Simulates now b r
    → Agree b.quiet_reset now (some (written now key b)) (some (written now key r))
      × ((fail now key b).1 ≡ (fail_keeping now key r).1)
unfolding written fail fail_keeping
written-Agree now key b r s = let (f, l, u) = counted-Close now key b r s in ground arith

fail_keeping_writes :
    (now : ℕ) (key : Text) (b : Backoff)
    → (fail_keeping now key b).0 ≡ put key (written now key b) b
unfolding fail_keeping written
fail_keeping_writes now key b = ground arith

passing-Agree :
    (q now : ℕ) (j : Text) (o o' : Option Entry)
    → Agree q now o o'
    → Agree q now (passing Text-discrete (is_kept q now) j o) o'
passing-Agree q now j none o' a = a
passing-Agree q now j (some d) none a = absurd a
passing-Agree q now j (some d) (some e) a =
    if_split (λ o. Agree q now o (some e)) (is_kept q now (j, d)) _ _ (λ kept. a)
      (λ stale. ground arith)

put-Simulates :
    (now : ℕ) (key : Text) (d e : Entry) (b r : Backoff)
    → Simulates now b r
    → Agree b.quiet_reset now (some d) (some e)
    → Simulates now (put key d b) (put key e r)
put-Simulates now key d e b r s a = record {
  threshold = s.threshold;
  base = s.base;
  maximum = s.maximum;
  quiet_reset = s.quiet_reset;
  valid = put-IsValid key d b s.valid;
  agree = λ j. elim (Text-discrete j key) [
    | yes p ↦
        rw
          (
            lookup-insert Text-discrete j key d b.state,
            lookup-insert Text-discrete j key e r.state,
            if_pos (Text-discrete j key) p,
            if_pos (Text-discrete j key) p,
          )
          a
    | no p ↦
        rw
          (
            lookup-insert Text-discrete j key d b.state,
            lookup-insert Text-discrete j key e r.state,
            if_neg (Text-discrete j key) p,
            if_neg (Text-discrete j key) p,
          )
          (s.agree j)
  ];
}

prune-Simulates : (now : ℕ) (b r : Backoff) → Simulates now b r → Simulates now (prune now b) r
unfolding prune
prune-Simulates now b r s = record {
  threshold = s.threshold;
  base = s.base;
  maximum = s.maximum;
  quiet_reset = s.quiet_reset;
  valid = keep_if-Distinct Text-discrete (is_kept b.quiet_reset now) b.state s.valid;
  agree = λ j. rw (lookup-keep_if Text-discrete (is_kept b.quiet_reset now) j b.state s.valid) (
      passing-Agree b.quiet_reset now j (lookup Text-discrete j b.state)
        (lookup Text-discrete j r.state) (s.agree j));
}

pub remove-Simulates :
    (now : ℕ) (key : Text) (b r : Backoff)
    → Simulates now b r
    → Simulates now (success key b) (success key r)
unfolding success
remove-Simulates now key b r s = record {
  threshold = s.threshold;
  base = s.base;
  maximum = s.maximum;
  quiet_reset = s.quiet_reset;
  valid = remove-Distinct Text-discrete key b.state s.valid;
  agree = λ j. elim (Text-discrete j key) [
    | yes p ↦
        rw
          (
            lookup-remove Text-discrete j key b.state,
            lookup-remove Text-discrete j key r.state,
            if_pos (Text-discrete j key) p,
            if_pos (Text-discrete j key) p,
          )
          tt
    | no p ↦
        rw
          (
            lookup-remove Text-discrete j key b.state,
            lookup-remove Text-discrete j key r.state,
            if_neg (Text-discrete j key) p,
            if_neg (Text-discrete j key) p,
          )
          (s.agree j)
  ];
}

pub Simulates-later : (now t : ℕ) (b r : Backoff) → now ≤ t → Simulates now b r → Simulates t b r
Simulates-later now t b r le s = record {
  threshold = s.threshold;
  base = s.base;
  maximum = s.maximum;
  quiet_reset = s.quiet_reset;
  valid = s.valid;
  agree = λ j. Agree-later b.quiet_reset now t _ _ le (s.agree j);
}

pub fail-Simulates :
    (now : ℕ) (key : Text) (b r : Backoff)
    → Simulates now b r
    → Simulates now (fail now key b).0 (fail_keeping now key r).0
fail-Simulates now key b r s =
    let w = written-Agree now key b r s in
    let after = put-Simulates now key (written now key b) (written now key r) b r s w.0 in
    rw (fail_keeping_writes now key r) (elim (fail_writes now key b) [
      | inl e ↦ rw e after
      | inr e ↦ rw e (
          prune-Simulates now (put key (written now key b) b) (put key (written now key r) r) after)
    ])
