-- ===== src/Backoff.antt =====
-- `class Backoff` of listener.py: failures counted per key (an IP address or a device id), with
-- lockouts whose length doubles. Times and durations are natural numbers in one unit. The clock is
-- monotonic, so a truncated difference is the difference that the source computes; `remaining`
-- truncates by `max(0.0, ...)` itself.
pub mod Lockout
pub mod Bound
pub mod Shut
pub mod Threshold
pub mod Reference
pub mod Simulation
pub mod Pruning
use remote_unlock.Base.{
  ℕ, ◌+◌, ◌-◌, ◌*◌, ◌^◌, min, Bool, true, false, not, ◌&&◌, Option, none, some, Text, Text-discrete,
  ltb, leb, if◌then◌else◌, [], length, keep_if,
}
use remote_unlock.Base.Dict.{Dict, lookup, insert, remove}

-- The value of one key in `self.state`.
pub record Entry : Type 0 where
  pub fails : ℕ
  pub level : ℕ
  pub until : ℕ
  pub last : ℕ

pub record Backoff : Type 0 where
  pub threshold : ℕ
  pub base : ℕ
  pub maximum : ℕ
  pub quiet_reset : ℕ
  pub state : Dict Text Entry

abbrev pub init : ℕ → ℕ → ℕ → ℕ → Backoff
init threshold base maximum quiet_reset = record {
  threshold = threshold;
  base = base;
  maximum = maximum;
  quiet_reset = quiet_reset;
  state = [];
}

-- `remaining`, at the reading `now` of the clock.
unfoldable pub remaining : ℕ → Text → Backoff → ℕ
remaining now key b = elim (lookup Text-discrete key b.state) [
  | none ↦ 0
  | some st ↦ st.until - now
]

-- What `setdefault` returns.
abbrev pub entry_or_new : ℕ → Option Entry → Entry
entry_or_new now none = record { fails = 0; level = 0; until = 0; last = now }
entry_or_new now (some st) = st

-- The entry that `fail` works on, after the reset that follows a quiet time.
unfoldable pub counted : ℕ → Text → Backoff → Entry
counted now key b =
    let st = entry_or_new now (lookup Text-discrete key b.state) in
    if ltb b.quiet_reset (now - st.last) && leb st.until now
    then record st { fails = 0; level = 0 }
    else st

abbrev pub put : Text → Entry → Backoff → Backoff
put key st b = record b { state = insert Text-discrete key st b.state }

-- Neither locked nor used within the quiet time.
abbrev pub is_stale : ℕ → ℕ → Entry → Bool
is_stale quiet_reset now st = leb st.until now && ltb quiet_reset (now - st.last)

abbrev pub is_kept : ℕ → ℕ → Text × Entry → Bool
is_kept quiet_reset now e = not (is_stale quiet_reset now e.1)

unfoldable pub prune : ℕ → Backoff → Backoff
prune now b = record b { state = keep_if (is_kept b.quiet_reset now) b.state }

abbrev pub prune_above : ℕ
prune_above = 2048

abbrev pub lockout_length : Backoff → Entry → ℕ
lockout_length b st = min (b.base * 2 ^ st.level) b.maximum

-- `fail`: the new state, and whether this failure started a lockout.
unfoldable pub fail : ℕ → Text → Backoff → Backoff × Bool
fail now key b =
    let st = counted now key b in
    if ltb now st.until
    then (put key (record st { last = now }) b, false)
    else if leb b.threshold (st.fails + 1)
    then (
      put key
          (record {
            fails = 0;
            level = st.level + 1;
            until = now + lockout_length b st;
            last = now;
          })
          b,
      true,
    )
    else let b' = put key (record st { fails = st.fails + 1; last = now }) b in
      (if ltb prune_above (length b'.state) then prune now b' else b', false)

unfoldable pub success : Text → Backoff → Backoff
success key b = record b { state = remove Text-discrete key b.state }
