-- ===== src/Windows/Runs.antt =====
-- Runs of `UnlockService` of windows/listener_windows.py: its methods in the order in which the
-- connections call them. `handler` calls `verify` for an unlock or a shutdown only.
pub mod Once
pub mod Limit
use remote_unlock.Base.{
  ℕ, ◌+◌, ◌≤◌, Bool, true, false, not, ◌&&◌, ◌||◌, ◌≡◌, List, [], ◌∷◌, Text, Bytes, codes, text_eq,
  leb,
}
use remote_unlock.Protocol.Signature.{Crypto}
use remote_unlock.Windows.{
  Tables, Response, issue_challenge, rate_limited, rate_limit_window, verify,
}

-- A call of `issue_challenge`, with what it draws, or of `verify`, at a reading of the clock.
pub data Event : Type 0 where
  challenges : Bytes → ℕ → ℕ → Event
  verifies : ℕ → Response → Event

abbrev pub time_of : Event → ℕ
time_of (challenges token random now) = now
time_of (verifies now r) = now

-- The clock does not go back.
abbrev pub InOrder : ℕ → List Event → Type 0
InOrder t [] = Unit
InOrder t (e ∷ es) = (t ≤ time_of e) × InOrder (time_of e) es

-- The actions that `handler` lets through.
abbrev pub is_known : Text → Bool
is_known action = text_eq action (codes "unlock") || text_eq action (codes "shutdown")

abbrev pub KnownAction : Event → Type 0
KnownAction (challenges token random now) = Unit
KnownAction (verifies now r) = is_known r.action ≡ true

abbrev pub bit : Bool → ℕ
bit true = 1
bit false = 0

-- `__init__`
abbrev pub new_tables : Tables
new_tables = record { pending_nonces = []; used_nonces = []; fail_times = [] }

module _ {PrivateKey PublicKey : Type 0} (c : Crypto PrivateKey PublicKey) (float_text : ℕ → Text)
    (laptop_key : PrivateKey) (phone_key : PublicKey) where
  unfoldable pub step : Event → Tables → Tables
  step (challenges token random now) s =
      (issue_challenge c float_text laptop_key token random now s).0
  step (verifies now r) s = (verify c float_text phone_key now r s).0

  -- 1 if the call accepts a response with the nonce.
  unfoldable pub accepts : Text → Event → Tables → ℕ
  accepts n (challenges token random now) s = 0
  accepts n (verifies now r) s =
      bit (text_eq r.nonce n && (verify c float_text phone_key now r s).1)

  -- How often a run accepts the nonce.
  unfoldable pub accepted : Text → List Event → Tables → ℕ
  unfolding step accepts
  accepted n [] s = 0
  accepted n (e ∷ es) s = accepts n e s + accepted n es (step e s)

  -- The call is within so many seconds of a time.
  abbrev pub is_within : ℕ → ℕ → Bool
  is_within a now = leb a now && leb now (a + rate_limit_window)

  -- 1 if the call, within the window from a time, judges a response and refuses it.
  unfoldable pub refuses : ℕ → Event → Tables → ℕ
  refuses a (challenges token random now) s = 0
  refuses a (verifies now r) s = bit (
      is_within a now
      && (not (rate_limited now s).1 && not (verify c float_text phone_key now r s).1))

  -- How many responses a run judges and refuses within the window.
  unfoldable pub refused : ℕ → List Event → Tables → ℕ
  unfolding step refuses
  refused a [] s = 0
  refused a (e ∷ es) s = refuses a e s + refused a es (step e s)
