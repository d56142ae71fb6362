-- ===== src/Service/Pam.antt =====
-- `handle_pam` of listener.py: a login on this machine asks over the Unix socket whether it may
-- proceed. The ids are below 2 ^ 31, which `struct.unpack("3i", ...)` reads as they are.
pub mod Answers
use remote_unlock.Base.{
  ℕ, Bool, true, false, not, ◌||◌, Option, none, some, List, [], ◌∷◌, Text, Bytes, codes, ◌==◌,
  take, if◌then◌else◌,
}
use remote_unlock.Base.Int.{pos}
use remote_unlock.Json.{Json, str, int, obj, field, end, get}
use remote_unlock.Outcome.{Outcome, returns, raises, handle}
use remote_unlock.Broker
use remote_unlock.Broker.{Wake, Answer, answers, unanswered, Broker}
use remote_unlock.Audit.{Write, equals_text}
use remote_unlock.Service.State.{Env, Service, settings, record_event, try_record}

abbrev pub is_allowed : ℕ → List ℕ → Bool
is_allowed uid [] = false
is_allowed uid (u ∷ us) = uid == u || is_allowed uid us

-- b"1\n" and b"0\n"
abbrev pub reply_line : Bool → Bytes
reply_line true = b'1' ∷ 10 ∷ []
reply_line false = b'0' ∷ 10 ∷ []

-- How the request stands before `consume`.
pub data Asked : Type 0 where
  turned_away : Asked
  asks : ℕ → ℕ → Text → Asked

module _ {PrivateKey PublicKey : Type 0} (env : Env PrivateKey PublicKey) where
  -- The test of the user that the request names.
  unfoldable pub pam_user : ℕ → ℕ → ℕ → Json → Service → Service × Asked
  pam_user now pid uid (obj req) s =
      if equals_text (get (codes "user") req) (settings s).unlock_user
      then (s, asks pid uid (settings s).unlock_user)
      else (
        record_event env now (codes "pam_denied") none
            (field (codes "user") (str (take 64 (env.str_of (get (codes "user") req))))
              (field (codes "uid") (int (pos uid)) end))
            s,
        turned_away,
      )
  pam_user now pid uid _ s = (s, turned_away)

  -- `handle_pam` up to `consume`: SO_PEERCRED as (pid, uid), and what decoding the line gives.
  unfoldable pub pam_request : ℕ → Outcome (ℕ × ℕ) → Outcome Json → Service → Service × Asked
  unfolding pam_user
  pam_request now (raises e) line s = (s, turned_away)
  pam_request now (returns (pid, uid)) line s =
      if not (is_allowed uid (settings s).pam_allowed_uids)
      then (
        record_event env now (codes "pam_denied")
            (some (codes "PAM request from disallowed uid", codes "high"))
            (field (codes "uid") (int (pos uid)) (field (codes "pid") (int (pos pid)) end)) s,
        turned_away,
      )
      else handle line (λ req. pam_user now pid uid req s) (λ e. (s, turned_away))

  -- The record of what `consume` answered, for how its write ends.
  abbrev pub try_pam_event :
      Write → ℕ → ℕ → ℕ → Text → Bool → Service → Service × Outcome (ℕ × Text)
  try_pam_event w now pid uid user ok s =
      try_record env w now (if ok then codes "pam_grant_consumed" else codes "pam_no_grant")
        (if ok then some (codes "PAM unlock granted", codes "default") else none)
        (field (codes "user") (str user)
          (field (codes "uid") (int (pos uid)) (field (codes "pid") (int (pos pid)) end)))
        s

  unfoldable pub pam_event : ℕ → ℕ → ℕ → Text → Bool → Service → Service
  pam_event now pid uid user ok s = (try_pam_event (env.writes s.audit.seq) now pid uid user ok s).0

  -- After `consume`: the record and the reply, or no reply while the call still waits. If the record
  -- raises, the reply is `0`.
  abbrev pub pam_reply_with :
      Write → ℕ → ℕ → ℕ → Text → Service → Broker × Answer → Service × Option Bytes
  pam_reply_with w after pid uid user s (b, answers ok) =
      let (s', ended) = try_pam_event w after pid uid user ok (record s { broker = b }) in
      handle ended (λ _. (s', some (reply_line ok))) (λ e. (s', some (reply_line false)))
  pam_reply_with w after pid uid user s (b, unanswered) = (record s { broker = b }, none)

  abbrev pub pam_reply : ℕ → ℕ → ℕ → Text → Service → Broker × Answer → Service × Option Bytes
  pam_reply after pid uid user s r = pam_reply_with (env.writes s.audit.seq) after pid uid user s r

  abbrev pub pam_wait : ℕ → List Wake → ℕ → Service × Asked → Service × Option Bytes
  pam_wait now ws after (s, turned_away) = (s, some (reply_line false))
  pam_wait now ws after (s, asks pid uid user) =
      pam_reply after pid uid user s (Broker.consume (settings s).pam_wait ws now s.broker)

  -- `handle_pam`, with the wake-ups of `consume` and what the others do to the broker between them.
  unfoldable pub handle_pam :
      ℕ → Outcome (ℕ × ℕ) → Outcome Json → List Wake → ℕ → Service → Service × Option Bytes
  unfolding pam_request
  handle_pam now peer line ws after s = pam_wait now ws after (pam_request now peer line s)
