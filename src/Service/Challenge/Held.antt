-- ===== src/Service/Challenge/Held.antt =====
-- Which nonces are pending, and how many.
use remote_unlock.Base.{
  ℕ, ◌+◌, ◌≤◌, ◌≡◌, Option, none, some, Text, Text-discrete, arith, length, keep_if,
  length-keep_if-le, inl, inr, Option-cases, ite, if◌then◌else◌,
}
use remote_unlock.Base.Dict.{
  lookup, lookup-insert, lookup-remove, lookup-keep_if-none, length-insert-le,
}
use remote_unlock.Json.{Json, str}
use remote_unlock.Protocol.Forms.{is_nonce}
use remote_unlock.Config.{Device}
use remote_unlock.Service.State.{Env, Pending, Service, settings}
use remote_unlock.Service.Challenge.{
  Draw, is_live, nonce_of, max_pending, drop_expired, issue_challenge, check_response, add_pending,
}

-- 1 if the nonce is pending.
abbrev pub flag : Option Pending → ℕ
flag none = 0
flag (some rec) = 1

unfoldable pub held : Text → Service → ℕ
held n s = flag (lookup Text-discrete n s.pending)

-- 1 if this draw is the nonce.
unfoldable pub drawn : Text → Draw → ℕ
drawn n d = ite (Text-discrete n (nonce_of d)) 1 0

held-drop_expired : (n : Text) (now : ℕ) (s : Service) → held n (drop_expired now s) ≤ held n s
unfolding held drop_expired
held-drop_expired n now s = elim (Option-cases (lookup Text-discrete n s.pending)) [
  | inl e ↦ ground (
    arith,
    lookup-keep_if-none Text-discrete (is_live now (settings s).challenge_ttl) n s.pending e,
  )
  | inr (rec, e) ↦ ground arith
]

held-insert :
    (n : Text) (d : Draw) (device_id : Text) (s : Service)
    → held n (add_pending d device_id s) ≤ held n s + drawn n d
unfolding held drawn
held-insert n d device_id s = ground (
  arith,
  lookup-insert Text-discrete n (nonce_of d)
      (record { device_id = device_id; issued_at = d.now; issued_ms = d.wall_ms }) s.pending,
)

module _ {PrivateKey PublicKey : Type 0} (env : Env PrivateKey PublicKey) where
  -- A challenge makes no nonce pending but its own.
  pub held-issue_challenge :
      (n : Text) (d : Draw) (device_id : Text) (s : Service)
      → held n (issue_challenge env d device_id s).0 ≤ held n s + drawn n d
  unfolding issue_challenge drawn
  held-issue_challenge n d device_id s =
      ground (arith, held-drop_expired n d.now s, held-insert n d device_id (drop_expired d.now s))

  -- A response takes its nonce out, and makes none pending.
  pub held-check_response :
      (n : Text) (now : ℕ) (device : Device) (nonce signature : Json) (s : Service)
      → held n (check_response env now device nonce signature s).0 ≤ held n s
  unfolding check_response held
  held-check_response n now device (str t) signature s =
      ground (arith, lookup-remove Text-discrete n t s.pending)
  held-check_response n now device nonce signature s = ground arith

  -- However a response ends, its nonce is not pending afterwards if it has the form of a nonce, and
  -- is as pending as it was if it has not.
  pub check_response_burns :
      (now : ℕ) (device : Device) (t : Text) (signature : Json) (s : Service)
      → held t (check_response env now device (str t) signature s).0
        ≡ (if is_nonce t then 0 else held t s)
  unfolding check_response held
  check_response_burns now device t signature s =
      ground (arith, lookup-remove Text-discrete t t s.pending)

  -- If at most `max_pending` challenges are pending, so they are after `issue_challenge`.
  pub length-issue_challenge :
      (d : Draw) (device_id : Text) (s : Service)
      → length s.pending ≤ max_pending
      → length (issue_challenge env d device_id s).0.pending ≤ max_pending
  unfolding issue_challenge
  length-issue_challenge d device_id s h =
      let kept = keep_if (is_live d.now (settings s).challenge_ttl) s.pending in
      ground (
        arith,
        length-keep_if-le (is_live d.now (settings s).challenge_ttl) s.pending,
        length-insert-le Text-discrete (nonce_of d)
            (record { device_id = device_id; issued_at = d.now; issued_ms = d.wall_ms }) kept,
      )
