-- ===== src/Service/Promise/Refines.antt =====
-- The service (`handle`, `_session` and `handle_pam` of listener.py) beside its promise.
use remote_unlock.Base.{
  ℕ, ◌+◌, ◌≤◌, ◌≡◌, ◌≢◌, refl, ap, Bool, true, false, Option, none, some, List, [], ◌∷◌, Text,
  Text-discrete, codes, arith, inl, inr, text_eq_refl,
}
use remote_unlock.Base.Dict.{lookup}
use remote_unlock.Json.{Json, str, Fields, get}
use remote_unlock.Outcome.{Outcome, returns}
use remote_unlock.Broker.{granted, denied, waits, Poll, Broker, poll}
use remote_unlock.Broker.Safety
use remote_unlock.Broker.Waiting.{held-poll-le, poll_spends, poll_cases}
use remote_unlock.Service.Connections.Quiet.{pam_request-Quiet, pam_event-Quiet}
use remote_unlock.Config.{Config, Device}
use remote_unlock.Audit.{AuditLog, equals_text}
use remote_unlock.Service.State.{Env, Pending, Service, new_service}
use remote_unlock.Service.Challenge.{nonce_of}
use remote_unlock.Service.Challenge.Held.{flag, held, drawn}
use remote_unlock.Service.Session.{result, Output, Frame, on_response, recv_json}
use remote_unlock.Service.Session.Grants.{on_response_grants}
use remote_unlock.Service.Session.Refusals.{accept-Refused, on_hello-Refused}
use remote_unlock.Service.Replay.{Event, accepts, hellos, responds, step, allows, names}
use remote_unlock.Service.Replay.Pending.{accept-AtMost, on_hello-AtMost, held_same}
use remote_unlock.Service.Replay.Spent.{on_response_spends}
use remote_unlock.Service.Pam.{pam_request, pam_event}
use remote_unlock.Service.Promise.{
  Promise, Label, silent, draws, unlocks, logs_in, same_text, Permits, Runs, logins, all_unlocks,
  logins-le,
}

-- What the service promises in a state.
abbrev pub promise_of : Service → Promise
promise_of s = record { pending = λ n. held n s; grant = Safety.held s.broker }

-- A piece of a connection, a request over the PAM socket up to `consume`, one round of `consume`, or
-- the record and the reply after it.
pub data Action : Type 0 where
  connection : Event → Action
  asks : ℕ → Outcome (ℕ × ℕ) → Outcome Json → Action
  polls : ℕ → ℕ → Action
  tells : ℕ → ℕ → ℕ → Text → Bool → Action

abbrev pub answer_label : Json → Label
answer_label (str nonce) = unlocks nonce
answer_label j = silent

-- The peer is told that it may unlock, for the nonce in its response.
abbrev pub response_label : List Output → Outcome Fields → Label
response_label (result true ∷ []) (returns resp) = answer_label (get (codes "nonce") resp)
response_label _ _ = silent

abbrev pub poll_label : Poll → Label
poll_label granted = logs_in
poll_label denied = silent
poll_label (waits left) = silent

response_label-silent :
    (out : List Output) (o : Outcome Fields)
    → out ≢ result true ∷ []
    → response_label out o ≡ silent
response_label-silent [] o ne = refl
response_label-silent (result true ∷ []) o ne = absurd (ne refl)
response_label-silent (result true ∷ (x ∷ out)) o ne = refl
response_label-silent (result false ∷ out) o ne = refl
response_label-silent (x ∷ out) o ne = refl

allows-true : allows (result true ∷ []) ≡ 1
unfolding allows
allows-true = refl

module _ {PrivateKey PublicKey : Type 0} (env : Env PrivateKey PublicKey) where
  unfoldable pub act : Action → Service → Service
  act (connection e) s = (step env e s).0
  act (asks now peer line) s = (pam_request env now peer line s).0
  act (polls deadline now) s = record s { broker = (poll deadline now s.broker).0 }
  act (tells now pid uid user ok) s = pam_event env now pid uid user ok s

  unfoldable pub label : Action → Service → Label
  label (connection (accepts now ip der file)) s = silent
  label (connection (hellos d ip cert_device frame)) s = draws (nonce_of d)
  label (connection (responds now ip device frame)) s =
      response_label (on_response env now ip device frame s).1 (recv_json env frame)
  label (asks now peer line) s = silent
  label (polls deadline now) s = poll_label (poll deadline now s.broker).1
  label (tells now pid uid user ok) s = silent

  unfoldable pub run : List Action → Service → Service
  unfolding act
  run [] s = s
  run (a ∷ rest) s = run rest (act a s)

  unfoldable pub trace : List Action → Service → List Label
  unfolding act label
  trace [] s = []
  trace (a ∷ rest) s = label a s ∷ trace rest (act a s)

  -- What a piece of `on_response` leaves of each nonce.
  pending_le :
      (n : Text) (now : ℕ) (ip : Text) (device : Device) (frame : Outcome Frame) (s : Service)
      → held n (on_response env now ip device frame s).0 ≤ held n s
  pending_le n now ip device frame s =
      omega (arith, (on_response_spends env n now ip device frame s).paid)

  held_le : (n : Text) (s : Service) → held n s ≤ 1
  unfolding held
  held_le n s = flag_le (lookup Text-discrete n s.pending)
    where
      flag_le : (o : Option Pending) → flag o ≤ 1
      flag_le none = omega arith
      flag_le (some rec) = omega arith

  broker_held_le : (b : Broker) → Safety.held b ≤ 1
  unfolding Safety.held
  broker_held_le b = ground arith

  names_own :
      (resp : Fields) (n : Text) → get (codes "nonce") resp ≡ str n → names n (returns resp) ≡ 1
  unfolding names equals_text
  names_own resp n e = rw (e, text_eq_refl n) refl

  response-Permits :
      (now : ℕ) (ip : Text) (device : Device) (frame : Outcome Frame) (s : Service)
      → let p = on_response env now ip device frame s in
        Permits (promise_of s) (response_label p.1 (recv_json env frame)) (promise_of p.0)
  response-Permits now ip device frame s =
      let p = on_response env now ip device frame s in
      let less = λ (n : Text). pending_le n now ip device frame s in
      elim (on_response_grants env now ip device frame s) [
        | inl (resp, r, typed, v, (said, issued)) ↦
            let paid = (on_response_spends env v.text now ip device frame s).paid in
            let one : allows p.1 ≡ 1 = rw said allows-true in
            let own : names v.text (recv_json env frame) ≡ 1 =
              rw r (names_own resp v.text v.nonce_text) in
            let spent : held v.text p.0 + 1 ≤ held v.text s = rw (one, own) at paid in
            rw (said, r, v.nonce_text)
              (Permits.unlock v.text (omega (arith, spent, held_le v.text s))
                (omega (arith, spent, held_le v.text s)) less (broker_held_le p.0.broker))
        | inr no_grant ↦
            rw (response_label-silent p.1 (recv_json env frame) no_grant.quiet)
              (Permits.lapse less (omega (arith, ap Safety.held no_grant.kept)))
      ]

  connection-Permits :
      (e : Event) (s : Service)
      → Permits (promise_of s) (label (connection e) s) (promise_of (act (connection e) s))
  unfolding act label step same_text drawn
  connection-Permits (accepts now ip der file) s =
      Permits.lapse (λ n. (accept-AtMost env n now ip der file s).at_most)
        (omega (arith, ap Safety.held (accept-Refused env now ip der file s).kept))
  connection-Permits (hellos d ip cert_device frame) s =
      Permits.draw (nonce_of d) (λ n. (on_hello-AtMost env n d ip cert_device frame s).at_most)
        (omega (arith, ap Safety.held (on_hello-Refused env d ip cert_device frame s).kept))
  connection-Permits (responds now ip device frame) s = response-Permits now ip device frame s

  -- A step that leaves the nonces and the broker.
  same-Permits :
      (s s' : Service)
      → s'.pending ≡ s.pending
      → s'.broker ≡ s.broker
      → Permits (promise_of s) silent (promise_of s')
  same-Permits s s' p b =
      Permits.lapse (λ n. omega (arith, held_same n s s' p)) (omega (arith, ap Safety.held b))

  poll-Permits :
      (deadline now : ℕ) (s : Service)
      → Permits
          (promise_of s)
          (poll_label (poll deadline now s.broker).1)
          (promise_of (record s { broker = (poll deadline now s.broker).0 }))
  poll-Permits deadline now s =
      let s' = record s { broker = (poll deadline now s.broker).0 } in
      let less : (n : Text) → held n s' ≤ held n s = λ n. omega (arith, held_same n s s' refl) in
      let fewer = held-poll-le deadline now s.broker in
      elim (poll_cases (poll deadline now s.broker).1) [
        | inl e ↦
            let spent = poll_spends deadline now s.broker e in
            rw e (
              Permits.login less (omega (arith, spent, broker_held_le s.broker))
                (omega (arith, spent, broker_held_le s.broker)))
        | inr (inl e) ↦ rw e (Permits.lapse less fewer)
        | inr (inr (left, e)) ↦ rw e (Permits.lapse less fewer)
      ]

  action-Permits :
      (a : Action) (s : Service) → Permits (promise_of s) (label a s) (promise_of (act a s))
  unfolding act label
  action-Permits (connection e) s = connection-Permits e s
  action-Permits (asks now peer line) s =
      let q = pam_request-Quiet env now peer line s in
      same-Permits s (pam_request env now peer line s).0 q.pending q.broker
  action-Permits (polls deadline now) s = poll-Permits deadline now s
  action-Permits (tells now pid uid user ok) s =
      let q = pam_event-Quiet env now pid uid user ok s in
      same-Permits s (pam_event env now pid uid user ok s) q.pending q.broker

  -- While every write of the audit log succeeds, the service refines its promise: whatever its peers and the logins do, in any order, each step
  -- is one that the promise permits, from the promise of the state before to that of the state
  -- after.
  pub trace-Runs :
      (actions : List Action) (s : Service)
      → Runs (promise_of s) (trace actions s) (promise_of (run actions s))
  unfolding trace run
  trace-Runs [] s = Runs.rests
  trace-Runs (a ∷ rest) s = Runs.goes (action-Permits a s) (trace-Runs rest (act a s))

  -- While every write of the audit log succeeds, from the start of the service, logins are allowed at most as often as a phone has been told that
  -- it may unlock.
  pub logins_le_unlocks :
      (actions : List Action) (cfg : Config) (log : AuditLog)
      → let ls = trace actions (new_service env cfg log) in logins ls ≤ all_unlocks ls
  unfolding new_service Safety.held
  logins_le_unlocks actions cfg log =
      let s = new_service env cfg log in
      omega (
        arith,
        logins-le (promise_of s) (promise_of (run actions s)) (trace actions s)
            (trace-Runs actions s),
      )
