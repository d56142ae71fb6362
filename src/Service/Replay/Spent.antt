-- ===== src/Service/Replay/Spent.antt =====
-- How often a nonce is spent.
use remote_unlock.Base.{
  ℕ, ◌+◌, ◌≤◌, ◌≡◌, refl, ap, ◌*◌, ◌⊎◌, inl, inr, true, Option, none, some, List, [], ◌∷◌, Text,
  codes, Text-discrete, arith, Bool-cases, ◌*◌, if_split, if◌then◌else◌,
}
use remote_unlock.Base.Dict.{lookup}
use remote_unlock.Json.{Json, str, Fields, get}
use remote_unlock.Outcome.{Outcome, returns, raises, handle_split}
use remote_unlock.Config.{Device, Config}
use remote_unlock.Audit.{equals_text-true, AuditLog, equals_text}
use remote_unlock.Protocol.Forms.{is_nonce}
use remote_unlock.Service.State.{Env, Service, new_service}
use remote_unlock.Service.Challenge.{Reason, check_response, bad_response_type}
use remote_unlock.Service.Challenge.Held.{flag, held, held-check_response, check_response_burns}
use remote_unlock.Service.Session.{
  Piece, Frame, authorize, on_response, recv_json, answer, conclude,
}
use remote_unlock.Service.Session.Frames.{Ends, reject-Ends, on_exception-Ends}
use remote_unlock.Service.Session.Grants.{Verified, check_response-none, authorize_lem}
use remote_unlock.Service.Replay.{
  Event, allows, draws, names, step, spends, run, spent, drawn_in, accepts, hellos, responds,
}
use remote_unlock.Service.Replay.Pending.{held_same, accept-AtMost, on_hello-AtMost}

allows-Ends : (s : Service) (p : Piece) → Ends s p → allows p.1 ≡ 0
unfolding allows
allows-Ends s p e = elim e.denies [ inl q ↦ ap allows q | inr q ↦ ap allows q ]

-- What the piece leaves of the nonce and spends of it, by the fields that it was given.
pub record Pays (fields : Outcome Fields) (n : Text) (s : Service) (p : Piece) : Type 0 where
  pub paid : held n p.0 + allows p.1 * names n fields ≤ held n s

module _ {PrivateKey PublicKey : Type 0} (env : Env PrivateKey PublicKey) where
  -- A refusal leaves the nonces as they are, and spends none.
  Ends-Leaves :
      (n : Text) (s : Service) (p : Piece) → Ends s p → (held n p.0 ≡ held n s) × (allows p.1 ≡ 0)
  Ends-Leaves n s p e = (held_same n s p.0 e.pending, allows-Ends s p e)

  conclude_lem :
      (n : Text) (now : ℕ) (ip : Text) (device : Device) (r : Service × Outcome (Option Reason))
      → let p = conclude env now ip device r in
        (held n p.0 ≡ held n r.0) × (((r.1 ≡ returns none) × (allows p.1 ≡ 1)) ⊎ (allows p.1 ≡ 0))
  unfolding allows
  conclude_lem n now ip device (s, raises e) =
      let (same, zero) = Ends-Leaves n s _ (on_exception-Ends env now ip e s) in (same, inr zero)
  conclude_lem n now ip device (s, returns none) =
      let (said, _, same) = authorize_lem env now ip device s in
      (held_same n s (authorize env now ip device s).0 same, inl (refl, ap allows said))
  conclude_lem n now ip device (s, returns (some reason)) =
      let (same, zero) = Ends-Leaves n s _ (reject-Ends env now ip (some device.id) reason s) in
      (same, inr zero)

  -- A verified nonce was pending, and is not pending afterwards.
  Verified-spends :
      (n : Text) (now : ℕ) (device : Device) (signature : Json) (s : Service)
      → Verified env now device (str n) signature s
      → (held n s ≡ 1) × (held n (check_response env now device (str n) signature s).0 ≡ 0)
  unfolding held
  Verified-spends n now device signature s v =
      let same : n ≡ v.text = ground arith in
      let found : lookup Text-discrete n s.pending ≡ some v.issued = rw same v.was_pending in
      let form : is_nonce n ≡ true = rw same v.form in
      (ap flag found, ground (arith, check_response_burns env now device n signature s))

  answer_spends :
      (n : Text) (now : ℕ) (ip : Text) (device : Device) (nonce signature : Json) (s : Service)
      → let p = answer env now ip device nonce signature s in
        held n p.0 + allows p.1 * (if equals_text nonce n then 1 else 0) ≤ held n s
  unfolding answer
  answer_spends n now ip device nonce signature s =
      let r = check_response env now device nonce signature s in
      let less = held-check_response env n now device nonce signature s in
      let (same, outcome) = conclude_lem n now ip device r in
      elim outcome [
        | inr zero ↦ rw zero (ground arith)
        | inl (passed, one) ↦ elim (Bool-cases (equals_text nonce n)) [
          | inl named ↦
              let e : nonce ≡ str n = equals_text-true nonce n named in
              let v : Verified env now device nonce signature s =
                check_response-none env now device nonce signature s passed in
              let (was, is) = Verified-spends n now device signature s (rw e at v) in
              let gone : held n r.0 ≡ 0 = rw e is in rw (one, named) (ground arith)
          | inr other ↦ rw other (ground arith)
        ]
      ]

  pub on_response_spends :
      (n : Text) (now : ℕ) (ip : Text) (device : Device) (frame : Outcome Frame) (s : Service)
      → Pays (recv_json env frame) n s (on_response env now ip device frame s)
  unfolding on_response names
  on_response_spends n now ip device frame s =
      let zero : (p : Piece) → Ends s p → Pays (recv_json env frame) n s p = λ p e. record {
        paid = rw (allows-Ends s p e) (ground (arith, held_same n s p.0 e.pending));
      } in
      handle_split (Pays (recv_json env frame) n s) (recv_json env frame) _ _
        (λ resp f.
          if_split (Pays (recv_json env frame) n s)
            (equals_text (get (codes "type") resp) (codes "response")) _ _
            (λ _. record {
              paid = rw f (
                  answer_spends n now ip device (get (codes "nonce") resp)
                    (get (codes "signature") resp) s);
            })
            (λ _. zero _ (reject-Ends env now ip (some device.id) bad_response_type s)))
        (λ e _. zero _ (on_exception-Ends env now ip e s))

  step-spends :
      (n : Text) (e : Event) (s : Service)
      → let p = step env e s in held n p.0 + spends env n e p ≤ held n s + draws n e
  unfolding step spends draws
  step-spends n (accepts now ip der file) s =
      ground (arith, (accept-AtMost env n now ip der file s).at_most)
  step-spends n (hellos d ip cert_device frame) s =
      ground (arith, (on_hello-AtMost env n d ip cert_device frame s).at_most)
  step-spends n (responds now ip device frame) s =
      ground (arith, (on_response_spends n now ip device frame s).paid)

  -- In any run, by any peers, a nonce allows the unlock at most as often as it was pending at the
  -- start or was drawn during the run.
  pub spent_le_drawn :
      (n : Text) (es : List Event) (s : Service)
      → spent env n es s + held n (run env es s) ≤ held n s + drawn_in env n es
  unfolding spent run drawn_in
  spent_le_drawn n [] s = ground arith
  spent_le_drawn n (e ∷ es) s =
      ground (arith, step-spends n e s, spent_le_drawn n es (step env e s).0)

  held_at_start : (n : Text) (cfg : Config) (log : AuditLog) → held n (new_service env cfg log) ≡ 0
  unfolding new_service held lookup
  held_at_start n cfg log = refl

  -- From the start of the service, a nonce allows the unlock at most as often as it was drawn.
  pub spent_from_start :
      (n : Text) (es : List Event) (cfg : Config) (log : AuditLog)
      → spent env n es (new_service env cfg log) ≤ drawn_in env n es
  spent_from_start n es cfg log =
      ground (arith, held_at_start n cfg log, spent_le_drawn n es (new_service env cfg log))
