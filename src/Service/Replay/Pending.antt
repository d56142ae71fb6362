-- ===== src/Service/Replay/Pending.antt =====
-- How often a nonce is pending after each piece of a connection.
use remote_unlock.Base.{
  ℕ, ◌+◌, ◌-◌, ◌≤◌, ◌≡◌, refl, ap, Option, none, some, [], ◌∷◌, Text, Bytes, codes, Text-discrete,
  arith, leb, ◌&&◌, if_split,
}
use remote_unlock.Base.Dict.{lookup}
use remote_unlock.Json.{Json, str, get}
use remote_unlock.Outcome.{Outcome, handle_split, handle}
use remote_unlock.Config.{Device, ConfigFile, reload_if_changed}
use remote_unlock.Audit.{equals_text}
use remote_unlock.Service.State.{Env, Kind, Service, settings}
use remote_unlock.Service.Challenge.{
  Reason, Draw, issue_challenge, bad_hello, unknown_device_or_id_mismatch,
  no_registered_client_certificate,
}
use remote_unlock.Service.Challenge.Held.{flag, held, drawn, held-issue_challenge}
use remote_unlock.Service.Session.{
  Piece, Frame, accept, on_hello, recv_json, reject, on_exception, locked, begin, send_challenge,
  challenge_or_reject, hello_from, identify, is_missing, device_of_cert, wants_hello, close, done,
}
use remote_unlock.Service.Session.Frames.{Ends, locked-Keeps, reject-Ends, on_exception-Ends}

pub held_same : (n : Text) (s s' : Service) → s'.pending ≡ s.pending → held n s' ≡ held n s
unfolding held
held_same n s s' e = ap (λ p. flag (lookup Text-discrete n p)) e

-- After the piece the nonce is pending at most so often.
pub record AtMost (n : Text) (bound : ℕ) (p : Piece) : Type 0 where
  pub at_most : held n p.0 ≤ bound

module _ {PrivateKey PublicKey : Type 0} (env : Env PrivateKey PublicKey) where
  Ends-AtMost :
      (n : Text) (bound : ℕ) (s : Service) (p : Piece)
      → Ends s p
      → held n s ≤ bound
      → AtMost n bound p
  Ends-AtMost n bound s p e h = record { at_most = ground (arith, held_same n s p.0 e.pending) }

  begin-AtMost :
      (n : Text) (now : ℕ) (ip : Text) (der : Option Bytes) (s : Service)
      → AtMost n (held n s) (begin env now ip der s)
  unfolding begin
  begin-AtMost n now ip der s =
      let s' = (locked env now Kind.ip ip s).0 in
      let same : held n s' ≡ held n s =
        held_same n s s' (locked-Keeps env now Kind.ip ip s).pending in
      if_split (AtMost n (held n s)) (locked env now Kind.ip ip s).1 _ _
        (λ _. record {
          at_most = ground (arith, held_same n s' (record s' { active = s'.active - 1 }) refl);
        })
        (λ _.
          if_split (AtMost n (held n s))
            ((settings s').require_mtls && is_missing (device_of_cert env der s'))
            (reject env now ip none no_registered_client_certificate s')
            (s', [], wants_hello (device_of_cert env der s'))
            (λ _.
              Ends-AtMost n (held n s) s'
                (reject env now ip none no_registered_client_certificate s')
                (reject-Ends env now ip none no_registered_client_certificate s') (ground arith))
            (λ _. record { at_most = ground arith }))

  pub accept-AtMost :
      (n : Text) (now : ℕ) (ip : Text) (der : Option Bytes) (file : ConfigFile) (s : Service)
      → AtMost n (held n s) (accept env now ip der file s)
  unfolding accept
  accept-AtMost n now ip der file s =
      let s₁ = record s { active = s.active + 1 } in
      let same : held n s₁ ≡ held n s = held_same n s s₁ refl in
      if_split (AtMost n (held n s)) (leb (settings s).max_connections s.active)
        (s, close 1013 ∷ [], done)
        (handle (reload_if_changed file s.config)
          (λ cfg. begin env now ip der (record s₁ { config = cfg }))
          (λ e. on_exception env now ip e s₁))
        (λ _. record { at_most = ground arith })
        (λ _.
          handle_split (AtMost n (held n s)) (reload_if_changed file s.config) _ _
            (λ cfg _. record {
              at_most = ground (
                arith,
                (begin-AtMost n now ip der (record s₁ { config = cfg })).at_most,
                held_same n s (record s₁ { config = cfg }) refl,
              );
            })
            (λ e _.
              Ends-AtMost n (held n s) s₁ (on_exception env now ip e s₁)
                (on_exception-Ends env now ip e s₁) (ground arith)))

  send_challenge-AtMost :
      (n : Text) (d : Draw) (ip : Text) (device : Device) (s : Service)
      → AtMost n (held n s + drawn n d) (send_challenge env d ip device s)
  unfolding send_challenge
  send_challenge-AtMost n d ip device s =
      let bound = held n s + drawn n d in
      let s' = (locked env d.now Kind.device device.id s).0 in
      let same : held n s' ≡ held n s =
        held_same n s s' (locked-Keeps env d.now Kind.device device.id s).pending in
      let s'' = (issue_challenge env d device.id s').0 in
      let grown : held n s'' ≤ bound = ground (arith, held-issue_challenge env n d device.id s') in
      if_split (AtMost n bound) (locked env d.now Kind.device device.id s).1 _ _
        (λ _. record {
          at_most = ground (arith, held_same n s' (record s' { active = s'.active - 1 }) refl);
        })
        (λ _.
          handle_split (AtMost n bound) (issue_challenge env d device.id s').1 _ _
            (λ msg _. record { at_most = grown })
            (λ e _.
              Ends-AtMost n bound s'' (on_exception env d.now ip e s'')
                (on_exception-Ends env d.now ip e s'') grown))

  reject-AtMost :
      (n : Text) (d : Draw) (ip : Text) (reason : Reason) (s : Service)
      → AtMost n (held n s + drawn n d) (reject env d.now ip none reason s)
  reject-AtMost n d ip reason s =
      Ends-AtMost n (held n s + drawn n d) s (reject env d.now ip none reason s)
        (reject-Ends env d.now ip none reason s) (ground arith)

  challenge_or_reject-AtMost :
      (n : Text) (d : Draw) (ip : Text) (device : Option Device) (s : Service)
      → AtMost n (held n s + drawn n d) (challenge_or_reject env d ip device s)
  challenge_or_reject-AtMost n d ip none s = reject-AtMost n d ip unknown_device_or_id_mismatch s
  challenge_or_reject-AtMost n d ip (some device) s = send_challenge-AtMost n d ip device s

  hello_from-AtMost :
      (n : Text) (d : Draw) (ip : Text) (cert_device : Option Device) (j : Json) (s : Service)
      → AtMost n (held n s + drawn n d) (hello_from env d ip cert_device j s)
  unfolding hello_from
  hello_from-AtMost n d ip cert_device (str device_id) s =
      challenge_or_reject-AtMost n d ip (identify env cert_device device_id s) s
  hello_from-AtMost n d ip cert_device j s = reject-AtMost n d ip bad_hello s

  pub on_hello-AtMost :
      (n : Text) (d : Draw) (ip : Text) (cert_device : Option Device) (frame : Outcome Frame)
      (s : Service)
      → AtMost n (held n s + drawn n d) (on_hello env d ip cert_device frame s)
  unfolding on_hello
  on_hello-AtMost n d ip cert_device frame s =
      let bound = held n s + drawn n d in
      handle_split (AtMost n bound) (recv_json env frame) _ _
        (λ hello _.
          if_split (AtMost n bound) (equals_text (get (codes "type") hello) (codes "hello")) _ _
            (λ _. hello_from-AtMost n d ip cert_device (get (codes "device_id") hello) s)
            (λ _. reject-AtMost n d ip bad_hello s))
        (λ e _.
          Ends-AtMost n bound s (on_exception env d.now ip e s) (on_exception-Ends env d.now ip e s)
            (ground arith))
