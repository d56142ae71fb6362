-- ===== src/Service/Session/Charged.antt =====
-- What a rejection costs (listener.py): a piece of a connection that tells the peer that it failed
-- counts a failure of the peer's address.
use remote_unlock.Base.{
  subst, sym, ℕ, ◌≡◌, ◌≢◌, refl, ◌∙◌, ap, true, false, ◌&&◌, Option, none, some, [], ◌∷◌, Text,
  codes, arith, leb, if_split,
}
use remote_unlock.Backoff
use remote_unlock.Backoff.{Backoff}
use remote_unlock.Json.{Json, str, get}
use remote_unlock.Outcome.{Outcome, returns, raises, Exception, handle_split}
use remote_unlock.Audit.{equals_text}
use remote_unlock.Config.{Device, ConfigFile, reload_if_changed}
use remote_unlock.Service.State.{Env, Kind, Service, settings}
use remote_unlock.Service.Challenge.{
  Reason, Draw, ChallengeMessage, issue_challenge, bad_hello, bad_response_type,
  unknown_device_or_id_mismatch, no_registered_client_certificate,
}
use remote_unlock.Service.Session.Frames.{authorize-welcome}
use remote_unlock.Service.Session.{
  Piece, Frame, locked, rejection_event, fail_device, fail, reject, on_exception, recv_json,
  device_of_cert, is_missing, begin, accept, send_challenge, identify, challenge_or_reject,
  hello_from, on_hello, conclude, answer, on_response, challenge, result, close,
}
use remote_unlock.Service.Session.Same.{
  record_event-Same, locked-Same, lockout_event-Same, issue_challenge-Same, check_response-Same,
}

-- If the piece tells the peer that it failed, a failure of the address is counted on top of `b`. If
-- it tells of no result, no failure of an address is counted, and none is forgotten.
pub record Charged (now : ℕ) (ip : Text) (b : Backoff) (p : Piece) : Type 0 where
  pub failed : p.1 ≡ result false ∷ [] → p.0.ip_backoff ≡ (Backoff.fail now ip b).0
  pub quiet : p.1 ≢ result false ∷ [] → p.1 ≢ result true ∷ [] → p.0.ip_backoff ≡ b

uncounted :
    (now : ℕ) (ip : Text) (b : Backoff) (p : Piece)
    → p.1 ≢ result false ∷ []
    → p.0.ip_backoff ≡ b
    → Charged now ip b p
uncounted now ip b p n e = record { failed = λ h. absurd (n h); quiet = λ _ _. e }

close_not_false : (code : ℕ) → close code ∷ [] ≢ result false ∷ []
close_not_false code h = ground arith

nil_not_false : [] ≢ result false ∷ []
nil_not_false h = ground arith

challenge_not_false : (msg : ChallengeMessage) → challenge msg ∷ [] ≢ result false ∷ []
challenge_not_false msg h = ground arith

true_not_false : result true ∷ [] ≢ result false ∷ []
true_not_false h = ground arith

module _ {PrivateKey PublicKey : Type 0} (env : Env PrivateKey PublicKey) (now : ℕ)
    (ip : Text) where
  fail_device_ip :
      (device_id : Option Text) (s : Service)
      → (fail_device env now device_id s).0.ip_backoff ≡ s.ip_backoff
  fail_device_ip none s = refl
  fail_device_ip (some []) s = refl
  fail_device_ip (some (a ∷ u)) s = refl

  reject-Charged :
      (device_id : Option Text) (reason : Reason) (b : Backoff) (s : Service)
      → s.ip_backoff ≡ b
      → Charged now ip b (reject env now ip device_id reason s)
  unfolding fail rejection_event
  reject-Charged device_id reason b s same =
      let s₀ = record s { ip_backoff = (Backoff.fail now ip s.ip_backoff).0 } in
      record {
        failed = λ _.
            (lockout_event-Same env now _ _ _ _).ip
            ∙ ((lockout_event-Same env now _ _ _ _).ip
                ∙ ((record_event-Same env now _ _ _ _).ip
                    ∙ (fail_device_ip device_id s₀ ∙ ap (λ c. (Backoff.fail now ip c).0) same)));
        quiet = λ n _. absurd (n refl);
      }

  on_exception-Charged :
      (e : Exception) (b : Backoff) (s : Service)
      → s.ip_backoff ≡ b
      → Charged now ip b (on_exception env now ip e s)
  unfolding on_exception
  on_exception-Charged Exception.connection_closed b s same =
      uncounted now ip b (on_exception env now ip Exception.connection_closed s) nil_not_false same
  on_exception-Charged Exception.timeout_error b s same = reject-Charged none _ b s same
  on_exception-Charged e b s same = reject-Charged none _ b s same

  begin-Charged :
      (der : Option Text) (s : Service) → Charged now ip s.ip_backoff (begin env now ip der s)
  unfolding begin
  begin-Charged der s =
      let s' = (locked env now Kind.ip ip s).0 in
      let same = (locked-Same env now Kind.ip ip s).ip in
      if_split (Charged now ip s.ip_backoff) (locked env now Kind.ip ip s).1 _ _
        (λ _. uncounted _ ip _ _ (close_not_false 1008) same)
        (λ _.
          if_split (Charged now ip s.ip_backoff)
            ((settings s').require_mtls && is_missing (device_of_cert env der s')) _ _
            (λ _. reject-Charged none no_registered_client_certificate s.ip_backoff s' same)
            (λ _. uncounted _ ip _ _ nil_not_false same))

  pub accept-Charged :
      (der : Option Text) (file : ConfigFile) (s : Service)
      → Charged now ip s.ip_backoff (accept env now ip der file s)
  unfolding accept
  accept-Charged der file s =
      if_split (Charged now ip s.ip_backoff) (leb (settings s).max_connections s.active) _ _
        (λ _. uncounted _ ip _ _ (close_not_false 1013) refl)
        (λ _.
          handle_split (Charged now ip s.ip_backoff) (reload_if_changed file s.config) _ _
            (λ cfg _. begin-Charged der _) (λ e _. on_exception-Charged e s.ip_backoff _ refl))

  conclude-Charged :
      (device : Device) (b : Backoff) (r : Service × Outcome (Option Reason))
      → r.0.ip_backoff ≡ b
      → Charged now ip b (conclude env now ip device r)
  conclude-Charged device b (s, raises e) same = on_exception-Charged e b s same
  conclude-Charged device b (s, returns none) same =
      subst (Charged now ip b) (sym (authorize-welcome env now ip device s))
        (record { failed = λ h. absurd (true_not_false h); quiet = λ _ n. absurd (n refl) })
  conclude-Charged device b (s, returns (some reason)) same =
      reject-Charged (some device.id) reason b s same

  pub on_response-Charged :
      (device : Device) (frame : Outcome Frame) (s : Service)
      → Charged now ip s.ip_backoff (on_response env now ip device frame s)
  unfolding on_response answer
  on_response-Charged device frame s =
      handle_split (Charged now ip s.ip_backoff) (recv_json env frame) _ _
        (λ resp _.
          if_split (Charged now ip s.ip_backoff)
            (equals_text (get (codes "type") resp) (codes "response")) _ _
            (λ _.
              conclude-Charged device s.ip_backoff _
                (check_response-Same env now device (get (codes "nonce") resp)
                  (get (codes "signature") resp) s).ip)
            (λ _. reject-Charged (some device.id) bad_response_type s.ip_backoff s refl))
        (λ e _. on_exception-Charged e s.ip_backoff s refl)

module _ {PrivateKey PublicKey : Type 0} (env : Env PrivateKey PublicKey) (d : Draw)
    (ip : Text) where
  send_challenge-Charged :
      (device : Device) (s : Service)
      → Charged d.now ip s.ip_backoff (send_challenge env d ip device s)
  unfolding send_challenge
  send_challenge-Charged device s =
      let s' = (locked env d.now Kind.device device.id s).0 in
      let same = (locked-Same env d.now Kind.device device.id s).ip in
      let same' =
        (issue_challenge-Same env d device.id s').ip
        ∙ (locked-Same env d.now Kind.device device.id s).ip in
      if_split (Charged d.now ip s.ip_backoff) (locked env d.now Kind.device device.id s).1 _ _
        (λ _. uncounted _ ip _ _ (close_not_false 1008) same)
        (λ _.
          handle_split (Charged d.now ip s.ip_backoff) (issue_challenge env d device.id s').1 _ _
            (λ msg _. uncounted _ ip _ _ (challenge_not_false msg) same')
            (λ e _. on_exception-Charged env d.now ip e s.ip_backoff _ same'))

  challenge_or_reject-Charged :
      (device : Option Device) (s : Service)
      → Charged d.now ip s.ip_backoff (challenge_or_reject env d ip device s)
  challenge_or_reject-Charged none s =
      reject-Charged env d.now ip none unknown_device_or_id_mismatch s.ip_backoff s refl
  challenge_or_reject-Charged (some device) s = send_challenge-Charged device s

  hello_from-Charged :
      (cert_device : Option Device) (j : Json) (s : Service)
      → Charged d.now ip s.ip_backoff (hello_from env d ip cert_device j s)
  unfolding hello_from
  hello_from-Charged cert_device (str device_id) s =
      challenge_or_reject-Charged (identify env cert_device device_id s) s
  hello_from-Charged cert_device j s =
      reject-Charged env d.now ip none bad_hello s.ip_backoff s refl

  pub on_hello-Charged :
      (cert_device : Option Device) (frame : Outcome Frame) (s : Service)
      → Charged d.now ip s.ip_backoff (on_hello env d ip cert_device frame s)
  unfolding on_hello
  on_hello-Charged cert_device frame s =
      handle_split (Charged d.now ip s.ip_backoff) (recv_json env frame) _ _
        (λ hello _.
          if_split (Charged d.now ip s.ip_backoff) _ _ _
            (λ _. hello_from-Charged cert_device (get (codes "device_id") hello) s)
            (λ _. reject-Charged env d.now ip none bad_hello s.ip_backoff s refl))
        (λ e _. on_exception-Charged env d.now ip e s.ip_backoff s refl)
