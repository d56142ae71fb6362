-- ===== src/Service/Session/Counted.antt =====
-- The pieces of a connection (`handle` and `_session` of listener.py) one by one: the audit log, the
-- settings and the count of connections after each.
use remote_unlock.Base.{
  subst, sym, [], ◌∷◌, ℕ, ◌-◌, ◌<◌, ◌≡◌, refl, ◌∙◌, ◌&&◌, Option, none, some, List, Text, Bytes,
  codes, arith, if_split,
}
use remote_unlock.Json.{Json, str, get, Fields, field, end}
use remote_unlock.Outcome.{Outcome, returns, raises, handle_split}
use remote_unlock.Config.{Device}
use remote_unlock.Audit.{equals_text, append}
use remote_unlock.Audit.Append.{append-IsIntact}
use remote_unlock.Service.State.{Env, Kind, Service, settings, record_event}
use remote_unlock.Service.Challenge.{Reason, Draw, issue_challenge, check_response}
use remote_unlock.Service.Session.Frames.{authorize-welcome}
use remote_unlock.Service.Session.{
  Output, Piece, Frame, locked, recv_json, begin, is_missing, device_of_cert, send_challenge,
  identify, challenge_or_reject, hello_from, on_hello, authorize, answer, conclude, on_response,
  done,
}
use remote_unlock.Service.Session.Frames.{locked-Keeps}
use remote_unlock.Service.Session.Accounts.{
  written_line, Logs, Logs-trans, Logs-same, locked-Logs, Accounts, reject-Accounts,
  on_exception-Accounts,
}

-- The data of the record of an unlock.
abbrev pub authorized_fields : Text → Device → Service → Fields
authorized_fields ip device s = field (codes "ip") (str ip) (
    field (codes "device") (str device.id)
      (field (codes "target") (str (settings s).target_id) end))

module _ {PrivateKey PublicKey : Type 0} (env : Env PrivateKey PublicKey) where
  -- The piece that follows a step that keeps the settings and the count.
  Accounts-from :
      (s t : Service) (p : Piece)
      → Logs env s t
      → t.config ≡ s.config
      → t.active ≡ s.active
      → Accounts env t p
      → Accounts env s p
  Accounts-from s t p l c a k = record {
    log = Logs-trans env l k.log;
    config = k.config ∙ c;
    count = ground (arith, k.count);
  }

  locked-Accounts :
      (now : ℕ) (kind : Kind) (key : Text) (s : Service) (p : Piece)
      → Accounts env (locked env now kind key s).0 p
      → Accounts env s p
  locked-Accounts now kind key s p k =
      let kept = locked-Keeps env now kind key s in
      Accounts-from s (locked env now kind key s).0 p (locked-Logs env now kind key s) kept.config
        kept.active k

  -- The connection is closed at once.
  leave-Accounts :
      (s : Service) (out : List Output)
      → Accounts env s (record s { active = s.active - 1 }, out, done)
  leave-Accounts s out = record {
    log = Logs-same env s (record s { active = s.active - 1 }) refl;
    config = refl;
    count = ground arith;
  }

  pub begin-Accounts :
      (now : ℕ) (ip : Text) (der : Option Bytes) (s : Service)
      → 0 < s.active
      → Accounts env s (begin env now ip der s)
  unfolding begin
  begin-Accounts now ip der s counted =
      let s' = (locked env now Kind.ip ip s).0 in
      let same = (locked-Keeps env now Kind.ip ip s).active in
      if_split (Accounts env s) (locked env now Kind.ip ip s).1 _ _
        (λ _. locked-Accounts now Kind.ip ip s _ (leave-Accounts s' _))
        (λ _.
          if_split (Accounts env s)
            ((settings s').require_mtls && is_missing (device_of_cert env der s')) _ _
            (λ _. locked-Accounts now Kind.ip ip s _ (reject-Accounts env now ip none _ s'))
            (λ _. locked-Accounts now Kind.ip ip s _ (record {
              log = Logs-same env s' s' refl;
              config = refl;
              count = ground (arith, same);
            })))

  issue_challenge-lem :
      (d : Draw) (device_id : Text) (s : Service)
      → ((issue_challenge env d device_id s).0.audit ≡ s.audit)
        × ((issue_challenge env d device_id s).0.config ≡ s.config)
        × ((issue_challenge env d device_id s).0.active ≡ s.active)
  unfolding issue_challenge
  issue_challenge-lem d device_id s = (ground arith, ground arith, ground arith)

  send_challenge-Accounts :
      (d : Draw) (ip : Text) (device : Device) (s : Service)
      → 0 < s.active
      → Accounts env s (send_challenge env d ip device s)
  unfolding send_challenge
  send_challenge-Accounts d ip device s counted =
      let s' = (locked env d.now Kind.device device.id s).0 in
      let same = (locked-Keeps env d.now Kind.device device.id s).active in
      let s'' = (issue_challenge env d device.id s').0 in
      let (log, config, active) = issue_challenge-lem d device.id s' in
      let onward = λ (p : Piece) (k : Accounts env s'' p).
        locked-Accounts d.now Kind.device device.id s p
          (Accounts-from s' s'' p (Logs-same env s' s'' log) config active k) in
      if_split (Accounts env s) (locked env d.now Kind.device device.id s).1 _ _
        (λ _. locked-Accounts d.now Kind.device device.id s _ (leave-Accounts s' _))
        (λ _.
          handle_split (Accounts env s) (issue_challenge env d device.id s').1 _ _
            (λ msg _. onward _ (record {
              log = Logs-same env s'' s'' refl;
              config = refl;
              count = ground (arith, same, active);
            }))
            (λ e _. onward _ (on_exception-Accounts env d.now ip e s'')))

  challenge_or_reject-Accounts :
      (d : Draw) (ip : Text) (device : Option Device) (s : Service)
      → 0 < s.active
      → Accounts env s (challenge_or_reject env d ip device s)
  challenge_or_reject-Accounts d ip none s c = reject-Accounts env d.now ip none _ s
  challenge_or_reject-Accounts d ip (some device) s c = send_challenge-Accounts d ip device s c

  hello_from-Accounts :
      (d : Draw) (ip : Text) (cert_device : Option Device) (j : Json) (s : Service)
      → 0 < s.active
      → Accounts env s (hello_from env d ip cert_device j s)
  unfolding hello_from
  hello_from-Accounts d ip cert_device (str device_id) s c =
      challenge_or_reject-Accounts d ip (identify env cert_device device_id s) s c
  hello_from-Accounts d ip cert_device j s c = reject-Accounts env d.now ip none _ s

  pub on_hello-Accounts :
      (d : Draw) (ip : Text) (cert_device : Option Device) (frame : Outcome Frame) (s : Service)
      → 0 < s.active
      → Accounts env s (on_hello env d ip cert_device frame s)
  unfolding on_hello
  on_hello-Accounts d ip cert_device frame s c =
      handle_split (Accounts env s) (recv_json env frame) _ _
        (λ hello _.
          if_split (Accounts env s) (equals_text (get (codes "type") hello) (codes "hello")) _ _
            (λ _. hello_from-Accounts d ip cert_device (get (codes "device_id") hello) s c)
            (λ _. reject-Accounts env d.now ip none _ s))
        (λ e _. on_exception-Accounts env d.now ip e s)

  authorize-Accounts :
      (now : ℕ) (ip : Text) (device : Device) (s : Service)
      → Accounts env s (authorize env now ip device s)
  unfolding record_event append
  authorize-Accounts now ip device s =
      subst (Accounts env s) (sym (authorize-welcome env now ip device s)) (record {
        log = record {
          intact = λ h.
              rw (env.is_whole s.audit.seq)
                (append-IsIntact env.hash (env.stamp now) _ _ s.audit h);
          extra =
              written_line env now (codes "unlock_authorized") (authorized_fields ip device s) s
              ∷ [];
          grows = rw (env.is_whole s.audit.seq) refl;
        };
        config = refl;
        count = ground arith;
      })

  pub conclude-Accounts :
      (now : ℕ) (ip : Text) (device : Device) (r : Service × Outcome (Option Reason))
      → Accounts env r.0 (conclude env now ip device r)
  conclude-Accounts now ip device (s, raises e) = on_exception-Accounts env now ip e s
  conclude-Accounts now ip device (s, returns none) = authorize-Accounts now ip device s
  conclude-Accounts now ip device (s, returns (some reason)) = reject-Accounts env now ip _ reason s

  pub check_response-lem :
      (now : ℕ) (device : Device) (nonce signature : Json) (s : Service)
      → let s' = (check_response env now device nonce signature s).0 in
        (s'.audit ≡ s.audit) × (s'.config ≡ s.config) × (s'.active ≡ s.active)
  unfolding check_response
  check_response-lem now device (str t) signature s = (ground arith, ground arith, ground arith)
  check_response-lem now device nonce signature s = (refl, refl, refl)

  pub answer-Accounts :
      (now : ℕ) (ip : Text) (device : Device) (nonce signature : Json) (s : Service)
      → Accounts env s (answer env now ip device nonce signature s)
  unfolding answer
  answer-Accounts now ip device nonce signature s =
      let r = check_response env now device nonce signature s in
      let (log, config, active) = check_response-lem now device nonce signature s in
      Accounts-from s r.0 (conclude env now ip device r) (Logs-same env s r.0 log) config active
        (conclude-Accounts now ip device r)

  pub on_response-Accounts :
      (now : ℕ) (ip : Text) (device : Device) (frame : Outcome Frame) (s : Service)
      → Accounts env s (on_response env now ip device frame s)
  unfolding on_response
  on_response-Accounts now ip device frame s =
      handle_split (Accounts env s) (recv_json env frame) _ _
        (λ resp _.
          if_split (Accounts env s) (equals_text (get (codes "type") resp) (codes "response")) _ _
            (λ _.
              answer-Accounts now ip device (get (codes "nonce") resp)
                (get (codes "signature") resp) s)
            (λ _. reject-Accounts env now ip _ _ s))
        (λ e _. on_exception-Accounts env now ip e s)
