-- ===== src/Service/Session/Limited.antt =====
-- How long lockouts last, after each piece of a connection (listener.py).
use remote_unlock.Base.{
  ℕ, ◌≤◌, ◌≡◌, ◌∙◌, sym, subst, ◌&&◌, Option, none, some, [], ◌∷◌, Text, codes, leb, if_split,
}
use remote_unlock.Backoff
use remote_unlock.Backoff.{Backoff, success}
use remote_unlock.Backoff.Bound.{
  IsBounded, IsBounded-later, fail-IsBounded, success-IsBounded, fail-maximum,
}
use remote_unlock.Json.{Json, str, get}
use remote_unlock.Outcome.{Outcome, returns, raises, Exception, handle_split}
use remote_unlock.Audit.{equals_text}
use remote_unlock.Config.{Device, ConfigFile, reload_if_changed}
use remote_unlock.Service.State.{Env, Kind, Service, settings}
use remote_unlock.Service.Challenge.{
  Reason, Draw, issue_challenge, bad_hello, bad_response_type, no_registered_client_certificate,
}
use remote_unlock.Service.Session.Frames.{authorize-welcome}
use remote_unlock.Service.Session.{
  Piece, Frame, locked, rejection_event, fail_device, fail, reject, on_exception, recv_json,
  device_of_cert, is_missing, begin, accept, send_challenge, identify, challenge_or_reject,
  hello_from, on_hello, authorize, conclude, answer, on_response,
}
use remote_unlock.Service.Session.Same.{
  Same, record_event-Same, locked-Same, lockout_event-Same, issue_challenge-Same,
  check_response-Same,
}

-- A lockout that is counted ends within `maximum` of the time.
abbrev Within : ℕ → ℕ → Backoff → Type 0
Within now maximum b = IsBounded now b × (b.maximum ≡ maximum)

-- So do the lockouts of addresses and of devices.
abbrev pub Limited : ℕ → ℕ → Service → Type 0
Limited now maximum s = Within now maximum s.ip_backoff × Within now maximum s.dev_backoff

abbrev LimitedPiece : ℕ → ℕ → Piece → Type 0
LimitedPiece now maximum p = Limited now maximum p.0

pub Limited-later :
    (now t maximum : ℕ) (s : Service) → now ≤ t → Limited now maximum s → Limited t maximum s
Limited-later now t maximum s le ((i, im), (d, dm)) =
    ((IsBounded-later now t s.ip_backoff le i, im), (IsBounded-later now t s.dev_backoff le d, dm))

Limited-Same :
    (now maximum : ℕ) (s s' : Service) → Same s s' → Limited now maximum s → Limited now maximum s'
Limited-Same now maximum s s' e (i, d) =
    (subst (Within now maximum) (sym e.ip) i, subst (Within now maximum) (sym e.dev) d)

fail-Within :
    (now maximum : ℕ) (key : Text) (b : Backoff)
    → Within now maximum b
    → Within now maximum (Backoff.fail now key b).0
fail-Within now maximum key b (h, e) = (fail-IsBounded now key b h, fail-maximum now key b ∙ e)

success-Within :
    (now maximum : ℕ) (key : Text) (b : Backoff)
    → Within now maximum b
    → Within now maximum (success key b)
unfolding success
success-Within now maximum key b (h, e) = (success-IsBounded now key b h, e)

module _ {PrivateKey PublicKey : Type 0} (env : Env PrivateKey PublicKey) where
  module _ (now maximum : ℕ) where
    fail_device-Limited :
        (device_id : Option Text) (s : Service)
        → Limited now maximum s
        → Limited now maximum (fail_device env now device_id s).0
    fail_device-Limited none s h = h
    fail_device-Limited (some []) s h = h
    fail_device-Limited (some (a ∷ u)) s (i, d) =
        (i, fail-Within now maximum (a ∷ u) s.dev_backoff d)

    reject-Limited :
        (ip : Text) (device_id : Option Text) (reason : Reason) (s : Service)
        → Limited now maximum s
        → Limited now maximum (reject env now ip device_id reason s).0
    unfolding fail rejection_event
    reject-Limited ip device_id reason s (i, d) =
        let s₀ = record s { ip_backoff = (Backoff.fail now ip s.ip_backoff).0 } in
        Limited-Same now maximum _ _ (lockout_event-Same env now _ _ _ _) (
          Limited-Same now maximum _ _ (lockout_event-Same env now _ _ _ _) (
            Limited-Same now maximum _ _ (record_event-Same env now _ _ _ _)
              (fail_device-Limited device_id s₀ (fail-Within now maximum ip s.ip_backoff i, d))))

    on_exception-Limited :
        (ip : Text) (e : Exception) (s : Service)
        → Limited now maximum s
        → Limited now maximum (on_exception env now ip e s).0
    unfolding on_exception
    on_exception-Limited ip Exception.connection_closed s h = h
    on_exception-Limited ip Exception.timeout_error s h = reject-Limited ip none _ s h
    on_exception-Limited ip e s h = reject-Limited ip none _ s h

    begin-Limited :
        (ip : Text) (der : Option Text) (s : Service)
        → Limited now maximum s
        → Limited now maximum (begin env now ip der s).0
    unfolding begin
    begin-Limited ip der s h =
        let s' = (locked env now Kind.ip ip s).0 in
        let h' = Limited-Same now maximum s s' (locked-Same env now Kind.ip ip s) h in
        if_split (LimitedPiece now maximum) (locked env now Kind.ip ip s).1 _ _ (λ _. h')
          (λ _.
            if_split (LimitedPiece now maximum)
              ((settings s').require_mtls && is_missing (device_of_cert env der s')) _ _
              (λ _. reject-Limited ip none no_registered_client_certificate s' h') (λ _. h'))

    pub accept-Limited :
        (ip : Text) (der : Option Text) (file : ConfigFile) (s : Service)
        → Limited now maximum s
        → Limited now maximum (accept env now ip der file s).0
    unfolding accept
    accept-Limited ip der file s h =
        if_split (LimitedPiece now maximum) (leb (settings s).max_connections s.active) _ _ (λ _. h)
          (λ _.
            handle_split (LimitedPiece now maximum) (reload_if_changed file s.config) _ _
              (λ cfg _. begin-Limited ip der _ h) (λ e _. on_exception-Limited ip e _ h))

    authorize-Limited :
        (ip : Text) (device : Device) (s : Service)
        → Limited now maximum s
        → Limited now maximum (authorize env now ip device s).0
    authorize-Limited ip device s (i, d) =
        subst (LimitedPiece now maximum) (sym (authorize-welcome env now ip device s)) (
          Limited-Same now maximum _ _ (record_event-Same env now _ _ _ _) (
            success-Within now maximum ip s.ip_backoff i,
            success-Within now maximum device.id s.dev_backoff d,
          ))

    conclude-Limited :
        (ip : Text) (device : Device) (r : Service × Outcome (Option Reason))
        → Limited now maximum r.0
        → Limited now maximum (conclude env now ip device r).0
    conclude-Limited ip device (s, raises e) h = on_exception-Limited ip e s h
    conclude-Limited ip device (s, returns none) h = authorize-Limited ip device s h
    conclude-Limited ip device (s, returns (some reason)) h =
        reject-Limited ip (some device.id) reason s h

    pub on_response-Limited :
        (ip : Text) (device : Device) (frame : Outcome Frame) (s : Service)
        → Limited now maximum s
        → Limited now maximum (on_response env now ip device frame s).0
    unfolding on_response answer
    on_response-Limited ip device frame s h =
        handle_split (LimitedPiece now maximum) (recv_json env frame) _ _
          (λ resp _.
            if_split (LimitedPiece now maximum)
              (equals_text (get (codes "type") resp) (codes "response")) _ _
              (λ _. conclude-Limited ip device _ (
                Limited-Same now maximum _ _
                  (check_response-Same env now device (get (codes "nonce") resp)
                    (get (codes "signature") resp) s)
                  h))
              (λ _. reject-Limited ip (some device.id) bad_response_type s h))
          (λ e _. on_exception-Limited ip e s h)

  module _ (d : Draw) (maximum : ℕ) where
    send_challenge-Limited :
        (ip : Text) (device : Device) (s : Service)
        → Limited d.now maximum s
        → Limited d.now maximum (send_challenge env d ip device s).0
    unfolding send_challenge
    send_challenge-Limited ip device s h =
        let s' = (locked env d.now Kind.device device.id s).0 in
        let h' =
          Limited-Same d.now maximum s s' (locked-Same env d.now Kind.device device.id s) h in
        let s'' = (issue_challenge env d device.id s').0 in
        let h'' = Limited-Same d.now maximum s' s'' (issue_challenge-Same env d device.id s') h' in
        if_split (LimitedPiece d.now maximum) (locked env d.now Kind.device device.id s).1 _ _
          (λ _. h')
          (λ _.
            handle_split (LimitedPiece d.now maximum) (issue_challenge env d device.id s').1 _ _
              (λ msg _. h'') (λ e _. on_exception-Limited d.now maximum ip e s'' h''))

    challenge_or_reject-Limited :
        (ip : Text) (device : Option Device) (s : Service)
        → Limited d.now maximum s
        → Limited d.now maximum (challenge_or_reject env d ip device s).0
    challenge_or_reject-Limited ip none s h = reject-Limited d.now maximum ip none _ s h
    challenge_or_reject-Limited ip (some device) s h = send_challenge-Limited ip device s h

    hello_from-Limited :
        (ip : Text) (cert_device : Option Device) (j : Json) (s : Service)
        → Limited d.now maximum s
        → Limited d.now maximum (hello_from env d ip cert_device j s).0
    unfolding hello_from
    hello_from-Limited ip cert_device (str device_id) s h =
        challenge_or_reject-Limited ip (identify env cert_device device_id s) s h
    hello_from-Limited ip cert_device j s h = reject-Limited d.now maximum ip none bad_hello s h

    pub on_hello-Limited :
        (ip : Text) (cert_device : Option Device) (frame : Outcome Frame) (s : Service)
        → Limited d.now maximum s
        → Limited d.now maximum (on_hello env d ip cert_device frame s).0
    unfolding on_hello
    on_hello-Limited ip cert_device frame s h =
        handle_split (LimitedPiece d.now maximum) (recv_json env frame) _ _
          (λ hello _.
            if_split (LimitedPiece d.now maximum) _ _ _
              (λ _. hello_from-Limited ip cert_device (get (codes "device_id") hello) s h)
              (λ _. reject-Limited d.now maximum ip none bad_hello s h))
          (λ e _. on_exception-Limited d.now maximum ip e s h)
