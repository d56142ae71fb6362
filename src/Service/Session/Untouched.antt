-- ===== src/Service/Session/Untouched.antt =====
-- The pieces of a connection (listener.py) that change no failure counted for a device.
use remote_unlock.Base.{
  ℕ, ◌≡◌, refl, ◌∙◌, ◌&&◌, Option, none, some, [], ◌∷◌, Text, codes, leb, if_split,
}
use remote_unlock.Backoff
use remote_unlock.Backoff.{Backoff, remaining, success}
use remote_unlock.Json.{Json, str, get}
use remote_unlock.Outcome.{Outcome, Exception, handle_split}
use remote_unlock.Config.{Device, ConfigFile, reload_if_changed}
use remote_unlock.Service.State.{Env, Kind, Service, settings}
use remote_unlock.Service.Challenge.{
  Reason, Draw, issue_challenge, bad_hello, unknown_device_or_id_mismatch,
  no_registered_client_certificate,
}
use remote_unlock.Service.Session.{
  Piece, Frame, locked, rejection_event, fail_device, fail, reject, on_exception, recv_json,
  device_of_cert, is_missing, begin, accept, send_challenge, identify, challenge_or_reject,
  hello_from, on_hello,
}
use remote_unlock.Service.Session.Same.{
  record_event-Same, locked-Same, lockout_event-Same, issue_challenge-Same,
}

-- The failures that are counted for devices are as before.
abbrev pub Untouched : Service → Piece → Type 0
Untouched s p = p.0.dev_backoff ≡ s.dev_backoff

module _ {PrivateKey PublicKey : Type 0} (env : Env PrivateKey PublicKey) where
  fail_device_dev :
      (now : ℕ) (device_id : Option Text) (b : Backoff) (s : Service)
      → (fail_device env now device_id (record s { ip_backoff = b })).0.dev_backoff
        ≡ (fail_device env now device_id s).0.dev_backoff
  fail_device_dev now none b s = refl
  fail_device_dev now (some []) b s = refl
  fail_device_dev now (some (a ∷ u)) b s = refl

  pub reject_dev :
      (now : ℕ) (ip : Text) (device_id : Option Text) (reason : Reason) (s : Service)
      → (reject env now ip device_id reason s).0.dev_backoff
        ≡ (fail_device env now device_id s).0.dev_backoff
  unfolding fail rejection_event
  reject_dev now ip device_id reason s =
      (lockout_event-Same env now _ _ _ _).dev
      ∙ ((lockout_event-Same env now _ _ _ _).dev
          ∙ ((record_event-Same env now _ _ _ _).dev
              ∙ fail_device_dev now device_id (Backoff.fail now ip s.ip_backoff).0 s))

  pub on_exception_dev :
      (now : ℕ) (ip : Text) (e : Exception) (s : Service)
      → Untouched s (on_exception env now ip e s)
  unfolding on_exception
  on_exception_dev now ip Exception.connection_closed s = refl
  on_exception_dev now ip Exception.timeout_error s = reject_dev now ip none _ s
  on_exception_dev now ip e s = reject_dev now ip none _ s

  begin_dev :
      (now : ℕ) (ip : Text) (der : Option Text) (s : Service) → Untouched s (begin env now ip der s)
  unfolding begin
  begin_dev now ip der s =
      let s' = (locked env now Kind.ip ip s).0 in
      let same = (locked-Same env now Kind.ip ip s).dev in
      if_split (Untouched s) (locked env now Kind.ip ip s).1 _ _ (λ _. same)
        (λ _.
          if_split (Untouched s)
            ((settings s').require_mtls && is_missing (device_of_cert env der s')) _ _
            (λ _. reject_dev now ip none no_registered_client_certificate s' ∙ same) (λ _. same))

  pub accept_dev :
      (now : ℕ) (ip : Text) (der : Option Text) (file : ConfigFile) (s : Service)
      → Untouched s (accept env now ip der file s)
  unfolding accept
  accept_dev now ip der file s =
      if_split (Untouched s) (leb (settings s).max_connections s.active) _ _ (λ _. refl)
        (λ _.
          handle_split (Untouched s) (reload_if_changed file s.config) _ _
            (λ cfg _. begin_dev now ip der _) (λ e _. on_exception_dev now ip e _))

  send_challenge_dev :
      (d : Draw) (ip : Text) (device : Device) (s : Service)
      → Untouched s (send_challenge env d ip device s)
  unfolding send_challenge
  send_challenge_dev d ip device s =
      let s' = (locked env d.now Kind.device device.id s).0 in
      let same = (locked-Same env d.now Kind.device device.id s).dev in
      let same' = (issue_challenge-Same env d device.id s').dev ∙ same in
      if_split (Untouched s) (locked env d.now Kind.device device.id s).1 _ _ (λ _. same)
        (λ _.
          handle_split (Untouched s) (issue_challenge env d device.id s').1 _ _ (λ msg _. same')
            (λ e _. on_exception_dev d.now ip e _ ∙ same'))

  challenge_or_reject_dev :
      (d : Draw) (ip : Text) (device : Option Device) (s : Service)
      → Untouched s (challenge_or_reject env d ip device s)
  challenge_or_reject_dev d ip none s = reject_dev d.now ip none unknown_device_or_id_mismatch s
  challenge_or_reject_dev d ip (some device) s = send_challenge_dev d ip device s

  hello_from_dev :
      (d : Draw) (ip : Text) (cert_device : Option Device) (j : Json) (s : Service)
      → Untouched s (hello_from env d ip cert_device j s)
  unfolding hello_from
  hello_from_dev d ip cert_device (str device_id) s =
      challenge_or_reject_dev d ip (identify env cert_device device_id s) s
  hello_from_dev d ip cert_device j s = reject_dev d.now ip none bad_hello s

  pub on_hello_dev :
      (d : Draw) (ip : Text) (cert_device : Option Device) (frame : Outcome Frame) (s : Service)
      → Untouched s (on_hello env d ip cert_device frame s)
  unfolding on_hello
  on_hello_dev d ip cert_device frame s =
      handle_split (Untouched s) (recv_json env frame) _ _
        (λ hello _.
          if_split (Untouched s) _ _ _
            (λ _. hello_from_dev d ip cert_device (get (codes "device_id") hello) s)
            (λ _. reject_dev d.now ip none bad_hello s))
        (λ e _. on_exception_dev d.now ip e s)
