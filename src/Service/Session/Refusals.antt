-- ===== src/Service/Session/Refusals.antt =====
-- The pieces of `_session` (listener.py) before the response.
use remote_unlock.Base.{
  ℕ, ◌+◌, ◌≡◌, refl, ◌∙◌, ◌≢◌, true, Option, none, some, [], ◌∷◌, Text, codes, arith, leb, ◌&&◌,
  if_split,
}
use remote_unlock.Json.{Json, str, get}
use remote_unlock.Outcome.{Outcome, handle_split, handle}
use remote_unlock.Config.{Device, ConfigFile, reload_if_changed}
use remote_unlock.Service.State.{Env, Kind, Service, settings}
use remote_unlock.Service.Challenge.{
  ChallengeMessage, bad_hello, unknown_device_or_id_mismatch, no_registered_client_certificate,
  Draw, issue_challenge,
}
use remote_unlock.Service.Session.{
  close, challenge, wants_hello, is_missing, device_of_cert, locked, identify, challenge_or_reject,
  result, Piece, Frame, done, on_exception, recv_json, reject, accept, begin, on_hello, hello_from,
  send_challenge,
}
use remote_unlock.Service.Session.Frames.{locked-Keeps}
use remote_unlock.Service.Session.Grants.{Refused, reject-Refused, on_exception-Refused}

close_not_true : (code : ℕ) → close code ∷ [] ≢ result true ∷ []
close_not_true code h = ground arith

nil_not_true : [] ≢ result true ∷ []
nil_not_true h = ground arith

challenge_not_true : (msg : ChallengeMessage) → challenge msg ∷ [] ≢ result true ∷ []
challenge_not_true msg h = ground arith

module _ {PrivateKey PublicKey : Type 0} (env : Env PrivateKey PublicKey) where
  Refused-from : (s s' : Service) (p : Piece) → s'.broker ≡ s.broker → Refused s' p → Refused s p
  Refused-from s s' p same no_grant = record { quiet = no_grant.quiet; kept = no_grant.kept ∙ same }

  issue_challenge_broker :
      (d : Draw) (device_id : Text) (s : Service)
      → (issue_challenge env d device_id s).0.broker ≡ s.broker
  unfolding issue_challenge
  issue_challenge_broker d device_id s = ground arith

  begin-Refused :
      (now : ℕ) (ip : Text) (der : Option Text) (s : Service) → Refused s (begin env now ip der s)
  unfolding begin
  begin-Refused now ip der s =
      let (s', is_locked) = locked env now Kind.ip ip s in
      let same : s'.broker ≡ s.broker = (locked-Keeps env now Kind.ip ip s).broker in
      if_split (Refused s) is_locked _ _ (λ _. record { quiet = close_not_true 1008; kept = same })
        (λ _.
          if_split (Refused s)
            ((settings s').require_mtls && is_missing (device_of_cert env der s'))
            (reject env now ip none no_registered_client_certificate s')
            (s', [], wants_hello (device_of_cert env der s'))
            (λ _.
              Refused-from s s' (reject env now ip none no_registered_client_certificate s') same
                (reject-Refused env now ip none no_registered_client_certificate s'))
            (λ _. record { quiet = λ h. nil_not_true h; kept = same }))

  -- The piece of a connection before the hello does not tell the peer that it may unlock, and
  -- leaves the broker as it was.
  pub accept-Refused :
      (now : ℕ) (ip : Text) (der : Option Text) (file : ConfigFile) (s : Service)
      → Refused s (accept env now ip der file s)
  unfolding accept
  accept-Refused now ip der file s =
      let s₁ = record s { active = s.active + 1 } in
      if_split (Refused s) (leb (settings s).max_connections s.active) (s, close 1013 ∷ [], done)
        (handle (reload_if_changed file s.config)
          (λ cfg. begin env now ip der (record s₁ { config = cfg }))
          (λ e. on_exception env now ip e s₁))
        (λ _. record { quiet = close_not_true 1013; kept = refl })
        (λ _.
          handle_split (Refused s) (reload_if_changed file s.config) _ _
            (λ cfg _.
              Refused-from s (record s₁ { config = cfg })
                (begin env now ip der (record s₁ { config = cfg })) refl
                (begin-Refused now ip der (record s₁ { config = cfg })))
            (λ e _.
              Refused-from s s₁ (on_exception env now ip e s₁) refl
                (on_exception-Refused env now ip e s₁)))

  send_challenge-Refused :
      (d : Draw) (ip : Text) (device : Device) (s : Service)
      → Refused s (send_challenge env d ip device s)
  unfolding send_challenge
  send_challenge-Refused d ip device s =
      let (s', is_locked) = locked env d.now Kind.device device.id s in
      let same : s'.broker ≡ s.broker = (locked-Keeps env d.now Kind.device device.id s).broker in
      let (s'', made) = issue_challenge env d device.id s' in
      let same' : s''.broker ≡ s'.broker = issue_challenge_broker d device.id s' in
      if_split (Refused s) is_locked _ _ (λ _. record { quiet = close_not_true 1008; kept = same })
        (λ _.
          handle_split (Refused s) made _ _
            (λ msg _. record { quiet = challenge_not_true msg; kept = same' ∙ same })
            (λ e _.
              Refused-from s s'' (on_exception env d.now ip e s'') (same' ∙ same)
                (on_exception-Refused env d.now ip e s'')))

  challenge_or_reject-Refused :
      (d : Draw) (ip : Text) (device : Option Device) (s : Service)
      → Refused s (challenge_or_reject env d ip device s)
  challenge_or_reject-Refused d ip none s =
      reject-Refused env d.now ip none unknown_device_or_id_mismatch s
  challenge_or_reject-Refused d ip (some device) s = send_challenge-Refused d ip device s

  hello_from-Refused :
      (d : Draw) (ip : Text) (cert_device : Option Device) (j : Json) (s : Service)
      → Refused s (hello_from env d ip cert_device j s)
  unfolding hello_from
  hello_from-Refused d ip cert_device (str device_id) s =
      challenge_or_reject-Refused d ip (identify env cert_device device_id s) s
  hello_from-Refused d ip cert_device j s = reject-Refused env d.now ip none bad_hello s

  -- The piece of a connection from the hello to the challenge does not tell the peer that it may
  -- unlock, and leaves the broker as it was.
  pub on_hello-Refused :
      (d : Draw) (ip : Text) (cert_device : Option Device) (frame : Outcome Frame) (s : Service)
      → Refused s (on_hello env d ip cert_device frame s)
  unfolding on_hello
  on_hello-Refused d ip cert_device frame s =
      handle_split (Refused s) (recv_json env frame) _ _
        (λ hello _.
          if_split (Refused s) _ _ _
            (λ _. hello_from-Refused d ip cert_device (get (codes "device_id") hello) s)
            (λ _. reject-Refused env d.now ip none bad_hello s))
        (λ e _. on_exception-Refused env d.now ip e s)
