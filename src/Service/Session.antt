-- ===== src/Service/Session.antt =====
-- `_locked`, `_fail`, `_session` and `handle` of listener.py, as the three pieces of a connection:
-- from the accepted connection to the await of the hello, from there to the await of the response,
-- and from there to the end. A message to a peer that has gone is dropped (`_send`), so sending
-- never fails. Writes of the audit log succeed (`is_whole` of Env); what `authorize_with` and
-- `pam_reply` do if theirs fails is written out.
pub mod Frames
pub mod Accounts
pub mod Counted
pub mod Recorded
pub mod Grants
pub mod Refusals
pub mod Same
pub mod Limited
pub mod Charged
pub mod Spared
pub mod Untouched
use remote_unlock.Base.{
  ℕ, ◌+◌, ◌-◌, ◌*◌, ◌/◌, Bool, true, false, ◌&&◌, Option, none, some, List, [], ◌∷◌, Text, Bytes,
  codes, text_eq, ltb, leb, if◌then◌else◌,
}
use remote_unlock.Base.Int.{pos}
use remote_unlock.Base.Dict.{lookup, insert}
use remote_unlock.Json.{Json, int, str, obj, Fields, field, end, get}
use remote_unlock.Outcome.{
  Outcome, returns, raises, Exception, value_error, type_error, key_error, runtime_error,
  timeout_error, connection_closed, ◌>>=◌, handle,
}
use remote_unlock.Backoff.{Backoff, remaining, success}
use remote_unlock.Backoff
use remote_unlock.Broker
use remote_unlock.Config.{Device, ConfigFile, reload_if_changed, device_by_fp, device_by_id}
use remote_unlock.Audit.{Write, equals_text}
use remote_unlock.Service.State.{
  Env, Kind, Key-discrete, Service, settings, record_event, try_record, kind_text, backoff_of,
}
use remote_unlock.Service.Challenge.{
  Reason, no_registered_client_certificate, bad_hello, unknown_device_or_id_mismatch,
  bad_response_type, internal_error, malformed_or_late, Draw, issue_challenge, check_response,
}
pub use remote_unlock.Service.Messages.{
  Output, Phase, Frame, Piece, exception_name, or_none, is_missing, or_zero, challenge, result,
  close, wants_hello, wants_response, done, binary, text,
}
unfoldable pub use remote_unlock.Service.Messages.{reason_text}

module _ {PrivateKey PublicKey : Type 0} (env : Env PrivateKey PublicKey) where
  unfoldable pub locked : ℕ → Kind → Text → Service → Service × Bool
  locked now kind key s =
      let left = remaining now key (backoff_of kind s) in
      if ltb 0 left
      then (
        if ltb (10 * env.second) (now - or_zero (lookup Key-discrete (kind, key) s.last_lock_audit))
            then record_event env now (codes "attempt_during_lockout") none
                (field (codes "kind") (str (kind_text kind)) (
                  field (codes "key") (str key)
                    (field (codes "seconds_left") (int (pos (left / env.second))) end)))
                (record s {
                  last_lock_audit = insert Key-discrete (kind, key) now s.last_lock_audit;
                })
            else s,
        true,
      )
      else (s, false)

  -- The record of a lockout in `_fail`, if the failure has hit.
  unfoldable pub lockout_event : ℕ → Kind → Text → Bool → Service → Service
  lockout_event now kind key hit s =
      if hit
      then record_event env now (codes "lockout") (some (codes "LOCKOUT triggered", codes "urgent"))
          (field (codes "kind") (str (kind_text kind)) (
            field (codes "key") (str key) (
              field (codes "seconds")
                (int (pos (remaining now key (backoff_of kind s) / env.second))) end)))
          s
      else s

  abbrev pub fail_device : ℕ → Option Text → Service → Service × Bool
  fail_device now none s = (s, false)
  fail_device now (some []) s = (s, false)
  fail_device now (some (a ∷ t)) s =
      let (b, hit) = Backoff.fail now (a ∷ t) s.dev_backoff in (record s { dev_backoff = b }, hit)

  abbrev pub or_blank : Option Text → Text
  or_blank none = []
  or_blank (some t) = t

  -- The record of the rejection in `_fail`.
  unfoldable pub rejection_event : ℕ → Text → Option Text → Reason → Service → Service
  rejection_event now ip device_id reason s =
      record_event env now (codes "unlock_rejected")
        (some (codes "Unlock REJECTED", codes "urgent"))
        (field (codes "ip") (str ip) (
          field (codes "device") (or_none device_id)
            (field (codes "reason") (str (reason_text reason)) end)))
        s

  -- `_fail`, with the result message that it sends.
  unfoldable pub fail : ℕ → Text → Option Text → Reason → Service → Service × List Output
  fail now ip device_id reason s =
      let (b, lock_ip) = Backoff.fail now ip s.ip_backoff in
      let (s₁, lock_dev) = fail_device now device_id (record s { ip_backoff = b }) in
      let s₂ = rejection_event now ip device_id reason s₁ in
      let s₃ = lockout_event now Kind.ip ip lock_ip s₂ in
      (lockout_event now Kind.device (or_blank device_id) lock_dev s₃, result false ∷ [])

  -- the `finally` of `handle`
  abbrev pub leave : Service × List Output → Piece
  leave (s, out) = (record s { active = s.active - 1 }, out, done)

  abbrev pub reject : ℕ → Text → Option Text → Reason → Service → Piece
  reject now ip device_id reason s = leave (fail now ip device_id reason s)

  -- the `except` clauses of `handle`
  unfoldable pub on_exception : ℕ → Text → Exception → Service → Piece
  on_exception now ip Exception.connection_closed s = leave (s, [])
  on_exception now ip Exception.timeout_error s =
      reject now ip none (malformed_or_late Exception.timeout_error) s
  on_exception now ip Exception.value_error s =
      reject now ip none (malformed_or_late Exception.value_error) s
  on_exception now ip Exception.key_error s =
      reject now ip none (malformed_or_late Exception.key_error) s
  on_exception now ip Exception.type_error s =
      reject now ip none (malformed_or_late Exception.type_error) s
  on_exception now ip Exception.runtime_error s =
      reject now ip none (malformed_or_late Exception.runtime_error) s
  on_exception now ip e s = reject now ip none internal_error s

  -- `_recv_json`, on the outcome of the await.
  unfoldable pub recv_json : Outcome Frame → Outcome Fields
  recv_json (raises e) = raises e
  recv_json (returns (binary b)) = raises value_error
  recv_json (returns (text raw)) = do
    value ← env.loads raw
    elim value [ obj fs ↦ returns fs | _ ↦ raises value_error ]

  -- The device that the client certificate is pinned to; an empty certificate is none.
  unfoldable pub device_of_cert : Option Bytes → Service → Option Device
  device_of_cert none s = none
  device_of_cert (some []) s = none
  device_of_cert (some (b ∷ der)) s = device_by_fp (env.crypto.sha256_hex (b ∷ der)) (settings s)

  -- `_session`, up to the await of the hello.
  unfoldable pub begin : ℕ → Text → Option Bytes → Service → Piece
  begin now ip der s =
      let (s', is_locked) = locked now Kind.ip ip s in
      if is_locked
      then leave (s', close 1008 ∷ [])
      else if (settings s').require_mtls && is_missing (device_of_cert der s')
      then reject now ip none no_registered_client_certificate s'
      else (s', [], wants_hello (device_of_cert der s'))

  -- `handle`, from the accepted connection to the await of the hello: the peer's address, its
  -- certificate and the configuration file at that time.
  unfoldable pub accept : ℕ → Text → Option Bytes → ConfigFile → Service → Piece
  accept now ip der file s =
      if leb (settings s).max_connections s.active
      then (s, close 1013 ∷ [], done)
      else let s₁ = record s { active = s.active + 1 } in
        handle (reload_if_changed file s.config)
          (λ cfg. begin now ip der (record s₁ { config = cfg })) (λ e. on_exception now ip e s₁)

  abbrev pub or_else : Option Device → Option Device → Option Device
  or_else none d = d
  or_else (some d) e = some d

  -- Step 2 of `_session`, for the identified device.
  unfoldable pub send_challenge : Draw → Text → Device → Service → Piece
  send_challenge d ip device s =
      let (s', is_locked) = locked d.now Kind.device device.id s in
      if is_locked
      then leave (s', close 1008 ∷ [])
      else let (s'', made) = issue_challenge env d device.id s' in
        handle made (λ msg. (s'', challenge msg ∷ [], wants_response device))
          (λ e. on_exception d.now ip e s'')

  -- The device that the hello names, which must be the certificate's if that has one.
  unfoldable pub identify : Option Device → Text → Service → Option Device
  identify cert_device device_id s =
      elim (or_else cert_device (device_by_id device_id (settings s))) [
        | none ↦ none
        | some d ↦ if text_eq d.id device_id then some d else none
      ]

  abbrev pub challenge_or_reject : Draw → Text → Option Device → Service → Piece
  challenge_or_reject d ip none s = reject d.now ip none unknown_device_or_id_mismatch s
  challenge_or_reject d ip (some device) s = send_challenge d ip device s

  -- The hello's fields after the test of its type.
  unfoldable pub hello_from : Draw → Text → Option Device → Json → Service → Piece
  hello_from d ip cert_device (str device_id) s =
      challenge_or_reject d ip (identify cert_device device_id s) s
  hello_from d ip cert_device _ s = reject d.now ip none bad_hello s

  -- `_session`, from the hello to the await of the response.
  unfoldable pub on_hello : Draw → Text → Option Device → Outcome Frame → Service → Piece
  on_hello d ip cert_device frame s =
      handle (recv_json frame)
        (λ hello.
          if equals_text (get (codes "type") hello) (codes "hello")
          then hello_from d ip cert_device (get (codes "device_id") hello) s
          else reject d.now ip none bad_hello s)
        (λ e. on_exception d.now ip e s)

  -- Step 3 of `_session`, up to the record: both counts are reset, and the grant is issued.
  abbrev pub authorized : ℕ → Text → Device → Service → Service
  authorized now ip device s = record s {
    ip_backoff = success ip s.ip_backoff;
    dev_backoff = success device.id s.dev_backoff;
    broker = Broker.issue now s.broker;
  }

  abbrev pub authorized_data : Text → Device → Service → Fields
  authorized_data ip device s = field (codes "ip") (str ip) (
      field (codes "device") (str device.id)
        (field (codes "target") (str (settings s).target_id) end))

  -- Step 3 of `_session`, for how the write of the record ends: if it raises, the handler of `handle`
  -- tells the peer that it failed, and the grant stays.
  abbrev pub authorize_with : Write → ℕ → Text → Device → Service → Piece
  authorize_with w now ip device s =
      let (s', ended) =
        try_record env w now (codes "unlock_authorized")
          (some (codes "Unlock AUTHORIZED", codes "high")) (authorized_data ip device s)
          (authorized now ip device s) in
      handle ended (λ _. leave (s', result true ∷ [])) (λ e. on_exception now ip e s')

  unfoldable pub authorize : ℕ → Text → Device → Service → Piece
  authorize now ip device s = authorize_with (env.writes s.audit.seq) now ip device s

  -- What follows `check_response`, by what it returns.
  abbrev pub conclude : ℕ → Text → Device → Service × Outcome (Option Reason) → Piece
  conclude now ip device (s, raises e) = on_exception now ip e s
  conclude now ip device (s, returns none) = authorize now ip device s
  conclude now ip device (s, returns (some reason)) = reject now ip (some device.id) reason s

  -- The nonce and the signature of a response.
  unfoldable pub answer : ℕ → Text → Device → Json → Json → Service → Piece
  answer now ip device nonce signature s =
      conclude now ip device (check_response env now device nonce signature s)

  -- `_session`, from the response to the end.
  unfoldable pub on_response : ℕ → Text → Device → Outcome Frame → Service → Piece
  on_response now ip device frame s =
      handle (recv_json frame)
        (λ resp.
          if equals_text (get (codes "type") resp) (codes "response")
          then answer now ip device (get (codes "nonce") resp) (get (codes "signature") resp) s
          else reject now ip (some device.id) bad_response_type s)
        (λ e. on_exception now ip e s)
