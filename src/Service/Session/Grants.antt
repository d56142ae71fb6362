-- ===== src/Service/Session/Grants.antt =====
-- `check_response` and the end of `_session` (listener.py): when the broker is given a grant.
use remote_unlock.Base.{
  ℕ, ◌-◌, ◌≤◌, ◌≡◌, refl, ap, ◌∙◌, ◌≢◌, ◌⊎◌, inl, inr, true, false, Option, none, some, [], ◌∷◌,
  Text, codes, Text-discrete, text_eq_iff, arith, Bool-cases, Option-cases, if_split,
}
use remote_unlock.Base.Int.{pos}
use remote_unlock.Base.Dict.{lookup}
use remote_unlock.Json.{Json, str, Fields, get}
use remote_unlock.Outcome.{Outcome, returns, raises, Exception, Outcome-cases, handle_split}
use remote_unlock.Broker
use remote_unlock.Broker.{Broker}
use remote_unlock.Config.{Device}
use remote_unlock.Audit.{equals_text-true, equals_text}
use remote_unlock.Protocol.Forms.{is_nonce}
use remote_unlock.Protocol.Message.{signed_message}
use remote_unlock.Protocol.Signature.{verify_sig, load_public_key}
use remote_unlock.Service.State.{Env, Pending, Service, settings, record_event}
use remote_unlock.Service.Challenge.{Reason, bad_response_type, judge, check_response}
use remote_unlock.Service.Session.Frames.{authorize-welcome}
use remote_unlock.Service.Session.{
  result, Piece, Frame, authorize, answer, conclude, on_response, on_exception, recv_json, reject,
}
use remote_unlock.Service.Session.Frames.{Ends, on_exception-Ends, reject-Ends}

not_true : (p : Piece) → (p.1 ≡ []) ⊎ (p.1 ≡ result false ∷ []) → p.1 ≢ result true ∷ []
not_true p (inl e) h = cc
not_true p (inr e) h = ground arith

-- No grant: the peer is not told that it may unlock, and the broker is as it was.
pub record Refused (s : Service) (p : Piece) : Type 0 where
  pub quiet : p.1 ≢ result true ∷ []
  pub kept : p.0.broker ≡ s.broker

module _ {PrivateKey PublicKey : Type 0} (env : Env PrivateKey PublicKey) where
  -- Why a response is accepted.
  pub record Verified (now : ℕ) (device : Device) (nonce signature : Json) (s : Service)
      : Type 0 where
    pub text : Text
    pub issued : Pending
    pub key : PublicKey
    pub message : Text
    pub nonce_text : nonce ≡ str text
    pub form : is_nonce text ≡ true
    pub was_pending : lookup Text-discrete text s.pending ≡ some issued
    pub same_device : issued.device_id ≡ device.id
    pub fresh : now - issued.issued_at ≤ (settings s).challenge_ttl
    pub own_key : load_public_key env.crypto device.public_key_pem ≡ returns key
    pub signed :
        signed_message
          (codes "response")
          text
          (pos issued.issued_ms)
          device.id
          (settings s).target_id
        ≡ returns message
    pub verifies : verify_sig env.crypto key message signature ≡ returns true

  judge-none :
      (now : ℕ) (device : Device) (t : Text) (signature : Json) (rec : Pending) (s : Service)
      → judge env now device t signature rec s ≡ returns none
      → is_nonce t ≡ true
      → lookup Text-discrete t s.pending ≡ some rec
      → Verified now device (str t) signature s
  unfolding judge
  judge-none now device t signature rec s h form found =
      elim (Outcome-cases (
        signed_message (codes "response") t (pos rec.issued_ms) rec.device_id
          (settings s).target_id)) [
            | inl (msg, m) ↦
                elim (Outcome-cases (load_public_key env.crypto device.public_key_pem)) [
                  | inl (key, k) ↦ elim (Outcome-cases (verify_sig env.crypto key msg signature)) [
                    | inl (ok, v) ↦
                        let same : rec.device_id ≡ device.id =
                          ground (arith, text_eq_iff rec.device_id device.id) in
                        record {
                          text = t;
                          issued = rec;
                          key = key;
                          message = msg;
                          nonce_text = refl;
                          form = form;
                          was_pending = found;
                          same_device = same;
                          fresh = ground arith;
                          own_key = k;
                          signed = rw same at m;
                          verifies = ground arith;
                        }
                    | inr (e, v) ↦ absurd (ground arith)
                  ]
                  | inr (e, k) ↦ absurd (ground arith)
                ]
            | inr (e, m) ↦ absurd (ground arith)
          ]

  pub check_response-none :
      (now : ℕ) (device : Device) (nonce signature : Json) (s : Service)
      → (check_response env now device nonce signature s).1 ≡ returns none
      → Verified now device nonce signature s
  unfolding check_response
  check_response-none now device (str t) signature s h = elim (Bool-cases (is_nonce t)) [
    | inl form ↦ elim (Option-cases (lookup Text-discrete t s.pending)) [
      | inl e ↦ absurd (ground arith)
      | inr (rec, e) ↦ judge-none now device t signature rec s (ground arith) form e
    ]
    | inr other ↦ absurd (ground arith)
  ]
  check_response-none now device nonce signature s h = absurd (ground arith)

  pub check_response_broker :
      (now : ℕ) (device : Device) (nonce signature : Json) (s : Service)
      → (check_response env now device nonce signature s).0.broker ≡ s.broker
  unfolding check_response
  check_response_broker now device (str t) signature s = ground arith
  check_response_broker now device nonce signature s = refl

  pub authorize_lem :
      (now : ℕ) (ip : Text) (device : Device) (s : Service)
      → ((authorize env now ip device s).1 ≡ result true ∷ [])
        × ((authorize env now ip device s).0.broker ≡ Broker.issue now s.broker)
        × ((authorize env now ip device s).0.pending ≡ s.pending)
  unfolding record_event
  authorize_lem now ip device s = rw (authorize-welcome env now ip device s) (refl, refl, refl)

  Ends-Refused : (s : Service) (p : Piece) → Ends s p → Refused s p
  Ends-Refused s p e = record { quiet = not_true p e.denies; kept = e.broker }

  abbrev pub Granted : ℕ → Service → Piece → Type 0
  Granted now s p = (p.1 ≡ result true ∷ []) × (p.0.broker ≡ Broker.issue now s.broker)

  conclude_lem :
      (now : ℕ) (ip : Text) (device : Device) (r : Service × Outcome (Option Reason))
      → ((r.1 ≡ returns none) × Granted now r.0 (conclude env now ip device r))
        ⊎ Refused r.0 (conclude env now ip device r)
  conclude_lem now ip device (s, raises e) =
      inr (Ends-Refused s (on_exception env now ip e s) (on_exception-Ends env now ip e s))
  conclude_lem now ip device (s, returns none) =
      let (said, issued, _) = authorize_lem now ip device s in inl (refl, (said, issued))
  conclude_lem now ip device (s, returns (some reason)) = inr (
      Ends-Refused s (reject env now ip (some device.id) reason s)
        (reject-Ends env now ip (some device.id) reason s))

  answer_lem :
      (now : ℕ) (ip : Text) (device : Device) (nonce signature : Json) (s : Service)
      → (Verified now device nonce signature s
          × Granted now s (answer env now ip device nonce signature s))
        ⊎ Refused s (answer env now ip device nonce signature s)
  unfolding answer
  answer_lem now ip device nonce signature s =
      let r = check_response env now device nonce signature s in
      let same = check_response_broker now device nonce signature s in
      elim (conclude_lem now ip device r) [
        | inl (passed, (said, issued)) ↦ inl (
          check_response-none now device nonce signature s passed,
          (said, issued ∙ ap (Broker.issue now) same),
        )
        | inr no_grant ↦ inr (record { quiet = no_grant.quiet; kept = no_grant.kept ∙ same })
      ]

  -- What a last piece comes to.
  abbrev pub Judged : ℕ → Outcome Frame → Service → Device → Piece → Type 0
  Judged now frame s device p =
      ((resp : Fields) × (recv_json env frame ≡ returns resp)
        × (get (codes "type") resp ≡ str (codes "response"))
        × Verified now device (get (codes "nonce") resp) (get (codes "signature") resp) s
        × Granted now s p)
      ⊎ Refused s p

  pub reject-Refused :
      (now : ℕ) (ip : Text) (device_id : Option Text) (reason : Reason) (s : Service)
      → Refused s (reject env now ip device_id reason s)
  reject-Refused now ip device_id reason s =
      Ends-Refused s (reject env now ip device_id reason s)
        (reject-Ends env now ip device_id reason s)

  pub on_exception-Refused :
      (now : ℕ) (ip : Text) (e : Exception) (s : Service) → Refused s (on_exception env now ip e s)
  on_exception-Refused now ip e s =
      Ends-Refused s (on_exception env now ip e s) (on_exception-Ends env now ip e s)

  -- While every write of the audit log succeeds, the last piece of a connection either tells the peer that it may unlock and issues a grant, and
  -- then its frame is a response that is Verified for the device; or it does neither.
  pub on_response_grants :
      (now : ℕ) (ip : Text) (device : Device) (frame : Outcome Frame) (s : Service)
      → Judged now frame s device (on_response env now ip device frame s)
  unfolding on_response
  on_response_grants now ip device frame s =
      handle_split (Judged now frame s device) (recv_json env frame) _ _
        (λ resp r.
          if_split (Judged now frame s device)
            (equals_text (get (codes "type") resp) (codes "response")) _ _
            (λ typed.
              elim (answer_lem now ip device (get (codes "nonce") resp)
                (get (codes "signature") resp) s) [
                  | inl (v, g) ↦ inl (resp, r, equals_text-true _ _ typed, v, g)
                  | inr no_grant ↦ inr no_grant
                ])
            (λ other. inr (reject-Refused now ip (some device.id) bad_response_type s)))
        (λ e r. inr (on_exception-Refused now ip e s))
