-- ===== src/Service/Session/Spared.antt =====
-- What the response of one device (listener.py) leaves of the lockout of another.
use remote_unlock.Base.{
  ℕ, ◌≤◌, ◌≡◌, ◌∙◌, ap, sym, subst, ◌≢◌, Option, none, some, [], ◌∷◌, Text, codes, if_split,
}
use remote_unlock.Backoff.{remaining}
use remote_unlock.Backoff.Lockout.{
  IsValid, remaining-fail_ne, fail-IsValid, success-IsValid, remaining-success,
}
use remote_unlock.Json.{get}
use remote_unlock.Outcome.{Outcome, returns, raises, handle_split}
use remote_unlock.Audit.{equals_text}
use remote_unlock.Config.{Device}
use remote_unlock.Service.State.{Env, Service}
use remote_unlock.Service.Challenge.{Reason, check_response, bad_response_type}
use remote_unlock.Service.Session.Frames.{authorize-welcome}
use remote_unlock.Service.Session.{
  Piece, Frame, reject, on_exception, recv_json, authorize, conclude, answer, on_response,
}
use remote_unlock.Service.Session.Same.{record_event-Same, check_response-Same}
use remote_unlock.Service.Session.Untouched.{Untouched, reject_dev, on_exception_dev}

-- What is left of the device's lockout at a time is as before.
pub record Spares (k : Text) (t : ℕ) (s : Service) (p : Piece) : Type 0 where
  pub valid : IsValid p.0.dev_backoff
  pub same : remaining t k p.0.dev_backoff ≡ remaining t k s.dev_backoff

module _ {PrivateKey PublicKey : Type 0} (env : Env PrivateKey PublicKey) where
  pub Untouched-Spares :
      (k : Text) (t : ℕ) (s : Service) (p : Piece)
      → IsValid s.dev_backoff
      → Untouched s p
      → Spares k t s p
  Untouched-Spares k t s p v e = record {
    valid = subst IsValid (sym e) v;
    same = ap (remaining t k) e;
  }

  -- A rejection of another device.
  reject-Spares :
      (k : Text) (t now : ℕ) (ip id : Text) (reason : Reason) (s : Service)
      → k ≢ id
      → now ≤ t
      → IsValid s.dev_backoff
      → Spares k t s (reject env now ip (some id) reason s)
  reject-Spares k t now ip [] reason s ne le v =
      Untouched-Spares k t s (reject env now ip (some []) reason s) v
        (reject_dev env now ip (some []) reason s)
  reject-Spares k t now ip (a ∷ u) reason s ne le v =
      let e = reject_dev env now ip (some (a ∷ u)) reason s in
      record {
        valid = subst IsValid (sym e) (fail-IsValid now (a ∷ u) s.dev_backoff v);
        same = ap (remaining t k) e ∙ remaining-fail_ne now t (a ∷ u) k s.dev_backoff v ne le;
      }

  authorize-Spares :
      (k : Text) (t now : ℕ) (ip : Text) (device : Device) (s : Service)
      → k ≢ device.id
      → IsValid s.dev_backoff
      → Spares k t s (authorize env now ip device s)
  authorize-Spares k t now ip device s ne v =
      let e = (record_event-Same env now _ _ _ _).dev in
      subst (Spares k t s) (sym (authorize-welcome env now ip device s)) (record {
        valid = subst IsValid (sym e) (success-IsValid device.id s.dev_backoff v);
        same = ap (remaining t k) e ∙ (remaining-success t device.id k s.dev_backoff).1 ne;
      })

  conclude-Spares :
      (k : Text) (t now : ℕ) (ip : Text) (device : Device) (r : Service × Outcome (Option Reason))
      → k ≢ device.id
      → now ≤ t
      → IsValid r.0.dev_backoff
      → Spares k t r.0 (conclude env now ip device r)
  conclude-Spares k t now ip device (s, raises e) ne le v =
      Untouched-Spares k t s (on_exception env now ip e s) v (on_exception_dev env now ip e s)
  conclude-Spares k t now ip device (s, returns none) ne le v =
      authorize-Spares k t now ip device s ne v
  conclude-Spares k t now ip device (s, returns (some reason)) ne le v =
      reject-Spares k t now ip device.id reason s ne le v

  -- The response of another device.
  pub on_response-Spares :
      (k : Text) (t now : ℕ) (ip : Text) (device : Device) (frame : Outcome Frame) (s : Service)
      → k ≢ device.id
      → now ≤ t
      → IsValid s.dev_backoff
      → Spares k t s (on_response env now ip device frame s)
  unfolding on_response answer
  on_response-Spares k t now ip device frame s ne le v =
      handle_split (Spares k t s) (recv_json env frame) _ _
        (λ resp _.
          if_split (Spares k t s) (equals_text (get (codes "type") resp) (codes "response")) _ _
            (λ _.
              let r =
                check_response env now device (get (codes "nonce") resp)
                  (get (codes "signature") resp) s in
              let e : r.0.dev_backoff ≡ s.dev_backoff =
                (check_response-Same env now device (get (codes "nonce") resp)
                  (get (codes "signature") resp) s).dev in
              let c = conclude-Spares k t now ip device r ne le (subst IsValid (sym e) v) in
              record { valid = c.valid; same = c.same ∙ ap (remaining t k) e })
            (λ _. reject-Spares k t now ip device.id bad_response_type s ne le v))
        (λ e _.
          Untouched-Spares k t s (on_exception env now ip e s) v (on_exception_dev env now ip e s))
