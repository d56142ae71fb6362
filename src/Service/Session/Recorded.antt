-- ===== src/Service/Session/Recorded.antt =====
-- The last piece of a connection (`_session` of listener.py) and the record of the unlock.
use remote_unlock.Base.{
  subst, sym, text_eq_refl, ℕ, ◌+◌, ◌≤◌, ◌≡◌, refl, ◌∙◌, ap, ◌++◌, Option, none, some, List, [],
  ◌∷◌, Text, Text-discrete, codes, arith, if_split, if◌then◌else◌, inl, inr,
}
use remote_unlock.Json.{Json, obj, Fields, get, find, put}
use remote_unlock.Outcome.{Outcome, returns, raises, Exception, handle_split}
use remote_unlock.Audit.{Line, parsed, equals_text, append}
use remote_unlock.Config.{Device}
use remote_unlock.Service.State.{Env, Service, record_event}
use remote_unlock.Service.Challenge.{Reason, check_response}
use remote_unlock.Service.Session.Frames.{authorize-welcome}
use remote_unlock.Service.Session.{
  Piece, Frame, authorize, conclude, answer, on_response, reject, on_exception, recv_json,
}
use remote_unlock.Service.Session.Frames.{Ends, reject-Ends, on_exception-Ends}
use remote_unlock.Service.Session.Accounts.{
  Logs, written_line, reject-Accounts, on_exception-Accounts,
}
use remote_unlock.Service.Session.Counted.{authorized_fields, check_response-lem}
use remote_unlock.Service.Replay.{allows}

-- 1 if the line is an entry with this event.
unfoldable pub is_record : Text → Line → ℕ
is_record event (parsed (obj entry)) =
    if equals_text (get (codes "event") entry) event then 1 else 0
is_record event line = 0

-- How many entries with this event the lines have.
abbrev pub records : Text → List Line → ℕ
records event [] = 0
records event (l ∷ ls) = is_record event l + records event ls

pub records-append :
    (event : Text) (xs ys : List Line)
    → records event (xs ++ ys) ≡ records event xs + records event ys
records-append event [] ys = omega arith
records-append event (x ∷ xs) ys = omega (arith, records-append event xs ys)

-- The log grows, by a record of the unlock if the peer is told that it may unlock.
pub record Recorded (s : Service) (p : Piece) : Type 0 where
  pub extra : List Line
  pub grows : p.0.audit.lines ≡ s.audit.lines ++ extra
  pub enough : allows p.1 ≤ records (codes "unlock_authorized") extra

module _ {PrivateKey PublicKey : Type 0} (env : Env PrivateKey PublicKey) where
  Ends-Recorded : (s : Service) (p : Piece) → Ends s p → Logs env s p.0 → Recorded s p
  unfolding allows
  Ends-Recorded s p e l = record {
    extra = l.extra;
    grows = l.grows;
    enough = elim e.denies [ inl q ↦ rw q (omega arith) | inr q ↦ rw q (omega arith) ];
  }

  reject-Recorded :
      (now : ℕ) (ip : Text) (device_id : Option Text) (reason : Reason) (s : Service)
      → Recorded s (reject env now ip device_id reason s)
  reject-Recorded now ip device_id reason s =
      Ends-Recorded s (reject env now ip device_id reason s)
        (reject-Ends env now ip device_id reason s)
        (reject-Accounts env now ip device_id reason s).log

  on_exception-Recorded :
      (now : ℕ) (ip : Text) (e : Exception) (s : Service) → Recorded s (on_exception env now ip e s)
  on_exception-Recorded now ip e s =
      Ends-Recorded s (on_exception env now ip e s) (on_exception-Ends env now ip e s)
        (on_exception-Accounts env now ip e s).log

  written_line-is_record :
      (now : ℕ) (event : Text) (data_ : Fields) (s : Service)
      → is_record event (written_line env now event data_ s) ≡ 1
  unfolding is_record equals_text get find put Text-discrete
  written_line-is_record now event data_ s = ground (arith, text_eq_refl event)

  authorize-Recorded :
      (now : ℕ) (ip : Text) (device : Device) (s : Service)
      → Recorded s (authorize env now ip device s)
  unfolding record_event append allows
  authorize-Recorded now ip device s =
      let data_ = authorized_fields ip device s in
      subst (Recorded s) (sym (authorize-welcome env now ip device s)) (record {
        extra = written_line env now (codes "unlock_authorized") data_ s ∷ [];
        grows = rw (env.is_whole s.audit.seq) refl;
        enough = omega (arith, written_line-is_record now (codes "unlock_authorized") data_ s);
      })

  conclude-Recorded :
      (now : ℕ) (ip : Text) (device : Device) (r : Service × Outcome (Option Reason))
      → Recorded r.0 (conclude env now ip device r)
  conclude-Recorded now ip device (s, raises e) = on_exception-Recorded now ip e s
  conclude-Recorded now ip device (s, returns none) = authorize-Recorded now ip device s
  conclude-Recorded now ip device (s, returns (some reason)) = reject-Recorded now ip _ reason s

  answer-Recorded :
      (now : ℕ) (ip : Text) (device : Device) (nonce signature : Json) (s : Service)
      → Recorded s (answer env now ip device nonce signature s)
  unfolding answer
  answer-Recorded now ip device nonce signature s =
      let r = check_response env now device nonce signature s in
      let (log, _, _) = check_response-lem env now device nonce signature s in
      let k = conclude-Recorded now ip device r in
      record {
        extra = k.extra;
        grows = k.grows ∙ ap (λ a. a.lines ++ k.extra) log;
        enough = k.enough;
      }

  -- The last piece of a connection only adds to the log, and adds a record of the unlock if it tells
  -- the peer that it may unlock.
  pub on_response-Recorded :
      (now : ℕ) (ip : Text) (device : Device) (frame : Outcome Frame) (s : Service)
      → Recorded s (on_response env now ip device frame s)
  unfolding on_response
  on_response-Recorded now ip device frame s =
      handle_split (Recorded s) (recv_json env frame) _ _
        (λ resp _.
          if_split (Recorded s) (equals_text (get (codes "type") resp) (codes "response")) _ _
            (λ _.
              answer-Recorded now ip device (get (codes "nonce") resp)
                (get (codes "signature") resp) s)
            (λ _. reject-Recorded now ip _ _ s))
        (λ e _. on_exception-Recorded now ip e s)
