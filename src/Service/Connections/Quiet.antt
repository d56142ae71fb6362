-- ===== src/Service/Connections/Quiet.antt =====
-- The pieces of `handle_pam` (listener.py): the settings, the count of connections and the audit log
-- after each.
use remote_unlock.Base.{ℕ, ◌≡◌, refl, Bool, Option, Text, codes, not, if_split}
use remote_unlock.Json.{Json, obj, Fields, get}
use remote_unlock.Outcome.{Outcome, returns, raises, handle_split}
use remote_unlock.Audit.{equals_text}
use remote_unlock.Service.State.{Env, Service, settings, record_event}
use remote_unlock.Service.Session.Accounts.{Logs, Logs-same, record_event-Logs}
use remote_unlock.Service.Pam.{pam_request, pam_event, pam_user, Asked, is_allowed}
use remote_unlock.Service.Session.Frames.{record_event-Keeps}

module _ {PrivateKey PublicKey : Type 0} (env : Env PrivateKey PublicKey) where
  -- The settings, the count, the challenges and the grant stay, and the log stays intact.
  pub record Quiet (s s' : Service) : Type 0 where
    pub log : Logs env s s'
    pub config : s'.config ≡ s.config
    pub active : s'.active ≡ s.active
    pub pending : s'.pending ≡ s.pending
    pub broker : s'.broker ≡ s.broker

  pub Quiet-refl : (s : Service) → Quiet s s
  Quiet-refl s = record {
    log = Logs-same env s s refl;
    config = refl;
    active = refl;
    pending = refl;
    broker = refl;
  }

  record_event-Quiet :
      (now : ℕ) (event : Text) (alert : Option (Text × Text)) (data_ : Fields) (s : Service)
      → Quiet s (record_event env now event alert data_ s)
  record_event-Quiet now event alert data_ s =
      let k = record_event-Keeps env now event alert data_ s in
      record {
        log = record_event-Logs env now event alert data_ s;
        config = k.config;
        active = k.active;
        pending = k.pending;
        broker = k.broker;
      }

  pam_user-Quiet :
      (now pid uid : ℕ) (j : Json) (s : Service) → Quiet s (pam_user env now pid uid j s).0
  unfolding pam_user
  pam_user-Quiet now pid uid (obj req) s =
      if_split (λ (r : Service × Asked). Quiet s r.0)
        (equals_text (get (codes "user") req) (settings s).unlock_user) _ _ (λ _. Quiet-refl s)
        (λ _. record_event-Quiet now _ _ _ s)
  pam_user-Quiet now pid uid j s = Quiet-refl s

  pub pam_request-Quiet :
      (now : ℕ) (peer : Outcome (ℕ × ℕ)) (line : Outcome Json) (s : Service)
      → Quiet s (pam_request env now peer line s).0
  unfolding pam_request
  pam_request-Quiet now (raises e) line s = Quiet-refl s
  pam_request-Quiet now (returns (pid, uid)) line s =
      let P = λ (r : Service × Asked). Quiet s r.0 in
      if_split P (not (is_allowed uid (settings s).pam_allowed_uids)) _ _
        (λ _. record_event-Quiet now _ _ _ s)
        (λ _.
          handle_split P line _ _ (λ req _. pam_user-Quiet now pid uid req s) (λ e _. Quiet-refl s))

  pub pam_event-Quiet :
      (now pid uid : ℕ) (user : Text) (ok : Bool) (s : Service)
      → Quiet s (pam_event env now pid uid user ok s)
  unfolding pam_event record_event
  pam_event-Quiet now pid uid user ok s = record_event-Quiet now _ _ _ s
