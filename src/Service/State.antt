-- ===== src/Service/State.antt =====
-- The state of `UnlockService`, what it calls outside the program, and its audit records.
use remote_unlock.Base.{ℕ, ◌*◌, ◌≡◌, Option, none, some, List, [], ◌∷◌, Text, codes, Text-discrete}
use remote_unlock.Base.Dict.{Dict}
use remote_unlock.Json.{Json, Fields}
use remote_unlock.Outcome.{Outcome, handle}
use remote_unlock.Protocol.Signature.{Crypto}
use remote_unlock.Backoff
use remote_unlock.Backoff.{Backoff}
use remote_unlock.Broker
use remote_unlock.Broker.{Broker}
use remote_unlock.Config.{Config, Settings}
use remote_unlock.Audit.{AuditLog, Write, whole, append}

-- The packages and the parts of the standard library that the service calls, and the laptop's key.
pub record Env (PrivateKey PublicKey : Type 0) : Type 0 where
  pub crypto : Crypto PrivateKey PublicKey
  pub signing_key : PrivateKey
  -- `_hash` of audit.py
  pub hash : Text → Fields → Text
  -- json.loads
  pub loads : Text → Outcome Json
  -- str() of a decoded value
  pub str_of : Json → Text
  -- the wall-clock text of an audit entry, at a reading of the clock
  pub stamp : ℕ → Text
  -- the clock's ticks in a second
  pub second : ℕ
  -- How the write of an audit entry ends, by the number of entries before it. The service is
  -- modelled where every write succeeds: `is_whole` is what it relies on here.
  pub writes : ℕ → Write
  pub is_whole : (n : ℕ) → writes n ≡ whole

-- A value of `self.pending`: (device_id, monotonic_issue_time, issued_ms).
pub record Pending : Type 0 where
  pub device_id : Text
  pub issued_at : ℕ
  pub issued_ms : ℕ

-- The `kind` of a lockout.
pub data Kind : Type 0 where
  ip device : Kind

pub Key-discrete : Discrete (Kind × Text)
unfolding Text-discrete
Key-discrete = hlevel Text-discrete

-- The arguments of `alert` that say what is sent: title, priority, and the anchor of the log.
pub record Alert : Type 0 where
  pub title : Text
  pub priority : Text
  pub seq : ℕ
  pub head : Text

pub record Service : Type 0 where
  pub config : Config
  pub pending : Dict Text Pending
  pub ip_backoff : Backoff
  pub dev_backoff : Backoff
  pub broker : Broker
  pub active : ℕ
  pub last_lock_audit : Dict (Kind × Text) ℕ
  pub audit : AuditLog
  -- the alerts handed to the notifier so far, the newest first
  pub alerts : List Alert

abbrev pub settings : Service → Settings
settings s = s.config.settings

module _ {PrivateKey PublicKey : Type 0} (env : Env PrivateKey PublicKey) where
  -- The alert of a record, if it has a title.
  abbrev pub with_alert : Option (Text × Text) → ℕ × Text → List Alert → List Alert
  with_alert none anchor alerts = alerts
  with_alert (some (title, priority)) (seq, head) alerts =
      record { title = title; priority = priority; seq = seq; head = head } ∷ alerts

  -- `record(event, title, priority, **data)`, where `none` is no title: the service afterwards, and
  -- what `append` returns or raises. If it raises, no alert is made.
  abbrev pub try_record :
      Write → ℕ → Text → Option (Text × Text) → Fields → Service → Service × Outcome (ℕ × Text)
  try_record w now event alert data_ s =
      let (log, ended) = append env.hash w (env.stamp now) event data_ s.audit in
      (
        record s {
          audit = log;
          alerts = handle ended (λ anchor. with_alert alert anchor s.alerts) (λ e. s.alerts);
        },
        ended,
      )

  -- `record` where `append` returns, as `is_whole` has it.
  unfoldable pub record_event : ℕ → Text → Option (Text × Text) → Fields → Service → Service
  record_event now event alert data_ s =
      (try_record (env.writes s.audit.seq) now event alert data_ s).0

  -- `__init__`, with the settings, the opened log and the clock's ticks for 3600 seconds
  unfoldable pub new_service : Config → AuditLog → Service
  new_service cfg log =
      let lo = cfg.settings.lockout in
      let b = Backoff.init lo.threshold lo.base_seconds lo.max_seconds (3600 * env.second) in
      record {
        config = cfg;
        pending = [];
        ip_backoff = b;
        dev_backoff = b;
        broker = Broker.init cfg.settings.grant_ttl;
        active = 0;
        last_lock_audit = [];
        audit = log;
        alerts = [];
      }

abbrev pub kind_text : Kind → Text
kind_text ip = codes "ip"
kind_text device = codes "device"

abbrev pub backoff_of : Kind → Service → Backoff
backoff_of ip s = s.ip_backoff
backoff_of device s = s.dev_backoff
