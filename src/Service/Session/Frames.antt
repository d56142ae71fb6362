-- ===== src/Service/Session/Frames.antt =====
-- What the pieces of a connection leave alone.
use remote_unlock.Base.{
  ℕ, ◌-◌, ◌≡◌, refl, ◌∙◌, Bool, false, Option, none, some, [], ◌∷◌, Text, codes, true, arith, inl,
  inr, ap, ◌⊎◌,
}
use remote_unlock.Backoff
use remote_unlock.Backoff.{Backoff}
use remote_unlock.Json.{Fields}
use remote_unlock.Outcome.{Exception}
use remote_unlock.Service.State.{Env, Kind, Service, record_event}
use remote_unlock.Config.{Device}
use remote_unlock.Audit.{append}
use remote_unlock.Service.Challenge.{Reason}
use remote_unlock.Service.Session.{
  result, Piece, locked, lockout_event, rejection_event, fail, fail_device, reject, on_exception,
  done, leave, authorize, authorized, authorized_data,
}

-- The challenges, the grant, the settings and the count of connections are as before.
pub record Keeps (s s' : Service) : Type 0 where
  pub pending : s'.pending ≡ s.pending
  pub broker : s'.broker ≡ s.broker
  pub config : s'.config ≡ s.config
  pub active : s'.active ≡ s.active

Keeps-trans : {s t u : Service} → Keeps s t → Keeps t u → Keeps s u
Keeps-trans k l = record {
  pending = l.pending ∙ k.pending;
  broker = l.broker ∙ k.broker;
  config = l.config ∙ k.config;
  active = l.active ∙ k.active;
}

-- The connection is over, without a grant.
pub record Ends (s : Service) (p : Piece) : Type 0 where
  pub pending : p.0.pending ≡ s.pending
  pub broker : p.0.broker ≡ s.broker
  pub config : p.0.config ≡ s.config
  pub active : p.0.active ≡ s.active - 1
  pub phase : p.2 ≡ done
  pub denies : (p.1 ≡ []) ⊎ (p.1 ≡ result false ∷ [])

module _ {PrivateKey PublicKey : Type 0} (env : Env PrivateKey PublicKey) where
  pub record_event-Keeps :
      (now : ℕ) (event : Text) (alert : Option (Text × Text)) (data_ : Fields) (s : Service)
      → Keeps s (record_event env now event alert data_ s)
  unfolding record_event
  record_event-Keeps now event none data_ s = record {
    pending = refl;
    broker = refl;
    config = refl;
    active = refl;
  }
  record_event-Keeps now event (some a) data_ s = record {
    pending = refl;
    broker = refl;
    config = refl;
    active = refl;
  }

  pub locked-Keeps :
      (now : ℕ) (kind : Kind) (key : Text) (s : Service) → Keeps s (locked env now kind key s).0
  unfolding locked record_event
  locked-Keeps now kind key s = ground arith

  lockout_event-Keeps :
      (now : ℕ) (kind : Kind) (key : Text) (hit : Bool) (s : Service)
      → Keeps s (lockout_event env now kind key hit s)
  unfolding lockout_event record_event
  lockout_event-Keeps now kind key hit s = ground arith

  fail_device-Keeps :
      (now : ℕ) (device_id : Option Text) (s : Service)
      → Keeps s (fail_device env now device_id s).0
  fail_device-Keeps now none s = record {
    pending = refl;
    broker = refl;
    config = refl;
    active = refl;
  }
  fail_device-Keeps now (some []) s = record {
    pending = refl;
    broker = refl;
    config = refl;
    active = refl;
  }
  fail_device-Keeps now (some (a ∷ t)) s = record {
    pending = refl;
    broker = refl;
    config = refl;
    active = refl;
  }

  rejection_event-Keeps :
      (now : ℕ) (ip : Text) (device_id : Option Text) (reason : Reason) (s : Service)
      → Keeps s (rejection_event env now ip device_id reason s)
  unfolding rejection_event
  rejection_event-Keeps now ip device_id reason s = record_event-Keeps now _ _ _ s

  ip_backoff-Keeps : (b : Backoff) (s : Service) → Keeps s (record s { ip_backoff = b })
  ip_backoff-Keeps b s = record { pending = refl; broker = refl; config = refl; active = refl }

  -- A rejection keeps the challenges, the grant, the settings and the count.
  pub fail-Keeps :
      (now : ℕ) (ip : Text) (device_id : Option Text) (reason : Reason) (s : Service)
      → Keeps s (fail env now ip device_id reason s).0
  unfolding fail
  fail-Keeps now ip device_id reason s =
      let b = (Backoff.fail now ip s.ip_backoff).0 in
      Keeps-trans (ip_backoff-Keeps b s) (
        Keeps-trans (fail_device-Keeps now device_id (record s { ip_backoff = b })) (
          Keeps-trans (rejection_event-Keeps now ip device_id reason _)
            (Keeps-trans (lockout_event-Keeps now _ _ _ _) (lockout_event-Keeps now _ _ _ _))))

  fail_output :
      (now : ℕ) (ip : Text) (device_id : Option Text) (reason : Reason) (s : Service)
      → (fail env now ip device_id reason s).1 ≡ result false ∷ []
  unfolding fail
  fail_output now ip device_id reason s = refl

  pub reject-Ends :
      (now : ℕ) (ip : Text) (device_id : Option Text) (reason : Reason) (s : Service)
      → Ends s (reject env now ip device_id reason s)
  reject-Ends now ip device_id reason s =
      let k = fail-Keeps now ip device_id reason s in
      record {
        pending = k.pending;
        broker = k.broker;
        config = k.config;
        active = ap (λ n. n - 1) k.active;
        phase = refl;
        denies = inr (fail_output now ip device_id reason s);
      }

  -- Every exception ends the connection with a refusal or without a word.
  pub on_exception-Ends :
      (now : ℕ) (ip : Text) (e : Exception) (s : Service) → Ends s (on_exception env now ip e s)
  unfolding on_exception
  on_exception-Ends now ip Exception.connection_closed s = record {
    pending = refl;
    broker = refl;
    config = refl;
    active = refl;
    phase = refl;
    denies = inl refl;
  }
  on_exception-Ends now ip Exception.timeout_error s = reject-Ends now ip none _ s
  on_exception-Ends now ip e s = reject-Ends now ip none _ s

  -- Step 3 of `_session` where the write of its record succeeds.
  abbrev pub welcome : ℕ → Text → Device → Service → Piece
  welcome now ip device s = leave env (
    record_event env now (codes "unlock_authorized")
        (some (codes "Unlock AUTHORIZED", codes "high")) (authorized_data env ip device s)
        (authorized env now ip device s),
    result true ∷ [],
  )

  pub authorize-welcome :
      (now : ℕ) (ip : Text) (device : Device) (s : Service)
      → authorize env now ip device s ≡ welcome now ip device s
  unfolding authorize record_event append
  authorize-welcome now ip device s = rw (env.is_whole s.audit.seq) refl
