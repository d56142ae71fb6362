-- ===== src/Service/Session/Accounts.antt =====
-- What each piece of a connection (`handle` and `_session` of listener.py) does to the audit log, to
-- the settings and to the count of connections.
use mathlib.Core.List.{append_assoc, append-nil}
use remote_unlock.Base.{
  ◌++◌, ◌∙◌, codes, List, ℕ, ◌+◌, ◌-◌, ◌*◌, ◌≡◌, refl, ap, subst, sym, Bool, true, false, Option,
  none, some, [], ◌∷◌, Text, arith, ltb, if_split,
}
use remote_unlock.Base.Dict.{lookup, insert}
use remote_unlock.Backoff
use remote_unlock.Backoff.{remaining}
use remote_unlock.Json.{Fields, put, str, obj}
use remote_unlock.Outcome.{Exception}
use remote_unlock.Audit.{Line, parsed, new_entry, append}
use remote_unlock.Audit.Append.{IsIntact, append-IsIntact}
use remote_unlock.Service.State.{Env, Kind, Key-discrete, Service, record_event, backoff_of}
use remote_unlock.Service.Challenge.{Reason}
use remote_unlock.Service.Session.{
  or_zero, Phase, Piece, locked, lockout_event, rejection_event, fail, fail_device, reject,
  on_exception, done,
}
use remote_unlock.Service.Session.Frames.{Ends, reject-Ends}

-- 1 while the connection is open.
abbrev pub live : Phase → ℕ
live done = 0
live phase = 1

module _ {PrivateKey PublicKey : Type 0} (env : Env PrivateKey PublicKey) where
  -- The audit log only grows, and is intact afterwards if it was before.
  pub record Logs (s s' : Service) : Type 0 where
    pub intact : IsIntact env.hash s.audit → IsIntact env.hash s'.audit
    pub extra : List Line
    pub grows : s'.audit.lines ≡ s.audit.lines ++ extra

  pub Logs-trans : {s t u : Service} → Logs s t → Logs t u → Logs s u
  Logs-trans {s = s} k l = record {
    intact = λ h. l.intact (k.intact h);
    extra = k.extra ++ l.extra;
    grows = l.grows ∙ ap (λ ls. ls ++ l.extra) k.grows ∙ append_assoc s.audit.lines k.extra l.extra;
  }

  pub Logs-same : (s s' : Service) → s'.audit ≡ s.audit → Logs s s'
  Logs-same s s' e = record {
    intact = λ h. subst (IsIntact env.hash) (sym e) h;
    extra = [];
    grows = ap (λ log. log.lines) e ∙ sym (append-nil s.audit.lines);
  }

  -- The line that `record` writes.
  abbrev pub written_line : ℕ → Text → Fields → Service → Line
  written_line now event data_ s =
      let entry = new_entry (s.audit.seq + 1) s.audit.head (env.stamp now) event data_ in
      parsed (obj (put (codes "hash") (str (env.hash s.audit.head entry)) entry))

  pub record_event-Logs :
      (now : ℕ) (event : Text) (alert : Option (Text × Text)) (data_ : Fields) (s : Service)
      → Logs s (record_event env now event alert data_ s)
  unfolding record_event append
  record_event-Logs now event none data_ s = record {
    intact = λ h.
        rw (env.is_whole s.audit.seq)
          (append-IsIntact env.hash (env.stamp now) event data_ s.audit h);
    extra = written_line now event data_ s ∷ [];
    grows = rw (env.is_whole s.audit.seq) refl;
  }
  record_event-Logs now event (some a) data_ s = record {
    intact = λ h.
        rw (env.is_whole s.audit.seq)
          (append-IsIntact env.hash (env.stamp now) event data_ s.audit h);
    extra = written_line now event data_ s ∷ [];
    grows = rw (env.is_whole s.audit.seq) refl;
  }

  pub locked-Logs :
      (now : ℕ) (kind : Kind) (key : Text) (s : Service) → Logs s (locked env now kind key s).0
  unfolding locked
  locked-Logs now kind key s =
      if_split (λ (r : Service × Bool). Logs s r.0) (ltb 0 (remaining now key (backoff_of kind s)))
        _ _
        (λ _.
          if_split (Logs s)
            (ltb (10 * env.second)
              (now - or_zero (lookup Key-discrete (kind, key) s.last_lock_audit)))
            _ _
            (λ _.
              Logs-trans
                (Logs-same s
                  (record s {
                    last_lock_audit = insert Key-discrete (kind, key) now s.last_lock_audit;
                  })
                  refl)
                (record_event-Logs now _ _ _ _))
            (λ _. Logs-same s s refl))
        (λ _. Logs-same s s refl)

  lockout_event-Logs :
      (now : ℕ) (kind : Kind) (key : Text) (hit : Bool) (s : Service)
      → Logs s (lockout_event env now kind key hit s)
  unfolding lockout_event
  lockout_event-Logs now kind key true s = record_event-Logs now _ _ _ s
  lockout_event-Logs now kind key false s = Logs-same s s refl

  fail_device-Logs :
      (now : ℕ) (device_id : Option Text) (s : Service) → Logs s (fail_device env now device_id s).0
  fail_device-Logs now none s = Logs-same s s refl
  fail_device-Logs now (some []) s = Logs-same s s refl
  fail_device-Logs now (some (a ∷ t)) s = Logs-same s (fail_device env now (some (a ∷ t)) s).0 refl

  rejection_event-Logs :
      (now : ℕ) (ip : Text) (device_id : Option Text) (reason : Reason) (s : Service)
      → Logs s (rejection_event env now ip device_id reason s)
  unfolding rejection_event
  rejection_event-Logs now ip device_id reason s = record_event-Logs now _ _ _ s

  fail-Logs :
      (now : ℕ) (ip : Text) (device_id : Option Text) (reason : Reason) (s : Service)
      → Logs s (fail env now ip device_id reason s).0
  unfolding fail
  fail-Logs now ip device_id reason s =
      let b = (Backoff.fail now ip s.ip_backoff).0 in
      Logs-trans (Logs-same s (record s { ip_backoff = b }) refl) (
        Logs-trans (fail_device-Logs now device_id (record s { ip_backoff = b })) (
          Logs-trans (rejection_event-Logs now ip device_id reason _)
            (Logs-trans (lockout_event-Logs now _ _ _ _) (lockout_event-Logs now _ _ _ _))))

  -- A piece of a connection that is counted in `s`.
  pub record Accounts (s : Service) (p : Piece) : Type 0 where
    pub log : Logs s p.0
    pub config : p.0.config ≡ s.config
    pub count : p.0.active ≡ s.active - 1 + live p.2

  Ends-Accounts : (s : Service) (p : Piece) → Ends s p → Logs s p.0 → Accounts s p
  Ends-Accounts s p e l = record {
    log = l;
    config = e.config;
    count = ground (arith, e.active, ap live e.phase);
  }

  pub reject-Accounts :
      (now : ℕ) (ip : Text) (device_id : Option Text) (reason : Reason) (s : Service)
      → Accounts s (reject env now ip device_id reason s)
  reject-Accounts now ip device_id reason s =
      Ends-Accounts s (reject env now ip device_id reason s)
        (reject-Ends env now ip device_id reason s)
        (Logs-trans (fail-Logs now ip device_id reason s) (Logs-same _ _ refl))

  pub on_exception-Accounts :
      (now : ℕ) (ip : Text) (e : Exception) (s : Service) → Accounts s (on_exception env now ip e s)
  unfolding on_exception
  on_exception-Accounts now ip Exception.connection_closed s = record {
    log = Logs-same s (record s { active = s.active - 1 }) refl;
    config = refl;
    count = ground arith;
  }
  on_exception-Accounts now ip Exception.timeout_error s = reject-Accounts now ip none _ s
  on_exception-Accounts now ip e s = reject-Accounts now ip none _ s
