-- ===== src/Service/Connections/Recorded.antt =====
-- The lines of the audit log over whole runs of the service (listener.py).
use remote_unlock.Base.{
  ℕ, ◌+◌, ◌≤◌, ◌≡◌, refl, ◌∙◌, ap, sym, ◌++◌, Option, List, [], ◌∷◌, Text, Bytes, codes, arith, leb,
  if_split,
}
use mathlib.Core.List.{append_assoc, append-nil}
use remote_unlock.Outcome.{handle_split}
use remote_unlock.Audit.{AuditLog, Line}
use remote_unlock.Audit.Append.{IsIntact}
use remote_unlock.Config.{Config, ConfigFile, reload_if_changed}
use remote_unlock.Service.State.{Env, Service, settings, new_service}
use remote_unlock.Service.Session.{accept, on_hello, on_response, wants_hello, close, done, Piece}
use remote_unlock.Service.Session.Accounts.{Logs, Logs-same, on_exception-Accounts}
use remote_unlock.Service.Session.Counted.{begin-Accounts, on_hello-Accounts}
use remote_unlock.Service.Session.Recorded.{records, records-append, on_response-Recorded}
use remote_unlock.Service.Replay.{allows}
use remote_unlock.Service.Pam.{pam_request, pam_event}
use remote_unlock.Service.Connections.{System, between, Step, Reaches}
use remote_unlock.Service.Connections.Quiet.{pam_request-Quiet, pam_event-Quiet}
use remote_unlock.Service.Connections.Balance.{Balanced, counted_open, reachable-Balanced}

-- The lines after are those before and then some more, which have so many records of an unlock.
pub record Adds (before after : List Line) (unlocks : ℕ) : Type 0 where
  pub extra : List Line
  pub grows : after ≡ before ++ extra
  pub enough : unlocks ≤ records (codes "unlock_authorized") extra

Adds-refl : (ls : List Line) → Adds ls ls 0
Adds-refl ls = record { extra = []; grows = sym (append-nil ls); enough = omega arith }

Adds-trans : {a b c : List Line} (m n : ℕ) → Adds a b m → Adds b c n → Adds a c (m + n)
Adds-trans {a = a} m n k l = record {
  extra = k.extra ++ l.extra;
  grows = l.grows ∙ ap (λ ls. ls ++ l.extra) k.grows ∙ append_assoc a k.extra l.extra;
  enough =
      omega (arith, records-append (codes "unlock_authorized") k.extra l.extra, k.enough, l.enough);
}

module _ {PrivateKey PublicKey : Type 0} (env : Env PrivateKey PublicKey) where
  Logs-Adds : (s s' : Service) → Logs env s s' → Adds s.audit.lines s'.audit.lines 0
  Logs-Adds s s' l = record { extra = l.extra; grows = l.grows; enough = omega arith }

  accept-Logs :
      (now : ℕ) (ip : Text) (der : Option Bytes) (file : ConfigFile) (s : Service)
      → Logs env s (accept env now ip der file s).0
  unfolding accept
  accept-Logs now ip der file s =
      let P : Piece → Type 0 = λ p. Logs env s p.0 in
      let s₁ = record s { active = s.active + 1 } in
      if_split P (leb (settings s).max_connections s.active) (s, close 1013 ∷ [], done) _
        (λ _. Logs-same env s s refl)
        (λ _.
          handle_split P (reload_if_changed file s.config) _ _
            (λ cfg _.
              let k =
                (begin-Accounts env now ip der (record s₁ { config = cfg }) (omega arith)).log in
              record { intact = k.intact; extra = k.extra; grows = k.grows })
            (λ e _.
              let k = (on_exception-Accounts env now ip e s₁).log in
              record { intact = k.intact; extra = k.extra; grows = k.grows }))

  module _ (bound : ℕ) where
    -- 1 if the peer is told that it may unlock.
    abbrev pub unlocks_of : {a b : System} → Step env bound a b → ℕ
    unlocks_of (Step.responds now ip device frame s xs ys) =
        allows (on_response env now ip device frame s).1
    unlocks_of st = 0

    -- How often a run of the service tells a peer that it may unlock.
    abbrev pub unlocks_in : {a b : System} → Reaches env bound a b → ℕ
    unlocks_in (Reaches.stays sys) = 0
    unlocks_in (Reaches.steps r st) = unlocks_in r + unlocks_of st

    Step-Adds :
        (a b : System) (st : Step env bound a b)
        → Balanced env bound a
        → Adds a.service.audit.lines b.service.audit.lines (unlocks_of st)
    Step-Adds _ _ (Step.accepts now ip der file s ps within) h =
        Logs-Adds s (accept env now ip der file s).0 (accept-Logs now ip der file s)
    Step-Adds _ _ (Step.hellos d ip cert_device frame s xs ys) h =
        let counted = counted_open env bound s (wants_hello cert_device) xs ys refl h in
        Logs-Adds s (on_hello env d ip cert_device frame s).0
          (on_hello-Accounts env d ip cert_device frame s counted).log
    Step-Adds _ _ (Step.responds now ip device frame s xs ys) h =
        let k = on_response-Recorded env now ip device frame s in
        record { extra = k.extra; grows = k.grows; enough = k.enough }
    Step-Adds _ _ (Step.asks now peer line s ps) h =
        Logs-Adds s (pam_request env now peer line s).0 (pam_request-Quiet env now peer line s).log
    Step-Adds _ _ (Step.polls deadline now s ps) h = Adds-refl s.audit.lines
    Step-Adds _ _ (Step.tells now pid uid user ok s ps) h =
        Logs-Adds s (pam_event env now pid uid user ok s)
          (pam_event-Quiet env now pid uid user ok s).log

    -- While every write of the audit log succeeds, every unlock is on record, and nothing is ever
    -- taken out of the log: if the configurations
    -- allow at most `bound` connections and the log verifies at the start, then in every state that
    -- the service can reach, the log has the lines that it had at the start, and after them at least
    -- as many records of an authorized unlock as peers have been told that they may unlock.
    pub reachable-Adds :
        (cfg : Config) (log : AuditLog) (sys : System)
        → cfg.settings.max_connections ≤ bound
        → IsIntact env.hash log
        → (r : Reaches env bound (between (new_service env cfg log) []) sys)
        → Adds log.lines sys.service.audit.lines (unlocks_in r)
    unfolding new_service
    reachable-Adds cfg log _ le intact (Reaches.stays _) = Adds-refl log.lines
    reachable-Adds cfg log sys le intact (Reaches.steps r st) =
        Adds-trans (unlocks_in r) (unlocks_of st) (reachable-Adds cfg log _ le intact r)
          (Step-Adds _ sys st (reachable-Balanced env bound cfg log _ le intact r))
