-- ===== src/Service/Connections/Balance.antt =====
-- `_active` of listener.py, which `handle` counts up and down, and the audit log, in every state of
-- the service.
use remote_unlock.Base.{
  ℕ, ◌+◌, ◌≤◌, ◌<◌, ◌≡◌, refl, sym, ◌∙◌, Option, List, [], ◌∷◌, ◌++◌, Text, Bytes, arith, leb, ◌==◌,
  if_split, inl, inr, Bool-cases,
}
use remote_unlock.Outcome.{
  Outcome, returns, raises, handle_split, os_error, value_error, Outcome-cases,
}
use remote_unlock.Config.{Config, ConfigFile, reload, reload_if_changed, or_last_good}
use remote_unlock.Audit.{AuditLog}
use remote_unlock.Audit.Append.{IsIntact}
use remote_unlock.Service.State.{Env, Service, settings, new_service}
use remote_unlock.Service.Session.{
  Phase, Piece, accept, begin, on_exception, on_hello, on_response, wants_hello, wants_response,
  close, done,
}
use remote_unlock.Service.Session.Accounts.{live, Accounts, on_exception-Accounts}
use remote_unlock.Service.Session.Counted.{begin-Accounts, on_hello-Accounts, on_response-Accounts}
use remote_unlock.Service.Pam.{pam_request, pam_event}
use remote_unlock.Service.Connections.{System, live_all, IsWithin, moved, between, Step, Reaches}
use remote_unlock.Service.Connections.Quiet.{Quiet, pam_request-Quiet, pam_event-Quiet}

live_all-append : (xs ys : List Phase) → live_all (xs ++ ys) ≡ live_all xs + live_all ys
live_all-append [] ys = omega arith
live_all-append (x ∷ xs) ys = omega (arith, live_all-append xs ys)

live_le : (p : Phase) → live p ≤ 1
live_le done = omega arith
live_le p = omega arith

module _ {PrivateKey PublicKey : Type 0} (env : Env PrivateKey PublicKey) (bound : ℕ) where
  -- `_active` is the number of open connections, the bound is kept, and the audit log verifies.
  pub record Balanced (sys : System) : Type 0 where
    pub count : sys.service.active ≡ live_all sys.phases
    pub bounded : live_all sys.phases ≤ bound
    pub limit : (settings sys.service).max_connections ≤ bound
    pub intact : IsIntact env.hash sys.service.audit

  Quiet-Balanced :
      (s s' : Service) (ps : List Phase)
      → Quiet env s s'
      → Balanced (between s ps)
      → Balanced (between s' ps)
  Quiet-Balanced s s' ps q b = record {
    count = q.active ∙ b.count;
    bounded = b.bounded;
    limit = rw q.config b.limit;
    intact = q.log.intact b.intact;
  }

  -- While a connection is open, the count is positive.
  pub counted_open :
      (s : Service) (phase : Phase) (xs ys : List Phase)
      → live phase ≡ 1
      → Balanced (between s (xs ++ phase ∷ ys))
      → 0 < s.active
  counted_open s phase xs ys open_ b =
      omega (arith, b.count, live_all-append xs (phase ∷ ys), open_)

  -- A piece of a connection that is open.
  piece-Balanced :
      (s : Service) (p : Piece) (phase : Phase) (xs ys : List Phase)
      → live phase ≡ 1
      → (0 < s.active → Accounts env s p)
      → Balanced (between s (xs ++ phase ∷ ys))
      → Balanced (moved p xs ys)
  piece-Balanced s p phase xs ys open_ k b =
      let before = live_all-append xs (phase ∷ ys) in
      let after = live_all-append xs (p.2 ∷ ys) in
      let counted = counted_open s phase xs ys open_ b in
      let acc = k counted in
      record {
        count = omega (arith, acc.count, b.count, before, after, open_);
        bounded = omega (arith, b.bounded, before, after, open_, live_le p.2);
        limit = rw acc.config b.limit;
        intact = acc.log.intact b.intact;
      }

  or_last_good-limit :
      (cfg cfg' : Config) (o : Outcome Config)
      → cfg.settings.max_connections ≤ bound
      → ((c : Config) → o ≡ returns c → c.settings.max_connections ≤ bound)
      → or_last_good cfg o ≡ returns cfg'
      → cfg'.settings.max_connections ≤ bound
  or_last_good-limit cfg cfg' (returns c) le all e = all cfg' e
  or_last_good-limit cfg cfg' (raises os_error) le all e =
      let same : cfg ≡ cfg' = ground arith in rw (sym same) le
  or_last_good-limit cfg cfg' (raises value_error) le all e =
      let same : cfg ≡ cfg' = ground arith in rw (sym same) le
  or_last_good-limit cfg cfg' (raises e') le all e = absurd (ground arith)

  reload-limit :
      (file : ConfigFile) (c : Config)
      → reload file ≡ returns c
      → IsWithin bound file
      → c.settings.max_connections ≤ bound
  unfolding reload
  reload-limit file c e within = elim (Outcome-cases file.content) [
    | inl (st, r) ↦ let same : st ≡ c.settings = ground arith in rw (sym same) (within st r)
    | inr (e', r) ↦ absurd (ground arith)
  ]

  reload_if_changed-limit :
      (file : ConfigFile) (cfg cfg' : Config)
      → reload_if_changed file cfg ≡ returns cfg'
      → cfg.settings.max_connections ≤ bound
      → IsWithin bound file
      → cfg'.settings.max_connections ≤ bound
  unfolding reload_if_changed
  reload_if_changed-limit file cfg cfg' e le within = elim (Bool-cases (file.mtime == cfg.mtime)) [
    | inl t ↦ let same : cfg ≡ cfg' = ground arith in rw (sym same) le
    | inr f ↦
        or_last_good-limit cfg cfg' (reload file) le (λ c r. reload-limit file c r within)
          (ground arith)
  ]

  accept-Balanced :
      (now : ℕ) (ip : Text) (der : Option Bytes) (file : ConfigFile) (s : Service) (ps : List Phase)
      → IsWithin bound file
      → Balanced (between s ps)
      → Balanced (moved (accept env now ip der file s) [] ps)
  unfolding accept
  accept-Balanced now ip der file s ps within b =
      let P = λ (p : Piece). Balanced (moved p [] ps) in
      let s₁ = record s { active = s.active + 1 } in
      if_split P (leb (settings s).max_connections s.active) (s, close 1013 ∷ [], done) _
        (λ _. record {
          count = omega (arith, b.count);
          bounded = omega (arith, b.bounded);
          limit = b.limit;
          intact = b.intact;
        })
        (λ room.
          let free : s.active < (settings s).max_connections = ground arith in
          handle_split P (reload_if_changed file s.config) _ _
            (λ cfg e.
              let s₂ = record s₁ { config = cfg } in
              let p = begin env now ip der s₂ in
              let acc = begin-Accounts env now ip der s₂ (omega arith) in
              record {
                count = omega (arith, acc.count, b.count);
                bounded = omega (arith, b.count, b.limit, free, live_le p.2);
                limit = rw acc.config (reload_if_changed-limit file s.config cfg e b.limit within);
                intact = acc.log.intact b.intact;
              })
            (λ e _.
              let p = on_exception env now ip e s₁ in
              let acc = on_exception-Accounts env now ip e s₁ in
              record {
                count = omega (arith, acc.count, b.count);
                bounded = omega (arith, b.count, b.limit, free, live_le p.2);
                limit = rw acc.config b.limit;
                intact = acc.log.intact b.intact;
              }))

  Step-Balanced : (a b : System) → Step env bound a b → Balanced a → Balanced b
  Step-Balanced _ _ (Step.accepts now ip der file s ps within) h =
      accept-Balanced now ip der file s ps within h
  Step-Balanced _ _ (Step.hellos d ip cert_device frame s xs ys) h =
      piece-Balanced s (on_hello env d ip cert_device frame s) (wants_hello cert_device) xs ys refl
        (on_hello-Accounts env d ip cert_device frame s) h
  Step-Balanced _ _ (Step.responds now ip device frame s xs ys) h =
      piece-Balanced s (on_response env now ip device frame s) (wants_response device) xs ys refl
        (λ _. on_response-Accounts env now ip device frame s) h
  Step-Balanced _ _ (Step.asks now peer line s ps) h =
      Quiet-Balanced s (pam_request env now peer line s).0 ps
        (pam_request-Quiet env now peer line s) h
  Step-Balanced _ _ (Step.polls deadline now s ps) h = record {
    count = h.count;
    bounded = h.bounded;
    limit = h.limit;
    intact = h.intact;
  }
  Step-Balanced _ _ (Step.tells now pid uid user ok s ps) h =
      Quiet-Balanced s (pam_event env now pid uid user ok s) ps
        (pam_event-Quiet env now pid uid user ok s) h

  -- While every write of the audit log succeeds, if the configuration at the start and every one
  -- that is read later allow at most `bound`
  -- connections, and the audit log verifies at the start, then in every state that the service can
  -- reach, by connections and logins in any order, `_active` is the number of open connections,
  -- these are at most `bound`, and the audit log verifies up to its last entry.
  pub reachable-Balanced :
      (cfg : Config) (log : AuditLog) (sys : System)
      → cfg.settings.max_connections ≤ bound
      → IsIntact env.hash log
      → Reaches env bound (between (new_service env cfg log) []) sys
      → Balanced sys
  unfolding new_service
  reachable-Balanced cfg log _ le intact (Reaches.stays _) = record {
    count = refl;
    bounded = omega arith;
    limit = le;
    intact = intact;
  }
  reachable-Balanced cfg log sys le intact (Reaches.steps r st) =
      Step-Balanced _ sys st (reachable-Balanced cfg log _ le intact r)
