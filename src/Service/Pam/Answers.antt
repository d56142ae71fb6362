-- ===== src/Service/Pam/Answers.antt =====
-- Whom `handle_pam` (listener.py) tells that the login may proceed.
use remote_unlock.Base.{
  ℕ, suc, ◌+◌, ◌≤◌, ◌<◌, ◌≡◌, refl, ap, Bool, true, false, not, some, List, Text, codes, arith,
  if_split, text_eq_refl, inl, inr, ◌⊎◌,
}
use remote_unlock.Json.{Json, str, obj, Fields, get}
use remote_unlock.Outcome.{Outcome, returns, raises, handle_split}
use remote_unlock.Broker
use remote_unlock.Broker.{Wake, Answer, answers, unanswered, Broker}
use remote_unlock.Broker.Safety.{held}
use remote_unlock.Broker.Waiting.{issued_over, said_true, consume_accounts, rounds_held}
use remote_unlock.Audit.{append, equals_text-true, equals_text}
use remote_unlock.Service.State.{Env, Service, settings, record_event}
use remote_unlock.Service.Pam.{
  is_allowed, reply_line, Asked, turned_away, asks, pam_user, pam_request, pam_event, pam_reply,
  pam_wait, handle_pam,
}

module _ {PrivateKey PublicKey : Type 0} (env : Env PrivateKey PublicKey) where
  -- Why a request gets as far as `consume`.
  pub record Admitted (peer : Outcome (ℕ × ℕ)) (line : Outcome Json) (s : Service) : Type 0 where
    pub pid : ℕ
    pub uid : ℕ
    pub req : Fields
    pub credentials : peer ≡ returns (pid, uid)
    pub allowed : is_allowed uid (settings s).pam_allowed_uids ≡ true
    pub request : line ≡ returns (obj req)
    pub user : get (codes "user") req ≡ str (settings s).unlock_user

  abbrev Reaches : Outcome (ℕ × ℕ) → Outcome Json → Service → Service × Asked → Type 0
  Reaches peer line s r =
      (r.1 ≡ turned_away)
      ⊎ ((a : Admitted peer line s) × (r ≡ (s, asks a.pid a.uid (settings s).unlock_user)))

  pam_user-Reaches :
      (now pid uid : ℕ) (peer : Outcome (ℕ × ℕ)) (line : Outcome Json) (j : Json) (s : Service)
      → peer ≡ returns (pid, uid)
      → is_allowed uid (settings s).pam_allowed_uids ≡ true
      → line ≡ returns j
      → Reaches peer line s (pam_user env now pid uid j s)
  unfolding pam_user
  pam_user-Reaches now pid uid peer line (obj req) s p a l =
      if_split (Reaches peer line s) (equals_text (get (codes "user") req) (settings s).unlock_user)
        _ _
        (λ named. inr (
          record {
            pid = pid;
            uid = uid;
            req = req;
            credentials = p;
            allowed = a;
            request = l;
            user = equals_text-true _ _ named;
          },
          refl,
        ))
        (λ other. inl refl)
  pam_user-Reaches now pid uid peer line j s p a l = inl refl

  pam_request-Reaches :
      (now : ℕ) (peer : Outcome (ℕ × ℕ)) (line : Outcome Json) (s : Service)
      → Reaches peer line s (pam_request env now peer line s)
  unfolding pam_request
  pam_request-Reaches now (raises e) line s = inl refl
  pam_request-Reaches now (returns (pid, uid)) line s =
      if_split (Reaches (returns (pid, uid)) line s)
        (not (is_allowed uid (settings s).pam_allowed_uids)) _ _ (λ _. inl refl)
        (λ a.
          handle_split (Reaches (returns (pid, uid)) line s) line _ _
            (λ req l.
              pam_user-Reaches now pid uid (returns (pid, uid)) line req s refl (ground arith) l)
            (λ e _. inl refl))

  pam_event_broker :
      (now pid uid : ℕ) (user : Text) (ok : Bool) (s : Service)
      → (pam_event env now pid uid user ok s).broker ≡ s.broker
  unfolding pam_event record_event
  pam_event_broker now pid uid user ok s = ground arith

  pam_reply-true :
      (after pid uid : ℕ) (user : Text) (s : Service) (r : Broker × Answer)
      → (pam_reply env after pid uid user s r).1 ≡ some (reply_line true)
      → (r.1 ≡ answers true) × ((pam_reply env after pid uid user s r).0.broker ≡ r.0)
  unfolding append
  pam_reply-true after pid uid user s (b, answers true) h =
      rw (env.is_whole s.audit.seq) (refl, refl)
  pam_reply-true after pid uid user s (b, answers false) h =
      absurd (ground (arith, env.is_whole s.audit.seq))
  pam_reply-true after pid uid user s (b, unanswered) h = absurd (ground arith)

  pam_wait_true :
      (now : ℕ) (ws : List Wake) (after : ℕ) (peer : Outcome (ℕ × ℕ)) (line : Outcome Json)
      (s : Service) (r : Service × Asked)
      → Reaches peer line s r
      → (pam_wait env now ws after r).1 ≡ some (reply_line true)
      → Admitted peer line s
        × (suc (held (pam_wait env now ws after r).0.broker) ≤ held s.broker + issued_over ws)
  pam_wait_true now ws after peer line s (s', turned_away) k h = absurd (ground arith)
  pam_wait_true now ws after peer line s (s', asks pid uid user) (inl e) h = absurd (ground arith)
  pam_wait_true now ws after peer line s (s', asks pid uid user) (inr (a, e)) h =
      let c = Broker.consume (settings s').pam_wait ws now s'.broker in
      let (said, same) = pam_reply-true after pid uid user s' c h in
      let at_start : s'.broker ≡ s.broker = ap (λ r. r.0.broker) e in
      (
        a,
        ground (
          arith,
          consume_accounts (settings s').pam_wait ws now s'.broker,
          ap said_true said,
          ap held same,
          ap held at_start,
        ),
      )

  -- A login is told `1` only if the process that asks has an allowed uid and names the unlock user,
  -- and then it has used up a grant that was held at the start or was issued while it waited.
  pub handle_pam-true :
      (now : ℕ) (peer : Outcome (ℕ × ℕ)) (line : Outcome Json) (ws : List Wake) (after : ℕ)
      (s : Service)
      → (handle_pam env now peer line ws after s).1 ≡ some (reply_line true)
      → Admitted peer line s
        × (suc (held (handle_pam env now peer line ws after s).0.broker)
            ≤ held s.broker + issued_over ws)
  unfolding handle_pam
  handle_pam-true now peer line ws after s h =
      pam_wait_true now ws after peer line s (pam_request env now peer line s)
        (pam_request-Reaches now peer line s) h

  pam_reply_lem :
      (after pid uid : ℕ) (user : Text) (s : Service) (r : Broker × Answer)
      → r.1 ≡ answers true
      → (pam_reply env after pid uid user s r).1 ≡ some (reply_line true)
  unfolding append
  pam_reply_lem after pid uid user s (b, answers true) h = rw (env.is_whole s.audit.seq) refl
  pam_reply_lem after pid uid user s (b, answers false) h = absurd (ground arith)
  pam_reply_lem after pid uid user s (b, unanswered) h = absurd (ground arith)

  pam_request_lem :
      (now pid uid : ℕ) (req : Fields) (s : Service)
      → is_allowed uid (settings s).pam_allowed_uids ≡ true
      → get (codes "user") req ≡ str (settings s).unlock_user
      → pam_request env now (returns (pid, uid)) (returns (obj req)) s
        ≡ (s, asks pid uid (settings s).unlock_user)
  unfolding pam_request equals_text
  pam_request_lem now pid uid req s allowed user =
      rw (allowed, user, text_eq_refl (settings s).unlock_user)

  -- While a grant is held and has not expired, an allowed process that names the unlock user is
  -- told `1`.
  pub handle_pam_serves :
      (now pid uid : ℕ) (req : Fields) (ws : List Wake) (after : ℕ) (s : Service)
      → is_allowed uid (settings s).pam_allowed_uids ≡ true
      → get (codes "user") req ≡ str (settings s).unlock_user
      → now < s.broker.expires
      → (handle_pam env now (returns (pid, uid)) (returns (obj req)) ws after s).1
        ≡ some (reply_line true)
  unfolding handle_pam Broker.consume
  handle_pam_serves now pid uid req ws after s allowed user fresh =
      rw (pam_request_lem now pid uid req s allowed user) (
        pam_reply_lem after pid uid (settings s).unlock_user s
          (Broker.consume (settings s).pam_wait ws now s.broker)
          (rounds_held (now + (settings s).pam_wait) ws now s.broker fresh))
