-- ===== src/PamHelper/Login.antt =====
-- A login from the phone to the exit code: `on_response` and `handle_pam` of listener.py, and `main`
-- of pam_unlock_helper.py.
use remote_unlock.Base.{
  ℕ, ◌+◌, ◌≤◌, ◌<◌, ◌≡◌, sym, ◌∙◌, ap, ◌≢◌, some, List, [], ◌∷◌, Text, Bytes, codes, All, arith,
  true, inl, inr,
}
use remote_unlock.Json.{Json, Fields, str, obj, get}
use remote_unlock.Outcome.{Outcome, returns}
use remote_unlock.Config.{Device}
use remote_unlock.Broker
use remote_unlock.Broker.{Wake, Broker}
use remote_unlock.Broker.Safety.{held}
use remote_unlock.Broker.Waiting.{issued_over}
use remote_unlock.Service.State.{Env, Service, settings}
use remote_unlock.Service.Session.{Frame, on_response, result}
use remote_unlock.Service.Session.Grants.{on_response_grants}
use remote_unlock.Service.Session.Counted.{on_response-Accounts}
use remote_unlock.Service.Pam.{handle_pam, reply_line, is_allowed}
use remote_unlock.Service.Pam.Answers.{handle_pam_serves, handle_pam-true}
use remote_unlock.PamHelper.{main}
use remote_unlock.PamHelper.Served.{concat, main_reads_reply}

held-le-1 : (b : Broker) → held b ≤ 1
unfolding held
held-le-1 b = ground arith

module _ {PrivateKey PublicKey : Type 0} (env : Env PrivateKey PublicKey) where
  told-Granted :
      (now : ℕ) (ip : Text) (device : Device) (frame : Outcome Frame) (s : Service)
      → (on_response env now ip device frame s).1 ≡ result true ∷ []
      → (on_response env now ip device frame s).0.broker ≡ Broker.issue now s.broker
  told-Granted now ip device frame s told = elim (on_response_grants env now ip device frame s) [
    | inl (resp, r, typed, v, (said, issued)) ↦ issued
    | inr refused ↦ absurd (refused.quiet told)
  ]

  -- A login that has a grant leaves none behind.
  spent-login :
      (now : ℕ) (peer : Outcome (ℕ × ℕ)) (line : Outcome Json) (after : ℕ) (s : Service)
      → (handle_pam env now peer line [] after s).1 ≡ some (reply_line true)
      → held (handle_pam env now peer line [] after s).0.broker ≡ 0
  spent-login now peer line after s h =
      omega (arith, (handle_pam-true env now peer line [] after s h).1, held-le-1 s.broker)

  refused-login :
      (now : ℕ) (peer : Outcome (ℕ × ℕ)) (line : Outcome Json) (ws : List Wake) (after : ℕ)
      (s : Service)
      → held s.broker ≡ 0
      → issued_over ws ≡ 0
      → (handle_pam env now peer line ws after s).1 ≢ some (reply_line true)
  refused-login now peer line ws after s h i =
      λ e. omega (arith, (handle_pam-true env now peer line ws after s e).1, h, i)

  -- While every write of the audit log succeeds, if a phone is told that it may unlock, and the helper of a login, run as root for a named user,
  -- asks next, before the time of the grant has passed, over a socket that the service user serves,
  -- where root is allowed and the user is the unlock user, then the helper exits with 0, however
  -- the reply is cut into chunks that are not empty; and no request that comes next is told `1`, if
  -- no unlock happens while it waits.
  pub unlock_then_one_login :
      (now : ℕ) (ip : Text) (device : Device) (frame : Outcome Frame) (s : Service) (asked pid : ℕ)
      (req : Fields) (after : ℕ) (user : Text) (expected_uid : ℕ) (chunks : List Bytes) (next : ℕ)
      (peer : Outcome (ℕ × ℕ)) (line : Outcome Json) (ws : List Wake) (last : ℕ)
      → let unlocked = on_response env now ip device frame s in
        let served =
          handle_pam env asked (returns (pid, 0)) (returns (obj req)) [] after unlocked.0 in
        unlocked.1 ≡ result true ∷ []
        → asked < now + s.broker.ttl
        → is_allowed 0 (settings s).pam_allowed_uids ≡ true
        → get (codes "user") req ≡ str (settings s).unlock_user
        → user ≢ []
        → All (λ chunk. chunk ≢ []) chunks
        → some (concat chunks) ≡ served.1
        → issued_over ws ≡ 0
        → (main user (returns expected_uid) 0 (returns expected_uid) (returns tt) chunks ≡ 0)
          × ((handle_pam env next peer line ws last served.0).1 ≢ some (reply_line true))
  unfolding Broker.issue
  unlock_then_one_login now ip device frame s asked pid req after user expected_uid chunks next peer
        line ws last told in_time root named present full whole quiet =
      let p = on_response env now ip device frame s in
      let same = (on_response-Accounts env now ip device frame s).config in
      let granted = told-Granted now ip device frame s told in
      let served : (handle_pam env asked (returns (pid, 0)) (returns (obj req)) [] after p.0).1
          ≡ some (reply_line true) =
        handle_pam_serves env asked pid 0 req [] after p.0
          (ap (λ c. is_allowed 0 c.settings.pam_allowed_uids) same ∙ root)
          (named ∙ ap (λ c. str c.settings.unlock_user) (sym same))
          (omega (arith, in_time, ap (λ b. b.expires) granted)) in
      (
        main_reads_reply user expected_uid true chunks present full
            (ground (arith, whole ∙ served)),
        refused-login next peer line ws last _
            (spent-login asked (returns (pid, 0)) (returns (obj req)) after p.0 served) quiet,
      )
