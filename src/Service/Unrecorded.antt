-- ===== src/Service/Unrecorded.antt =====
-- What becomes of a grant when one write of the audit log fails (listener.py): the record of an
-- unlock, and the record of a login.
use remote_unlock.Base.{
  ℕ, ◌+◌, ◌<◌, ◌≡◌, refl, ap, Bool, true, false, some, List, Text, codes, arith,
}
use remote_unlock.Audit.{Write, whole, refused, unsynced, torn, torn_raising, append}
use remote_unlock.Config.{Device}
use remote_unlock.Broker
use remote_unlock.Broker.{Wake, Broker, answers}
use remote_unlock.Broker.Waiting.{rounds_taken}
use remote_unlock.Service.State.{Env, Service, settings, try_record}
use remote_unlock.Service.Session.{authorized, authorized_data}
use remote_unlock.Service.Pam.{pam_reply_with, reply_line}

-- The calls of a write that raise.
abbrev pub raising : Write → Bool
raising whole = false
raising refused = true
raising unsynced = true
raising torn = false
raising torn_raising = true

module _ {PrivateKey PublicKey : Type 0} (env : Env PrivateKey PublicKey) where
  -- The service after step 3 of `_session`, when its record raises.
  abbrev unrecorded : Write → ℕ → Text → Device → Service → Service
  unrecorded w now ip device s =
      (try_record env w now (codes "unlock_authorized")
        (some (codes "Unlock AUTHORIZED", codes "high")) (authorized_data env ip device s)
        (authorized env now ip device s)).0

  pam_reply_with-raising :
      (w : Write) (after pid uid : ℕ) (user : Text) (s : Service) (b : Broker)
      → raising w ≡ true
      → let p = pam_reply_with env w after pid uid user s (b, answers true) in
        (p.1 ≡ some (reply_line false)) × (p.0.broker ≡ b)
  unfolding append
  pam_reply_with-raising whole after pid uid user s b h = absurd (ground arith)
  pam_reply_with-raising refused after pid uid user s b h = (refl, refl)
  pam_reply_with-raising unsynced after pid uid user s b h = (refl, refl)
  pam_reply_with-raising torn after pid uid user s b h = absurd (ground arith)
  pam_reply_with-raising torn_raising after pid uid user s b h = (refl, refl)

  -- If the write of its record raises, a login that `consume` has answered True is told `0`, and its
  -- grant is used up all the same.
  pub unrecorded_login :
      (w : Write) (now pid uid : ℕ) (user : Text) (ws : List Wake) (after : ℕ) (s : Service)
      → let r = Broker.consume (settings s).pam_wait ws now s.broker in
        let p = pam_reply_with env w after pid uid user s r in
        raising w ≡ true
        → now < s.broker.expires
        → (r.1 ≡ answers true) × (p.1 ≡ some (reply_line false)) × (p.0.broker.expires ≡ 0)
  unfolding Broker.consume
  unrecorded_login w now pid uid user ws after s h fresh =
      let taken : Broker = record s.broker { expires = 0; event = false } in
      let (denied_, left) = pam_reply_with-raising w after pid uid user s taken h in
      rw (rounds_taken (now + (settings s).pam_wait) ws now s.broker fresh)
        (refl, denied_, ap (λ b. b.expires) left)
