-- ===== src/PamHelper/Served.antt =====
-- When `main` (pam_unlock_helper.py) lets the login pass.
use remote_unlock.Base.{
  ℕ, ◌≡◌, refl, ◌≢◌, inl, inr, Bool, true, false, ◌||◌, List, [], ◌∷◌, ◌++◌, Text, Bytes, text_eq,
  text_eq_iff, ◌==◌, leb, length, All, arith, if◌then◌else◌, Bool-cases, ap, sym, ◌∙◌,
}
use mathlib.Core.List.{append-nil, append_assoc}
use remote_unlock.Outcome.{Outcome, returns, raises, Outcome-cases}
use remote_unlock.Service.Pam.{reply_line}
use remote_unlock.PamHelper.{ends_line, receive, request_unlock, main}

abbrev pub concat : List Bytes → Bytes
concat [] = []
concat (chunk ∷ chunks) = chunk ++ concat chunks

-- What `receive` returns is made of the first chunks.
receive-prefix :
    (chunks : List Bytes) (reply result : Bytes)
    → receive chunks reply ≡ returns result
    → (taken rest : List Bytes) × (chunks ≡ taken ++ rest) × (result ≡ reply ++ concat taken)
unfolding receive
receive-prefix [] reply result h = ([], [], refl, ground (arith, append-nil reply))
receive-prefix (chunk ∷ chunks) reply result h =
    elim (Bool-cases (ends_line reply || leb 8 (length reply))) [
      | inl stop ↦ ([], chunk ∷ chunks, refl, ground (arith, append-nil reply))
      | inr go ↦ elim (Bool-cases (text_eq chunk [])) [
        | inl e ↦ ([], chunk ∷ chunks, refl, ground (arith, append-nil reply))
        | inr e ↦
            let (taken, rest, splits, is) =
              receive-prefix chunks (reply ++ chunk) result (ground arith) in
            (
              chunk ∷ taken,
              rest,
              ap (◌∷◌ chunk) splits,
              is ∙ append_assoc reply chunk (concat taken),
            )
      ]
    ]

-- Why the helper lets the login pass.
pub record Served (expected_uid : ℕ) (peer : Outcome ℕ) (chunks : List Bytes) : Type 0 where
  pub peer_uid : peer ≡ returns expected_uid
  pub taken : List Bytes
  pub rest : List Bytes
  pub splits : chunks ≡ taken ++ rest
  pub one : concat taken ≡ reply_line true

request_unlock-true :
    (expected_uid : ℕ) (peer : Outcome ℕ) (sent : Outcome (Unit {0})) (chunks : List Bytes)
    → request_unlock expected_uid peer sent chunks ≡ true
    → Served expected_uid peer chunks
unfolding request_unlock
request_unlock-true expected_uid (raises e) sent chunks h = absurd (ground arith)
request_unlock-true expected_uid (returns uid) (raises e) chunks h = absurd (ground arith)
request_unlock-true expected_uid (returns uid) (returns u) chunks h =
    elim (Outcome-cases (receive chunks [])) [
      | inr (e, q) ↦ absurd (ground arith)
      | inl (reply, q) ↦
          let (taken, rest, splits, is) = receive-prefix chunks [] reply q in
          record {
            peer_uid = ap returns (ground arith);
            taken = taken;
            rest = rest;
            splits = splits;
            one = sym is ∙ ground (arith, text_eq_iff reply (reply_line true));
          }
    ]

-- The exit code is 0 only for root, for a named user, with a readable configuration, and when the
-- configured service user serves the socket and its bytes start with `1` and a newline.
pub main_zero :
    (user : Text) (config : Outcome ℕ) (own_uid : ℕ) (peer : Outcome ℕ) (sent : Outcome (Unit {0}))
    (chunks : List Bytes)
    → main user config own_uid peer sent chunks ≡ 0
    → (expected_uid : ℕ) × (config ≡ returns expected_uid)
      × (own_uid ≡ 0)
      × (user ≢ [])
      × Served expected_uid peer chunks
unfolding main
main_zero user (raises e) own_uid peer sent chunks h = absurd (ground arith)
main_zero user (returns expected_uid) own_uid peer sent chunks h = (
  expected_uid,
  refl,
  ground arith,
  (λ e. ground (arith, (text_eq_iff user []).1 e)),
  request_unlock-true expected_uid peer sent chunks (ground arith),
)

receive_ended :
    (chunks : List Bytes) (reply : Bytes)
    → ends_line reply ≡ true
    → receive chunks reply ≡ returns reply
unfolding receive
receive_ended [] reply h = ground arith
receive_ended (chunk ∷ chunks) reply h = ground arith

two_lem :
    (ok : Bool) (x y : ℕ) (c t : Bytes)
    → x ∷ y ∷ (c ++ t) ≡ reply_line ok
    → x ∷ y ∷ c ≡ reply_line ok
two_lem true x y [] t h = ground arith
two_lem false x y [] t h = ground arith
two_lem true x y (z ∷ c) t h = absurd (ground arith)
two_lem false x y (z ∷ c) t h = absurd (ground arith)

reply_line_ends : (ok : Bool) → ends_line (reply_line ok) ≡ true
reply_line_ends true = refl
reply_line_ends false = refl

receive_whole :
    (ok : Bool) (chunks : List Bytes) (reply : Bytes)
    → reply ≡ reply_line ok
    → receive chunks reply ≡ returns (reply_line ok)
receive_whole ok chunks reply h =
    receive_ended chunks reply (ap ends_line h ∙ reply_line_ends ok) ∙ ap returns h

first_lem : (ok : Bool) (x y : ℕ) (c : Bytes) → x ∷ y ∷ c ≡ reply_line ok → (x == 10) ≡ false
first_lem true x y c h = ground arith
first_lem false x y c h = ground arith

receive_reply :
    (ok : Bool) (chunks : List Bytes)
    → All (λ chunk. chunk ≢ []) chunks
    → concat chunks ≡ reply_line ok
    → receive chunks [] ≡ returns (reply_line ok)
unfolding receive text_eq
receive_reply true [] full whole = absurd (ground arith)
receive_reply false [] full whole = absurd (ground arith)
receive_reply ok ([] ∷ cs) full whole = absurd (full.0 refl)
receive_reply true ((x ∷ []) ∷ []) full whole = absurd (ground arith)
receive_reply false ((x ∷ []) ∷ []) full whole = absurd (ground arith)
receive_reply ok ((x ∷ []) ∷ [] ∷ cs) full whole = absurd (full.1.0 refl)
receive_reply ok ((x ∷ []) ∷ (y ∷ c) ∷ cs) full whole =
    let q = two_lem ok x y c (concat cs) whole in
    ground (arith, first_lem ok x y c q, receive_whole ok cs (x ∷ y ∷ c) q)
receive_reply ok ((x ∷ y ∷ c) ∷ cs) full whole =
    receive_whole ok cs (x ∷ y ∷ c) (two_lem ok x y c (concat cs) whole)

reply_lem :
    (ok : Bool)
    → ◌≡◌ {A = ℕ} (if text_eq (reply_line ok) (reply_line true) then 0 else 1) (if ok then 0 else 1)
unfolding text_eq
reply_lem true = refl
reply_lem false = refl

nat_eq_refl : (n : ℕ) → (n == n) ≡ true
nat_eq_refl n = ground arith

-- For a named user, run as root with the configured user on the socket, the helper exits with 0 for
-- `1` and with 1 for `0`, however the reply of the listener is cut into chunks that are not empty.
pub main_reads_reply :
    (user : Text) (expected_uid : ℕ) (ok : Bool) (chunks : List Bytes)
    → user ≢ []
    → All (λ chunk. chunk ≢ []) chunks
    → concat chunks ≡ reply_line ok
    → main user (returns expected_uid) 0 (returns expected_uid) (returns tt) chunks
      ≡ (if ok then 0 else 1)
unfolding main request_unlock
main_reads_reply user expected_uid ok chunks named full whole =
    elim (Bool-cases (text_eq user [])) [
      | inl e ↦ absurd (named ((text_eq_iff user []).0 e))
      | inr e ↦ rw (e, receive_reply ok chunks full whole, nat_eq_refl expected_uid) (reply_lem ok)
    ]
