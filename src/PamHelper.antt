-- ===== src/PamHelper.antt =====
-- pam_unlock_helper.py: what `pam_exec` runs at a login. The socket is a parameter: the outcome of
-- connecting and reading SO_PEERCRED, that of sending the request, and what each `recv(8)` brings,
-- at most 8 bytes, and none at the end of the stream.
pub mod Served
pub mod Login
use remote_unlock.Base.{
  ℕ, Bool, true, false, not, ◌||◌, List, [], ◌∷◌, ◌++◌, Text, Bytes, text_eq, ◌==◌, leb, length,
  if◌then◌else◌,
}
use remote_unlock.Outcome.{Outcome, returns, raises, timeout_error, ◌>>=◌, ◌>>◌}
use remote_unlock.Service.Pam.{reply_line}

-- `reply.endswith(b"\n")`
abbrev pub ends_line : Bytes → Bool
ends_line [] = false
ends_line (b ∷ []) = b == 10
ends_line (b ∷ c ∷ rest) = ends_line (c ∷ rest)

-- The loop on `recv(8)`: after the chunks that arrive, the next `recv` times out.
unfoldable pub receive : List Bytes → Bytes → Outcome Bytes
receive [] reply =
    if ends_line reply || leb 8 (length reply) then returns reply else raises timeout_error
receive (chunk ∷ chunks) reply =
    let more = receive chunks (reply ++ chunk) in
    if ends_line reply || leb 8 (length reply)
    then returns reply
    else if text_eq chunk []
    then returns reply
    else more

-- The `except Exception` of `request_unlock`.
abbrev pub or_false : Outcome Bool → Bool
or_false (returns b) = b
or_false (raises e) = false

-- `request_unlock`, for the uid that serves the socket.
unfoldable pub request_unlock : ℕ → Outcome ℕ → Outcome (Unit {0}) → List Bytes → Bool
unfolding receive
request_unlock expected_uid peer sent chunks = or_false (do
  peer_uid ← peer
  if not (peer_uid == expected_uid)
      then returns false
      else (sent >> (receive chunks [] >>= λ reply. returns (text_eq reply (reply_line true)))))

-- `main`: PAM_USER, the outcome of reading the configuration with the expected uid, the helper's
-- own uid, and what the socket does. The exit code.
unfoldable pub main : Text → Outcome ℕ → ℕ → Outcome ℕ → Outcome (Unit {0}) → List Bytes → ℕ
unfolding request_unlock
main user (raises e) own_uid peer sent chunks = 1
main user (returns expected_uid) own_uid peer sent chunks =
    if not (own_uid == 0) || text_eq user []
    then 1
    else if request_unlock expected_uid peer sent chunks
    then 0
    else 1
