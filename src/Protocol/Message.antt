-- ===== src/Protocol/Message.antt =====
-- `signed_message` of common.py. Every part is ASCII (the patterns see to it), so `encode()` keeps
-- the code points.
use remote_unlock.Base.{not, ◌||◌, ◌∷◌, ◌++◌, Text, Bytes, codes, text_eq, if◌then◌else◌}
use remote_unlock.Base.Int.{ℤ}
use remote_unlock.Outcome.{Outcome, returns, raises, value_error}
use remote_unlock.Protocol.Decimal.{show}
use remote_unlock.Protocol.Forms.{is_nonce, is_id}

-- PROTO
abbrev pub proto : Text
proto = codes "remote-unlock/v2"

abbrev pub bar : Text → Text → Text
bar part rest = part ++ (b'|' ∷ rest)

abbrev pub message : Text → Text → ℤ → Text → Text → Bytes
message role nonce issued_ms device_id target_id =
    bar proto
      (bar role (bar nonce (bar (show issued_ms) (bar device_id (bar target_id (codes "unlock"))))))

unfoldable pub signed_message : Text → Text → ℤ → Text → Text → Outcome Bytes
signed_message role nonce issued_ms device_id target_id =
    if not (text_eq role (codes "challenge") || text_eq role (codes "response"))
    then raises value_error
    else if not (is_nonce nonce)
    then raises value_error
    else if not (is_id device_id) || not (is_id target_id)
    then raises value_error
    else returns (message role nonce issued_ms device_id target_id)
