-- ===== src/Service/Messages.antt =====
-- What a connection of listener.py sends and receives, what it waits for, and the texts of its audit
-- records.
use remote_unlock.Base.{ℕ, Bool, true, false, Option, none, some, List, ◌++◌, Text, Bytes, codes}
use remote_unlock.Json.{Json, null, str}
use remote_unlock.Outcome.{Exception}
use remote_unlock.Config.{Device}
use remote_unlock.Service.State.{Service}
use remote_unlock.Service.Challenge.{
  Reason, malformed_nonce, unknown_or_replayed_nonce, nonce_issued_to_other_device,
  challenge_expired, bad_signature, no_registered_client_certificate, bad_hello,
  unknown_device_or_id_mismatch, bad_response_type, internal_error, malformed_or_late,
  ChallengeMessage,
}

-- What goes to the peer: a message, or the code of a `close`.
pub data Output : Type 0 where
  challenge : ChallengeMessage → Output
  result : Bool → Output
  close : ℕ → Output

-- What the connection waits for next. `cert_device` and `device` are local variables.
pub data Phase : Type 0 where
  wants_hello : Option Device → Phase
  wants_response : Device → Phase
  done : Phase

-- What `ws.recv()` delivers.
pub data Frame : Type 0 where
  binary : Bytes → Frame
  text : Text → Frame

abbrev pub Piece : Type 0
Piece = Service × List Output × Phase

-- `str(e)` has no part in the record; `type(e).__name__` stands for the exception.
abbrev pub exception_name : Exception → Text
exception_name Exception.value_error = codes "ValueError"
exception_name Exception.type_error = codes "TypeError"
exception_name Exception.key_error = codes "KeyError"
exception_name Exception.runtime_error = codes "RuntimeError"
exception_name Exception.timeout_error = codes "TimeoutError"
exception_name _ = codes "Exception"

unfoldable pub reason_text : Reason → Text
reason_text malformed_nonce = codes "malformed_nonce"
reason_text unknown_or_replayed_nonce = codes "unknown_or_replayed_nonce"
reason_text nonce_issued_to_other_device = codes "nonce_issued_to_other_device"
reason_text challenge_expired = codes "challenge_expired"
reason_text bad_signature = codes "bad_signature"
reason_text no_registered_client_certificate = codes "no_registered_client_certificate"
reason_text bad_hello = codes "bad_hello"
reason_text unknown_device_or_id_mismatch = codes "unknown_device_or_id_mismatch"
reason_text bad_response_type = codes "bad_response_type"
reason_text internal_error = codes "internal_error"
reason_text (malformed_or_late e) = codes "malformed_or_late:" ++ exception_name e

abbrev pub or_none : Option Text → Json
or_none none = null
or_none (some t) = str t

abbrev pub is_missing : Option Device → Bool
is_missing none = true
is_missing (some d) = false

abbrev pub or_zero : Option ℕ → ℕ
or_zero none = 0
or_zero (some n) = n
