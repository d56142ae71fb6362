-- ===== src/Tests/Windows.antt =====
-- The theorems on the Windows listener.
use remote_unlock.Base.{
  ℕ, ◌+◌, ◌≤◌, ◌≡◌, refl, true, false, List, [], ◌∷◌, Text, codes, text_eq, Text-discrete, arith,
}
use remote_unlock.Base.Dict.{lookup}
use remote_unlock.Json.{Fields, Json, null, str, obj, field, end, get}
use remote_unlock.Outcome.{Outcome, returns}
use remote_unlock.Protocol.Hex.{hex_digit, hex_value, to_hex, from_hex}
use remote_unlock.Audit.{equals_text}
use remote_unlock.Windows.{
  Tables, Response, signed_bytes, rate_limited, is_used, verify, rate_limit_max_fails,
}
use remote_unlock.Windows.Accepted.{Accepted, verify-true}
use remote_unlock.Windows.Handler.{on_message, verify_message}
use remote_unlock.Windows.Runs.{Event, challenges, verifies, bit, new_tables, accepted, refused}
use remote_unlock.Windows.Runs.Once.{accepted_once}
use remote_unlock.Windows.Runs.Limit.{refused-le-max}
use remote_unlock.Windows.Connection.{
  Pipe, on_receive, Received, on_receive-lets_in, on_receive-shutdowns,
}
use remote_unlock.Tests.Data.{toy, token}

abbrev float_text : ℕ → Text
float_text n = codes "7.0"

abbrev tables : Tables
tables = record { pending_nonces = (codes "n", 5) ∷ []; used_nonces = []; fail_times = [] }

abbrev answer : Response
answer = record {
  nonce = codes "n";
  timestamp = 7;
  signature_hex =
      to_hex (toy.ecdsa_sign 5 (signed_bytes (codes "unlock") float_text 7 (codes "n")) 0);
  action = codes "unlock";
}

verify-true_example :
    Accepted toy float_text 5 8 answer tables (verify toy float_text 5 8 answer tables).0
unfolding verify text_eq lookup Text-discrete from_hex to_hex hex_digit hex_value
verify-true_example = verify-true toy float_text 5 8 answer tables refl

abbrev unlock_message : Fields
unlock_message = field (codes "type") (str (codes "response")) (
    field (codes "nonce") (str (codes "n"))
      (field (codes "timestamp") null (field (codes "signature") (str answer.signature_hex) end)))

abbrev seven : Json → Outcome ℕ
seven j = returns 7

-- The nonce is drawn, its response is accepted, and the same response is sent again.
abbrev signed_for : Text → ℕ → Response
signed_for nonce t = record {
  nonce = nonce;
  timestamp = t;
  signature_hex = to_hex (toy.ecdsa_sign 5 (signed_bytes (codes "unlock") float_text t nonce) 0);
  action = codes "unlock";
}

abbrev replayed : List Event
replayed =
    challenges token 0 100
    ∷ verifies 103 (signed_for (to_hex token) 102)
    ∷ verifies 104 (signed_for (to_hex token) 102)
    ∷ []

accepted_once_example :
    accepted toy float_text 7 5 (to_hex token) replayed new_tables
      + bit (is_used (to_hex token) new_tables.used_nonces)
    ≤ 1
accepted_once_example = accepted_once toy float_text 7 5 (to_hex token) replayed new_tables

accepted_first : accepted toy float_text 7 5 (codes "n") (verifies 8 answer ∷ []) tables ≡ 1
unfolding accepted verify text_eq lookup Text-discrete from_hex to_hex hex_digit hex_value
accepted_first = refl

-- Guesses for nonces that were never drawn.
abbrev guesses : List Event
guesses =
    verifies 100 (signed_for (codes "a") 100)
    ∷ verifies 101 (signed_for (codes "b") 101)
    ∷ verifies 102 (signed_for (codes "c") 102)
    ∷ verifies 103 (signed_for (codes "d") 103)
    ∷ verifies 104 (signed_for (codes "e") 104)
    ∷ verifies 105 (signed_for (codes "f") 105)
    ∷ []

refused-le-max_example : refused toy float_text 7 5 100 guesses new_tables ≤ rate_limit_max_fails
unfolding text_eq
refused-le-max_example =
    refused-le-max toy float_text 7 5 100 guesses 100 (omega arith)
      (refl, (refl, (refl, (refl, (refl, (refl, tt))))))

all_five : refused toy float_text 7 5 100 guesses new_tables ≡ 5
unfolding refused rate_limited verify text_eq lookup
all_five = refl

abbrev pipe : Pipe
pipe = record { opens = true; takes = true }

abbrev loads : Text → Outcome Json
loads raw = returns (obj unlock_message)

on_receive-lets_in_example :
    Received toy float_text seven
      (λ t. null)
      loads
      (λ t. t)
      5
      8
      (codes "unlock")
      (returns (codes "{}"))
      tables
unfolding on_receive on_message verify_message equals_text get Text-discrete text_eq verify lookup
    from_hex to_hex hex_digit hex_value
on_receive-lets_in_example =
    on_receive-lets_in toy float_text seven (λ t. null) loads (λ t. t) 5 8 false (codes "secret")
      (returns (codes "{}")) (returns tt) pipe tables refl

-- The same challenge is answered by a request to shut down.
abbrev shutdown_message : Fields
shutdown_message = field (codes "type") (str (codes "response")) (
    field (codes "action") (str (codes "shutdown")) (
      field (codes "nonce") (str (codes "n")) (
        field (codes "timestamp") null (
          field (codes "signature")
            (str (
              to_hex
                (toy.ecdsa_sign 5 (signed_bytes (codes "shutdown") float_text 7 (codes "n")) 0)))
            end))))

abbrev loads_shutdown : Text → Outcome Json
loads_shutdown raw = returns (obj shutdown_message)

on_receive-shutdowns_example :
    (true ≡ true)
    × Received toy float_text seven
        (λ t. null)
        loads_shutdown
        (λ t. t)
        5
        8
        (codes "shutdown")
        (returns (codes "{}"))
        tables
unfolding on_receive on_message verify_message equals_text get Text-discrete text_eq verify lookup
    from_hex to_hex hex_digit hex_value
on_receive-shutdowns_example =
    on_receive-shutdowns toy float_text seven (λ t. null) loads_shutdown (λ t. t) 5 8 true
      (codes "secret") (returns (codes "{}")) (returns tt) pipe tables (omega arith)
