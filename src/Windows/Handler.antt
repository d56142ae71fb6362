-- ===== src/Windows/Handler.antt =====
-- windows/listener_windows.py, `handler` from the response on, with what it sends, signals to the
-- credential provider and runs. Sending and running succeed.
use remote_unlock.Base.{
  Bool-cases, ◌⊎◌, inl, inr, ℕ, ◌≡◌, Bool, true, false, not, Option, none, some, List, [], ◌∷◌,
  Text, codes, if◌then◌else◌, arith,
}
use remote_unlock.Json.{Json, str, Fields, find, get}
use remote_unlock.Outcome.{
  Outcome-cases, Outcome, returns, raises, Exception, timeout_error, key_error, value_error, ◌>>=◌,
  handle,
}
use remote_unlock.Audit.{equals_text}
use remote_unlock.Client.{item}
use remote_unlock.Protocol.Signature.{Crypto}
use remote_unlock.Windows.{Tables, rate_limited, record_failure, verify}

pub data Effect : Type 0 where
  -- the result message
  sends : Bool → Effect
  -- `signal_credential_provider`, with the Windows password on success
  signals : Option Text → Effect
  alerts : Text → Effect
  shuts_down : Effect

-- The response as `verify` is given it: its nonce, if that is a text, and the rest. A signature that
-- is no text makes `bytes.fromhex` raise, as a text that is not hexadecimal does.
abbrev pub text_or_bad : Json → Text
text_or_bad (str t) = t
text_or_bad _ = codes "x"

abbrev pub nonce_text : Json → Option Text
nonce_text (str t) = some t
nonce_text _ = none

-- `msg.get("action", "unlock")`
abbrev pub action_of : Fields → Json
action_of msg = elim (find (codes "action") msg) [ none ↦ str (codes "unlock") | some j ↦ j ]

-- The effects of the `except` clauses of `handler`; another exception ends it without an effect.
abbrev pub on_error : Exception → List Effect
on_error timeout_error = signals none ∷ []
on_error key_error = signals none ∷ []
on_error value_error = signals none ∷ []
on_error _ = []

-- After `verify`, for an unlock and for a shutdown.
abbrev pub after_unlock : Text → Bool → List Effect
after_unlock password true =
    sends true ∷ signals (some password) ∷ alerts (codes "unlock_success") ∷ []
after_unlock password false = sends false ∷ signals none ∷ alerts (codes "unlock_failed") ∷ []

abbrev pub after_shutdown : Bool → List Effect
after_shutdown true = sends true ∷ shuts_down ∷ alerts (codes "shutdown_triggered") ∷ []
after_shutdown false = sends false ∷ alerts (codes "shutdown_rejected") ∷ []

-- Whether the password is given out.
abbrev pub gives_out : List Effect → Bool
gives_out [] = false
gives_out (signals (some p) ∷ es) = true
gives_out (e ∷ es) = gives_out es

-- Whether the machine is shut down.
abbrev pub turns_off : List Effect → Bool
turns_off [] = false
turns_off (shuts_down ∷ es) = true
turns_off (e ∷ es) = turns_off es

module _ {PrivateKey PublicKey : Type 0} (c : Crypto PrivateKey PublicKey) (float_text : ℕ → Text)
    (to_float : Json → Outcome ℕ) where
  -- `verify` on the values of the message. A nonce that is no text is unknown.
  abbrev pub verify_values : PublicKey → ℕ → Text → Option Text → ℕ → Text → Tables → Tables × Bool
  verify_values key now action none timestamp signature s =
      if (rate_limited now s).1
      then ((rate_limited now s).0, false)
      else (record_failure now (rate_limited now s).0, false)
  verify_values key now action (some nonce) timestamp signature s =
      verify c float_text key now
        (record {
          nonce = nonce;
          timestamp = timestamp;
          signature_hex = signature;
          action = action;
        })
        s

  -- The call of `verify`: a missing value or a bad timestamp raises.
  unfoldable pub verify_message : PublicKey → ℕ → Text → Fields → Tables → Outcome (Tables × Bool)
  unfolding item
  verify_message key now action msg s = do
    nonce ← item (codes "nonce") msg
    raw ← item (codes "timestamp") msg
    timestamp ← to_float raw
    signature ← item (codes "signature") msg
    returns (verify_values key now action (nonce_text nonce) timestamp (text_or_bad signature) s)

  -- `handler`, from a decoded message on.
  unfoldable pub on_message : PublicKey → ℕ → Bool → Text → Fields → Tables → Tables × List Effect
  on_message key now shutdown_enabled password msg s =
      if not (equals_text (get (codes "type") msg) (codes "response"))
      then (s, sends false ∷ [])
      else if equals_text (action_of msg) (codes "unlock")
      then handle (verify_message key now (codes "unlock") msg s)
          (λ r. (r.0, after_unlock password r.1)) (λ e. (s, on_error e))
      else if not (equals_text (action_of msg) (codes "shutdown"))
      then (s, sends false ∷ [])
      else if not shutdown_enabled
      then (s, sends false ∷ alerts (codes "shutdown_rejected") ∷ [])
      else handle (verify_message key now (codes "shutdown") msg s) (λ r. (r.0, after_shutdown r.1))
          (λ e. (s, on_error e))

  -- The message is a response that `verify` accepts for the action, which it names.
  pub record Verified (key : PublicKey) (now : ℕ) (action : Text) (msg : Fields) (s : Tables)
      : Type 0 where
    pub tables : Tables
    pub response : equals_text (get (codes "type") msg) (codes "response") ≡ true
    pub asked : equals_text (action_of msg) action ≡ true
    pub verified : verify_message key now action msg s ≡ returns (tables, true)

  on_error-gives : (e : Exception) → gives_out (on_error e) ≡ true → ⊥
  on_error-gives timeout_error h = ground arith
  on_error-gives key_error h = ground arith
  on_error-gives value_error h = ground arith
  on_error-gives e h = ground arith

  on_error-turns : (e : Exception) → turns_off (on_error e) ≡ true → ⊥
  on_error-turns timeout_error h = ground arith
  on_error-turns key_error h = ground arith
  on_error-turns value_error h = ground arith
  on_error-turns e h = ground arith

  -- What `verify` says of a message, for an action: accepted, refused, or an exception.
  abbrev Ends : PublicKey → ℕ → Text → Fields → Tables → Type 0
  Ends key now action msg s =
      ((tables : Tables) × (verify_message key now action msg s ≡ returns (tables, true)))
      ⊎ ((tables : Tables) × (verify_message key now action msg s ≡ returns (tables, false)))
      ⊎ ((e : Exception) × (verify_message key now action msg s ≡ raises e))

  verify-Ends :
      (key : PublicKey) (now : ℕ) (action : Text) (msg : Fields) (s : Tables)
      → Ends key now action msg s
  verify-Ends key now action msg s = elim (Outcome-cases (verify_message key now action msg s)) [
    | inl ((tables, true), v) ↦ inl (tables, v)
    | inl ((tables, false), v) ↦ inr (inl (tables, v))
    | inr (e, v) ↦ inr (inr (e, v))
  ]

  -- The password is given out only for a response that `verify` accepts for an unlock.
  pub on_message_gives :
      (key : PublicKey) (now : ℕ) (shutdown_enabled : Bool) (password : Text) (msg : Fields)
      (s : Tables)
      → gives_out (on_message key now shutdown_enabled password msg s).1 ≡ true
      → Verified key now (codes "unlock") msg s
  unfolding on_message
  on_message_gives key now shutdown_enabled password msg s h =
      elim (Bool-cases (equals_text (get (codes "type") msg) (codes "response"))) [
        | inr other ↦ absurd (ground arith)
        | inl typed ↦ elim (Bool-cases (equals_text (action_of msg) (codes "unlock"))) [
          | inl unlock ↦ elim (verify-Ends key now (codes "unlock") msg s) [
            | inl (tables, v) ↦ record {
              tables = tables;
              response = typed;
              asked = unlock;
              verified = v;
            }
            | inr (inl (tables, v)) ↦ absurd (ground arith)
            | inr (inr (e, v)) ↦ absurd (on_error-gives e (ground arith))
          ]
          | inr other ↦ elim (verify-Ends key now (codes "shutdown") msg s) [
            | inl (tables, v) ↦ absurd (ground arith)
            | inr (inl (tables, v)) ↦ absurd (ground arith)
            | inr (inr (e, v)) ↦ absurd (ground (arith, on_error-gives e))
          ]
        ]
      ]

  -- The machine is shut down only if that is enabled, and for a response that `verify` accepts for a
  -- shutdown.
  pub on_message_turns :
      (key : PublicKey) (now : ℕ) (shutdown_enabled : Bool) (password : Text) (msg : Fields)
      (s : Tables)
      → turns_off (on_message key now shutdown_enabled password msg s).1 ≡ true
      → (shutdown_enabled ≡ true) × Verified key now (codes "shutdown") msg s
  unfolding on_message
  on_message_turns key now shutdown_enabled password msg s h =
      elim (Bool-cases (equals_text (get (codes "type") msg) (codes "response"))) [
        | inr other ↦ absurd (ground arith)
        | inl typed ↦ elim (Bool-cases (equals_text (action_of msg) (codes "unlock"))) [
          | inl unlock ↦ elim (verify-Ends key now (codes "unlock") msg s) [
            | inl (tables, v) ↦ absurd (ground arith)
            | inr (inl (tables, v)) ↦ absurd (ground arith)
            | inr (inr (e, v)) ↦ absurd (on_error-turns e (ground arith))
          ]
          | inr other ↦ elim (Bool-cases (equals_text (action_of msg) (codes "shutdown"))) [
            | inr neither ↦ absurd (ground arith)
            | inl shutdown ↦ elim (Bool-cases shutdown_enabled) [
              | inr off ↦ absurd (ground arith)
              | inl on ↦ elim (verify-Ends key now (codes "shutdown") msg s) [
                | inl (tables, v) ↦ (
                  on,
                  record { tables = tables; response = typed; asked = shutdown; verified = v },
                )
                | inr (inl (tables, v)) ↦ absurd (ground arith)
                | inr (inr (e, v)) ↦ absurd (on_error-turns e (ground arith))
              ]
            ]
          ]
        ]
      ]
