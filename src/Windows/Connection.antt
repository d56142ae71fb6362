-- ===== src/Windows/Connection.antt =====
-- A connection of windows/listener_windows.py: `handler` as the two pieces before and after it waits
-- for the response, with `signal_credential_provider`, `trigger_shutdown` and `send_alert`, up to
-- what reaches the peer, the pipe and the system.
use remote_unlock.Base.{
  ℕ, suc, ◌<◌, ◌≡◌, ◌==◌, ◌||◌, refl, Bool, true, false, Option, none, some, List, [], ◌∷◌, ◌++◌,
  Text, Bytes, codes, arith, if◌then◌else◌, inl, inr,
}
use remote_unlock.Json.{Json, obj, str, Fields, field, end}
use remote_unlock.Outcome.{Outcome, returns, raises, Exception, handle, ◌>>=◌, Outcome-cases}
use remote_unlock.Protocol.Signature.{Crypto}
use remote_unlock.Windows.{Tables, issue_challenge}
use remote_unlock.Windows.Handler.{
  Effect, sends, signals, alerts, shuts_down, on_error, on_message, Verified, gives_out, turns_off,
  on_message_gives, on_message_turns,
}

-- Whether CreateFile and WriteFile on the pipe succeed; each raises pywintypes.error otherwise.
pub record Pipe : Type 0 where
  pub opens : Bool
  pub takes : Bool

-- What a connection brings about: the results that are sent, the writes to the pipe, how often the
-- shutdown command is run, and the alerts that are asked for.
pub record Observed : Type 0 where
  pub results : List Bool
  pub writes : List Bytes
  pub shutdowns : ℕ
  pub asked : List Text

abbrev pub nothing : Observed
nothing = record { results = []; writes = []; shutdowns = 0; asked = [] }

-- `bytes` that `signal_credential_provider` writes: 1 and the password, or 0.
abbrev pub payload : (Text → Bytes) → Option Text → Bytes
payload encode none = 0 ∷ []
payload encode (some password) = 1 ∷ encode password

-- `signal_credential_provider`: the writes that reach the pipe. An error of pywin32 is logged.
unfoldable pub signal_credential_provider : (Text → Bytes) → Pipe → Option Text → List Bytes
signal_credential_provider encode pipe password =
    if pipe.opens then (if pipe.takes then payload encode password ∷ [] else []) else []

-- The `except` clauses of `handler`.
abbrev pub interrupted : (Text → Bytes) → Pipe → List Effect → Observed
interrupted encode pipe (signals password ∷ []) = record nothing {
  writes = signal_credential_provider encode pipe password;
}
interrupted encode pipe _ = nothing

-- The effects of `handler`, one after the other. If the result cannot be sent, the rest is not done.
-- `trigger_shutdown` and `send_alert` catch every exception.
unfoldable pub perform : (Text → Bytes) → Pipe → Outcome (Unit {0}) → List Effect → Observed
unfolding signal_credential_provider
perform encode pipe sent [] = nothing
perform encode pipe sent (sends ok ∷ es) =
    let rest = perform encode pipe sent es in
    handle sent (λ _. record rest { results = ok ∷ rest.results })
      (λ e. interrupted encode pipe (on_error e))
perform encode pipe sent (signals password ∷ es) =
    let rest = perform encode pipe sent es in
    record rest { writes = signal_credential_provider encode pipe password ++ rest.writes }
perform encode pipe sent (alerts kind ∷ es) =
    let rest = perform encode pipe sent es in record rest { asked = kind ∷ rest.asked }
perform encode pipe sent (shuts_down ∷ es) =
    let rest = perform encode pipe sent es in record rest { shutdowns = suc rest.shutdowns }

-- A write that lets the user in begins with 1.
abbrev pub lets_in : List Bytes → Bool
lets_in [] = false
lets_in ([] ∷ ws) = lets_in ws
lets_in ((b ∷ bs) ∷ ws) = (b == 1) || lets_in ws

lets_in-signal :
    (encode : Text → Bytes) (pipe : Pipe) (ws : List Bytes)
    → lets_in (signal_credential_provider encode pipe none ++ ws) ≡ lets_in ws
unfolding signal_credential_provider
lets_in-signal encode pipe ws = ground arith

interrupted-quiet :
    (encode : Text → Bytes) (pipe : Pipe) (e : Exception)
    → (lets_in (interrupted encode pipe (on_error e)).writes ≡ false)
      × ((interrupted encode pipe (on_error e)).shutdowns ≡ 0)
unfolding signal_credential_provider
interrupted-quiet encode pipe Exception.timeout_error = ground arith
interrupted-quiet encode pipe Exception.key_error = ground arith
interrupted-quiet encode pipe Exception.value_error = ground arith
interrupted-quiet encode pipe e = ground arith

-- A write that lets the user in was an effect of the handler.
lets_in-perform :
    (encode : Text → Bytes) (pipe : Pipe) (sent : Outcome (Unit {0})) (es : List Effect)
    → lets_in (perform encode pipe sent es).writes ≡ true
    → gives_out es ≡ true
unfolding perform
lets_in-perform encode pipe sent [] h = ground arith
lets_in-perform encode pipe (returns u) (sends ok ∷ es) h =
    lets_in-perform encode pipe (returns u) es h
lets_in-perform encode pipe (raises e) (sends ok ∷ es) h =
    absurd (ground (arith, (interrupted-quiet encode pipe e).0))
lets_in-perform encode pipe sent (signals none ∷ es) h = ground (
  arith,
  lets_in-perform encode pipe sent es,
  lets_in-signal encode pipe (perform encode pipe sent es).writes,
)
lets_in-perform encode pipe sent (signals (some p) ∷ es) h = refl
lets_in-perform encode pipe sent (alerts kind ∷ es) h = lets_in-perform encode pipe sent es h
lets_in-perform encode pipe sent (shuts_down ∷ es) h = lets_in-perform encode pipe sent es h

-- A run of the shutdown command was an effect of the handler.
shutdowns-perform :
    (encode : Text → Bytes) (pipe : Pipe) (sent : Outcome (Unit {0})) (es : List Effect)
    → 0 < (perform encode pipe sent es).shutdowns
    → turns_off es ≡ true
unfolding perform
shutdowns-perform encode pipe sent [] h = absurd (omega (arith, h))
shutdowns-perform encode pipe (returns u) (sends ok ∷ es) h =
    shutdowns-perform encode pipe (returns u) es h
shutdowns-perform encode pipe (raises e) (sends ok ∷ es) h =
    absurd (omega (arith, h, (interrupted-quiet encode pipe e).1))
shutdowns-perform encode pipe sent (signals none ∷ es) h = shutdowns-perform encode pipe sent es h
shutdowns-perform encode pipe sent (signals (some p) ∷ es) h =
    shutdowns-perform encode pipe sent es h
shutdowns-perform encode pipe sent (alerts kind ∷ es) h = shutdowns-perform encode pipe sent es h
shutdowns-perform encode pipe sent (shuts_down ∷ es) h = refl

module _ {PrivateKey PublicKey : Type 0} (c : Crypto PrivateKey PublicKey) (float_text : ℕ → Text)
    (to_float : Json → Outcome ℕ) (float_json : ℕ → Json) (loads : Text → Outcome Json)
    (encode : Text → Bytes) where
  -- `handler` up to the wait: the challenge that is sent.
  unfoldable pub on_connect : PrivateKey → Bytes → ℕ → ℕ → Tables → Tables × Fields
  on_connect key token random now s =
      let (s', nonce, signature) = issue_challenge c float_text key token random now s in
      (
        s',
        field (codes "type") (str (codes "challenge")) (
            field (codes "nonce") (str nonce) (
              field (codes "timestamp") (float_json now)
                (field (codes "signature") (str signature) end))),
      )

  -- A decoded message; `msg.get` of a value that is no object raises what `handler` does not catch.
  abbrev pub on_value : PublicKey → ℕ → Bool → Text → Json → Tables → Tables × List Effect
  on_value key now shutdown_enabled password (obj msg) s =
      on_message c float_text to_float key now shutdown_enabled password msg s
  on_value key now shutdown_enabled password _ s = (s, [])

  -- `handler` from the wait on, for what it receives and how the sending of the result ends.
  unfoldable pub on_receive :
      PublicKey
      → ℕ
      → Bool
      → Text
      → Outcome Text
      → Outcome (Unit {0})
      → Pipe
      → Tables
      → Tables × Observed
  unfolding perform
  on_receive key now shutdown_enabled password received sent pipe s =
      handle (received >>= loads)
        (λ value.
          let (s', effects) = on_value key now shutdown_enabled password value s in
          (s', perform encode pipe sent effects))
        (λ e. (s, interrupted encode pipe (on_error e)))

  -- What is received is an object that `verify` accepts for the action.
  abbrev pub Received : PublicKey → ℕ → Text → Outcome Text → Tables → Type 0
  Received key now action received s =
      (msg : Fields) × ((received >>= loads) ≡ returns (obj msg))
      × Verified c float_text to_float key now action msg s

  -- The pipe is told to let the user in only if what is received is a response that was verified for
  -- an unlock, which it asks for.
  pub on_receive-lets_in :
      (key : PublicKey) (now : ℕ) (shutdown_enabled : Bool) (password : Text)
      (received : Outcome Text) (sent : Outcome (Unit {0})) (pipe : Pipe) (s : Tables)
      → lets_in (on_receive key now shutdown_enabled password received sent pipe s).1.writes ≡ true
      → Received key now (codes "unlock") received s
  unfolding on_receive
  on_receive-lets_in key now shutdown_enabled password received sent pipe s h =
      elim (Outcome-cases (received >>= loads)) [
        | inr (e, r) ↦ absurd (ground (arith, (interrupted-quiet encode pipe e).0))
        | inl (obj msg, r) ↦
            let es = (on_message c float_text to_float key now shutdown_enabled password msg s).1 in
            let did : lets_in (perform encode pipe sent es).writes ≡ true = rw r at h in
            (
              msg,
              r,
              on_message_gives c float_text to_float key now shutdown_enabled password msg s
                  (lets_in-perform encode pipe sent es did),
            )
        | inl (v, r) ↦ absurd (ground arith)
      ]

  -- The shutdown command is run only if that is enabled, and what is received is a response that was
  -- verified for a shutdown, which it asks for.
  pub on_receive-shutdowns :
      (key : PublicKey) (now : ℕ) (shutdown_enabled : Bool) (password : Text)
      (received : Outcome Text) (sent : Outcome (Unit {0})) (pipe : Pipe) (s : Tables)
      → 0 < (on_receive key now shutdown_enabled password received sent pipe s).1.shutdowns
      → (shutdown_enabled ≡ true) × Received key now (codes "shutdown") received s
  unfolding on_receive
  on_receive-shutdowns key now shutdown_enabled password received sent pipe s h =
      elim (Outcome-cases (received >>= loads)) [
        | inr (e, r) ↦ absurd (ground (arith, (interrupted-quiet encode pipe e).1))
        | inl (obj msg, r) ↦
            let es = (on_message c float_text to_float key now shutdown_enabled password msg s).1 in
            let did : 0 < (perform encode pipe sent es).shutdowns = rw r at h in
            let (on, v) =
              on_message_turns c float_text to_float key now shutdown_enabled password msg s
                (shutdowns-perform encode pipe sent es did) in
            (on, (msg, r, v))
        | inl (v, r) ↦ absurd (ground arith)
      ]
