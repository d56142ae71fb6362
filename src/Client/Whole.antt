-- ===== src/Client/Whole.antt =====
-- `unlock` of client_example.py as a whole, and `main` for `unlock`: what the client sends, over what
-- the listener answers.
use remote_unlock.Base.{
  ℕ, ◌≡◌, refl, ◌⊎◌, inl, inr, Bool, true, false, not, ◌||◌, List, [], ◌∷◌, Text, Bytes, codes,
  arith, Bool-cases, ap, sym, Text-discrete, text_eq,
}
use remote_unlock.Base.Int.{ℤ}
use remote_unlock.Json.{Json, str, obj, Fields, get, find, field, end}
use remote_unlock.Outcome.{
  Outcome, returns, raises, attribute_error, other_error, handle, handle_split, ◌>>=◌, raise_if,
  bind_returns, then_returns, raise_if-returns,
}
use remote_unlock.Audit.{equals_text-true, equals_text}
use remote_unlock.Protocol.Signature.{Crypto, sign, verify_sig, load_public_key}
use remote_unlock.Client.{item, hello_fields, client_message, respond, succeeded}

-- The outcomes of connecting and of the two `recv`, within their time.
pub record Link : Type 0 where
  pub connect : Outcome (Unit {0})
  pub first : Outcome Text
  pub second : Outcome Text

-- `json.loads`, where a value that is no dict has no `get`
abbrev pub loads_fields : (Text → Outcome Json) → Text → Outcome Fields
loads_fields loads raw =
    loads raw >>= λ j. elim j [ obj fs ↦ returns fs | _ ↦ raises attribute_error ]

module _ {PrivateKey PublicKey : Type 0} (c : Crypto PrivateKey PublicKey)
    (int_of : Text → Outcome ℤ) (loads : Text → Outcome Json) where
  -- `unlock`: the messages that are sent, and how it ends.
  unfoldable pub unlock :
      PrivateKey → PublicKey → Text → Text → ℕ → Link → List Fields × Outcome Bool
  unlock device_key laptop_pub device_id target_id random link =
      let hello = hello_fields device_id in
      handle link.connect
        (λ _.
          handle (link.first >>= loads_fields loads)
            (λ ch.
              handle (respond c int_of device_key laptop_pub device_id target_id random ch)
                (λ resp. (
                  hello ∷ resp ∷ [],
                  link.second >>= loads_fields loads >>= λ res. returns (succeeded c int_of res),
                ))
                (λ e. (hello ∷ [], raises e)))
            (λ e. (hello ∷ [], raises e)))
        (λ e. ([], raises e))

  -- `main` for `unlock`: the outcome of loading the device's key, and the text of the laptop's. What
  -- is printed, and the exit code.
  unfoldable pub main_unlock :
      Outcome PrivateKey → Text → Text → Text → ℕ → Link → Outcome (Text × ℕ)
  unfolding unlock
  main_unlock loaded laptop_text device_id target_id random link = loaded >>= λ device_key.
      load_public_key c laptop_text >>= λ laptop_pub.
      (unlock device_key laptop_pub device_id target_id random link).1 >>= λ ok.
      returns (elim ok [ true ↦ (codes "UNLOCKED", 0) | false ↦ (codes "REJECTED", 1) ])

  -- The challenge is meant for this client, and the laptop has signed it.
  pub record Trusted (laptop_pub : PublicKey) (device_id target_id : Text) (ch : Fields)
      : Type 0 where
    pub nonce : Json
    pub issued_ms : Json
    pub signed_bytes : Bytes
    pub kind : get (codes "type") ch ≡ str (codes "challenge")
    pub target : get (codes "target_id") ch ≡ str target_id
    pub its_nonce : item (codes "nonce") ch ≡ returns nonce
    pub its_time : item (codes "issued_ms") ch ≡ returns issued_ms
    pub message :
        client_message c int_of (codes "challenge") nonce issued_ms device_id target_id
        ≡ returns signed_bytes
    pub verifies : verify_sig c laptop_pub signed_bytes (get (codes "server_sig") ch) ≡ returns true

  -- A response of the client is its signature on the response message for the challenge that it has
  -- verified.
  pub record Signed (device_key : PrivateKey) (laptop_pub : PublicKey) (device_id target_id : Text)
      (random : ℕ) (ch resp : Fields) : Type 0 where
    pub trusted : Trusted laptop_pub device_id target_id ch
    pub response_bytes : Bytes
    pub message :
        client_message c int_of
          (codes "response")
          (trusted.nonce)
          (trusted.issued_ms)
          device_id
          target_id
        ≡ returns response_bytes
    pub type_ : get (codes "type") resp ≡ str (codes "response")
    pub nonce : get (codes "nonce") resp ≡ trusted.nonce
    pub signature : get (codes "signature") resp ≡ str (sign c device_key response_bytes random)

  abbrev response_of : Json → Json → Fields
  response_of nonce signature =
      field (codes "type") (str (codes "response"))
        (field (codes "nonce") nonce (field (codes "signature") signature end))

  respond-Signed :
      (device_key : PrivateKey) (laptop_pub : PublicKey) (device_id target_id : Text) (random : ℕ)
      (ch resp : Fields)
      → respond c int_of device_key laptop_pub device_id target_id random ch ≡ returns resp
      → Signed device_key laptop_pub device_id target_id random ch resp
  unfolding respond get find Text-discrete text_eq
  respond-Signed device_key laptop_pub device_id target_id random ch resp h =
      elim (Bool-cases (
        not (equals_text (get (codes "type") ch) (codes "challenge"))
        || not (equals_text (get (codes "target_id") ch) target_id))) [
          | inl other ↦ absurd (ground arith)
          | inr meant ↦
              let (nonce, n, h₁) = bind_returns (item (codes "nonce") ch) _ resp (rw meant at h) in
              let (issued_ms, m, h₂) = bind_returns (item (codes "issued_ms") ch) _ resp h₁ in
              let (smsg, s, h₃) =
                bind_returns
                  (client_message c int_of (codes "challenge") nonce issued_ms device_id target_id)
                  _ resp h₂ in
              let (ok, v, h₄) =
                bind_returns (verify_sig c laptop_pub smsg (get (codes "server_sig") ch)) _ resp
                  h₃ in
              let (passed, h₅) = then_returns (raise_if (not ok) other_error) _ resp h₄ in
              let (rmsg, s', h₆) =
                bind_returns
                  (client_message c int_of (codes "response") nonce issued_ms device_id target_id) _
                  resp h₅ in
              let good = raise_if-returns (not ok) other_error passed in
              let trusted : Trusted laptop_pub device_id target_id ch = record {
                nonce = nonce;
                issued_ms = issued_ms;
                signed_bytes = smsg;
                kind = equals_text-true _ _ (ground arith);
                target = equals_text-true _ _ (ground arith);
                its_nonce = n;
                its_time = m;
                message = s;
                verifies = ground arith;
              } in
              let made : response_of nonce (str (sign c device_key rmsg random)) ≡ resp =
                ground arith in
              record {
                trusted = trusted;
                response_bytes = rmsg;
                message = s';
                type_ = ap (get (codes "type")) (sym made);
                nonce = ap (get (codes "nonce")) (sym made);
                signature = ap (get (codes "signature")) (sym made);
              }
        ]

  -- What the client has sent: nothing, its hello, or its hello and a response that is Signed.
  abbrev pub Cautious : PrivateKey → PublicKey → Text → Text → ℕ → Link → List Fields → Type 0
  Cautious device_key laptop_pub device_id target_id random link sent =
      (sent ≡ [])
      ⊎ (sent ≡ hello_fields device_id ∷ [])
      ⊎ ((ch : Fields) × (resp : Fields) × ((link.first >>= loads_fields loads) ≡ returns ch)
          × (sent ≡ hello_fields device_id ∷ resp ∷ [])
          × Signed device_key laptop_pub device_id target_id random ch resp)

  -- The client signs only what the laptop has signed: whatever it is sent, it sends nothing, or only
  -- its hello, or its hello and one response; and then it was sent a challenge for this target, whose
  -- bytes, for this device, verify under the laptop's key, and the response carries the nonce of the
  -- challenge and the signature of the device's key on the response message for its nonce and time.
  pub unlock-Cautious :
      (device_key : PrivateKey) (laptop_pub : PublicKey) (device_id target_id : Text) (random : ℕ)
      (link : Link)
      → Cautious device_key laptop_pub device_id target_id random link
          (unlock device_key laptop_pub device_id target_id random link).0
  unfolding unlock
  unlock-Cautious device_key laptop_pub device_id target_id random link =
      let P : List Fields × Outcome Bool → Type 0 =
        λ r. Cautious device_key laptop_pub device_id target_id random link r.0 in
      handle_split P link.connect _ _
        (λ _ _.
          handle_split P (link.first >>= loads_fields loads) _ _
            (λ ch l.
              handle_split P (respond c int_of device_key laptop_pub device_id target_id random ch)
                _ _
                (λ resp r. inr (
                  inr (
                    ch,
                    resp,
                    l,
                    refl,
                    respond-Signed device_key laptop_pub device_id target_id random ch resp r,
                  )))
                (λ e _. inr (inl refl)))
            (λ e _. inr (inl refl)))
        (λ e _. inl refl)
