-- ===== src/Protocol/Injective.antt =====
-- What the signed bytes of `signed_message` (common.py) say of what was signed.
use remote_unlock.Base.{
  subst, sym, ◌∙◌, ℕ, zero, suc, ◌≡◌, refl, ◌≢◌, ◌⊎◌, inl, inr, true, [], ◌∷◌, Text, codes,
  text_eq_iff, arith, All, Bool-cases,
}
use remote_unlock.Base.Int.{ℤ, pos, negsuc}
use remote_unlock.Outcome.{returns}
use remote_unlock.Protocol.Decimal.{show, show-injective, show_nat, digits_from-IsDigit, IsDigit}
use remote_unlock.Protocol.Forms.{
  at_end, is_id_char, hex_then_end, is_nonce, id_chars_then_end, is_id,
}
use remote_unlock.Protocol.Message.{message, bar, proto, signed_message}

-- Free of the separator.
abbrev NoBar : Text → Type 0
NoBar = All (λ c. c ≢ b'|')

at_end-NoBar : (t : Text) → at_end t ≡ true → NoBar t
at_end-NoBar [] h = tt
at_end-NoBar (c ∷ []) h = (ground arith, tt)
at_end-NoBar (c ∷ d ∷ rest) h = absurd (ground arith)

hex_then_end-NoBar : (n : ℕ) (t : Text) → hex_then_end n t ≡ true → NoBar t
unfolding hex_then_end
hex_then_end-NoBar zero t h = at_end-NoBar t h
hex_then_end-NoBar (suc n) [] h = tt
hex_then_end-NoBar (suc n) (c ∷ rest) h = (ground arith, hex_then_end-NoBar n rest (ground arith))

id_chars_then_end-NoBar : (n : ℕ) (t : Text) → id_chars_then_end n t ≡ true → NoBar t
unfolding id_chars_then_end
id_chars_then_end-NoBar zero t h = at_end-NoBar t h
id_chars_then_end-NoBar (suc n) [] h = tt
id_chars_then_end-NoBar (suc n) (c ∷ rest) h = elim (Bool-cases (is_id_char c)) [
  | inl e ↦ (ground arith, id_chars_then_end-NoBar n rest (ground arith))
  | inr e ↦ at_end-NoBar (c ∷ rest) (ground arith)
]

is_nonce-NoBar : (t : Text) → is_nonce t ≡ true → NoBar t
unfolding is_nonce
is_nonce-NoBar t h = hex_then_end-NoBar 32 t h

is_id-NoBar : (t : Text) → is_id t ≡ true → NoBar t
unfolding is_id
is_id-NoBar [] h = tt
is_id-NoBar (c ∷ rest) h = (ground arith, id_chars_then_end-NoBar 62 rest (ground arith))

digits-NoBar : (t : Text) → All IsDigit t → NoBar t
digits-NoBar [] h = tt
digits-NoBar (c ∷ t) h = (omega (arith, h.0), digits-NoBar t h.1)

show-NoBar : (i : ℤ) → NoBar (show i)
unfolding show show_nat
show-NoBar (pos n) = digits-NoBar _ (digits_from-IsDigit (suc n) n)
show-NoBar (negsuc n) = (omega arith, digits-NoBar _ (digits_from-IsDigit (suc (suc n)) (suc n)))

bar-injective : (a a' s s' : Text) → NoBar a → NoBar a' → bar a s ≡ bar a' s' → (a ≡ a') × (s ≡ s')
bar-injective [] [] s s' h h' e = (refl, cc)
bar-injective [] (c ∷ a') s s' h h' e = absurd (h'.0 (cc))
bar-injective (c ∷ a) [] s s' h h' e = absurd (h.0 (cc))
bar-injective (c ∷ a) (c' ∷ a') s s' h h' e =
    let (p, q) = bar-injective a a' s s' h.1 h'.1 (cc) in (cc, q)

-- What a call that returns has checked.
pub record Checked (role nonce : Text) (issued_ms : ℤ) (device_id target_id m : Text) : Type 0 where
  pub role_known : (role ≡ codes "challenge") ⊎ (role ≡ codes "response")
  pub nonce_form : is_nonce nonce ≡ true
  pub device_form : is_id device_id ≡ true
  pub target_form : is_id target_id ≡ true
  pub bytes : m ≡ message role nonce issued_ms device_id target_id

pub signed_message-Checked :
    (role nonce : Text) (issued_ms : ℤ) (device_id target_id m : Text)
    → signed_message role nonce issued_ms device_id target_id ≡ returns m
    → Checked role nonce issued_ms device_id target_id m
unfolding signed_message
signed_message-Checked role nonce issued_ms device_id target_id m h = record {
  role_known =
      ground (arith, text_eq_iff role (codes "challenge"), text_eq_iff role (codes "response"));
  nonce_form = ground arith;
  device_form = ground arith;
  target_form = ground arith;
  bytes = ground arith;
}

role-NoBar : (role : Text) → (role ≡ codes "challenge") ⊎ (role ≡ codes "response") → NoBar role
role-NoBar role (inl e) = subst NoBar (sym e) (ground arith)
role-NoBar role (inr e) = subst NoBar (sym e) (ground arith)

-- Two calls that return the same bytes were made with the same role, nonce, time, device and
-- target.
pub signed_message-injective :
    (role role' nonce nonce' : Text) (t t' : ℤ) (device device' target target' m : Text)
    → signed_message role nonce t device target ≡ returns m
    → signed_message role' nonce' t' device' target' ≡ returns m
    → (role ≡ role') × (nonce ≡ nonce') × (t ≡ t') × (device ≡ device') × (target ≡ target')
signed_message-injective role role' nonce nonce' t t' device device' target target' m h h' =
    let c = signed_message-Checked role nonce t device target m h in
    let c' = signed_message-Checked role' nonce' t' device' target' m h' in
    let (_, e₁) =
      bar-injective proto proto _ _ (ground arith) (ground arith) (sym c.bytes ∙ c'.bytes) in
    let (same_role, e₂) =
      bar-injective role role' _ _ (role-NoBar role c.role_known) (role-NoBar role' c'.role_known)
        e₁ in
    let (same_nonce, e₃) =
      bar-injective nonce nonce' _ _ (is_nonce-NoBar nonce c.nonce_form)
        (is_nonce-NoBar nonce' c'.nonce_form) e₂ in
    let (same_time, e₄) = bar-injective (show t) (show t') _ _ (show-NoBar t) (show-NoBar t') e₃ in
    let (same_device, e₅) =
      bar-injective device device' _ _ (is_id-NoBar device c.device_form)
        (is_id-NoBar device' c'.device_form) e₄ in
    let (same_target, _) =
      bar-injective target target' _ _ (is_id-NoBar target c.target_form)
        (is_id-NoBar target' c'.target_form) e₅ in
    (same_role, same_nonce, show-injective t t' same_time, same_device, same_target)
