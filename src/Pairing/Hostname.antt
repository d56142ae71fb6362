-- ===== src/Pairing/Hostname.antt =====
-- `_safe_hostname` of pair.py: the default of --target-id.
use remote_unlock.Base.{
  ℕ, zero, suc, ◌≤◌, ◌<◌, ◌≡◌, refl, ◌≢◌, Bool, true, false, ◌&&◌, ◌||◌, ◌==◌, [], ◌∷◌, Text, codes,
  leb, ltb, length, take, map, arith, All, if◌then◌else◌,
}
use remote_unlock.Protocol.Forms.{is_digit, is_id_char, id_chars_then_end, is_id}

-- `c.isalnum()`: letters and digits of ASCII, and other characters as `other` says.
abbrev pub is_alnum : (ℕ → Bool) → ℕ → Bool
is_alnum other c =
    if ltb c 128
    then is_digit c || (leb b'a' c && leb c b'z') || (leb b'A' c && leb c b'Z')
    else other c

abbrev pub or_dash : (ℕ → Bool) → ℕ → ℕ
or_dash other c = if is_alnum other c then c else b'-'

-- `strip("-")`, at the left and at the right
abbrev pub lstrip_dash : Text → Text
lstrip_dash [] = []
lstrip_dash (c ∷ t) = let rest = lstrip_dash t in if c == b'-' then rest else c ∷ t

abbrev pub dash_before : ℕ → Text → Text
dash_before c [] = if c == b'-' then [] else c ∷ []
dash_before c (d ∷ t) = c ∷ d ∷ t

abbrev pub rstrip_dash : Text → Text
rstrip_dash [] = []
rstrip_dash (c ∷ t) = dash_before c (rstrip_dash t)

-- `(h or "laptop")[:40]`
abbrev pub name_or_laptop : Text → Text
name_or_laptop [] = codes "laptop"
name_or_laptop (c ∷ t) = take 40 (c ∷ t)

-- `_safe_hostname`, on the host's name in lower case
unfoldable pub safe_hostname : (ℕ → Bool) → Text → Text
safe_hostname other lowered =
    name_or_laptop (rstrip_dash (lstrip_dash (map (or_dash other) lowered)))

-- A character of ASCII that is no capital letter.
abbrev pub IsPlain : ℕ → Type 0
IsPlain c = (c < 128) × ((leb b'A' c && leb c b'Z') ≡ false)

abbrev IsIdChar : ℕ → Type 0
IsIdChar c = is_id_char c ≡ true

map-IsIdChar : (other : ℕ → Bool) (t : Text) → All IsPlain t → All IsIdChar (map (or_dash other) t)
map-IsIdChar other [] h = tt
map-IsIdChar other (c ∷ t) h = (ground (arith, h.0.0, h.0.1), map-IsIdChar other t h.1)

-- The first character is no dash.
abbrev IsName : Text → Type 0
IsName [] = Unit
IsName (c ∷ t) = (c ≢ b'-') × All IsIdChar (c ∷ t)

lstrip_dash-IsName : (t : Text) → All IsIdChar t → IsName (lstrip_dash t)
lstrip_dash-IsName [] h = tt
lstrip_dash-IsName (c ∷ t) h = ground (arith, lstrip_dash-IsName t h.1)

dash_before-IsIdChar :
    (c : ℕ) (t : Text) → IsIdChar c → All IsIdChar t → All IsIdChar (dash_before c t)
dash_before-IsIdChar c [] h a = ground arith
dash_before-IsIdChar c (d ∷ t) h a = (h, a)

rstrip_dash-IsIdChar : (t : Text) → All IsIdChar t → All IsIdChar (rstrip_dash t)
rstrip_dash-IsIdChar [] h = tt
rstrip_dash-IsIdChar (c ∷ t) h =
    dash_before-IsIdChar c (rstrip_dash t) h.0 (rstrip_dash-IsIdChar t h.1)

dash_before-IsName :
    (c : ℕ) (t : Text) → c ≢ b'-' → All IsIdChar (dash_before c t) → IsName (dash_before c t)
dash_before-IsName c [] ne a = ground arith
dash_before-IsName c (d ∷ t) ne a = (ne, a)

rstrip_dash-IsName : (t : Text) → IsName t → IsName (rstrip_dash t)
rstrip_dash-IsName [] h = tt
rstrip_dash-IsName (c ∷ t) h =
    dash_before-IsName c (rstrip_dash t) h.0 (rstrip_dash-IsIdChar (c ∷ t) h.1)

take-IsIdChar : (n : ℕ) (t : Text) → All IsIdChar t → All IsIdChar (take n t)
take-IsIdChar zero t h = tt
take-IsIdChar (suc n) [] h = tt
take-IsIdChar (suc n) (c ∷ t) h = (h.0, take-IsIdChar n t h.1)

length-take-le : (n : ℕ) (t : Text) → length (take n t) ≤ n
length-take-le zero t = omega arith
length-take-le (suc n) [] = omega arith
length-take-le (suc n) (c ∷ t) = omega (arith, length-take-le n t)

-- A text of characters of ids, no longer than allowed, is the rest of an id.
id_chars-true : (n : ℕ) (t : Text) → All IsIdChar t → length t ≤ n → id_chars_then_end n t ≡ true
unfolding id_chars_then_end
id_chars-true zero [] h l = refl
id_chars-true zero (c ∷ t) h l = absurd (omega (arith, l))
id_chars-true (suc n) [] h l = refl
id_chars-true (suc n) (c ∷ t) h l = rw h.0 (id_chars-true n t h.1 (omega (arith, l)))

name_or_laptop-is_id : (t : Text) → IsName t → is_id (name_or_laptop t) ≡ true
unfolding is_id
name_or_laptop-is_id [] h = refl
name_or_laptop-is_id (c ∷ t) h =
    let rest =
      id_chars-true 62 (take 39 t) (take-IsIdChar 39 t h.1.1)
        (omega (arith, length-take-le 39 t)) in
    ground (arith, rest, h.0, h.1.0)

-- On a host whose name is of ASCII, the default target id has the form of an id, whatever the name.
pub safe_hostname-is_id :
    (other : ℕ → Bool) (lowered : Text)
    → All IsPlain lowered
    → is_id (safe_hostname other lowered) ≡ true
unfolding safe_hostname
safe_hostname-is_id other lowered h =
    let chars = map (or_dash other) lowered in
    name_or_laptop-is_id (rstrip_dash (lstrip_dash chars)) (
      rstrip_dash-IsName (lstrip_dash chars)
        (lstrip_dash-IsName chars (map-IsIdChar other lowered h)))

-- A letter that is not of ASCII is kept, and then the default is no id.
safe_hostname_not_ascii : is_id (safe_hostname (λ c. true) (252 ∷ [])) ≡ false
unfolding safe_hostname is_id
safe_hostname_not_ascii = refl
