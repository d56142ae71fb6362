-- ===== src/Protocol/Hex.antt =====
-- Python's `bytes.hex` and `bytes.fromhex`.
use remote_unlock.Base.{
  ℕ, ◌+◌, ◌-◌, ◌*◌, ◌/◌, ◌%◌, ◌<◌, ◌≡◌, refl, ap, Bool, ◌&&◌, ◌||◌, Option, none, some, [], ◌∷◌,
  Text, Bytes, arith, All, ltb, leb, ◌==◌, if◌then◌else◌, length,
}

unfoldable pub hex_digit : ℕ → ℕ
hex_digit d = if ltb d 10 then b'0' + d else b'a' + (d - 10)

unfoldable pub to_hex : Bytes → Text
to_hex [] = []
to_hex (b ∷ bs) = hex_digit (b / 16) ∷ hex_digit (b % 16) ∷ to_hex bs

-- Upper case is read too.
unfoldable pub hex_value : ℕ → Option ℕ
hex_value c =
    if leb b'0' c && leb c b'9'
    then some (c - b'0')
    else if leb b'a' c && leb c b'f'
    then some (c - b'a' + 10)
    else if leb b'A' c && leb c b'F'
    then some (c - b'A' + 10)
    else none

abbrev pub is_space : ℕ → Bool
is_space c = (leb 9 c && leb c 13) || c == b' '

abbrev pub byte_of : Option ℕ → Option ℕ → Option Bytes → Option Bytes
byte_of (some hi) (some lo) (some bs) = some ((hi * 16 + lo) ∷ bs)
byte_of _ _ _ = none

-- White space between two bytes is skipped; anything else that is no pair of digits is a
-- ValueError, `none` here.
unfoldable pub from_hex : Text → Option Bytes
from_hex [] = some []
from_hex (c ∷ []) = if is_space c then some [] else none
from_hex (c ∷ d ∷ rest) =
    let skipped = from_hex (d ∷ rest) in
    let read = byte_of (hex_value c) (hex_value d) (from_hex rest) in
    if is_space c then skipped else read

abbrev pub IsByte : ℕ → Type 0
IsByte b = b < 256

hex_digit_plain : (d : ℕ) → d < 16 → is_space (hex_digit d) ≡ Bool.false
unfolding hex_digit
hex_digit_plain d h = ground arith

hex_value-digit : (d : ℕ) → d < 16 → hex_value (hex_digit d) ≡ some d
unfolding hex_digit hex_value
hex_value-digit d h = ground arith

from_hex-pair :
    (c d : ℕ) (rest : Text)
    → is_space c ≡ Bool.false
    → from_hex (c ∷ d ∷ rest) ≡ byte_of (hex_value c) (hex_value d) (from_hex rest)
unfolding from_hex
from_hex-pair c d rest h = rw h

-- Reading what `hex()` writes for bytes gives the bytes back.
pub from_hex-to_hex : (bs : Bytes) → All IsByte bs → from_hex (to_hex bs) ≡ some bs
unfolding to_hex
from_hex-to_hex [] h = unfold from_hex in refl
from_hex-to_hex (b ∷ bs) h =
    let hi : b / 16 < 16 = omega (arith, h.0) in
    let lo : b % 16 < 16 = omega arith in
    let whole : b / 16 * 16 + b % 16 ≡ b = omega arith in
    rw
      (
        from_hex-pair (hex_digit (b / 16)) (hex_digit (b % 16)) (to_hex bs)
            (hex_digit_plain (b / 16) hi),
        hex_value-digit (b / 16) hi,
        hex_value-digit (b % 16) lo,
        from_hex-to_hex bs h.1,
      )
      (ap (λ n. some (n ∷ bs)) whole)

pub length-to_hex : (bs : Bytes) → length (to_hex bs) ≡ 2 * length bs
unfolding to_hex
length-to_hex [] = refl
length-to_hex (b ∷ bs) = omega (arith, length-to_hex bs)
