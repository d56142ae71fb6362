-- ===== src/Protocol/Forms.antt =====
-- NONCE_RE and ID_RE of common.py. Python's `$` matches at the end of the text and also before a
-- newline that ends it, so a text with one newline at its end passes as well.
use remote_unlock.Base.{
  ℕ, zero, suc, Bool, true, false, ◌&&◌, ◌||◌, [], ◌∷◌, Text, leb, ◌==◌, if◌then◌else◌,
}

abbrev pub newline : ℕ
newline = 10

-- `$`
abbrev pub at_end : Text → Bool
at_end [] = true
at_end (c ∷ []) = c == newline
at_end (c ∷ d ∷ rest) = false

abbrev pub is_digit : ℕ → Bool
is_digit c = leb b'0' c && leb c b'9'

-- `[0-9a-f]`
abbrev pub is_hex : ℕ → Bool
is_hex c = is_digit c || (leb b'a' c && leb c b'f')

-- `[a-z0-9]`
abbrev pub is_id_start : ℕ → Bool
is_id_start c = is_digit c || (leb b'a' c && leb c b'z')

-- `[a-z0-9-]`
abbrev pub is_id_char : ℕ → Bool
is_id_char c = is_id_start c || c == b'-'

-- `[0-9a-f]{n}$`
unfoldable pub hex_then_end : ℕ → Text → Bool
hex_then_end zero rest = at_end rest
hex_then_end (suc n) [] = false
hex_then_end (suc n) (c ∷ rest) = is_hex c && hex_then_end n rest

-- NONCE_RE.match
unfoldable pub is_nonce : Text → Bool
unfolding hex_then_end
is_nonce = hex_then_end 32

-- `[a-z0-9-]{0,n}$`: the characters of the class exclude the newline, so the greedy match is the
-- only one.
unfoldable pub id_chars_then_end : ℕ → Text → Bool
id_chars_then_end zero rest = at_end rest
id_chars_then_end (suc n) [] = true
id_chars_then_end (suc n) (c ∷ rest) =
    if is_id_char c then id_chars_then_end n rest else at_end (c ∷ rest)

-- ID_RE.match
unfoldable pub is_id : Text → Bool
unfolding id_chars_then_end
is_id [] = false
is_id (c ∷ rest) = is_id_start c && id_chars_then_end 62 rest
