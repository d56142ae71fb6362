-- ===== src/Protocol/Decimal.antt =====
-- Python's `str` of an int.
use remote_unlock.Base.{
  ◌≢◌, subst, ℕ, zero, suc, ◌+◌, ◌-◌, ◌*◌, ◌/◌, ◌%◌, ◌≤◌, ◌<◌, ◌≡◌, refl, sym, ap, ◌∙◌, [], ◌∷◌,
  ◌++◌, Text, arith, All, All-append, inl, inr, Bool-cases, tests, ltb, if◌then◌else◌,
}
use remote_unlock.Base.Int.{ℤ, pos, negsuc}

-- The decimal digits of a number, with the number itself as fuel enough.
unfoldable pub digits_from : ℕ → ℕ → Text
digits_from zero n = []
digits_from (suc fuel) n =
    let rest = digits_from fuel (n / 10) in
    if ltb n 10 then (b'0' + n) ∷ [] else rest ++ (b'0' + n % 10) ∷ []

unfoldable pub show_nat : ℕ → Text
unfolding digits_from
show_nat n = digits_from (suc n) n

unfoldable pub show : ℤ → Text
unfolding show_nat
show (pos n) = show_nat n
show (negsuc n) = b'-' ∷ show_nat (suc n)

-- The number that decimal digits stand for.
value_from : ℕ → Text → ℕ
value_from acc [] = acc
value_from acc (c ∷ rest) = value_from (acc * 10 + (c - b'0')) rest

value_from-append :
    (acc : ℕ) (s t : Text) → value_from acc (s ++ t) ≡ value_from (value_from acc s) t
unfolding value_from
value_from-append acc [] t = refl
value_from-append acc (c ∷ s) t = value_from-append (acc * 10 + (c - b'0')) s t

value_from-digits_from : (fuel n : ℕ) → n < fuel → value_from 0 (digits_from fuel n) ≡ n
unfolding value_from digits_from
value_from-digits_from zero n h = absurd (omega arith)
value_from-digits_from (suc fuel) n h = elim (Bool-cases (ltb n 10)) [
  | inl small ↦ rw small (omega arith)
  | inr big ↦
      rw
        (
          big,
          value_from-append 0 (digits_from fuel (n / 10)) _,
          value_from-digits_from fuel (n / 10) (omega tests),
        )
        (omega arith)
]

abbrev pub IsDigit : ℕ → Type 0
IsDigit c = (b'0' ≤ c) × (c ≤ b'9')

pub digits_from-IsDigit : (fuel n : ℕ) → All IsDigit (digits_from fuel n)
unfolding digits_from
digits_from-IsDigit zero n = tt
digits_from-IsDigit (suc fuel) n = elim (Bool-cases (ltb n 10)) [
  | inl small ↦ rw small (omega tests, tt)
  | inr big ↦ rw big (
      All-append IsDigit (digits_from fuel (n / 10)) _ (digits_from-IsDigit fuel (n / 10))
        (omega arith, tt))
]

pub show_nat-injective : (m n : ℕ) → show_nat m ≡ show_nat n → m ≡ n
unfolding show_nat
show_nat-injective m n e =
    sym (value_from-digits_from (suc m) m (omega arith))
    ∙ ap (value_from 0) e
    ∙ value_from-digits_from (suc n) n (omega arith)

show_nat-ne_minus : (n : ℕ) (t : Text) → show_nat n ≢ b'-' ∷ t
unfolding show_nat
show_nat-ne_minus n t e =
    let d : All IsDigit (b'-' ∷ t) = subst (All IsDigit) e (digits_from-IsDigit (suc n) n) in
    omega (arith, d.0)

-- Different integers are written differently.
pub show-injective : (m n : ℤ) → show m ≡ show n → m ≡ n
unfolding show
show-injective (pos m) (pos n) e = ap pos (show_nat-injective m n e)
show-injective (pos m) (negsuc n) e = absurd (show_nat-ne_minus m (show_nat (suc n)) e)
show-injective (negsuc m) (pos n) e = absurd (show_nat-ne_minus n (show_nat (suc m)) (sym e))
show-injective (negsuc m) (negsuc n) e = cc (show_nat-injective (suc m) (suc n) (cc))
