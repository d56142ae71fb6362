-- ===== src/Outcome.antt =====
-- Python's exceptions as values: the classes that the program's `except` clauses tell apart.
use remote_unlock.Base.{true, false, arith, ◌≡◌, refl, Bool, ◌⊎◌, inl, inr}

pub data Exception : Type 0 where
  value_error type_error key_error runtime_error attribute_error : Exception
  os_error timeout_error connection_closed system_exit : Exception
  -- cryptography's InvalidSignature
  invalid_signature : Exception
  -- cryptography's InvalidToken
  invalid_token : Exception
  -- any other subclass of Exception
  other_error : Exception

pub data Outcome (A : Type 0) : Type 0 where
  returns : A → Outcome A
  raises : Exception → Outcome A

infixl 5 ◌>>=◌
abbrev pub ◌>>=◌ : {A B : Type 0} → Outcome A → (A → Outcome B) → Outcome B
returns a >>= f = f a
raises e >>= f = raises e

-- `if b: raise e`
abbrev pub raise_if : Bool → Exception → Outcome (Unit {0})
raise_if Bool.true e = raises e
raise_if Bool.false e = returns tt

infixl 5 ◌>>◌
abbrev pub ◌>>◌ : {B : Type 0} → Outcome (Unit {0}) → Outcome B → Outcome B
m >> k = m >>= λ _. k

pub Outcome-cases :
    {A : Type 0} (o : Outcome A) → ((a : A) × (o ≡ returns a)) ⊎ ((e : Exception) × (o ≡ raises e))
Outcome-cases (returns a) = inl (a, refl)
Outcome-cases (raises e) = inr (e, refl)

abbrev pub handle : {A B : Type 0} → Outcome A → (A → B) → (Exception → B) → B
handle (returns a) f g = f a
handle (raises e) f g = g e

-- A property of what follows a call, on both ways that it ends.
pub handle_split {ℓ} :
    {A B : Type 0} (P : B → Type ℓ) (o : Outcome A) (f : A → B) (g : Exception → B)
    → ((a : A) → o ≡ returns a → P (f a))
    → ((e : Exception) → o ≡ raises e → P (g e))
    → P (handle o f g)
handle_split P (returns a) f g k l = k a refl
handle_split P (raises e) f g k l = l e refl

-- What a chain of calls that returns has gone through.
pub bind_returns :
    {A B : Type 0} (m : Outcome A) (f : A → Outcome B) (b : B)
    → (m >>= f) ≡ returns b
    → (a : A) × (m ≡ returns a) × (f a ≡ returns b)
bind_returns (returns a) f b h = (a, refl, h)
bind_returns (raises e) f b h = absurd (ground arith)

pub then_returns :
    {B : Type 0} (m : Outcome (Unit {0})) (k : Outcome B) (b : B)
    → (m >> k) ≡ returns b
    → (m ≡ returns tt) × (k ≡ returns b)
then_returns (returns u) k b h = (refl, h)
then_returns (raises e) k b h = absurd (ground arith)

pub raise_if-returns : (b : Bool) (e : Exception) → raise_if b e ≡ returns tt → b ≡ false
raise_if-returns true e h = absurd (ground arith)
raise_if-returns false e h = refl
