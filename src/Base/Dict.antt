-- ===== src/Base/Dict.antt =====
-- Python's `dict`: an association list in insertion order, over keys with decidable equality.
use Prim.Native.Nat.{◌+◌, ◌≤◌}
use mathlib.Core.Path.{◌≡◌, refl, subst}
use mathlib.Core.Logic.{ite, if_pos, if_neg, inl, inr}
use mathlib.Core.Bool.{Bool}
use mathlib.Core.Option.{Option, none, some}
use mathlib.Core.List.{List, [], ◌∷◌}
use native.Mathlib.Omega.{arith}
use remote_unlock.Base.Numbers.{if◌then◌else◌, Bool-cases}
use remote_unlock.Base.Lists.{length, keep_if, All}

abbrev pub Dict {ℓ} : Type ℓ → Type ℓ → Type ℓ
Dict K V = List (K × V)

module _ {ℓ} {K V : Type ℓ} (dec : Discrete K) where
  -- d.get(k)
  unfoldable pub lookup : K → Dict K V → Option V
  lookup k [] = none
  lookup k ((j, v) ∷ d) = ite (dec k j) (some v) (lookup k d)

  -- d[k] = v
  unfoldable pub insert : K → V → Dict K V → Dict K V
  insert k v [] = (k, v) ∷ []
  insert k v ((j, w) ∷ d) = ite (dec k j) ((k, v) ∷ d) ((j, w) ∷ insert k v d)

  -- del d[k]; and d.pop(k, None), without its value
  unfoldable pub remove : K → Dict K V → Dict K V
  remove k [] = []
  remove k ((j, w) ∷ d) = let rest = remove k d in ite (dec k j) rest ((j, w) ∷ rest)

  pub lookup-insert :
      (j k : K) (v : V) (d : Dict K V)
      → lookup j (insert k v d) ≡ ite (dec j k) (some v) (lookup j d)
  unfolding lookup insert
  lookup-insert j k v [] = refl
  lookup-insert j k v (e ∷ d) = ground (arith, lookup-insert j k v d)

  pub lookup-remove :
      (j k : K) (d : Dict K V) → lookup j (remove k d) ≡ ite (dec j k) none (lookup j d)
  unfolding lookup remove
  lookup-remove j k [] = ground arith
  lookup-remove j k (e ∷ d) = ground (arith, lookup-remove j k d)

  -- No key is listed twice.
  abbrev pub Distinct : Dict K V → Type ℓ
  Distinct [] = Unit
  Distinct ((k, v) ∷ d) = (lookup k d ≡ none) × Distinct d

  pub insert-Distinct : (k : K) (v : V) (d : Dict K V) → Distinct d → Distinct (insert k v d)
  unfolding lookup insert
  insert-Distinct k v [] h = (refl, tt)
  insert-Distinct k v (e ∷ d) h = ground (arith, insert-Distinct k v d h.1, lookup-insert e.0 k v d)

  pub remove-Distinct : (k : K) (d : Dict K V) → Distinct d → Distinct (remove k d)
  unfolding lookup remove
  remove-Distinct k [] h = tt
  remove-Distinct k (e ∷ d) h = ground (arith, remove-Distinct k d h.1, lookup-remove e.0 k d)

  pub length-remove-le : (k : K) (d : Dict K V) → length (remove k d) ≤ length d
  unfolding remove
  length-remove-le k [] = omega arith
  length-remove-le k (e ∷ d) = ground (arith, length-remove-le k d)

  pub length-insert-le : (k : K) (v : V) (d : Dict K V) → length (insert k v d) ≤ length d + 1
  unfolding insert
  length-insert-le k v [] = omega arith
  length-insert-le k v (e ∷ d) = ground (arith, length-insert-le k v d)

  pub lookup-keep_if-none :
      (p : K × V → Bool) (j : K) (d : Dict K V) → lookup j d ≡ none → lookup j (keep_if p d) ≡ none
  unfolding lookup
  lookup-keep_if-none p j [] h = refl
  lookup-keep_if-none p j (e ∷ d) h = ground (arith, lookup-keep_if-none p j d)

  abbrev pub passing : (K × V → Bool) → K → Option V → Option V
  passing p j none = none
  passing p j (some v) = if p (j, v) then some v else none

  -- A comprehension `{k: v for k, v in d.items() if p}` keeps just the entries that pass.
  pub lookup-keep_if :
      (p : K × V → Bool) (j : K) (d : Dict K V)
      → Distinct d
      → lookup j (keep_if p d) ≡ passing p j (lookup j d)
  unfolding lookup
  lookup-keep_if p j [] h = refl
  lookup-keep_if p j (e ∷ d) h = ground (arith, lookup-keep_if p j d h.1, lookup-keep_if-none p j d)

  pub keep_if-Distinct : (p : K × V → Bool) (d : Dict K V) → Distinct d → Distinct (keep_if p d)
  keep_if-Distinct p [] h = tt
  keep_if-Distinct p (e ∷ d) h =
      ground (arith, keep_if-Distinct p d h.1, lookup-keep_if-none p e.0 d h.0)

  module _ {κ} (P : K × V → Type κ) where
    pub All-insert : (k : K) (v : V) (d : Dict K V) → P (k, v) → All P d → All P (insert k v d)
    unfolding insert
    All-insert k v [] h a = (h, tt)
    All-insert k v (e ∷ d) h a = elim (dec k e.0) [
      | yes p ↦ rw (if_pos _ p) (h, a.1)
      | no p ↦ rw (if_neg _ p) (a.0, All-insert k v d h a.1)
    ]

    pub All-remove : (k : K) (d : Dict K V) → All P d → All P (remove k d)
    unfolding remove
    All-remove k [] a = tt
    All-remove k (e ∷ d) a = elim (dec k e.0) [
      | yes p ↦ rw (if_pos _ p) (All-remove k d a.1)
      | no p ↦ rw (if_neg _ p) (a.0, All-remove k d a.1)
    ]

    pub All-keep_if : (p : K × V → Bool) (d : Dict K V) → All P d → All P (keep_if p d)
    All-keep_if p [] a = tt
    All-keep_if p (e ∷ d) a = elim (Bool-cases (p e)) [
      | inl h ↦ rw h (a.0, All-keep_if p d a.1)
      | inr h ↦ rw h (All-keep_if p d a.1)
    ]

    -- What is found under a key satisfies what every entry satisfies.
    pub All-lookup : (k : K) (v : V) (d : Dict K V) → All P d → lookup k d ≡ some v → P (k, v)
    unfolding lookup
    All-lookup k v [] a h = absurd (ground arith)
    All-lookup k v ((j, w) ∷ d) a h = elim (dec k j) [
      | yes p ↦
          let found : some w ≡ some v = rw (if_pos _ p) at h in
          let same : ◌≡◌ {A = K × V} (j, w) (k, v) = cc in subst P same a.0
      | no p ↦ All-lookup k v d a.1 (rw (if_neg _ p) at h)
    ]
