-- ===== src/Audit/Chain.antt =====
-- The chain of hashes in the log of audit.py.
use remote_unlock.Base.{ℕ, suc, ◌≡◌, refl, ◌⊎◌, inl, inr, none, some, List, ◌∷◌, Text, arith}
use remote_unlock.Json.{Json, Fields}
use remote_unlock.Outcome.{returns, Outcome-cases}
use remote_unlock.Audit.{
  against, Line, parsed, genesis, Fault, Verdict, pop_hash, Checked, good, bad, check_entry,
  verify_from, verify_file,
}

Checked-cases : (k : Checked) → ((h : Text) × (k ≡ good h)) ⊎ ((f : Fault) × (k ≡ bad f))
Checked-cases (good h) = inl (h, refl)
Checked-cases (bad f) = inr (f, refl)

module _ (hash : Text → Fields → Text) where
  pub good-hash :
      (lineno n : ℕ) (prev : Text) (entry : Fields) (claimed : Json) (next : Text)
      → check_entry hash lineno n prev entry claimed ≡ good next
      → next ≡ hash prev entry
  unfolding check_entry
  good-hash lineno n prev entry claimed next h = ground arith

  -- A line that the loop passes without a fault.
  pub record Passes (j : Json) (ls : List Line) (lineno n : ℕ) (prev : Text) (v : Verdict)
      : Type 0 where
    pub entry : Fields
    pub claimed : Json
    pub next : Text
    pub popped : pop_hash j ≡ returns (entry, claimed)
    pub checked : check_entry hash lineno (suc n) prev entry claimed ≡ good next
    pub rest : verify_from hash ls (suc lineno) (suc n) next ≡ returns v

  pub verify-Passes :
      (j : Json) (ls : List Line) (lineno n : ℕ) (prev : Text) (v : Verdict)
      → verify_from hash (parsed j ∷ ls) lineno n prev ≡ returns v
      → v.fault ≡ none
      → Passes j ls lineno n prev v
  unfolding verify_from
  verify-Passes j ls lineno n prev v h ok = elim (Outcome-cases (pop_hash j)) [
    | inl ((entry, claimed), p) ↦
        elim (Checked-cases (check_entry hash lineno (suc n) prev entry claimed)) [
          | inl (next, k) ↦ record {
            entry = entry;
            claimed = claimed;
            next = next;
            popped = p;
            checked = k;
            rest = ground arith;
          }
          | inr (f, k) ↦ absurd (ground arith)
        ]
    | inr (e, p) ↦ absurd (ground arith)
  ]

  pub against_none :
      (ls : List Line) (v : Verdict)
      → verify_file hash (some ls) none ≡ returns v
      → verify_from hash ls 1 0 genesis ≡ returns v
  unfolding verify_file against
  against_none ls v h = elim (Outcome-cases (verify_from hash ls 1 0 genesis)) [
    | inl (w, e) ↦ ground arith
    | inr (x, e) ↦ absurd (ground arith)
  ]
