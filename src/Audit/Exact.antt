-- ===== src/Audit/Exact.antt =====
-- What `verify_file` of audit.py accepts, described without the loop.
use remote_unlock.Base.{
  ℕ, suc, ◌≡◌, ◌↔◌, refl, ap, ◌∙◌, true, false, Option, none, some, List, [], ◌∷◌, Text, codes,
  text_eq_refl, arith, inl, inr, Option-cases,
}
use remote_unlock.Json.{Json, str, arr, obj, Fields, find, get, without}
use remote_unlock.Outcome.{returns, bind_returns}
use remote_unlock.Audit.{
  Line, blank, malformed, parsed, genesis, Verdict, equals_int, equals_text, equals_text-true,
  pop_hash, good, check_entry, against, mismatches, verify_from, verify_file,
}
use remote_unlock.Audit.Chain.{good-hash, verify-Passes}

-- What `pop_hash` takes apart.
pop_hash-inv :
    (j : Json) (entry : Fields) (claimed : Json)
    → pop_hash j ≡ returns (entry, claimed)
    → (fs : Fields) × (j ≡ obj fs)
      × (find (codes "hash") fs ≡ some claimed)
      × (entry ≡ without (codes "hash") fs)
unfolding pop_hash
pop_hash-inv (obj fs) entry claimed h = elim (Option-cases (find (codes "hash") fs)) [
  | inl e ↦ absurd (ground arith)
  | inr (v, e) ↦ (fs, refl, ground arith, ground arith)
]
pop_hash-inv (arr xs) entry claimed h = absurd (ground arith)
pop_hash-inv j entry claimed h = absurd (ground arith)

module _ (hash : Text → Fields → Text) where
  -- The object without its hash continues the chain: it has the next number and the hash before it,
  -- and its own hash is over that and what is left of it.
  pub record Continues (fs : Fields) (n : ℕ) (prev : Text) : Type 0 where
    pub number : equals_int (get (codes "seq") (without (codes "hash") fs)) n ≡ true
    pub link : get (codes "prev") (without (codes "hash") fs) ≡ str prev
    pub own : find (codes "hash") fs ≡ some (str (hash prev (without (codes "hash") fs)))

  -- The lines are a chain from so many entries and a hash on, to so many and a hash.
  abbrev pub Linked : List Line → ℕ → Text → ℕ → Text → Type 0
  Linked [] n prev entries head = (n ≡ entries) × (prev ≡ head)
  Linked (blank ∷ ls) n prev entries head = Linked ls n prev entries head
  Linked (malformed ∷ ls) n prev entries head = ⊥
  Linked (parsed j ∷ ls) n prev entries head =
      (fs : Fields) × (j ≡ obj fs)
      × Continues fs (suc n) prev
      × Linked ls (suc n) (hash prev (without (codes "hash") fs)) entries head

  check_entry-good :
      (lineno n : ℕ) (prev : Text) (entry : Fields) (claimed : Json) (next : Text)
      → check_entry hash lineno n prev entry claimed ≡ good next
      → (equals_int (get (codes "seq") entry) n ≡ true)
        × (get (codes "prev") entry ≡ str prev)
        × (claimed ≡ str (hash prev entry))
  unfolding check_entry
  check_entry-good lineno n prev entry claimed next h = (
    ground arith,
    equals_text-true (get (codes "prev") entry) prev (ground arith),
    equals_text-true claimed (hash prev entry) (ground arith),
  )

  verify_from-Linked :
      (ls : List Line) (lineno n : ℕ) (prev : Text) (entries : ℕ) (head : Text)
      → verify_from hash ls lineno n prev
        ≡ returns (record { entries = entries; head = head; fault = none })
      → Linked ls n prev entries head
  unfolding verify_from
  verify_from-Linked [] lineno n prev entries head h = ground arith
  verify_from-Linked (blank ∷ ls) lineno n prev entries head h =
      verify_from-Linked ls (suc lineno) n prev entries head h
  verify_from-Linked (malformed ∷ ls) lineno n prev entries head h = absurd (ground arith)
  verify_from-Linked (parsed j ∷ ls) lineno n prev entries head h =
      let p = verify-Passes hash j ls lineno n prev _ h refl in
      let (fs, is_obj, claims, left) = pop_hash-inv j p.entry p.claimed p.popped in
      let (number, link, own) =
        check_entry-good lineno (suc n) prev p.entry p.claimed p.next p.checked in
      let linked : p.next ≡ hash prev p.entry =
        good-hash hash lineno (suc n) prev p.entry p.claimed p.next p.checked in
      (
        fs,
        is_obj,
        record {
          number = rw left at number;
          link = rw left at link;
          own = claims ∙ ap some (own ∙ ap (λ e. str (hash prev e)) left);
        },
        rw (linked, left) at
            (verify_from-Linked ls (suc lineno) (suc n) p.next entries head p.rest),
      )

  popped :
      (fs : Fields) (n : ℕ) (prev : Text)
      → Continues fs n prev
      → pop_hash (obj fs)
        ≡ returns (without (codes "hash") fs, str (hash prev (without (codes "hash") fs)))
  unfolding pop_hash
  popped fs n prev k = rw (k.own, pop_hash) refl

  checked :
      (fs : Fields) (lineno n : ℕ) (prev : Text)
      → Continues fs n prev
      → let entry = without (codes "hash") fs in
        check_entry hash lineno n prev entry (str (hash prev entry)) ≡ good (hash prev entry)
  unfolding check_entry equals_text
  checked fs lineno n prev k =
      let entry = without (codes "hash") fs in
      rw (k.number, k.link, text_eq_refl prev, text_eq_refl (hash prev entry)) refl

  Linked-verify_from :
      (ls : List Line) (lineno n : ℕ) (prev : Text) (entries : ℕ) (head : Text)
      → Linked ls n prev entries head
      → verify_from hash ls lineno n prev
        ≡ returns (record { entries = entries; head = head; fault = none })
  unfolding verify_from
  Linked-verify_from [] lineno n prev entries head h = ground arith
  Linked-verify_from (blank ∷ ls) lineno n prev entries head h =
      Linked-verify_from ls (suc lineno) n prev entries head h
  Linked-verify_from (malformed ∷ ls) lineno n prev entries head h = absurd h
  Linked-verify_from (parsed j ∷ ls) lineno n prev entries head (fs, is_obj, k, rest) =
      let ih = Linked-verify_from ls (suc lineno) (suc n) _ entries head rest in
      rw (is_obj, verify_from)
        (rw (popped fs (suc n) prev k) (rw (checked fs lineno (suc n) prev k) ih))

  against-inv :
      (expected : Option Text) (v : Verdict) (entries : ℕ) (head : Text)
      → against expected v ≡ record { entries = entries; head = head; fault = none }
      → (v ≡ record { entries = entries; head = head; fault = none })
        × (mismatches expected head ≡ false)
  unfolding against
  against-inv expected v entries head h = elim (Option-cases v.fault) [
    | inl e ↦ ground arith
    | inr (f, e) ↦ absurd (ground arith)
  ]

  accepts_file :
      (ls : List Line) (expected : Option Text) (entries : ℕ) (head : Text)
      → (verify_file hash (some ls) expected
          ≡ returns (record { entries = entries; head = head; fault = none }))
        ↔ (Linked ls 0 genesis entries head × (mismatches expected head ≡ false))
  unfolding verify_file against
  accepts_file ls expected entries head = (
    λ h.
        let (v, e, last) =
          bind_returns (verify_from hash ls 1 0 genesis) (λ v. returns (against expected v)) _ h in
        let (is_v, matches) = against-inv expected v entries head (ground arith) in
        (verify_from-Linked ls 1 0 genesis entries head (rw is_v at e), matches),
    λ h. rw (Linked-verify_from ls 1 0 genesis entries head h.0, h.1) refl,
  )

  -- What a file must be to be accepted: it is missing, with no entry and the head GENESIS; or it is a
  -- chain whose head has the expected prefix.
  abbrev pub Accepted : Option (List Line) → Option Text → ℕ → Text → Type 0
  Accepted none expected entries head = (entries ≡ 0) × (head ≡ genesis)
  Accepted (some ls) expected entries head =
      Linked ls 0 genesis entries head × (mismatches expected head ≡ false)

  -- `verify_file` reports no fault, so many entries and a head if and only if the file is missing,
  -- the entries are none and the head is GENESIS, whatever head is expected; or the file is there,
  -- its lines that are not blank are objects, each with the next number, the hash before it and its
  -- own hash over both, from none and GENESIS to that count and head, and the head has the expected
  -- prefix.
  pub verify_exact :
      (file : Option (List Line)) (expected : Option Text) (entries : ℕ) (head : Text)
      → (verify_file hash file expected
          ≡ returns (record { entries = entries; head = head; fault = none }))
        ↔ Accepted file expected entries head
  unfolding verify_file
  verify_exact none expected entries head =
      (λ h. (ground arith, ground arith), λ h. rw (h.0, h.1) refl)
  verify_exact (some ls) expected entries head = accepts_file ls expected entries head
