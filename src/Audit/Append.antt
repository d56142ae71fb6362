-- ===== src/Audit/Append.antt =====
-- `append` and `verify_file` of audit.py together.
use remote_unlock.Base.{
  ℕ, suc, ◌+◌, ◌≡◌, refl, none, some, List, [], ◌∷◌, ◌++◌, Text, codes, text_eq_refl, arith,
  Text-discrete, length, All,
}
use native.Mathlib.Nat.{add-zero}
use remote_unlock.Json.{Json, str, obj, Fields, find, get, put, without-put, find-put}
use remote_unlock.Outcome.{returns}
use remote_unlock.Audit.{
  Line, blank, malformed, parsed, genesis, Verdict, AuditLog, pop_hash, good, new_entry, bad,
  sequence_gap, Write, whole, refused, unsynced, torn, torn_raising, check_entry, verify_from,
  verify_file, open_log, append, against, mismatches,
}
use remote_unlock.Audit.Chain.{verify-Passes, against_none}

-- A call of `append`: its time, its event and its data, and how its write ends.
pub record Event : Type 0 where
  pub ts : Text
  pub event : Text
  pub fields : Fields
  pub write : Write

pop_hash-put :
    (v : Json) (fs : Fields)
    → find (codes "hash") fs ≡ none
    → pop_hash (obj (put (codes "hash") v fs)) ≡ returns (fs, v)
unfolding pop_hash
pop_hash-put v fs h =
    ground (arith, find-put (codes "hash") (codes "hash") v fs, without-put (codes "hash") v fs h)

new_entry_unhashed :
    (seq : ℕ) (head ts event : Text) (data_ : Fields)
    → find (codes "hash") (new_entry seq head ts event data_) ≡ none
unfolding find Text-discrete
new_entry_unhashed seq head ts event data_ = refl

module _ (hash : Text → Fields → Text) where
  append-seq :
      (w : Write) (ts event : Text) (data_ : Fields) (log : AuditLog)
      → (append hash w ts event data_ log).0.seq ≡ log.seq + 1
  unfolding append
  append-seq whole ts event data_ log = refl
  append-seq refused ts event data_ log = refl
  append-seq unsynced ts event data_ log = refl
  append-seq torn ts event data_ log = refl
  append-seq torn_raising ts event data_ log = refl

  unfoldable pub append_all : List Event → AuditLog → AuditLog
  append_all [] log = log
  append_all (e ∷ es) log = append_all es (append hash e.write e.ts e.event e.fields log).0

  -- The file verifies, and ends where the object stands.
  abbrev pub IsIntact : AuditLog → Type 0
  IsIntact log =
      verify_file hash (some log.lines) none
      ≡ returns (record { entries = log.seq; head = log.head; fault = none })

  pub verify_from-append :
      (ls ls' : List Line) (lineno n : ℕ) (prev : Text) (v : Verdict)
      → verify_from hash ls lineno n prev ≡ returns v
      → v.fault ≡ none
      → verify_from hash (ls ++ ls') lineno n prev
        ≡ verify_from hash ls' (lineno + length ls) v.entries v.head
  unfolding verify_from
  verify_from-append [] ls' lineno n prev v h ok = ground (arith, add-zero lineno)
  verify_from-append (blank ∷ ls) ls' lineno n prev v h ok =
      ground (arith, verify_from-append ls ls' (suc lineno) n prev v h ok)
  verify_from-append (malformed ∷ ls) ls' lineno n prev v h ok = absurd (ground arith)
  verify_from-append (parsed j ∷ ls) ls' lineno n prev v h ok =
      let k = verify-Passes hash j ls lineno n prev v h ok in
      let ih = verify_from-append ls ls' (suc lineno) (suc n) k.next v k.rest ok in
      ground (arith, k.popped, k.checked, ih)

  check_new_entry :
      (lineno n : ℕ) (head ts event : Text) (data_ : Fields)
      → let entry = new_entry (suc n) head ts event data_ in
        check_entry hash lineno (suc n) head entry (str (hash head entry)) ≡ good (hash head entry)
  unfolding check_entry get find Text-discrete
  check_new_entry lineno n head ts event data_ =
      let entry = new_entry (suc n) head ts event data_ in
      ground (arith, text_eq_refl head, text_eq_refl (hash head entry))

  pub new_log-IsIntact :
      IsIntact (record { lines = []; seq = 0; head = genesis; tamper_error = none })
  unfolding verify_file verify_from against mismatches
  new_log-IsIntact = refl

  -- The line that `append` writes passes at its place.
  verify_appended :
      (lineno n : ℕ) (head ts event : Text) (data_ : Fields)
      → let entry = new_entry (suc n) head ts event data_ in
        verify_from hash
          (parsed (obj (put (codes "hash") (str (hash head entry)) entry)) ∷ [])
          lineno
          n
          head
        ≡ returns (record { entries = suc n; head = hash head entry; fault = none })
  unfolding verify_from
  verify_appended lineno n head ts event data_ =
      let entry = new_entry (suc n) head ts event data_ in
      ground (
        arith,
        pop_hash-put (str (hash head entry)) entry (new_entry_unhashed (suc n) head ts event data_),
        check_new_entry lineno n head ts event data_,
      )

  pub append-IsIntact :
      (ts event : Text) (data_ : Fields) (log : AuditLog)
      → IsIntact log
      → IsIntact (append hash whole ts event data_ log).0
  unfolding append verify_file against
  append-IsIntact ts event data_ log h =
      let v : Verdict = record { entries = log.seq; head = log.head; fault = none } in
      let entry = new_entry (log.seq + 1) log.head ts event data_ in
      let line = parsed (obj (put (codes "hash") (str (hash log.head entry)) entry)) in
      let before =
        verify_from-append log.lines (line ∷ []) 1 0 genesis v (against_none hash log.lines v h)
          refl in
      let next : log.seq + 1 ≡ suc log.seq = omega arith in
      rw (before, next, verify_appended (1 + length log.lines) log.seq log.head ts event data_) refl

  -- Every write of the calls succeeds.
  abbrev pub AllWhole : List Event → Type 0
  AllWhole es = All (λ e. e.write ≡ whole) es

  -- From an intact log, calls of `append` whose writes succeed leave an intact log.
  append_all-IsIntact :
      (es : List Event) (log : AuditLog) → AllWhole es → IsIntact log → IsIntact (append_all es log)
  unfolding append_all
  append_all-IsIntact [] log w h = h
  append_all-IsIntact (e ∷ es) log w h =
      append_all-IsIntact es (append hash e.write e.ts e.event e.fields log).0 w.1
        (rw w.0 (append-IsIntact e.ts e.event e.fields log h))

  -- `seq` counts every call, however its write ends.
  append_all-seq :
      (es : List Event) (log : AuditLog) → (append_all es log).seq ≡ log.seq + length es
  unfolding append_all
  append_all-seq [] log = omega arith
  append_all-seq (e ∷ es) log = omega (
    arith,
    append_all-seq es (append hash e.write e.ts e.event e.fields log).0,
    append-seq e.write e.ts e.event e.fields log,
  )

  abbrev pub new_log : AuditLog
  new_log = record { lines = []; seq = 0; head = genesis; tamper_error = none }

  -- A log that was written by any calls of `append` on a new file, whose writes all succeed, opens
  -- without a fault, with one entry for each call and the head that the last call returned.
  pub open_log-append_all :
      (es : List Event)
      → AllWhole es
      → let log = append_all es new_log in
        open_log hash (some log.lines)
        ≡ returns
            (record { lines = log.lines; seq = length es; head = log.head; tamper_error = none })
  unfolding open_log
  open_log-append_all es w =
      let log = append_all es new_log in
      rw (append_all-IsIntact es new_log w new_log-IsIntact, append_all-seq es new_log)
        (ground arith)

  check_gap :
      (lineno n : ℕ) (head ts event : Text) (data_ : Fields) (claimed : Json)
      → check_entry hash lineno (suc n) head (new_entry (suc (suc n)) head ts event data_) claimed
        ≡ bad (sequence_gap lineno)
  unfolding check_entry get find Text-discrete
  check_gap lineno n head ts event data_ claimed = ground arith

  -- The line after a number that was skipped is a fault.
  verify_skipped :
      (lineno n : ℕ) (head ts event : Text) (data_ : Fields)
      → let entry = new_entry (suc (suc n)) head ts event data_ in
        verify_from hash
          (parsed (obj (put (codes "hash") (str (hash head entry)) entry)) ∷ [])
          lineno
          n
          head
        ≡ returns (record { entries = suc n; head = head; fault = some (sequence_gap lineno) })
  unfolding verify_from
  verify_skipped lineno n head ts event data_ =
      let entry = new_entry (suc (suc n)) head ts event data_ in
      ground (
        arith,
        pop_hash-put (str (hash head entry)) entry
            (new_entry_unhashed (suc (suc n)) head ts event data_),
        check_gap lineno n head ts event data_ (str (hash head entry)),
      )

  -- A call of `append` whose write is refused leaves the file as it was but counts: after calls whose
  -- writes all succeed, one that is refused and one that succeeds again, the log opens with the
  -- fault of a sequence gap in the line of the last call.
  pub refused_write_gap :
      (es : List Event) (lost next : Event)
      → AllWhole es
      → lost.write ≡ refused
      → next.write ≡ whole
      → let log = append_all es new_log in
        let log' = append_all (lost ∷ next ∷ []) log in
        open_log hash (some log'.lines)
        ≡ returns (record {
          lines = log'.lines;
          seq = suc (length es);
          head = log.head;
          tamper_error = some (sequence_gap (suc (length log.lines)));
        })
  unfolding open_log append_all append verify_file against
  refused_write_gap es lost next w is_lost is_next =
      let log = append_all es new_log in
      let v : Verdict = record { entries = log.seq; head = log.head; fault = none } in
      let n = log.seq in
      let entry = new_entry (suc (suc n)) log.head next.ts next.event next.fields in
      let line = parsed (obj (put (codes "hash") (str (hash log.head entry)) entry)) in
      let h = append_all-IsIntact es new_log w new_log-IsIntact in
      let before =
        verify_from-append log.lines (line ∷ []) 1 0 genesis v (against_none hash log.lines v h)
          refl in
      let later : n + 1 + 1 ≡ suc (suc n) = omega arith in
      let count : n ≡ length es = omega (arith, append_all-seq es new_log) in
      let place : 1 + length log.lines ≡ suc (length log.lines) = omega arith in
      rw (is_lost, is_next, later, before, place)
        (rw (verify_skipped (suc (length log.lines)) n log.head next.ts next.event next.fields)
          (rw count refl))
