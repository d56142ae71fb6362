-- ===== src/Audit/Faults.antt =====
-- How `verify_file` and `AuditLog` treat a line that is not what `append` writes.
use remote_unlock.Base.{suc, ◌+◌, ◌≡◌, none, some, List, ◌∷◌, ◌++◌, Text, arith, length}
use remote_unlock.Json.{Json, Fields}
use remote_unlock.Outcome.{returns, raises, attribute_error}
use remote_unlock.Audit.{
  Line, parsed, genesis, Fault, Verdict, pop_hash, bad, check_entry, verify_from, verify_file,
  open_log, against,
}
use remote_unlock.Audit.Append.{verify_from-append}

module _ (hash : Text → Fields → Text) where
  -- After lines that verify, an entry that fails a test of the chain is counted all the same: the
  -- number of entries that `verify_file` reports is one more than that of the good ones before it.
  pub faulty_entry_counted :
      (ls rest : List Line) (j : Json) (v : Verdict) (entry : Fields) (claimed : Json) (f : Fault)
      → verify_from hash ls 1 0 genesis ≡ returns v
      → v.fault ≡ none
      → pop_hash j ≡ returns (entry, claimed)
      → check_entry hash (1 + length ls) (suc v.entries) v.head entry claimed ≡ bad f
      → verify_file hash (some (ls ++ parsed j ∷ rest)) none
        ≡ returns (record { entries = suc v.entries; head = v.head; fault = some f })
  unfolding verify_file verify_from against
  faulty_entry_counted ls rest j v entry claimed f h ok p k =
      rw (verify_from-append hash ls (parsed j ∷ rest) 1 0 genesis v h ok) (ground (arith, p, k))

  -- After lines that verify, a line of JSON whose `pop` raises AttributeError (as null, a number or
  -- a text) makes the constructor of `AuditLog` raise it instead of reporting a fault.
  pub open_log_raises :
      (ls rest : List Line) (j : Json) (v : Verdict)
      → verify_from hash ls 1 0 genesis ≡ returns v
      → v.fault ≡ none
      → pop_hash j ≡ raises attribute_error
      → open_log hash (some (ls ++ parsed j ∷ rest)) ≡ raises attribute_error
  unfolding open_log verify_from
  open_log_raises ls rest j v h ok p =
      rw (verify_from-append hash ls (parsed j ∷ rest) 1 0 genesis v h ok) (ground (arith, p))
