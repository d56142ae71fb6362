-- ===== src/Audit/Report.antt =====
-- The messages of `verify_file` and the command line of audit.py.
use remote_unlock.Base.{
  ℕ, ◌-◌, ◌+◌, Option, none, some, List, [], ◌∷◌, ◌++◌, Text, codes, drop, length, ◌==◌,
  if◌then◌else◌,
}
use remote_unlock.Base.Int.{ℤ, pos, negsuc}
use remote_unlock.Json.{Json, obj, Fields, find}
use remote_unlock.Outcome.{
  Outcome, returns, raises, key_error, type_error, value_error, handle, ◌>>=◌,
}
use remote_unlock.Protocol.Decimal.{show_nat}
use remote_unlock.Audit.{
  Fault, unparsable, sequence_gap, broken_link, content_modified, head_mismatch, Verdict, Line,
  parsed, verify_file,
}

unfoldable pub fault_text : Fault → Text
fault_text (unparsable lineno) = codes "line " ++ show_nat lineno ++ codes ": unparsable"
fault_text (sequence_gap lineno) =
    codes "line " ++ show_nat lineno ++ codes ": sequence gap/reorder"
fault_text (broken_link lineno) = codes "line " ++ show_nat lineno ++ codes ": broken chain link"
fault_text (content_modified lineno) =
    codes "line " ++ show_nat lineno ++ codes ": content modified"
fault_text head_mismatch = codes "head does not match anchor (log truncated or rewritten)"

-- The line that `_main` prints for a verdict, and its exit code.
unfoldable pub report : Verdict → Text × ℕ
unfolding fault_text
report v = elim v.fault [
  | none ↦ (codes "OK: " ++ show_nat v.entries ++ codes " entries, head=" ++ v.head, 0)
  | some f ↦ (
    codes "TAMPER DETECTED after "
        ++ show_nat v.entries
        ++ codes " valid entries: "
        ++ fault_text f,
    1,
  )
]

-- `_main` for `verify`: what is printed, and the exit code.
unfoldable pub main_verify :
    (Text → Fields → Text) → Option (List Line) → Option Text → Outcome (Text × ℕ)
unfolding report
main_verify hash file head = verify_file hash file head >>= λ v. returns (report v)

-- `lines[-n:]`, for the count n of `tail`: 0 and -0 are the same index, and a negative count leaves
-- out lines at the front.
unfoldable pub last_lines : {A : Type 0} → ℤ → List A → List A
last_lines (pos n) lines = if n == 0 then lines else drop (length lines - n) lines
last_lines (negsuc n) lines = drop (n + 1) lines

-- `e[k]`
abbrev pub value_at : Text → Fields → Outcome Json
value_at k fs = elim (find k fs) [ none ↦ raises key_error | some v ↦ returns v ]

-- What `tail` prints for a line: str of three values, and the canonical text of the data.
unfoldable pub tail_line : (Json → Text) → (Json → Text) → Line → Outcome Text
tail_line text_of dumps (parsed (obj fs)) = do
  seq ← value_at (codes "seq") fs
  ts ← value_at (codes "ts") fs
  event ← value_at (codes "event") fs
  value ← value_at (codes "data") fs
  returns (text_of seq ++ (b' ' ∷ (text_of ts ++ (b' ' ∷ (text_of event ++ (b' ' ∷ dumps value))))))
tail_line text_of dumps (parsed j) = raises type_error
tail_line text_of dumps _ = raises value_error

-- The lines that are printed before one of them raises, and how the loop ends.
unfoldable pub tail_lines :
    (Json → Text) → (Json → Text) → List Line → List Text × Outcome (Unit {0})
unfolding tail_line
tail_lines text_of dumps [] = ([], returns tt)
tail_lines text_of dumps (l ∷ ls) =
    let rest = tail_lines text_of dumps ls in
    handle (tail_line text_of dumps l) (λ t. (t ∷ rest.0, rest.1)) (λ e. ([], raises e))

-- `_main` for `tail`
unfoldable pub main_tail :
    (Json → Text) → (Json → Text) → ℤ → List Line → List Text × Outcome (Unit {0})
unfolding tail_lines last_lines
main_tail text_of dumps n lines = tail_lines text_of dumps (last_lines n lines)
