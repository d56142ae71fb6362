-- ===== src/Audit.antt =====
-- audit.py: the hash-chained log. A line of the file stands for what `json.loads` makes of it; the
-- hash of an entry is SHA-256 over the previous hash and the canonical JSON of the entry, which
-- does not depend on the order of its keys.
pub mod Chain
pub mod Append
pub mod Faults
pub mod Report
pub mod Exact
use remote_unlock.Base.{
  ◌≡◌, ap, arith, text_eq_iff, ℕ, suc, ◌+◌, Bool, true, false, not, ◌&&◌, Option, none, some, List,
  [], ◌∷◌, ◌++◌, Text, leb, codes, text_eq, ◌==◌, if◌then◌else◌,
}
use remote_unlock.Protocol.Signature.{starts_with}
use remote_unlock.Base.Int.{pos}
use remote_unlock.Json.{Json, bool, int, str, arr, obj, Fields, end, field, find, get, without, put}
use remote_unlock.Outcome.{
  os_error, Outcome, returns, raises, value_error, type_error, attribute_error, key_error, ◌>>=◌,
}

-- A line without its newline: empty, no JSON, or a JSON value.
pub data Line : Type 0 where
  blank : Line
  malformed : Line
  parsed : Json → Line

-- GENESIS
abbrev pub genesis : Text
genesis = codes "0000000000000000000000000000000000000000000000000000000000000000"

-- The error messages of `verify_file`, without the line number, which is a field.
pub data Fault : Type 0 where
  unparsable sequence_gap broken_link content_modified : ℕ → Fault
  head_mismatch : Fault

-- What `verify_file` returns: (ok, entries, head, error_message), `ok` being that there is no error.
pub record Verdict : Type 0 where
  pub entries : ℕ
  pub head : Text
  pub fault : Option Fault

abbrev pub fails : ℕ → Text → Fault → Outcome Verdict
fails n prev f = returns (record { entries = n; head = prev; fault = some f })

-- `x == n` for a number n: True and False are 1 and 0.
abbrev pub equals_int : Json → ℕ → Bool
equals_int (int (pos m)) n = m == n
equals_int (bool true) n = n == 1
equals_int (bool false) n = n == 0
equals_int _ n = false

-- `x == t` for a text t
unfoldable pub equals_text : Json → Text → Bool
equals_text (str s) t = text_eq s t
equals_text _ t = false

pub equals_text-true : (j : Json) (t : Text) → equals_text j t ≡ true → j ≡ str t
unfolding equals_text
equals_text-true (str u) t h = ap str ((text_eq_iff u t).0 h)
equals_text-true j t h = absurd (ground arith)

-- `entry = json.loads(line)` and `claimed = entry.pop("hash")`: the entry without its hash, and the
-- hash. A value that is no object has no such `pop`: a list raises TypeError, another value
-- AttributeError.
unfoldable pub pop_hash : Json → Outcome (Fields × Json)
pop_hash (obj fs) = elim (find (codes "hash") fs) [
  | none ↦ raises key_error
  | some claimed ↦ returns (without (codes "hash") fs, claimed)
]
pop_hash (arr xs) = raises type_error
pop_hash _ = raises attribute_error

-- What is left of the loop's body after the parsing: the next `prev`, or the fault.
pub data Checked : Type 0 where
  good : Text → Checked
  bad : Fault → Checked

unfoldable pub lower : Text → Text
lower [] = []
lower (c ∷ t) = (if leb b'A' c && leb c b'Z' then c + 32 else c) ∷ lower t

-- `expected_head and not prev.startswith(expected_head.lower())`
unfoldable pub mismatches : Option Text → Text → Bool
unfolding lower
mismatches none head = false
mismatches (some []) head = false
mismatches (some (c ∷ t)) head = not (starts_with (lower (c ∷ t)) head)

unfoldable pub against : Option Text → Verdict → Verdict
unfolding mismatches
against expected v = elim v.fault [
  | none ↦ if mismatches expected v.head then record v { fault = some head_mismatch } else v
  | some f ↦ v
]

-- `class AuditLog`, with the lines of its file.
pub record AuditLog : Type 0 where
  pub lines : List Line
  pub seq : ℕ
  pub head : Text
  pub tamper_error : Option Fault

-- How the writing of one entry ends: the line is written; nothing is written, and `open` or `write`
-- raises; the line is written, and `fsync` raises; or a part of the line is written, and `write`
-- returns the number of its bytes, which `append` does not look at, or a later call raises. A part
-- stands as a malformed line of its own: in the file the next entry is joined to it, and
-- `verify_file` stops there.
pub data Write : Type 0 where
  whole refused unsynced torn torn_raising : Write

-- The entry of `append`, before its hash.
abbrev pub new_entry : ℕ → Text → Text → Text → Fields → Fields
new_entry seq head ts event data_ = field (codes "seq") (int (pos seq)) (
    field (codes "ts") (str ts) (
      field (codes "event") (str event)
        (field (codes "data") (obj data_) (field (codes "prev") (str head) end))))

module _ (hash : Text → Fields → Text) where
  unfoldable pub check_entry : ℕ → ℕ → Text → Fields → Json → Checked
  unfolding equals_text
  check_entry lineno n prev entry claimed =
      if not (equals_int (get (codes "seq") entry) n)
      then bad (sequence_gap lineno)
      else if not (equals_text (get (codes "prev") entry) prev)
      then bad (broken_link lineno)
      else if not (equals_text claimed (hash prev entry))
      then bad (content_modified lineno)
      else good (hash prev entry)

  -- The loop of `verify_file`, from a line on: the line's number, `n` and `prev`.
  unfoldable pub verify_from : List Line → ℕ → ℕ → Text → Outcome Verdict
  unfolding pop_hash check_entry
  verify_from [] lineno n prev = returns (record { entries = n; head = prev; fault = none })
  verify_from (blank ∷ ls) lineno n prev = verify_from ls (suc lineno) n prev
  verify_from (malformed ∷ ls) lineno n prev = fails n prev (unparsable lineno)
  verify_from (parsed j ∷ ls) lineno n prev = elim (pop_hash j) [
    | raises key_error ↦ fails n prev (unparsable lineno)
    | raises value_error ↦ fails n prev (unparsable lineno)
    | raises e ↦ raises e
    | returns (entry, claimed) ↦ elim (check_entry lineno (suc n) prev entry claimed) [
      | bad f ↦ fails (suc n) prev f
      | good next ↦ verify_from ls (suc lineno) (suc n) next
    ]
  ]

  -- `verify_file`; `none` is a file that does not exist.
  unfoldable pub verify_file : Option (List Line) → Option Text → Outcome Verdict
  unfolding verify_from against
  verify_file none expected = returns (record { entries = 0; head = genesis; fault = none })
  verify_file (some ls) expected = do v ← verify_from ls 1 0 genesis; returns (against expected v)

  abbrev pub or_empty : Option (List Line) → List Line
  or_empty none = []
  or_empty (some ls) = ls

  -- `AuditLog(path)`
  unfoldable pub open_log : Option (List Line) → Outcome AuditLog
  unfolding verify_file
  open_log file = do
    v ← verify_file file none
    returns
        (record { lines = or_empty file; seq = v.entries; head = v.head; tamper_error = v.fault })

  -- `append`, at the time `ts`: the log afterwards, and the (seq, head) that it returns.
  unfoldable pub append : Write → Text → Text → Fields → AuditLog → AuditLog × Outcome (ℕ × Text)
  append w ts event data_ log =
      let seq = log.seq + 1 in
      let entry = new_entry seq log.head ts event data_ in
      let digest = hash log.head entry in
      let line = parsed (obj (put (codes "hash") (str digest) entry)) in
      elim w [
        | whole ↦ (
          record log { lines = log.lines ++ line ∷ []; seq = seq; head = digest },
          returns (seq, digest),
        )
        | refused ↦ (record log { seq = seq }, raises os_error)
        | unsynced ↦ (record log { lines = log.lines ++ line ∷ []; seq = seq }, raises os_error)
        | torn ↦ (
          record log { lines = log.lines ++ malformed ∷ []; seq = seq; head = digest },
          returns (seq, digest),
        )
        | torn_raising ↦
            (record log { lines = log.lines ++ malformed ∷ []; seq = seq }, raises os_error)
      ]
