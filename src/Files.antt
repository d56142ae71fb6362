-- ===== src/Files.antt =====
-- Secrets and files of common.py: `get_passphrase`, `check_private` and `write_private`, on a disk
-- that maps paths to files. Directories and links are not modelled. Each call of the operating
-- system is given with how it ends.
pub mod Atomic
use remote_unlock.Base.{
  ℕ, ◌%◌, Bool, true, false, not, ◌==◌, Option, none, some, [], ◌∷◌, Text, Bytes, codes,
  Text-discrete, text_eq,
}
use remote_unlock.Base.Dict.{Dict, lookup, insert, remove}
use remote_unlock.Outcome.{
  Outcome, returns, raises, Exception, os_error, system_exit, raise_if, handle, ◌>>=◌, ◌>>◌,
}
use remote_unlock.Protocol.Signature.{strip}

-- A file: the permission bits and the type in `st_mode`, and the contents.
pub record File : Type 0 where
  pub mode : ℕ
  pub data_ : Bytes

abbrev pub Disk : Type 0
Disk = Dict Text File

-- 0o600
abbrev pub owner_only : ℕ
owner_only = 384

-- `(mode & 0o777) & 0o077`, which keeps the low six bits
unfoldable pub others_may : ℕ → Bool
others_may mode = not ((mode % 512) % 64 == 0)

-- The test of `check_private` on what `path.stat()` finds.
abbrev pub check_mode : Option File → Outcome (Unit {0})
check_mode none = raises os_error
check_mode (some f) = raise_if (others_may f.mode) system_exit

unfoldable pub check_private : Text → Disk → Outcome (Unit {0})
check_private path disk = check_mode (lookup Text-discrete path disk)

-- How the calls of `write_private` end: `mkdir`, `mkstemp` with the name that it chooses, `fchmod`,
-- `fdopen` with `write`, `flush`, `fsync`, `os.replace`, and the `unlink` of the handler. A `write` or a `flush`
-- that fails leaves some bytes in the file.
pub record Calls : Type 0 where
  pub mkdir : Outcome (Unit {0})
  pub mkstemp : Outcome Text
  pub fchmod : Outcome (Unit {0})
  pub write : Outcome (Unit {0})
  pub flush : Outcome (Unit {0})
  pub fsync : Outcome (Unit {0})
  pub replace : Outcome (Unit {0})
  pub unlink : Outcome (Unit {0})
  pub partly : Bytes

-- `os.replace(tmp, path)`, for what is held under `tmp`
abbrev pub rename : Option File → Text → Text → Disk → Disk
rename none tmp path disk = disk
rename (some f) tmp path disk = insert Text-discrete path f (remove Text-discrete tmp disk)

-- The handler, for what is held under `tmp` and how `os.unlink(tmp)` ends. A file that is not there
-- is no failure; one that cannot be removed raises in place of the first exception.
abbrev pub discard :
    Option File → Outcome (Unit {0}) → Text → Exception → Disk → Disk × Outcome (Unit {0})
discard none unlink tmp e disk = (disk, raises e)
discard (some f) (returns u) tmp e disk = (remove Text-discrete tmp disk, raises e)
discard (some f) (raises e') tmp e disk = (disk, raises e')

-- One call after which the disk is as given; if it raises, the handler runs on another disk.
abbrev pub call :
    Calls
    → Text
    → Outcome (Unit {0})
    → Disk
    → (Unit {0} → Disk × Outcome (Unit {0}))
    → Disk × Outcome (Unit {0})
call c tmp (returns u) on_failure next = next tt
call c tmp (raises e) on_failure next =
    discard (lookup Text-discrete tmp on_failure) c.unlink tmp e on_failure

-- The `try` of `write_private`. mkstemp has made an empty file that only its owner may use.
unfoldable pub write_temp : Calls → Text → Text → Bytes → Disk → Disk × Outcome (Unit {0})
write_temp c tmp path data_ disk =
    let holding =
      λ (d : Bytes). insert Text-discrete tmp (record { mode = owner_only; data_ = d }) disk in
    call c tmp c.fchmod (holding []) λ _. call c tmp c.write (holding c.partly) λ _.
      call c tmp c.flush (holding c.partly) λ _. call c tmp c.fsync (holding data_) λ _.
        call c tmp c.replace (holding data_) λ _.
          (rename (lookup Text-discrete tmp (holding data_)) tmp path (holding data_), returns tt)

unfoldable pub write_private : Calls → Text → Bytes → Disk → Disk × Outcome (Unit {0})
write_private c path data_ disk =
    handle c.mkdir
      (λ _. handle c.mkstemp (λ tmp. write_temp c tmp path data_ disk) (λ e. (disk, raises e)))
      (λ e. (disk, raises e))

-- What `get_passphrase` finds outside the program: two environment variables, `Path(dir) / name`,
-- the decoding of a file's bytes, and what the two prompts return.
pub record Surroundings : Type 0 where
  pub credentials_directory : Option Text
  pub passphrase_file : Option Text
  pub join : Text → Text → Text
  pub decode : Bytes → Outcome Text
  pub typed : Outcome Text
  pub repeated : Outcome Text

-- An environment variable that is set and not empty.
abbrev pub set_text : Option Text → Option Text
set_text none = none
set_text (some []) = none
set_text (some (a ∷ t)) = some (a ∷ t)

-- `getpass`, and once more if the passphrase is to be confirmed
unfoldable pub prompt : Surroundings → Bool → Outcome Text
prompt env true = env.typed >>= λ pw.
    env.repeated >>= λ again. raise_if (not (text_eq again pw)) system_exit >> returns pw
prompt env false = env.typed

-- The branch of `REMOTE_UNLOCK_PASSPHRASE_FILE`.
unfoldable pub from_file : Surroundings → Bool → Disk → Outcome Text
from_file env confirm disk = elim (set_text env.passphrase_file) [
  | none ↦ prompt env confirm
  | some path ↦ elim (lookup Text-discrete path disk) [
    | none ↦ prompt env confirm
    | some f ↦ check_private path disk >> (env.decode f.data_ >>= λ t. returns (strip t))
  ]
]

unfoldable pub get_passphrase : Surroundings → Bool → Disk → Outcome Text
get_passphrase env confirm disk = elim (set_text env.credentials_directory) [
  | none ↦ from_file env confirm disk
  | some dir ↦ elim (lookup Text-discrete (env.join dir (codes "passphrase")) disk) [
    | none ↦ from_file env confirm disk
    | some f ↦ env.decode f.data_ >>= λ t. returns (strip t)
  ]
]

-- `home_dir` and `state_dir`, by the variable, `Path.home()` and `/`
unfoldable pub home_dir : (Text → Text → Text) → Text → Option Text → Text
home_dir join home variable = elim (set_text variable) [
  | some dir ↦ dir
  | none ↦ join (join home (codes ".config")) (codes "remote-unlock")
]

unfoldable pub state_dir : (Text → Text → Text) → Text → Option Text → Text
state_dir join home variable = elim (set_text variable) [
  | some dir ↦ dir
  | none ↦ join (join (join home (codes ".local")) (codes "state")) (codes "remote-unlock")
]
