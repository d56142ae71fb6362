-- ===== src/Client/Keygen.antt =====
-- `keygen` of `main` and `make_ssl_context` of client_example.py.
use remote_unlock.Base.{ℕ, ◌≡◌, refl, Option, none, some, Text, Bytes, Text-discrete, if_pos}
use remote_unlock.Base.Dict.{lookup, insert, lookup-insert}
use remote_unlock.Outcome.{Outcome, returns, raises, Exception, handle, ◌>>◌}
use remote_unlock.Files.{File, Disk, owner_only, set_text}

-- The context for TLS 1.3 and above: the CA's file, and the client's certificate and key if both are
-- given.
pub record Context : Type 0 where
  pub ca : Text
  pub chain : Option (Text × Text)

abbrev pub both : Option Text → Option Text → Option (Text × Text)
both (some cert) (some key) = some (cert, key)
both _ _ = none

-- `make_ssl_context`, by the outcomes of reading the CA's file and of `load_cert_chain`
unfoldable pub make_ssl_context :
    (Text → Outcome (Unit {0}))
    → (Text → Text → Outcome (Unit {0}))
    → Text
    → Option Text
    → Option Text
    → Outcome Context
make_ssl_context create load_cert_chain ca cert key =
    let chain = both (set_text cert) (set_text key) in
    create ca >> (elim chain as (λ _. Outcome Context) [
      | none ↦ returns (record { ca = ca; chain = none })
      | some p ↦ load_cert_chain p.0 p.1 >> returns (record { ca = ca; chain = some p })
    ])

-- The mode of a file that is written to: its own, or that of new files.
abbrev pub mode_of : ℕ → Option File → ℕ
mode_of new_mode none = new_mode
mode_of new_mode (some f) = f.mode

-- `keygen`, for the PEM texts of the key that is made: `write_bytes`, `chmod(0o600)` and `print`.
unfoldable pub keygen :
    ℕ → Outcome (Unit {0}) → Outcome (Unit {0}) → Bytes → Text → Text → Disk → Disk × Outcome Text
keygen new_mode write chmod pem public_pem out disk =
    handle write
      (λ _.
        let mode = mode_of new_mode (lookup Text-discrete out disk) in
        let written : Disk = insert Text-discrete out (record { mode = mode; data_ = pem }) disk in
        handle chmod
          (λ _. (
            insert Text-discrete out (record { mode = owner_only; data_ = pem }) disk,
            returns public_pem,
          ))
          (λ e. (written, raises e)))
      (λ e. (disk, raises e))

-- A private key that was written stays readable as new files are, if `chmod` fails.
keygen_exposes :
    (new_mode : ℕ) (e : Exception) (pem : Bytes) (public_pem out : Text) (d : Disk)
    → lookup Text-discrete out d ≡ none
    → lookup Text-discrete out (keygen new_mode (returns tt) (raises e) pem public_pem out d).0
      ≡ some (record { mode = new_mode; data_ = pem })
unfolding keygen
keygen_exposes new_mode e pem public_pem out d new =
    rw
      (
        new,
        lookup-insert Text-discrete out out (record { mode = new_mode; data_ = pem }) d,
        if_pos (Text-discrete out out) refl,
      )
      refl
