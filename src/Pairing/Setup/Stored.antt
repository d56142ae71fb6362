-- ===== src/Pairing/Setup/Stored.antt =====
-- What `init` of pair.py leaves on the disk.
use remote_unlock.Base.{
  text_eq, text_eq_iff, subst, ◌≡◌, refl, ◌≢◌, ◌∙◌, sym, Bool, inl, inr, List, [], ◌∷◌, some, none,
  Text, Bytes, Text-discrete, arith, All, true, false, ◌+◌, codes,
}
use remote_unlock.Base.Dict.{lookup}
use remote_unlock.Outcome.{◌>>=◌, Outcome, returns, Outcome-cases}
use remote_unlock.Files.{Disk, owner_only, others_may, check_private, Calls, write_private}
use remote_unlock.Files.Atomic.{Written, Ended-returns, write_private-Ended}
use remote_unlock.Pairing.Setup.{
  Tools, Drawn, Arguments, write_all, init_files, server_files, init, Certificate, server_auth,
  ip_address, dns_name, build_cert, init_data,
}
use remote_unlock.Base.Int.{pos}
use remote_unlock.Json.{Fields, str, int, get, find, put}
use remote_unlock.Config.Data.{defaults, update}
use remote_unlock.Pairing.{init_checks}

-- mkstemp chooses a name that is new, each time.
abbrev pub IsFresh : (Text → Calls) → List (Text × Bytes) → Disk → Type 0
IsFresh calls [] d = Unit
IsFresh calls ((path, data_) ∷ files) d =
    ((tmp : Text) → (calls path).mkstemp ≡ returns tmp → lookup Text-discrete tmp d ≡ none)
    × IsFresh calls files (write_private (calls path) path data_ d).0

-- No path is written twice.
abbrev pub IsOnce : List (Text × Bytes) → Type 0
IsOnce [] = Unit
IsOnce (f ∷ files) = All (λ g. f.0 ≢ g.0) files × IsOnce files

-- The path holds the data, for its owner only.
abbrev pub IsStored : Disk → Text × Bytes → Type 0
IsStored d f = lookup Text-discrete f.0 d ≡ some (record { mode = owner_only; data_ = f.1 })

-- A first file that is written, and the rest after it.
write_all_step :
    (calls : Text → Calls) (path : Text) (data_ : Bytes) (files : List (Text × Bytes)) (d : Disk)
    → IsFresh calls ((path, data_) ∷ files) d
    → (write_all calls ((path, data_) ∷ files) d).1 ≡ returns tt
    → let d' = (write_private (calls path) path data_ d).0 in
      Written path data_ d d'
      × (write_all calls ((path, data_) ∷ files) d ≡ write_all calls files d')
unfolding write_all
write_all_step calls path data_ files d fresh h =
    let r = write_private (calls path) path data_ d in
    elim (Outcome-cases r.1) [
      | inl (u, e) ↦ (
        Ended-returns (calls path) path data_ d r
            (write_private-Ended (calls path) path data_ d fresh.0) e,
        rw e refl,
      )
      | inr (x, e) ↦ absurd (ground arith)
    ]

write_all_keeps :
    (calls : Text → Calls) (files : List (Text × Bytes)) (d : Disk) (f : Text × Bytes)
    → IsStored d f
    → All (λ g. f.0 ≢ g.0) files
    → IsFresh calls files d
    → (write_all calls files d).1 ≡ returns tt
    → IsStored (write_all calls files d).0 f
unfolding write_all
write_all_keeps calls [] d f stored once fresh h = stored
write_all_keeps calls ((path, data_) ∷ files) d f stored once fresh h =
    let d' = (write_private (calls path) path data_ d).0 in
    let (w, same) = write_all_step calls path data_ files d fresh h in
    rw same (
      write_all_keeps calls files d' f (w.others f.0 once.0 ∙ stored) once.1 fresh.1 (rw same at h))

write_all_stores :
    (calls : Text → Calls) (files : List (Text × Bytes)) (d : Disk)
    → IsOnce files
    → IsFresh calls files d
    → (write_all calls files d).1 ≡ returns tt
    → All (IsStored (write_all calls files d).0) files
write_all_stores calls [] d once fresh h = tt
write_all_stores calls ((path, data_) ∷ files) d once fresh h =
    let d' = (write_private (calls path) path data_ d).0 in
    let (w, same) = write_all_step calls path data_ files d fresh h in
    subst (λ (r : Disk × Outcome (Unit {0})). All (IsStored r.0) ((path, data_) ∷ files)) (sym same)
      (
        write_all_keeps calls files d' (path, data_) w.stored once.0 fresh.1 (rw same at h),
        write_all_stores calls files d' once.1 fresh.1 (rw same at h),
      )

-- A file that is stored passes the test that `start` makes.
pub IsStored-check_private :
    (d : Disk) (f : Text × Bytes) → IsStored d f → check_private f.0 d ≡ returns tt
unfolding check_private others_may
IsStored-check_private d f h = rw h refl

module _ {PrivateKey PublicKey : Type 0} (t : Tools PrivateKey PublicKey) where
  -- Different names are different paths.
  abbrev pub IsApart : Type 0
  IsApart = (a b : Text) → t.path a ≡ t.path b → a ≡ b

  differ : IsApart → (a b : Text) → text_eq a b ≡ false → t.path a ≢ t.path b
  differ apart a b h e = ground (arith, (text_eq_iff a b).1 (apart a b e))

  init_files-IsOnce :
      (w : Drawn PrivateKey) (a : Arguments) (address : Text)
      → IsApart
      → IsOnce (init_files t w a address)
  unfolding init_files server_files text_eq
  init_files-IsOnce w a address apart =
      let ne = differ apart in
      (
        (ne _ _ refl, (ne _ _ refl, (ne _ _ refl, (ne _ _ refl, (ne _ _ refl, tt))))),
        (
          (ne _ _ refl, (ne _ _ refl, (ne _ _ refl, (ne _ _ refl, tt)))),
          (
            (ne _ _ refl, (ne _ _ refl, (ne _ _ refl, tt))),
            ((ne _ _ refl, (ne _ _ refl, tt)), ((ne _ _ refl, tt), (tt, tt))),
          ),
        ),
      )

  -- An `init` that returns has written its files one after the other.
  init_lem :
      (calls : Text → Calls) (w : Drawn PrivateKey) (a : Arguments) (exists_ : Bool) (d : Disk)
      (address : Text)
      → t.parse_ip a.ip ≡ returns address
      → (init t calls w a exists_ d).1 ≡ returns tt
      → init t calls w a exists_ d ≡ write_all calls (init_files t w a address) d
  unfolding init
  init_lem calls w a exists_ d address parsed h =
      let checks =
        init_checks a.passphrase a.target_id a.ip (t.parse_ip a.ip >>= λ _. returns tt) exists_
          a.force in
      elim (Outcome-cases checks) [
        | inl (u, e) ↦ rw (e, parsed) refl
        | inr (x, e) ↦ absurd (ground arith)
      ]

  -- The file is stored, and passes the test of permissions.
  abbrev pub IsReady : Disk → Text × Bytes → Type 0
  IsReady d f = IsStored d f × (check_private f.0 d ≡ returns tt)

  All-IsReady :
      (d : Disk) (files : List (Text × Bytes)) → All (IsStored d) files → All (IsReady d) files
  All-IsReady d [] h = tt
  All-IsReady d (f ∷ files) h = ((h.0, IsStored-check_private d f h.0), All-IsReady d files h.1)

  -- The CA's certificate, that it has signed itself.
  abbrev pub IsCaCert : Drawn PrivateKey → Certificate PrivateKey PublicKey → Type 0
  IsCaCert w cert =
      (cert.subject ≡ codes "remote-unlock-ca")
      × (cert.issuer ≡ codes "remote-unlock-ca")
      × (cert.public_key ≡ t.public_of w.ca_key)
      × (cert.signed_by ≡ w.ca_key)
      × (cert.ca ≡ true)
      × (cert.key_cert_sign ≡ true)
      × (cert.not_after ≡ w.now + 315360000)

  -- A certificate of the laptop for its name and its address, that the CA has signed.
  abbrev pub IsServerCert :
      Drawn PrivateKey → Arguments → Text → Certificate PrivateKey PublicKey → Type 0
  IsServerCert w a address cert =
      (cert.subject ≡ a.target_id)
      × (cert.issuer ≡ codes "remote-unlock-ca")
      × (cert.public_key ≡ t.public_of w.server_key)
      × (cert.signed_by ≡ w.ca_key)
      × (cert.ca ≡ false)
      × (cert.extended_key_usage ≡ some server_auth)
      × (cert.alternative_names ≡ ip_address address ∷ dns_name a.target_id ∷ [])
      × (cert.not_after ≡ w.now + 31536000)

  -- A configuration with the arguments, and the public half of the signing key.
  abbrev pub IsConfig : Drawn PrivateKey → Arguments → Fields → Type 0
  IsConfig w a fs =
      (get (codes "target_id") fs ≡ str a.target_id)
      × (get (codes "listener_ip") fs ≡ str a.ip)
      × (get (codes "listener_port") fs ≡ int (pos a.port))
      × (get (codes "unlock_user") fs ≡ str a.unlock_user)
      × (get (codes "signing_key") fs ≡ str (codes "laptop-signing-key.pem"))
      × (get (codes "laptop_public_key_pem") fs ≡ str (t.public_pem (t.public_of w.sign_key)))

  -- The six files.
  pub record Initialized (w : Drawn PrivateKey) (a : Arguments) (address : Text) (d : Disk)
      : Type 0 where
    pub ca_key : IsReady d (t.path (codes "ca-key.pem"), t.enc_pem w.ca_key a.passphrase)
    pub server_key :
        IsReady d (t.path (codes "server-key.pem"), t.enc_pem w.server_key a.passphrase)
    pub signing_key :
        IsReady d (t.path (codes "laptop-signing-key.pem"), t.enc_pem w.sign_key a.passphrase)
    pub ca_cert :
        (cert : Certificate PrivateKey PublicKey) × IsReady d
          (t.path (codes "ca-cert.pem"), t.cert_pem cert)
        × IsCaCert w cert
    pub server_cert :
        (cert : Certificate PrivateKey PublicKey) × IsReady d
          (t.path (codes "server-cert.pem"), t.cert_pem cert)
        × IsServerCert w a address cert
    pub config :
        (fs : Fields) × IsReady d (t.path (codes "config.json"), t.dumps fs) × IsConfig w a fs

  init_data-IsConfig : (w : Drawn PrivateKey) (a : Arguments) → IsConfig w a (init_data t w a)
  unfolding init_data update defaults get find put Text-discrete text_eq
  init_data-IsConfig w a = (refl, refl, refl, refl, refl, refl)

  All-Initialized :
      (w : Drawn PrivateKey) (a : Arguments) (address : Text) (d : Disk)
      → All (IsReady d) (init_files t w a address)
      → Initialized w a address d
  unfolding init_files server_files build_cert
  All-Initialized w a address d
        (ca_key, (ca_cert, (server_key, (server_cert, (signing_key, (config, _)))))) =
      record {
        ca_key = ca_key;
        server_key = server_key;
        signing_key = signing_key;
        ca_cert = (_, ca_cert, (refl, refl, refl, refl, refl, refl, refl));
        server_cert = (_, server_cert, (refl, refl, refl, refl, refl, refl, refl, refl));
        config = (init_data t w a, config, init_data-IsConfig w a);
      }

  -- After an `init` that returns, the three keys, each encrypted under the passphrase, the CA's
  -- certificate, which it has signed itself, the server's certificate, which the CA's key has signed
  -- for the name and the address, and the configuration with the arguments and the public half of
  -- the signing key are stored under their names, for their owner only, and pass the tests of
  -- permissions that `start` makes, if different names are different paths and mkstemp chooses new
  -- names.
  pub init-Initialized :
      (calls : Text → Calls) (w : Drawn PrivateKey) (a : Arguments) (exists_ : Bool) (d : Disk)
      (address : Text)
      → IsApart
      → t.parse_ip a.ip ≡ returns address
      → IsFresh calls (init_files t w a address) d
      → (init t calls w a exists_ d).1 ≡ returns tt
      → Initialized w a address (init t calls w a exists_ d).0
  init-Initialized calls w a exists_ d address apart parsed fresh h =
      let files = init_files t w a address in
      let same = init_lem calls w a exists_ d address parsed h in
      All-Initialized w a address (init t calls w a exists_ d).0 (
        All-IsReady (init t calls w a exists_ d).0 files (
          subst (λ (r : Disk × Outcome (Unit {0})). All (IsStored r.0) files) (sym same)
            (write_all_stores calls files d (init_files-IsOnce w a address apart) fresh
              (rw same at h))))
