-- ===== src/Pairing/Enrol/Known.antt =====
-- The listener knows the phone that `add_device` of pair.py has registered.
use remote_unlock.Base.{
  ℕ, ◌+◌, ◌*◌, false, sym, subst, ◌≡◌, refl, ◌∙◌, ap, Bool, true, none, some, List, [], ◌∷◌, ◌++◌,
  Text, codes, Text-discrete, text_eq, text_eq_refl, arith, Bool-cases, inl, inr,
}
use remote_unlock.Base.Dict.{lookup}
use remote_unlock.Outcome.{Outcome, returns, ◌>>=◌, ◌>>◌, bind_returns, then_returns, Outcome-cases}
use remote_unlock.Protocol.Forms.{is_id}
use remote_unlock.Protocol.Signature.{Crypto, load_public_key}
use remote_unlock.Config.{Settings, Device, is_enabled, first_enabled, device_by_fp, device_by_id}
use remote_unlock.Files.{Disk, Calls, write_private}
use remote_unlock.Files.Atomic.{Written, Ended-returns, write_private-Ended}
use remote_unlock.Pairing.{Issued, new_device, add_device}
use remote_unlock.Pairing.Registry.{added_devices, first_enabled-append}
use remote_unlock.Pairing.Setup.{Tools, Certificate, client_auth, build_cert}
use remote_unlock.Pairing.Enrol.{
  make, Certificates, Store, Issuing, Draws, Bundle, read_bytes, update_config, load_ca,
  load_ca_cert, client_cert, issued_of, bundle_of, register, enrol,
}

-- An update that returns has read the settings, and saved what it made of them.
pub update_config-returns :
    {A : Type 0} (st : Store) (calls : Calls) (path : Text) (f : Settings → Outcome (Settings × A))
    (d : Disk) (a : A)
    → ((tmp : Text) → calls.mkstemp ≡ returns tmp → lookup Text-discrete tmp d ≡ none)
    → (update_config st calls path f d).1 ≡ returns a
    → (s : Settings) × (s' : Settings) × ((read_bytes path d >>= st.parse) ≡ returns s)
      × (f s ≡ returns (s', a))
      × Written path (st.print s') d (update_config st calls path f d).0
update_config-returns {A} st calls path f d a new h =
    elim (Outcome-cases (read_bytes path d >>= st.parse >>= f)) [
      | inr (e, r) ↦ absurd (ground arith)
      | inl ((s', b), r) ↦
          let (s, read, made) = bind_returns (read_bytes path d >>= st.parse) f (s', b) r in
          let ended = (write_private calls path (st.print s') d).1 in
          let done : (ended >> returns b) ≡ returns a = rw r at h in
          let (wrote, same) = then_returns ended (returns b) a done in
          let w : Written path (st.print s') d (write_private calls path (st.print s') d).0 =
            Ended-returns calls path (st.print s') d (write_private calls path (st.print s') d)
              (write_private-Ended calls path (st.print s') d new) wrote in
          let b_is_a : b ≡ a = cc in
          (s, s', read, rw made (ap (λ x. returns (s', x)) b_is_a), rw r w)
    ]

first_enabled_last :
    (p : Device → Bool) (ds : List Device) (d : Device)
    → first_enabled p ds ≡ none
    → is_enabled d ≡ true
    → p d ≡ true
    → first_enabled p (ds ++ d ∷ []) ≡ some d
unfolding first_enabled
first_enabled_last p [] d h on passes = ground arith
first_enabled_last p (e ∷ ds) d h on passes = ground (arith, first_enabled_last p ds d)

module _ {PrivateKey PublicKey : Type 0} (c : Crypto PrivateKey PublicKey)
    (t : Tools PrivateKey PublicKey) (i : Issuing PrivateKey PublicKey) where
  -- The certificates that are made: the device's is signed with the CA's key.
  make_lem :
      (w : Draws PrivateKey) (name passphrase : Text) (days : ℕ) (d : Disk) (m : Certificates c t i)
      → make c t i w name passphrase days d ≡ returns m
      → (ca_key : PrivateKey) × (load_ca c t i passphrase d ≡ returns ca_key)
        × (load_ca_cert c t i d ≡ returns m.1)
        × (m.0 ≡ client_cert c t i w name days ca_key)
  make_lem w name passphrase days d m h =
      let (ca_key, k, rest) =
        bind_returns (load_ca c t i passphrase d)
          (λ ca_key. load_ca_cert c t i d >>= λ ca_cert.
            let made : Certificates c t i = (client_cert c t i w name days ca_key, ca_cert) in
            returns made)
          m h in
      let (ca_cert, l, last) =
        bind_returns (load_ca_cert c t i d)
          (λ ca_cert.
            let made : Certificates c t i = (client_cert c t i w name days ca_key, ca_cert) in
            returns made)
          m rest in
      (ca_key, k, rw l (ground arith), ground arith)

  -- What `register` has made.
  register_lem :
      (w : Draws PrivateKey) (name pubkey passphrase : Text) (days : ℕ) (d : Disk) (s s' : Settings)
      (b : Bundle)
      → register c t i w name pubkey passphrase days d s ≡ returns (s', b)
      → (m : Certificates c t i) × (make c t i w name passphrase days d ≡ returns m)
        × (add_device c name pubkey (returns (issued_of c t i w m.0)) s ≡ returns s')
        × (b ≡ bundle_of c t i w name m.0 m.1)
  unfolding register
  register_lem w name pubkey passphrase days d s s' b h =
      let made = make c t i w name passphrase days d in
      let (s₁, added, rest) =
        bind_returns (add_device c name pubkey (made >>= λ m. returns (issued_of c t i w m.0)) s)
          (λ s'. made >>= λ m. returns (s', bundle_of c t i w name m.0 m.1)) (s', b) h in
      let (m, e, last) =
        bind_returns made (λ m. returns (s₁, bundle_of c t i w name m.0 m.1)) (s', b) rest in
      let same : s₁ ≡ s' = cc in
      let its : b ≡ bundle_of c t i w name m.0 m.1 = cc in (m, e, rw same at (rw e at added), its)

  -- The device that `add_device` has appended is found, by its id and by its fingerprint.
  add_device_found :
      (name pubkey : Text) (issued : Issued) (s s' : Settings)
      → add_device c name pubkey (returns issued) s ≡ returns s'
      → (key : PublicKey) × (load_public_key c pubkey ≡ returns key)
        × (device_by_id name s' ≡ some (new_device c name key issued))
        × (device_by_fp issued.fingerprint s ≡ none
            → device_by_fp issued.fingerprint s' ≡ some (new_device c name key issued))
  unfolding device_by_id device_by_fp
  add_device_found name pubkey issued s s' h =
      let (key, it, _, fresh, loaded, is_it, r) =
        added_devices c name pubkey (returns issued) s s' h in
      let same : it ≡ issued = cc in
      let dev = new_device c name key issued in
      let eq : s' ≡ record s { devices = s.devices ++ dev ∷ [] } =
        r ∙ ap (λ x. record s { devices = s.devices ++ new_device c name key x ∷ [] }) same in
      (
        key,
        loaded,
        rw eq (first_enabled-append name s.devices dev fresh refl ∙ rw (text_eq_refl name) refl),
        λ absent. rw eq (
            first_enabled_last (λ x. text_eq x.cert_sha256 issued.fingerprint) s.devices dev absent
              refl (text_eq_refl issued.fingerprint)),
      )

  -- A certificate for the client end of TLS, in the name of the device and for the key that was drawn
  -- for it, that the CA has signed with its key.
  abbrev pub IsClientCert :
      Draws PrivateKey → Text → ℕ → PrivateKey → Certificate PrivateKey PublicKey → Type 0
  IsClientCert w name days ca_key cert =
      (cert.subject ≡ name)
      × (cert.issuer ≡ codes "remote-unlock-ca")
      × (cert.public_key ≡ t.public_of w.key)
      × (cert.signed_by ≡ ca_key)
      × (cert.ca ≡ false)
      × (cert.extended_key_usage ≡ some client_auth)
      × (cert.not_after ≡ w.now + days * 86400)

  -- What is handed out: the certificate of the device, its key, and both with the CA's certificate
  -- under a password.
  abbrev pub Holds :
      Draws PrivateKey
      → Text
      → Certificate PrivateKey PublicKey
      → Certificate PrivateKey PublicKey
      → Bundle
      → Type 0
  Holds w name cert ca_cert b =
      (b.cert_pem ≡ t.cert_pem cert)
      × (b.key_pem ≡ i.plain_pem w.key)
      × (b.p12 ≡ i.p12 name w.key cert ca_cert b.p12_password)
      × (b.p12_password ≡ w.p12_password)

  -- An enabled device of that name, with the phone's key and the fingerprint of the certificate.
  abbrev pub IsPhone : Text → PublicKey → Certificate PrivateKey PublicKey → Device → Type 0
  IsPhone name key cert dev =
      (dev.id ≡ name)
      × (dev.public_key_pem ≡ c.public_pem key)
      × (dev.cert_sha256 ≡ c.sha256_hex (i.der cert))
      × (is_enabled dev ≡ true)

  -- What a registration leaves: the file gives these settings, in which the device is found by its id
  -- and by the certificate that the bundle holds, which is signed with the key that ca-key.pem holds.
  pub record Known (st : Store) (w : Draws PrivateKey) (name pubkey passphrase : Text) (days : ℕ)
      (d d' : Disk) (b : Bundle) : Type 0 where
    pub before : Settings
    pub after : Settings
    pub ca_key : PrivateKey
    pub ca_cert : Certificate PrivateKey PublicKey
    pub cert : Certificate PrivateKey PublicKey
    pub key : PublicKey
    pub device : Device
    pub read : (read_bytes (t.path (codes "config.json")) d >>= st.parse) ≡ returns before
    pub saved : (read_bytes (t.path (codes "config.json")) d' >>= st.parse) ≡ returns after
    pub ca :
        (read_bytes (t.path (codes "ca-key.pem")) d >>= λ pem. i.load_key pem passphrase)
        ≡ returns ca_key
    pub root : (read_bytes (t.path (codes "ca-cert.pem")) d >>= i.load_cert) ≡ returns ca_cert
    pub made : IsClientCert w name days ca_key cert
    pub handed : Holds w name cert ca_cert b
    pub pinned : load_public_key c pubkey ≡ returns key
    pub phone : IsPhone name key cert device
    pub by_id : device_by_id name after ≡ some device
    pub by_fp :
        device_by_fp (c.sha256_hex (i.der cert)) before ≡ none
        → device_by_fp (c.sha256_hex (i.der cert)) after ≡ some device

  client_cert-IsClientCert :
      (w : Draws PrivateKey) (name : Text) (days : ℕ) (ca_key : PrivateKey)
      → IsClientCert w name days ca_key (client_cert c t i w name days ca_key)
  unfolding build_cert
  client_cert-IsClientCert w name days ca_key = (refl, refl, refl, refl, refl, refl, refl)

  bundle_of-Holds :
      (w : Draws PrivateKey) (name : Text) (cert ca_cert : Certificate PrivateKey PublicKey)
      → Holds w name cert ca_cert (bundle_of c t i w name cert ca_cert)
  bundle_of-Holds w name cert ca_cert = (refl, refl, refl, refl)

  -- After `add_device` that returns a bundle, if the configuration that is saved is read back
  -- and mkstemp chooses a new name, the saved configuration has the device enabled under its id, with
  -- the phone's key and the fingerprint of a certificate that the key in ca-key.pem has signed for the
  -- device's name and the key that was drawn for it; the bundle holds that certificate, its key, and
  -- both with the certificate in ca-cert.pem; and the listener finds the device by that certificate,
  -- if no device had the fingerprint.
  pub enrol-Known :
      (st : Store) (calls : Calls) (w : Draws PrivateKey) (name pubkey passphrase : Text) (days : ℕ)
      (d : Disk) (b : Bundle)
      → ((s s' : Settings)
          → (read_bytes (t.path (codes "config.json")) d >>= st.parse) ≡ returns s
          → register c t i w name pubkey passphrase days d s ≡ returns (s', b)
          → st.parse (st.print s') ≡ returns s')
      → ((tmp : Text) → calls.mkstemp ≡ returns tmp → lookup Text-discrete tmp d ≡ none)
      → (enrol c t i st calls w name pubkey passphrase days d).1 ≡ returns b
      → Known st w name pubkey passphrase days d
          (enrol c t i st calls w name pubkey passphrase days d).0
          b
  unfolding enrol
  enrol-Known st calls w name pubkey passphrase days d b inverse new h =
      elim (Bool-cases (is_id name)) [
        | inr other ↦ absurd (ground arith)
        | inl form ↦
            let path = t.path (codes "config.json") in
            let f = register c t i w name pubkey passphrase days d in
            let (s, s', read, made, wrote) =
              update_config-returns st calls path f d b new (rw form at h) in
            let (m, e, added, its) = register_lem w name pubkey passphrase days d s s' b made in
            let (ca_key, k, l, signed) = make_lem w name passphrase days d m e in
            let (key, loaded, by_id, by_fp) =
              add_device_found name pubkey (issued_of c t i w m.0) s s' added in
            rw form (record {
              before = s;
              after = s';
              ca_key = ca_key;
              ca_cert = m.1;
              cert = m.0;
              key = key;
              read = read;
              saved = rw wrote.stored (inverse s s' read made);
              device = new_device c name key (issued_of c t i w m.0);
              ca = k;
              root = l;
              made =
                  subst (IsClientCert w name days ca_key) (sym signed)
                    (client_cert-IsClientCert w name days ca_key);
              handed = subst (Holds w name m.0 m.1) (sym its) (bundle_of-Holds w name m.0 m.1);
              pinned = loaded;
              phone = (refl, refl, refl, refl);
              by_id = by_id;
              by_fp = by_fp;
            })
      ]
