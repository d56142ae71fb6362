-- ===== src/Pairing/Enrol/Revoked.antt =====
-- A revocation by pair.py reaches a listener that is running: listener.py, `handle` up to the hello,
-- on a configuration file that `revoke_device` has saved.
use remote_unlock.Base.{
  ℕ, ◌≡◌, refl, ◌∙◌, ap, sym, subst, ◌≢◌, ◌&&◌, Option, none, some, [], ◌∷◌, Text, Bytes,
  Text-discrete, text_eq_refl, text_eq_iff, arith, leb, if_split,
}
use remote_unlock.Base.Dict.{lookup}
use remote_unlock.Outcome.{returns, ◌>>=◌, bind_returns}
use remote_unlock.Config.{Settings, Device, ConfigFile, device_by_fp, device_by_id}
use remote_unlock.Config.Lookup.{reload_if_changed_takes}
use remote_unlock.Files.{Disk, Calls}
use remote_unlock.Pairing.{revoke_device}
use remote_unlock.Pairing.Revocation.{
  DistinctIds, device_by_id-revoke_device, device_by_fp-revoke_device,
}
use remote_unlock.Pairing.Enrol.{Store, read_bytes, revoke}
use remote_unlock.Pairing.Enrol.Known.{update_config-returns}
use remote_unlock.Service.State.{Env, Kind, Service, settings}
use remote_unlock.Service.Challenge.{no_registered_client_certificate}
use remote_unlock.Service.Session.{
  Piece, accept, begin, reject, locked, device_of_cert, is_missing, identify, wants_hello, done,
  close, leave,
}
use remote_unlock.Service.Session.Frames.{locked-Keeps, reject-Ends}

-- The settings that a revocation saves, and that a listener reads back.
record Saved (st : Store) (path name now : Text) (d d' : Disk) : Type 0 where
  before : Settings
  after : Settings
  read : (read_bytes path d >>= st.parse) ≡ returns before
  saved : (read_bytes path d' >>= st.parse) ≡ returns after
  revoked : revoke_device name now before ≡ returns after

revoke-Saved :
    (st : Store) (calls : Calls) (path name now : Text) (d : Disk)
    → ((s s' : Settings)
        → (read_bytes path d >>= st.parse) ≡ returns s
        → revoke_device name now s ≡ returns s'
        → st.parse (st.print s') ≡ returns s')
    → ((tmp : Text) → calls.mkstemp ≡ returns tmp → lookup Text-discrete tmp d ≡ none)
    → (revoke st calls path name now d).1 ≡ returns tt
    → Saved st path name now d (revoke st calls path name now d).0
unfolding revoke
revoke-Saved st calls path name now d inverse new h =
    let (s, s', read, made, wrote) =
      update_config-returns st calls path (λ s. revoke_device name now s >>= λ s'. returns (s', tt))
        d tt new h in
    let (s'', revoked, last) =
      bind_returns (revoke_device name now s) (λ s'. returns (s', tt)) (s', tt) made in
    let same : s'' ≡ s' = cc in
    let done_ : revoke_device name now s ≡ returns s' = rw same at revoked in
    record {
      before = s;
      after = s';
      read = read;
      saved = rw wrote.stored (inverse s s' read done_);
      revoked = done_;
    }

module _ {PrivateKey PublicKey : Type 0} (env : Env PrivateKey PublicKey) (name : Text) where
  -- A connection that waits for its hello is not taken for the device, and is not identified as it.
  abbrev pub Unknown : Piece → Type 0
  Unknown p =
      (cert_device : Option Device)
      → p.2 ≡ wants_hello cert_device
      → ((dev : Device) → cert_device ≡ some dev → dev.id ≢ name)
        × (identify env cert_device name p.0 ≡ none)

  Unknown-done : (p : Piece) → p.2 ≡ done → Unknown p
  Unknown-done p e cert_device h = absurd (ground arith)

  -- Settings in which the device is found neither by its id nor by any fingerprint.
  abbrev IsGone : Settings → Type 0
  IsGone st =
      (device_by_id name st ≡ none)
      × ((fp : Text) (dev : Device) → device_by_fp fp st ≡ some dev → dev.id ≢ name)

  device_of_cert-gone :
      (der : Option Bytes) (s : Service) (dev : Device)
      → IsGone (settings s)
      → device_of_cert env der s ≡ some dev
      → dev.id ≢ name
  unfolding device_of_cert
  device_of_cert-gone none s dev gone h = absurd (ground arith)
  device_of_cert-gone (some []) s dev gone h = absurd (ground arith)
  device_of_cert-gone (some (b ∷ der)) s dev gone h = gone.1 (env.crypto.sha256_hex (b ∷ der)) dev h

  identify-gone :
      (cert_device : Option Device) (s : Service)
      → device_by_id name (settings s) ≡ none
      → ((dev : Device) → cert_device ≡ some dev → dev.id ≢ name)
      → identify env cert_device name s ≡ none
  unfolding identify
  identify-gone none s absent other = rw (absent, identify) refl
  identify-gone (some dev) s absent other = ground (arith, text_eq_iff dev.id name, other dev refl)

  begin-Unknown :
      (now : ℕ) (ip : Text) (der : Option Bytes) (s : Service)
      → IsGone (settings s)
      → Unknown (begin env now ip der s)
  unfolding begin
  begin-Unknown now ip der s gone =
      let r = locked env now Kind.ip ip s in
      let same : settings r.0 ≡ settings s =
        ap (λ cfg. cfg.settings) (locked-Keeps env now Kind.ip ip s).config in
      let gone' : IsGone (settings r.0) = subst IsGone (sym same) gone in
      if_split Unknown r.1 _ _ (λ _. Unknown-done (leave env (r.0, close 1008 ∷ [])) refl)
        (λ _.
          if_split Unknown ((settings r.0).require_mtls && is_missing (device_of_cert env der r.0))
            _ _
            (λ _.
              Unknown-done (reject env now ip none no_registered_client_certificate r.0)
                (reject-Ends env now ip none no_registered_client_certificate r.0).phase)
            (λ _ cert_device h.
              let is_it : device_of_cert env der r.0 ≡ cert_device = ground arith in
              let other : (dev : Device) → cert_device ≡ some dev → dev.id ≢ name =
                λ dev e. device_of_cert-gone der r.0 dev gone' (is_it ∙ e) in
              (other, identify-gone cert_device r.0 gone'.0 other)))

  accept-Unknown :
      (now : ℕ) (ip : Text) (der : Option Bytes) (file : ConfigFile) (s : Service) (st : Settings)
      → file.mtime ≢ s.config.mtime
      → file.content ≡ returns st
      → IsGone st
      → Unknown (accept env now ip der file s)
  unfolding accept
  accept-Unknown now ip der file s st changed read gone =
      if_split Unknown (leb (settings s).max_connections s.active) _ _
        (λ _. Unknown-done (s, close 1013 ∷ [], done) refl)
        (λ _.
          rw (reload_if_changed_takes file s.config st changed read)
            (begin-Unknown now ip der _ gone))

-- A revocation takes effect without a restart: after `revoke_device` that returns, on ids that were
-- distinct, a listener that finds the file changed takes no new connection for the device, whatever
-- certificate it shows, and identifies no hello with its id; if the configuration that is saved is
-- read back and mkstemp chooses a new name.
pub revoke-accept-Unknown :
    {PrivateKey PublicKey : Type 0} (env : Env PrivateKey PublicKey) (st : Store) (calls : Calls)
    (path name stamp : Text) (d : Disk) (before : Settings) (now : ℕ) (ip : Text)
    (der : Option Bytes) (file : ConfigFile) (s : Service)
    → ((x x' : Settings)
        → (read_bytes path d >>= st.parse) ≡ returns x
        → revoke_device name stamp x ≡ returns x'
        → st.parse (st.print x') ≡ returns x')
    → ((tmp : Text) → calls.mkstemp ≡ returns tmp → lookup Text-discrete tmp d ≡ none)
    → (read_bytes path d >>= st.parse) ≡ returns before
    → DistinctIds before.devices
    → (revoke st calls path name stamp d).1 ≡ returns tt
    → file.mtime ≢ s.config.mtime
    → file.content ≡ (read_bytes path (revoke st calls path name stamp d).0 >>= st.parse)
    → Unknown env name (accept env now ip der file s)
revoke-accept-Unknown env st calls path name stamp d before now ip der file s inverse new was
      distinct h changed content =
    let r = revoke-Saved st calls path name stamp d inverse new h in
    let same : r.before ≡ before = cc in
    let distinct' : DistinctIds r.before.devices =
      subst (λ (x : Settings). DistinctIds x.devices) (sym same) distinct in
    accept-Unknown env name now ip der file s r.after changed (content ∙ r.saved) (
      device_by_id-revoke_device name name stamp r.before r.after distinct' r.revoked
          ∙ rw (text_eq_refl name) refl,
      λ fp dev found.
          device_by_fp-revoke_device fp name stamp r.before r.after dev distinct' r.revoked found,
    )
