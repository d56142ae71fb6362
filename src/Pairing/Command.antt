-- ===== src/Pairing/Command.antt =====
-- `main` of pair.py: what each command does to the disk, and what it prints. `init` prints where its
-- files are, which is left out.
pub mod Listing
use remote_unlock.Base.{
  ℕ, zero, suc, ◌-◌, Bool, true, false, Option, none, some, List, [], ◌∷◌, ◌++◌, Text, Bytes, codes,
  length, map, if◌then◌else◌,
}
use remote_unlock.Outcome.{Outcome, returns, raises, handle, ◌>>=◌, ◌>>◌}
use remote_unlock.Protocol.Signature.{Crypto}
use remote_unlock.Config.{Settings, Device, is_enabled}
use remote_unlock.Files.{Disk, Calls, Surroundings, get_passphrase, write_private}
use remote_unlock.Pairing.Setup.{Tools, Drawn, Arguments, Certificate, issue_server, init}
use remote_unlock.Pairing.Enrol.{
  Store, Issuing, Draws, Bundle, read_bytes, load_ca, load_ca_cert, enrol, revoke,
}

-- The arguments of a command; a key is given inline or by the name of a file.
pub data KeySource : Type 0 where
  inline file : Text → KeySource

pub data Command : Type 0 where
  add_device : Text → KeySource → Text → Command
  list_devices : Command
  revoke_device : Text → Command
  renew_server : Option Text → Command

-- `f"{t:<n}"`
abbrev pub spaces : ℕ → Text
spaces zero = []
spaces (suc n) = b' ' ∷ spaces n

abbrev pub padded : ℕ → Text → Text
padded n t = t ++ spaces (n - length t)

abbrev pub or_nothing : Option Text → Text
or_nothing none = []
or_nothing (some t) = t

abbrev pub state_of : Device → Text
state_of d = if is_enabled d then codes "active" else codes "REVOKED " ++ or_nothing d.revoked

-- A line of `list-devices`.
abbrev pub line_of : Device → Text
line_of d =
    padded 20 d.id
    ++ (b' ' ∷ (padded 10 (state_of d) ++ (codes " cert-expires " ++ d.cert_expires)))

-- `list-devices`
unfoldable pub list_lines : Settings → List Text
list_lines s = map line_of s.devices

-- `ip or cfg["listener_ip"]`
abbrev pub or_listener_ip : Option Text → Settings → Text
or_listener_ip none s = s.listener_ip
or_listener_ip (some []) s = s.listener_ip
or_listener_ip (some (a ∷ ip)) s = a ∷ ip

-- What the commands find and draw: the calls that write each file, the time, the keys, how a file's
-- text is decoded, `Path(out) / name`, and the passphrase's surroundings.
pub record Run (PrivateKey : Type 0) : Type 0 where
  pub calls : Text → Calls
  pub draws : Draws PrivateKey
  pub server_key : PrivateKey
  pub stamp : Text
  pub decode : Bytes → Outcome Text
  pub join : Text → Text → Text
  pub around : Surroundings

module _ {PrivateKey PublicKey : Type 0} (c : Crypto PrivateKey PublicKey)
    (t : Tools PrivateKey PublicKey) (i : Issuing PrivateKey PublicKey) (st : Store) where
  abbrev pub config_path : Text
  config_path = t.path (codes "config.json")

  -- `renew_server`: the two files are written, and then the address is saved.
  unfoldable pub renew : Run PrivateKey → Option Text → Text → Disk → Disk × Outcome (Unit {0})
  renew w ip passphrase disk =
      let loaded : Outcome (Settings × PrivateKey × Certificate PrivateKey PublicKey) =
        read_bytes config_path disk >>= st.parse >>= λ s.
        load_ca c t i passphrase disk >>= λ ca_key.
        load_ca_cert c t i disk >>= λ ca_cert. returns (s, ca_key, ca_cert) in
      handle loaded
        (λ l.
          let (s, ca_key, ca_cert) = l in
          let address = or_listener_ip ip s in
          let (disk', ended) =
            issue_server t w.calls w.draws.now w.server_key ca_key ca_cert.subject s.target_id
              address passphrase disk in
          handle ended
            (λ _.
              write_private (w.calls config_path) config_path
                (st.print (record s { listener_ip = address })) disk')
            (λ e. (disk', raises e)))
        (λ e. (disk, raises e))

  -- The key of the phone, from the command line or a file.
  abbrev pub key_text : Run PrivateKey → KeySource → Disk → Outcome Text
  key_text w (inline key) disk = returns key
  key_text w (file path) disk = read_bytes path disk >>= w.decode

  -- What `add-device` prints.
  abbrev pub registered : Text → Text → Bundle → List Text
  registered name path b =
      (codes "Registered '" ++ (name ++ codes "'."))
      ∷ (codes "  Client certificate bundle: " ++ path)
      ∷ (codes "  Bundle password (shown ONCE): " ++ b.p12_password)
      ∷ (codes "  Transfer the .p12 to the phone over a trusted channel, import it, "
          ++ codes "then delete the file.")
      ∷ []

  -- `add-device`: the device is registered, and the bundle is written.
  unfoldable pub add : Run PrivateKey → Text → KeySource → Text → Disk → Disk × Outcome (List Text)
  add w name source out disk =
      handle (key_text w source disk)
        (λ key.
          handle (get_passphrase w.around false disk)
            (λ pw.
              let (disk', made) =
                enrol c t i st (w.calls config_path) w.draws name key pw 365 disk in
              let path = w.join out (name ++ codes ".p12") in
              handle made
                (λ b.
                  let (disk'', ended) = write_private (w.calls path) path b.p12 disk' in
                  (disk'', ended >> returns (registered name path b)))
                (λ e. (disk', raises e)))
            (λ e. (disk, raises e)))
        (λ e. (disk, raises e))

  abbrev pub prints : Text → Disk × Outcome (Unit {0}) → Disk × Outcome (List Text)
  prints line r = (r.0, r.1 >> returns (line ∷ []))

  -- `main`, but for `init`
  unfoldable pub main : Run PrivateKey → Command → Disk → Disk × Outcome (List Text)
  unfolding list_lines renew add
  main w (add_device name source out) disk = add w name source out disk
  main w list_devices disk =
      (disk, read_bytes config_path disk >>= st.parse >>= λ s. returns (list_lines s))
  main w (revoke_device name) disk =
      prints (codes "Revoked " ++ (name ++ codes ". Active immediately."))
        (revoke st (w.calls config_path) config_path name w.stamp disk)
  main w (renew_server ip) disk =
      handle (get_passphrase w.around false disk)
        (λ pw.
          prints (codes "Server certificate re-issued. Restart the service.") (renew w ip pw disk))
        (λ e. (disk, raises e))

-- `init` of `main`: the passphrase is asked for twice.
unfoldable pub main_init :
    {PrivateKey PublicKey : Type 0}
    → Tools PrivateKey PublicKey
    → (Text → Calls)
    → Drawn PrivateKey
    → Surroundings
    → Arguments
    → Bool
    → Disk
    → Disk × Outcome (Unit {0})
main_init t calls w around a exists_ disk =
    handle (get_passphrase around true disk)
      (λ pw. init t calls w (record a { passphrase = pw }) exists_ disk) (λ e. (disk, raises e))
