-- ===== src/Tests/Enrol.antt =====
-- The theorems on pair.py with the configuration file, and on the listener that reads it.
use remote_unlock.Base.{
  ℕ, ◌≡◌, refl, ap, true, false, none, some, [], ◌∷◌, codes, text_eq, Text-discrete, arith,
  if◌then◌else◌,
}
use remote_unlock.Base.Dict.{lookup, insert, remove}
use remote_unlock.Outcome.{returns, ◌>>=◌}
use remote_unlock.Config.{Settings, ConfigFile}
use remote_unlock.Files.{Disk, owner_only, write_private, write_temp}
use remote_unlock.Protocol.Forms.{is_id}
use remote_unlock.Protocol.Signature.{Crypto, load_public_key, strip, contains}
use remote_unlock.Pairing.{has_id, disable, new_device, add_device, revoke_device}
use remote_unlock.Pairing.Setup.{Certificate, build_cert}
use remote_unlock.Pairing.Enrol.{
  Store, Issuing, Draws, Bundle, read_bytes, client_cert, issued_of, bundle_of, register, enrol,
  revoke,
}
use remote_unlock.Pairing.Enrol.Known.{Known, enrol-Known}
use remote_unlock.Pairing.Enrol.Revoked.{Unknown, revoke-accept-Unknown}
use remote_unlock.Service.Session.{accept}
use remote_unlock.Service.State.{new_service}
use remote_unlock.Tests.Data.{toy, phone, with_phones, env, service, working}
use remote_unlock.Tests.Setup.{tools, new_name}

abbrev ca_cert : Certificate ℕ ℕ
ca_cert = build_cert tools 0 (codes "ca") 1 (codes "ca") 1 3650 true [] none

abbrev issuing : Issuing ℕ ℕ
issuing = record {
  load_key = λ pem pw. returns 1;
  load_cert = λ pem. returns ca_cert;
  der = λ cert. 8 ∷ [];
  p12 = λ name key cert ca pw. 9 ∷ [];
  plain_pem = λ key. key ∷ [];
  isoformat = λ t. codes "2027";
}

-- Another certificate than the registered one.
abbrev other : Crypto ℕ ℕ
other = record toy { sha256_hex = λ b. codes "cd" }

abbrev draws : Draws ℕ
draws = record { now = 1000; key = 4; p12_password = codes "pw" }

abbrev before : Settings
before = with_phones (phone ∷ [])

abbrev new_cert : Certificate ℕ ℕ
new_cert = client_cert other tools issuing draws (codes "phone2") 365 1

abbrev after : Settings
after = with_phones (
    phone ∷ new_device other (codes "phone2") 5 (issued_of other tools issuing draws new_cert) ∷ [])

-- One byte stands for the settings before, another for those after.
abbrev two : Settings → Store
two settings' = record {
  parse = λ b. if text_eq b (1 ∷ []) then returns before else returns settings';
  print = λ s. 2 ∷ [];
}

abbrev disk : Disk
disk =
    (codes "/config.json", record { mode = owner_only; data_ = 1 ∷ [] })
    ∷ (codes "/ca-key.pem", record { mode = owner_only; data_ = [] })
    ∷ (codes "/ca-cert.pem", record { mode = owner_only; data_ = [] })
    ∷ []

abbrev bundle : Bundle
bundle = bundle_of other tools issuing draws (codes "phone2") new_cert ca_cert

registers :
    register other tools issuing draws
      (codes "phone2")
      (codes "BEGIN")
      (codes "pass")
      365
      disk
      before
    ≡ returns (after, bundle)
unfolding register lookup Text-discrete add_device is_id load_public_key has_id contains strip
    text_eq build_cert
registers = refl

enrols :
    (enrol other tools issuing
      (two after)
      working
      draws
      (codes "phone2")
      (codes "BEGIN")
      (codes "pass")
      365
      disk).1
    ≡ returns bundle
unfolding enrol register lookup Text-discrete add_device is_id load_public_key has_id contains strip
    text_eq build_cert write_private write_temp insert remove
enrols = refl

read_back :
    (s s' : Settings)
    → (read_bytes (codes "/config.json") disk >>= (two after).parse) ≡ returns s
    → register other tools issuing draws (codes "phone2") (codes "BEGIN") (codes "pass") 365 disk s
      ≡ returns (s', bundle)
    → (two after).parse ((two after).print s') ≡ returns s'
unfolding lookup Text-discrete text_eq
read_back s s' h k =
    let is_before : before ≡ s = ground arith in
    let is_after : after ≡ s' = cc (registers, is_before, k) in ap returns is_after

enrol-Known_example :
    Known other tools issuing
      (two after)
      draws
      (codes "phone2")
      (codes "BEGIN")
      (codes "pass")
      365
      disk
      (enrol other tools issuing
        (two after)
        working
        draws
        (codes "phone2")
        (codes "BEGIN")
        (codes "pass")
        365
        disk).0
      bundle
unfolding lookup Text-discrete
enrol-Known_example =
    enrol-Known other tools issuing (two after) working draws (codes "phone2") (codes "BEGIN")
      (codes "pass") 365 disk bundle read_back (λ tmp h. rw (new_name tmp h) refl) enrols

abbrev revoked : Settings
revoked = with_phones (record phone { enabled = some false; revoked = some (codes "now") } ∷ [])

revoked_lem : revoke_device (codes "phone1") (codes "now") before ≡ returns revoked
unfolding revoke_device disable text_eq
revoked_lem = refl

revokes :
    (revoke (two revoked) working (codes "/config.json") (codes "phone1") (codes "now") disk).1
    ≡ returns tt
unfolding revoke revoke_device disable text_eq lookup Text-discrete write_private write_temp insert
    remove
revokes = refl

revoked_read_back :
    (s s' : Settings)
    → (read_bytes (codes "/config.json") disk >>= (two revoked).parse) ≡ returns s
    → revoke_device (codes "phone1") (codes "now") s ≡ returns s'
    → (two revoked).parse ((two revoked).print s') ≡ returns s'
unfolding lookup Text-discrete text_eq
revoked_read_back s s' h k =
    let is_before : before ≡ s = ground arith in
    let is_after : revoked ≡ s' = cc (revoked_lem, is_before, k) in ap returns is_after

abbrev saved : ConfigFile
saved = record { mtime = 2; content = returns revoked }

revoke-accept-Unknown_example :
    Unknown env
      (codes "phone1")
      (accept env 100 (codes "100.64.0.9") (some (1 ∷ 2 ∷ [])) saved service)
unfolding revoke revoke_device disable text_eq lookup Text-discrete write_private write_temp insert
    remove has_id new_service
revoke-accept-Unknown_example =
    revoke-accept-Unknown env (two revoked) working (codes "/config.json") (codes "phone1")
      (codes "now") disk before 100 (codes "100.64.0.9") (some (1 ∷ 2 ∷ [])) saved service
      revoked_read_back (λ tmp h. rw (new_name tmp h) refl) refl (refl, tt) revokes
      (λ e. omega (arith, e)) refl
