-- ===== src/Pairing/Registry.antt =====
-- The registered devices under `add_device`, and under it after `revoke_device` (pair.py).
use remote_unlock.Base.{
  ◌≡◌, refl, ◌∙◌, inl, inr, true, false, some, List, [], ◌∷◌, ◌++◌, Text, text_eq, text_eq_iff,
  arith, if◌then◌else◌,
}
use remote_unlock.Outcome.{Outcome-cases, Outcome, returns, raises, system_exit}
use remote_unlock.Protocol.Forms.{is_id}
use remote_unlock.Protocol.Signature.{Crypto, load_public_key}
use remote_unlock.Config.{Device, Settings, is_enabled, first_enabled, device_by_id}
use remote_unlock.Pairing.{has_id, Issued, new_device, add_device, disable, revoke_device}
use remote_unlock.Pairing.Revocation.{
  DistinctIds, append-DistinctIds, disable-inv, not-disable-nil, has_id-disable, revoked_devices,
}

disable_known :
    (name now : Text) (ds ds' : List Device)
    → disable name now ds ≡ some ds'
    → has_id name ds ≡ true
unfolding has_id
disable_known name now [] ds' h = absurd (not-disable-nil name now ds' h)
disable_known name now (d ∷ ds) ds' h = elim (disable-inv name now d ds ds' h) [
  | inl (e, r) ↦ ground (arith, text_eq_iff d.id name)
  | inr (ne, (rest, below, r)) ↦ ground (arith, disable_known name now ds rest below)
]

pub first_enabled-append :
    (j : Text) (ds : List Device) (d : Device)
    → has_id d.id ds ≡ false
    → is_enabled d ≡ true
    → first_enabled (λ x. text_eq x.id j) (ds ++ d ∷ [])
      ≡ (if text_eq j d.id then some d else first_enabled (λ x. text_eq x.id j) ds)
unfolding first_enabled has_id
first_enabled-append j [] d new on = ground (arith, text_eq_iff d.id j, text_eq_iff j d.id)
first_enabled-append j (e ∷ ds) d new on = ground (
  arith,
  first_enabled-append j ds d,
  text_eq_iff e.id d.id,
  text_eq_iff e.id j,
  text_eq_iff j d.id,
)

module _ {PrivateKey PublicKey : Type 0} (c : Crypto PrivateKey PublicKey) where
  -- How a registration came by its result.
  pub added_devices :
      (name pubkey : Text) (issue : Outcome Issued) (s s' : Settings)
      → add_device c name pubkey issue s ≡ returns s'
      → (key : PublicKey) × (issued : Issued) × (is_id name ≡ true)
        × (has_id name s.devices ≡ false)
        × (load_public_key c pubkey ≡ returns key)
        × (issue ≡ returns issued)
        × (s' ≡ record s { devices = s.devices ++ new_device c name key issued ∷ [] })
  unfolding add_device
  added_devices name pubkey issue s s' h = elim (Outcome-cases (load_public_key c pubkey)) [
    | inl (key, k) ↦ elim (Outcome-cases issue) [
      | inl (issued, i) ↦ (key, issued, ground arith, ground arith, k, i, ground arith)
      | inr (e, i) ↦ absurd (ground arith)
    ]
    | inr (e, k) ↦ absurd (ground arith)
  ]

  -- A registration that succeeds keeps the ids of the devices distinct.
  pub add_device-DistinctIds :
      (name pubkey : Text) (issue : Outcome Issued) (s s' : Settings)
      → DistinctIds s.devices
      → add_device c name pubkey issue s ≡ returns s'
      → DistinctIds s'.devices
  add_device-DistinctIds name pubkey issue s s' v h =
      let (key, issued, _, new, _, _, r) = added_devices name pubkey issue s s' h in
      rw r (append-DistinctIds s.devices (new_device c name key issued) v new)

  -- After a registration a lookup of the new id finds the device, with the key that the phone gave
  -- and the fingerprint of the issued certificate; any other lookup by id finds what it found.
  pub device_by_id-add_device :
      (j name pubkey : Text) (issue : Outcome Issued) (s s' : Settings)
      → add_device c name pubkey issue s ≡ returns s'
      → (key : PublicKey) × (issued : Issued) × (load_public_key c pubkey ≡ returns key)
        × (issue ≡ returns issued)
        × (device_by_id j s'
            ≡ (if text_eq j name then some (new_device c name key issued) else device_by_id j s))
  unfolding device_by_id
  device_by_id-add_device j name pubkey issue s s' h =
      let (key, issued, _, new, k, i, r) = added_devices name pubkey issue s s' h in
      (
        key,
        issued,
        k,
        i,
        rw r (first_enabled-append j s.devices (new_device c name key issued) new refl),
      )

  -- A revoked id cannot be registered again, whatever key and certificate are given.
  pub add_device-revoke_device :
      (name now pubkey : Text) (issue : Outcome Issued) (s s' : Settings)
      → revoke_device name now s ≡ returns s'
      → add_device c name pubkey issue s' ≡ raises system_exit
  unfolding add_device
  add_device-revoke_device name now pubkey issue s s' h =
      let (ds, e, r) = revoked_devices name now s s' h in
      let still : has_id name s'.devices ≡ true =
        rw r
          (has_id-disable name name now s.devices ds e ∙ disable_known name now s.devices ds e) in
      ground (arith, still)
