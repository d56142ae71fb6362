-- ===== src/Pairing/Revocation.antt =====
-- The registered devices under `revoke_device` (pair.py).
use remote_unlock.Base.{
  ◌≡◌, refl, ◌∙◌, subst, ◌≢◌, ◌⊎◌, inl, inr, Bool, false, ◌||◌, none, some, List, [], ◌∷◌, ◌++◌,
  Text, text_eq, text_eq_iff, arith, All, All-mem, Bool-cases, if◌then◌else◌, Option-cases,
}
use remote_unlock.Outcome.{returns}
use remote_unlock.Config.{Device, Settings, is_enabled, first_enabled, device_by_id, device_by_fp}
use remote_unlock.Config.Lookup.{first_enabled_sound}
use remote_unlock.Pairing.{has_id, disable, revoke_device}

-- No id is registered twice.
abbrev pub DistinctIds : List Device → Type 0
DistinctIds [] = Unit
DistinctIds (d ∷ ds) = (has_id d.id ds ≡ false) × DistinctIds ds

has_id-append :
    (name : Text) (ds : List Device) (d : Device)
    → has_id name (ds ++ d ∷ []) ≡ (has_id name ds || text_eq d.id name)
unfolding has_id
has_id-append name [] d = ground arith
has_id-append name (e ∷ ds) d = ground (arith, has_id-append name ds d)

pub append-DistinctIds :
    (ds : List Device) (d : Device)
    → DistinctIds ds
    → has_id d.id ds ≡ false
    → DistinctIds (ds ++ d ∷ [])
unfolding has_id
append-DistinctIds [] d h new = (refl, tt)
append-DistinctIds (e ∷ ds) d h new = (
  ground (arith, has_id-append e.id ds d, text_eq_iff e.id d.id, text_eq_iff d.id e.id),
  append-DistinctIds ds d h.1 (ground arith),
)

-- How `disable` came by its result.
pub disable-inv :
    (name now : Text) (d : Device) (ds ds' : List Device)
    → disable name now (d ∷ ds) ≡ some ds'
    → ((d.id ≡ name) × (ds' ≡ record d { enabled = some false; revoked = some now } ∷ ds))
      ⊎ ((d.id ≢ name)
          × ((rest : List Device) × (disable name now ds ≡ some rest) × (ds' ≡ d ∷ rest)))
unfolding disable
disable-inv name now d ds ds' h = elim (Bool-cases (text_eq d.id name)) [
  | inl e ↦ inl ((text_eq_iff d.id name).0 e, ground arith)
  | inr e ↦ elim (Option-cases (disable name now ds)) [
    | inl n ↦ absurd (ground arith)
    | inr (rest, r) ↦ inr (λ same. ground (arith, text_eq_iff d.id name), (rest, r, ground arith))
  ]
]

pub not-disable-nil : (name now : Text) (ds' : List Device) → disable name now [] ≢ some ds'
unfolding disable
not-disable-nil name now ds' h = cc

-- The ids of the devices stay as they are when one is disabled.
pub has_id-disable :
    (j name now : Text) (ds ds' : List Device)
    → disable name now ds ≡ some ds'
    → has_id j ds' ≡ has_id j ds
unfolding has_id
has_id-disable j name now [] ds' h = absurd (not-disable-nil name now ds' h)
has_id-disable j name now (d ∷ ds) ds' h = elim (disable-inv name now d ds ds' h) [
  | inl (e, r) ↦ rw r refl
  | inr (ne, (rest, below, r)) ↦ rw (r, has_id-disable j name now ds rest below) refl
]

disable-DistinctIds :
    (name now : Text) (ds ds' : List Device)
    → disable name now ds ≡ some ds'
    → DistinctIds ds
    → DistinctIds ds'
disable-DistinctIds name now [] ds' h v = absurd (not-disable-nil name now ds' h)
disable-DistinctIds name now (d ∷ ds) ds' h v = elim (disable-inv name now d ds ds' h) [
  | inl (e, r) ↦ rw r v
  | inr (ne, (rest, below, r)) ↦ rw r (
    has_id-disable d.id name now ds rest below ∙ v.0,
    disable-DistinctIds name now ds rest below v.1,
  )
]

-- Every device with the name is disabled.
abbrev Revoked : Text → List Device → Type 0
Revoked name = All (λ d. d.id ≡ name → is_enabled d ≡ false)

Revoked-absent : (name : Text) (ds : List Device) → has_id name ds ≡ false → Revoked name ds
unfolding has_id
Revoked-absent name [] h = tt
Revoked-absent name (d ∷ ds) h =
    (λ e. ground (arith, text_eq_iff d.id name), Revoked-absent name ds (ground arith))

disable-Revoked :
    (name now : Text) (ds ds' : List Device)
    → disable name now ds ≡ some ds'
    → DistinctIds ds
    → Revoked name ds'
disable-Revoked name now [] ds' h v = absurd (not-disable-nil name now ds' h)
disable-Revoked name now (d ∷ ds) ds' h v = elim (disable-inv name now d ds ds' h) [
  | inl (e, r) ↦ rw r (λ _. refl, Revoked-absent name ds (subst (λ j. has_id j ds ≡ false) e v.0))
  | inr (ne, (rest, below, r)) ↦
      rw r (λ e. absurd (ne e), disable-Revoked name now ds rest below v.1)
]

not-found_Revoked :
    (p : Device → Bool) (name : Text) (ds : List Device) (d : Device)
    → Revoked name ds
    → first_enabled p ds ≡ some d
    → d.id ≢ name
not-found_Revoked p name ds d a h e =
    let (m, enabled, _) = first_enabled_sound p ds d h in
    let disabled : is_enabled d ≡ false =
      All-mem (λ x. x.id ≡ name → is_enabled x ≡ false) ds d a m e in
    cc

first_enabled_absent :
    (j : Text) (ds : List Device)
    → has_id j ds ≡ false
    → first_enabled (λ d. text_eq d.id j) ds ≡ none
unfolding has_id first_enabled
first_enabled_absent j [] h = refl
first_enabled_absent j (d ∷ ds) h = ground (arith, first_enabled_absent j ds)

first_enabled-disable :
    (j name now : Text) (ds ds' : List Device)
    → disable name now ds ≡ some ds'
    → DistinctIds ds
    → first_enabled (λ d. text_eq d.id j) ds'
      ≡ (if text_eq j name then none else first_enabled (λ d. text_eq d.id j) ds)
unfolding first_enabled
first_enabled-disable j name now [] ds' h v = absurd (not-disable-nil name now ds' h)
first_enabled-disable j name now (d ∷ ds) ds' h v = elim (disable-inv name now d ds ds' h) [
  | inl (e, r) ↦
      rw r (ground (arith, first_enabled_absent j ds, text_eq_iff d.id j, text_eq_iff j name, v.0))
  | inr (ne, (rest, below, r)) ↦
      let ih = first_enabled-disable j name now ds rest below v.1 in
      rw r (ground (arith, ih, text_eq_iff d.id j, text_eq_iff j name))
]

-- How a revocation came by its result.
pub revoked_devices :
    (name now : Text) (s s' : Settings)
    → revoke_device name now s ≡ returns s'
    → (ds : List Device) × (disable name now s.devices ≡ some ds) × (s' ≡ record s { devices = ds })
unfolding revoke_device
revoked_devices name now s s' h = elim (Option-cases (disable name now s.devices)) [
  | inl e ↦ absurd (ground arith)
  | inr (ds, e) ↦ (ds, e, ground arith)
]

revoke_device-DistinctIds :
    (name now : Text) (s s' : Settings)
    → DistinctIds s.devices
    → revoke_device name now s ≡ returns s'
    → DistinctIds s'.devices
revoke_device-DistinctIds name now s s' v h =
    let (ds, e, r) = revoked_devices name now s s' h in
    rw r (disable-DistinctIds name now s.devices ds e v)

-- After a revocation, on distinct ids, no lookup by id finds the device; a lookup of any other id
-- finds what it found.
pub device_by_id-revoke_device :
    (j name now : Text) (s s' : Settings)
    → DistinctIds s.devices
    → revoke_device name now s ≡ returns s'
    → device_by_id j s' ≡ (if text_eq j name then none else device_by_id j s)
unfolding device_by_id
device_by_id-revoke_device j name now s s' v h =
    let (ds, e, r) = revoked_devices name now s s' h in
    rw r (first_enabled-disable j name now s.devices ds e v)

-- After a revocation, on distinct ids, no lookup by fingerprint finds a device of that id.
pub device_by_fp-revoke_device :
    (fp name now : Text) (s s' : Settings) (d : Device)
    → DistinctIds s.devices
    → revoke_device name now s ≡ returns s'
    → device_by_fp fp s' ≡ some d
    → d.id ≢ name
unfolding device_by_fp
device_by_fp-revoke_device fp name now s s' d v h found =
    let (ds, e, r) = revoked_devices name now s s' h in
    not-found_Revoked (λ x. text_eq x.cert_sha256 fp) name ds d
      (disable-Revoked name now s.devices ds e v) (subst (λ x. device_by_fp fp x ≡ some d) r found)
