-- ===== src/Pairing/Command/Listing.antt =====
-- What `list-devices` of pair.py says of a device.
use remote_unlock.Base.{
  ◌≡◌, ◌↔◌, refl, subst, true, ◌||◌, some, List, [], ◌∷◌, codes, text_eq, text_eq_refl, text_eq_iff,
  arith, Memᴰ, Bool-cases, inl, inr,
}
use remote_unlock.Config.{Settings, Device, is_enabled, first_enabled, device_by_id}
use remote_unlock.Config.Lookup.{first_enabled_sound}
use remote_unlock.Pairing.{has_id}
use remote_unlock.Pairing.Revocation.{DistinctIds}
use remote_unlock.Pairing.Command.{state_of}

has_id-mem : (d : Device) (ds : List Device) → Memᴰ d ds → has_id d.id ds ≡ true
unfolding has_id
has_id-mem d [] m = elim m [ ]
has_id-mem d (e ∷ ds) (Memᴰ.head q) =
    subst (λ (x : Device). (text_eq x.id d.id || has_id d.id ds) ≡ true) q
      (ground (arith, text_eq_refl d.id))
has_id-mem d (e ∷ ds) (Memᴰ.tail m) = ground (arith, has_id-mem d ds m)

-- On distinct ids an enabled device is found by its id.
found-mem :
    (d : Device) (ds : List Device)
    → DistinctIds ds
    → Memᴰ d ds
    → is_enabled d ≡ true
    → first_enabled (λ x. text_eq x.id d.id) ds ≡ some d
unfolding first_enabled
found-mem d [] distinct m on = elim m [ ]
found-mem d (e ∷ ds) distinct (Memᴰ.head q) on =
    subst (λ (x : Device). first_enabled (λ y. text_eq y.id d.id) (x ∷ ds) ≡ some d) q
      (ground (arith, text_eq_refl d.id, on))
found-mem d (e ∷ ds) distinct (Memᴰ.tail m) on =
    ground
      (arith, found-mem d ds distinct.1 m on, has_id-mem d ds m, text_eq_iff e.id d.id, distinct.0)

active-is_enabled : (d : Device) → state_of d ≡ codes "active" → is_enabled d ≡ true
active-is_enabled d h = elim (Bool-cases (is_enabled d)) [
  | inl on ↦ on
  | inr off ↦ absurd (ground arith)
]

-- On distinct ids, a device of the list is shown as active exactly if it is what its id finds.
pub active_found :
    (s : Settings) (d : Device)
    → DistinctIds s.devices
    → Memᴰ d s.devices
    → (state_of d ≡ codes "active") ↔ (device_by_id d.id s ≡ some d)
unfolding device_by_id
active_found s d distinct m = (
  λ h. found-mem d s.devices distinct m (active-is_enabled d h),
  λ h. let (_, on, _) = first_enabled_sound (λ x. text_eq x.id d.id) s.devices d h in rw on refl,
)
