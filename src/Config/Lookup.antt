-- ===== src/Config/Lookup.antt =====
-- What the lookups of devices find, and what a reload may change.
use remote_unlock.Base.{
  ◌≡◌, sym, subst, ◌&&◌, inl, inr, Bool, true, false, none, some, List, [], ◌∷◌, arith, Memᴰ, All,
  ◌≢◌, ◌⊎◌, Bool-cases,
}
use remote_unlock.Outcome.{returns, raises, os_error, value_error}
use remote_unlock.Config.{
  Device, Settings, Config, ConfigFile, reload, reload_if_changed, is_enabled, first_enabled,
}

-- A device that is found is listed, enabled, and passes the test.
pub first_enabled_sound :
    (p : Device → Bool) (ds : List Device) (d : Device)
    → first_enabled p ds ≡ some d
    → Memᴰ d ds × (is_enabled d ≡ true) × (p d ≡ true)
unfolding first_enabled
first_enabled_sound p [] d h = absurd (ground arith)
first_enabled_sound p (e ∷ ds) d h = elim (Bool-cases (is_enabled e && p e)) [
  | inl found ↦
      let same : e ≡ d = ground arith in
      (
        Memᴰ.head (sym same),
        subst (λ x. is_enabled x ≡ true) same (ground arith),
        subst (λ x. p x ≡ true) same (ground arith),
      )
  | inr skipped ↦
      let (m, enabled, passes) = first_enabled_sound p ds d (ground arith) in
      (Memᴰ.tail m, enabled, passes)
]

-- The devices before the first hit do not pass.
pub first_enabled-none :
    (p : Device → Bool) (ds : List Device)
    → first_enabled p ds ≡ none
    → All (λ d. (is_enabled d && p d) ≡ false) ds
unfolding first_enabled
first_enabled-none p [] h = tt
first_enabled-none p (e ∷ ds) h = elim (Bool-cases (is_enabled e && p e)) [
  | inl found ↦ absurd (ground arith)
  | inr skipped ↦ (skipped, first_enabled-none p ds (ground arith))
]

-- A reload of a file that is unchanged, or that fails with OSError or ValueError, keeps the
-- configuration.
pub reload_if_changed_keeps :
    (f : ConfigFile) (cfg : Config)
    → (f.mtime ≡ cfg.mtime) ⊎ (f.content ≡ raises os_error) ⊎ (f.content ≡ raises value_error)
    → reload_if_changed f cfg ≡ returns cfg
unfolding reload_if_changed reload
reload_if_changed_keeps f cfg h = ground arith

-- A changed file that is read gives its settings.
pub reload_if_changed_takes :
    (f : ConfigFile) (cfg : Config) (s : Settings)
    → f.mtime ≢ cfg.mtime
    → f.content ≡ returns s
    → reload_if_changed f cfg ≡ returns (record { settings = s; mtime = f.mtime })
unfolding reload_if_changed reload
reload_if_changed_takes f cfg s ne h = ground arith
