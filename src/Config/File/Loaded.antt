-- ===== src/Config/File/Loaded.antt =====
-- src/config/app.rs: the settings that are loaded are within their limits.
use anemone_rs.Base.{
  ℕ, true, ◌&&◌, Option, none, some, Text, ◌≡◌, refl, ap, sym, subst, ◌∙◌, ◌⊎◌, inl, inr, arith,
  Bool-cases, Option-cases, Sum-cases,
}
use anemone_rs.Config.App.{
  Config, normalize, normalize_translation, migrate, dictionary_leaf, ehnd_leaf,
}
use anemone_rs.Config.App.Normal.{normalize_idem}
use anemone_rs.Config.File.{
  Disk, Toml, System, ConfigLoadError, read_to_string, exists, is_file, is_dir, eztrans_dll,
  with_bundle, decoded, from_toml_str, load_content, load_from_file, is_missing_bundle,
  relocate_into, relocate_missing_bundled_eztrans_paths, loaded, loaded_or, load_or_default_from,
}
use anemone_rs.Config.File.RoundTrip.{unwrap}

unfoldable pub unwrap_some : {A : Type 0} → A → Option A → A
unwrap_some a none = a
unwrap_some a (some b) = b

abbrev IsNormal : Config → Type 0
IsNormal c = normalize c ≡ c

with_bundle-IsNormal :
    (c : Config) (dictionary ehnd : Text) → IsNormal c → IsNormal (with_bundle c dictionary ehnd)
unfolding with_bundle normalize normalize_translation
with_bundle-IsNormal c dictionary ehnd normal = ap (λ d. with_bundle d dictionary ehnd) normal

module _ (toml : Toml) (sys : System) where
  decoded-IsNormal : (o : Option Config) (c : Config) → decoded toml sys o ≡ inr c → IsNormal c
  unfolding decoded unwrap
  decoded-IsNormal none c h = cc
  decoded-IsNormal (some read) c h = elim (Sum-cases (migrate sys.paths read)) [
    | inl bad ↦
        let e : decoded toml sys (some read) ≡ inl bad.0 = rw (decoded, bad.1) refl in
        ground (arith, e)
    | inr good ↦
        let e : decoded toml sys (some read) ≡ inr (normalize good.0) = rw (decoded, good.1) refl in
        subst IsNormal (ap (unwrap read) (sym e ∙ h)) (normalize_idem good.0)
  ]

  load_content-IsNormal :
      (o : Option Text) (c : Config) → load_content toml sys o ≡ inr c → IsNormal c
  unfolding load_content from_toml_str unwrap
  load_content-IsNormal none c h = cc
  load_content-IsNormal (some content) c h = elim (Sum-cases (from_toml_str toml sys content)) [
    | inl bad ↦
        let e : load_content toml sys (some content) ≡ inl (ConfigLoadError.decode bad.0) =
          rw (load_content, bad.1) refl in
        ground (arith, e)
    | inr good ↦
        let e : load_content toml sys (some content) ≡ inr good.0 =
          rw (load_content, good.1) refl in
        subst IsNormal (ap (unwrap c) (sym e ∙ h)) (decoded-IsNormal _ good.0 good.1)
  ]

  relocate_into-IsNormal :
      (disk : Disk) (c moved : Config) (dir : Text)
      → IsNormal c
      → relocate_into toml sys disk c dir ≡ some moved
      → IsNormal moved
  unfolding relocate_into unwrap_some
  relocate_into-IsNormal disk c moved dir normal h =
      let bundled_dir = sys.paths.join dir eztrans_dll in
      let dictionary = sys.paths.join bundled_dir dictionary_leaf in
      let ehnd = sys.paths.join bundled_dir ehnd_leaf in
      elim (Bool-cases (is_file (disk dictionary) && is_dir (disk ehnd))) [
        | inr missing ↦
            let e : relocate_into toml sys disk c dir ≡ none = rw (relocate_into, missing) refl in
            ground (arith, e)
        | inl there ↦
            let e : relocate_into toml sys disk c dir ≡ some (with_bundle c dictionary ehnd) =
              rw (relocate_into, there) refl in
            subst IsNormal (ap (unwrap_some c) (sym e ∙ h))
              (with_bundle-IsNormal c dictionary ehnd normal)
      ]

  relocate-IsNormal :
      (disk : Disk) (c moved : Config) (path : Text)
      → IsNormal c
      → relocate_missing_bundled_eztrans_paths toml sys disk c path ≡ some moved
      → IsNormal moved
  unfolding relocate_missing_bundled_eztrans_paths
  relocate-IsNormal disk c moved path normal h =
      elim (Bool-cases (is_missing_bundle toml sys disk c)) [
        | inr fine ↦
            let e : relocate_missing_bundled_eztrans_paths toml sys disk c path ≡ none =
              rw (relocate_missing_bundled_eztrans_paths, fine) refl in
            ground (arith, e)
        | inl missing ↦ elim (Option-cases (sys.paths.parent path)) [
          | inl rootless ↦
              let e : relocate_missing_bundled_eztrans_paths toml sys disk c path ≡ none =
                rw (relocate_missing_bundled_eztrans_paths, missing, rootless) refl in
              ground (arith, e)
          | inr dir ↦
              let e : relocate_missing_bundled_eztrans_paths toml sys disk c path
                  ≡ relocate_into toml sys disk c dir.0 =
                rw (relocate_missing_bundled_eztrans_paths, missing, dir.1) refl in
              relocate_into-IsNormal disk c moved dir.0 normal (sym e ∙ h)
        ]
      ]

  loaded-IsNormal :
      (disk : Disk) (path : Text) (c : Config) (o : Option Config)
      → IsNormal c
      → ((moved : Config) → o ≡ some moved → IsNormal moved)
      → IsNormal (loaded toml sys disk path c o).0
  loaded-IsNormal disk path c none normal all = normal
  loaded-IsNormal disk path c (some moved) normal all = all moved refl

  loaded_or-IsNormal :
      (disk : Disk) (path : Text) (now : ℕ) (fallback : Config) (r : ConfigLoadError ⊎ Config)
      → IsNormal fallback
      → ((c : Config) → r ≡ inr c → IsNormal c)
      → IsNormal (loaded_or toml sys disk path now fallback r).0
  unfolding loaded_or
  loaded_or-IsNormal disk path now fallback (inl ConfigLoadError.io) h all = h
  loaded_or-IsNormal disk path now fallback (inl (ConfigLoadError.decode e)) h all = h
  loaded_or-IsNormal disk path now fallback (inr c) h all =
      loaded-IsNormal disk path c _ (all c refl)
        (λ moved e. relocate-IsNormal disk c moved path (all c refl) e)

  pub load_or_default_from_there :
      (disk : Disk) (path : Text) (now : ℕ) (fallback : Config)
      → exists (disk path) ≡ true
      → load_or_default_from toml sys disk path now fallback
        ≡ loaded_or toml sys disk path now fallback (load_from_file toml sys disk path)
  unfolding load_or_default_from
  load_or_default_from_there disk path now fallback h = rw (h) refl

  -- Whatever is on the disk, the settings that are loaded are within their limits.
  pub load_or_default_from-normal :
      (disk : Disk) (path : Text) (now : ℕ) (fallback : Config)
      → normalize fallback ≡ fallback
      → normalize (load_or_default_from toml sys disk path now fallback).0
        ≡ (load_or_default_from toml sys disk path now fallback).0
  unfolding load_or_default_from load_from_file
  load_or_default_from-normal disk path now fallback h = elim (Bool-cases (exists (disk path))) [
    | inr absent ↦ rw (absent) h
    | inl there ↦
        subst (λ r. IsNormal r.0) (sym (load_or_default_from_there disk path now fallback there))
          (loaded_or-IsNormal disk path now fallback _ h
            (load_content-IsNormal (read_to_string (disk path))))
  ]
