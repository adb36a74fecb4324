-- ===== src/Config/File/RoundTrip.antt =====
-- src/config/app.rs: the settings that are loaded are normal, and saved settings are loaded again.
use anemone_rs.Base.{
  false, not, Option, none, some, Text, text_eq_refl, is_empty, ◌≡◌, refl, ap, sym, subst, ◌∙◌, ltb,
  ◌==◌, ◌⊎◌, inl, inr, arith, Bool-cases,
}
use anemone_rs.Update.Version.{trim}
use anemone_rs.Config.Translation.{
  Paths, TranslationConfig, migrate_legacy_custom_api, move_ehnd_path, migrate_legacy_ehnd_path,
}
use anemone_rs.Config.App.{
  Config, normalize, normalize_translation, migrate, current_schema_version,
}
use anemone_rs.Config.App.Normal.{normalize_idem}
use anemone_rs.Config.File.{
  Disk, Entry, Toml, System, SaveError, put_entry, decoded, from_toml_str, load_content,
  load_from_file, write_normal, save_to_file,
}

unfoldable pub unwrap : {E A : Type 0} → A → E ⊎ A → A
unwrap a (inl e) = a
unwrap a (inr b) = b

-- Settings of the present version, without the old key.
abbrev IsCurrent : Config → Type 0
IsCurrent c = (c.schema_version ≡ 1) × (c.translation.eztrans_dat_path ≡ none)

module _ (paths : Paths) where
  move_ehnd_path-clears :
      (t : TranslationConfig) (o : Option Text)
      → t.eztrans_dat_path ≡ o
      → (move_ehnd_path paths t o).eztrans_dat_path ≡ none
  unfolding move_ehnd_path
  move_ehnd_path-clears t none e = e
  move_ehnd_path-clears t (some dat_path) e =
      elim (Bool-cases (not (is_empty (trim t.eztrans_ehnd_path)))) [
        | inl filled ↦ rw (move_ehnd_path, filled) refl
        | inr blank ↦ rw (move_ehnd_path, blank) refl
      ]

  move_ehnd_path_none :
      (t : TranslationConfig) (o : Option Text) → o ≡ none → move_ehnd_path paths t o ≡ t
  unfolding move_ehnd_path
  move_ehnd_path_none t none e = refl
  move_ehnd_path_none t (some dat_path) e = cc

  -- What the migration of a known version gives.
  migrated_old : Config → Config
  migrated_old c = record c {
    schema_version = 1;
    translation = migrate_legacy_ehnd_path paths (migrate_legacy_custom_api c.translation);
  }

  migrated_new : Config → Config
  migrated_new c = record c { translation = migrate_legacy_ehnd_path paths c.translation }

  migrate-IsCurrent : (c c' : Config) → migrate paths c ≡ inr c' → IsCurrent c'
  unfolding migrate migrate_legacy_ehnd_path migrated_old migrated_new unwrap
  migrate-IsCurrent c c' h = elim (Bool-cases (ltb current_schema_version c.schema_version)) [
    | inl newer ↦ ground arith
    | inr known ↦ elim (Bool-cases (c.schema_version == 0)) [
      | inl old ↦
          let e : migrate paths c ≡ inr (migrated_old c) = rw (migrate, known, old) refl in
          subst IsCurrent (ap (unwrap (migrated_old c)) (sym e ∙ h))
            (refl, move_ehnd_path-clears (migrate_legacy_custom_api c.translation) _ refl)
      | inr current ↦
          let e : migrate paths c ≡ inr (migrated_new c) = rw (migrate, known, current) refl in
          subst IsCurrent (ap (unwrap (migrated_new c)) (sym e ∙ h))
            (ground arith, move_ehnd_path-clears c.translation _ refl)
    ]
  ]

  migrate_current : (c : Config) → IsCurrent c → migrate paths c ≡ inr c
  unfolding migrate migrate_legacy_ehnd_path
  migrate_current c current =
      let known : ltb current_schema_version c.schema_version ≡ false = ground arith in
      let recent : (c.schema_version == 0) ≡ false = ground arith in
      rw (migrate, known, recent)
        (ap (λ t. inr (record c { translation = t }))
          (move_ehnd_path_none c.translation c.translation.eztrans_dat_path current.1))

normalize-IsCurrent : (c : Config) → IsCurrent c → IsCurrent (normalize c)
unfolding normalize normalize_translation
normalize-IsCurrent c current = current

module _ (toml : Toml) (sys : System) where
  -- The text of the settings is read as the same settings.
  abbrev pub ReadsBack : Config → Type 0
  ReadsBack c =
      (content : Text) → toml.to_string_pretty c ≡ some content → toml.from_str content ≡ some c

  decoded_current :
      (c : Config) → IsCurrent c → decoded toml sys (some (normalize c)) ≡ inr (normalize c)
  unfolding decoded
  decoded_current c current =
      rw (decoded, migrate_current sys.paths (normalize c) (normalize-IsCurrent c current))
        (ap inr (normalize_idem c))

  load_put :
      (disk : Disk) (path content : Text) (c : Config)
      → from_toml_str toml sys content ≡ inr c
      → load_from_file toml sys (put_entry path (some (Entry.file content)) disk) path ≡ inr c
  unfolding load_from_file load_content
  load_put disk path content c h = rw (text_eq_refl path, load_content, h) refl

  load-write_normal :
      (disk disk' : Disk) (path : Text) (c : Config) (o : Option Text)
      → IsCurrent c
      → ((content : Text) → o ≡ some content → toml.from_str content ≡ some (normalize c))
      → write_normal toml sys disk path o ≡ inr disk'
      → load_from_file toml sys disk' path ≡ inr (normalize c)
  unfolding write_normal from_toml_str unwrap
  load-write_normal disk disk' path c none current reads h = cc
  load-write_normal disk disk' path c (some content) current reads h =
      let read : from_toml_str toml sys content ≡ inr (normalize c) =
        ap (decoded toml sys) (reads content refl) ∙ decoded_current c current in
      elim (Bool-cases (sys.can_write disk path)) [
        | inr refused ↦
            let e : write_normal toml sys disk path (some content) ≡ inl SaveError.write =
              rw (write_normal, read, refused) refl in
            ground (arith, e)
        | inl written ↦
            let e : write_normal toml sys disk path (some content)
                ≡ inr (put_entry path (some (Entry.file content)) disk) =
              rw (write_normal, read, written) refl in
            subst (λ d. load_from_file toml sys d path ≡ inr (normalize c))
              (ap (unwrap disk) (sym e ∙ h)) (load_put disk path content (normalize c) read)
      ]

  pub save_to_file_migrated :
      (disk : Disk) (path : Text) (c c' : Config)
      → migrate sys.paths c ≡ inr c'
      → save_to_file toml sys disk path c
        ≡ write_normal toml sys disk path (toml.to_string_pretty (normalize c'))
  unfolding save_to_file
  save_to_file_migrated disk path c c' h = rw (save_to_file, h) refl

  -- Saved settings are loaded again as they were saved, in their present version and within their
  -- limits.
  pub load_from_file-save_to_file :
      (disk disk' : Disk) (path : Text) (c c' : Config)
      → migrate sys.paths c ≡ inr c'
      → ReadsBack (normalize c')
      → save_to_file toml sys disk path c ≡ inr disk'
      → load_from_file toml sys disk' path ≡ inr (normalize c')
  load_from_file-save_to_file disk disk' path c c' h reads saved =
      load-write_normal disk disk' path c' (toml.to_string_pretty (normalize c'))
        (migrate-IsCurrent sys.paths c c' h) reads
        (sym (save_to_file_migrated disk path c c' h) ∙ saved)
