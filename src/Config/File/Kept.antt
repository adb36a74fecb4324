-- ===== src/Config/File/Kept.antt =====
-- src/config/app.rs: loading the settings loses no file.
use anemone_rs.Base.{
  ℕ, zero, suc, true, false, Option, none, some, Text, text_eq, text_eq_refl, text_eq→eq, ◌≡◌, refl,
  ap, sym, subst, ◌∙◌, ◌⊎◌, inl, inr, arith, Bool-cases, Option-cases, Sum-cases,
}
use anemone_rs.Config.App.{Config, normalize, migrate}
use anemone_rs.Config.File.{
  Disk, Entry, Toml, System, ConfigLoadError, SaveError, put_entry, exists, from_toml_str,
  load_from_file, write_normal, save_to_file, saved_or, quarantine_name, quarantine_from,
  quarantine_corrupt_file, quarantined_or, loaded, loaded_or, load_or_default_from,
}
use anemone_rs.Config.File.RoundTrip.{save_to_file_migrated}
use anemone_rs.Config.File.Loaded.{unwrap_some, load_or_default_from_there}

-- What stands at the other paths stays.
abbrev pub OthersKept : Text → Disk → Disk → Type 0
OthersKept path disk disk' =
    (p : Text) (e : Entry) → text_eq path p ≡ false → disk p ≡ some e → disk' p ≡ some e

-- A file stands somewhere with what it had at the path.
abbrev pub Somewhere : Option Entry → Disk → Type 0
Somewhere entry disk' = (p : Text) × (disk' p ≡ entry)

put_entry-OthersKept :
    (path : Text) (e : Option Entry) (disk : Disk) → OthersKept path disk (put_entry path e disk)
put_entry-OthersKept path e disk p other apart h = rw (apart) h

put_entry_at : (path : Text) (e : Option Entry) (disk : Disk) → put_entry path e disk path ≡ e
put_entry_at path e disk = rw (text_eq_refl path)

-- A file that moves to a free path.
move-OthersKept :
    (path q : Text) (disk : Disk)
    → disk q ≡ none
    → OthersKept path disk (put_entry q (disk path) (put_entry path none disk))
move-OthersKept path q disk free p e apart h = elim (Bool-cases (text_eq q p)) [
  | inl same ↦
      let absent : disk p ≡ none = subst (λ r. disk r ≡ none) (text_eq→eq q p same) free in
      ground (arith, sym absent ∙ h)
  | inr other ↦ rw (other, apart) h
]

module _ (toml : Toml) (sys : System) where
  abbrev Kept : Disk → Text → SaveError ⊎ Disk → Type 0
  Kept disk path r = OthersKept path disk (saved_or toml sys disk r)

  refused-Kept :
      (disk : Disk) (path : Text) (r : SaveError ⊎ Disk) (e : SaveError)
      → r ≡ inl e
      → Kept disk path r
  refused-Kept disk path r e h = subst (Kept disk path) (sym h) (λ p e apart at. at)

  write_normal-Kept :
      (disk : Disk) (path : Text) (o : Option Text)
      → Kept disk path (write_normal toml sys disk path o)
  unfolding write_normal
  write_normal-Kept disk path none = λ p e apart at. at
  write_normal-Kept disk path (some content) = elim (Sum-cases (from_toml_str toml sys content)) [
    | inl bad ↦
        refused-Kept disk path (write_normal toml sys disk path (some content)) SaveError.check
          (rw (write_normal, bad.1) refl)
    | inr good ↦ elim (Bool-cases (sys.can_write disk path)) [
      | inr refused ↦
          refused-Kept disk path (write_normal toml sys disk path (some content)) SaveError.write
            (rw (write_normal, good.1, refused) refl)
      | inl written ↦
          let e : write_normal toml sys disk path (some content)
              ≡ inr (put_entry path (some (Entry.file content)) disk) =
            rw (write_normal, good.1, written) refl in
          subst (Kept disk path) (sym e) (put_entry-OthersKept path _ disk)
    ]
  ]

  -- The disk after a save that succeeded, failed, or was not tried.
  saved_or-OthersKept :
      (disk : Disk) (path : Text) (c : Config)
      → OthersKept path disk (saved_or toml sys disk (save_to_file toml sys disk path c))
  unfolding save_to_file
  saved_or-OthersKept disk path c = elim (Sum-cases (migrate sys.paths c)) [
    | inl bad ↦
        refused-Kept disk path (save_to_file toml sys disk path c) SaveError.migration
          (rw (save_to_file, bad.1) refl)
    | inr good ↦
        subst (Kept disk path) (sym (save_to_file_migrated toml sys disk path c good.0 good.1))
          (write_normal-Kept disk path (toml.to_string_pretty (normalize good.0)))
  ]

  quarantine_from-Kept :
      (left : ℕ) (disk disk' : Disk) (path : Text) (now suffix : ℕ)
      → quarantine_from toml sys left disk path now suffix ≡ some disk'
      → OthersKept path disk disk' × Somewhere (disk path) disk'
  unfolding quarantine_from unwrap_some text_eq
  quarantine_from-Kept zero disk disk' path now suffix h = cc
  quarantine_from-Kept (suc left) disk disk' path now suffix h =
      let q = quarantine_name toml sys path now suffix in
      elim (Option-cases (disk q)) [
        | inr taken ↦
            let e : quarantine_from toml sys (suc left) disk path now suffix
                ≡ quarantine_from toml sys left disk path now (suc suffix) =
              rw (quarantine_from, taken.1) refl in
            quarantine_from-Kept left disk disk' path now (suc suffix) (sym e ∙ h)
        | inl free ↦ elim (Bool-cases (sys.can_rename disk path q)) [
          | inr refused ↦
              let e : quarantine_from toml sys (suc left) disk path now suffix ≡ none =
                rw (quarantine_from, free, refused) refl in
              ground (arith, e)
          | inl moved ↦
              let e : quarantine_from toml sys (suc left) disk path now suffix
                  ≡ some (put_entry q (disk path) (put_entry path none disk)) =
                rw (quarantine_from, free, moved) refl in
              subst (λ d. OthersKept path disk d × Somewhere (disk path) d)
                (ap (unwrap_some disk) (sym e ∙ h))
                (
                  move-OthersKept path q disk free,
                  (q, put_entry_at q (disk path) (put_entry path none disk)),
                )
        ]
      ]

  quarantined_or-Kept :
      (disk : Disk) (path : Text) (o : Option Disk)
      → ((disk' : Disk) → o ≡ some disk' → OthersKept path disk disk' × Somewhere (disk path) disk')
      → OthersKept path disk (quarantined_or toml sys disk o)
        × Somewhere (disk path) (quarantined_or toml sys disk o)
  quarantined_or-Kept disk path none h = ((λ p e apart at. at), (path, refl))
  quarantined_or-Kept disk path (some disk') h = h disk' refl

  -- Settings that were loaded may be written again, with the paths of the bundle.
  loaded-OthersKept :
      (disk : Disk) (path : Text) (c : Config) (o : Option Config)
      → OthersKept path disk (loaded toml sys disk path c o).1
  loaded-OthersKept disk path c none = λ p e apart at. at
  loaded-OthersKept disk path c (some moved) = saved_or-OthersKept disk path moved

  -- What a load keeps: the other files, and the one at the path unless it was loaded.
  abbrev AllKept : Disk → Text → ConfigLoadError ⊎ Config → Disk → Type 0
  AllKept disk path r disk' =
      OthersKept path disk disk' × ((e : ConfigLoadError) → r ≡ inl e → Somewhere (disk path) disk')

  loaded_or-AllKept :
      (disk : Disk) (path : Text) (now : ℕ) (fallback : Config) (r : ConfigLoadError ⊎ Config)
      → AllKept disk path r (loaded_or toml sys disk path now fallback r).1
  unfolding loaded_or quarantine_corrupt_file
  loaded_or-AllKept disk path now fallback (inl ConfigLoadError.io) =
      ((λ p e apart at. at), λ e h. (path, refl))
  loaded_or-AllKept disk path now fallback (inl (ConfigLoadError.decode bad)) =
      let (others, content) =
        quarantined_or-Kept disk path (quarantine_from toml sys 1000 disk path now 0)
          (λ disk'. quarantine_from-Kept 1000 disk disk' path now 0) in
      (others, λ e h. content)
  loaded_or-AllKept disk path now fallback (inr c) = (loaded-OthersKept disk path c _, λ e h. cc)

  exists_at :
      (disk : Disk) (path : Text) (entry : Entry)
      → disk path ≡ some entry
      → exists (disk path) ≡ true
  exists_at disk path entry h = subst (λ o. exists o ≡ true) (sym h) refl

  load_or_default_from_absent :
      (disk : Disk) (path : Text) (now : ℕ) (fallback : Config)
      → disk path ≡ none
      → load_or_default_from toml sys disk path now fallback
        ≡ (fallback, saved_or toml sys disk (save_to_file toml sys disk path fallback))
  unfolding load_or_default_from
  load_or_default_from_absent disk path now fallback h = rw (h) refl

  -- A load of the settings changes no file but the one at its path.
  pub load_or_default_from_keeps_others :
      (disk : Disk) (path : Text) (now : ℕ) (fallback : Config) (p : Text) (e : Entry)
      → text_eq path p ≡ false
      → disk p ≡ some e
      → (load_or_default_from toml sys disk path now fallback).1 p ≡ some e
  load_or_default_from_keeps_others disk path now fallback p e apart h =
      elim (Option-cases (disk path)) [
        | inl absent ↦
            rw (load_or_default_from_absent disk path now fallback absent)
              (saved_or-OthersKept disk path fallback p e apart h)
        | inr there ↦
            rw
              (load_or_default_from_there toml sys disk path now fallback
                (exists_at disk path there.0 there.1))
              ((loaded_or-AllKept disk path now fallback (load_from_file toml sys disk path)).0 p e
                apart h)
      ]

  -- What stands at the path and is not loaded stands on the disk afterwards, there or elsewhere.
  pub load_or_default_from_keeps :
      (disk : Disk) (path : Text) (now : ℕ) (fallback : Config) (entry : Entry)
      (e : ConfigLoadError)
      → disk path ≡ some entry
      → load_from_file toml sys disk path ≡ inl e
      → (p : Text) × ((load_or_default_from toml sys disk path now fallback).1 p ≡ some entry)
  load_or_default_from_keeps disk path now fallback entry e stands failed =
      let (others, content) =
        loaded_or-AllKept disk path now fallback (load_from_file toml sys disk path) in
      let (p, at) = content e failed in
      (
        p,
        rw
            (load_or_default_from_there toml sys disk path now fallback
              (exists_at disk path entry stands))
            (at ∙ stands),
      )
