-- ===== src/Config/File.antt =====
-- src/config/app.rs: reading the settings' file and writing it. A file is replaced in one step, as
-- src/fs_util.rs does it; the toml crate, std::path and the outcomes of the operating system are
-- parameters.
pub mod Kept
pub mod RoundTrip
pub mod Loaded
use anemone_rs.Base.{
  ℕ, zero, suc, Bool, true, false, not, ◌&&◌, ◌||◌, Option, none, some, List, [], ◌∷◌, ◌++◌,
  if◌then◌else◌, Text, text_eq, eq_ignore_ascii_case, ◌⊎◌, inl, inr,
}
use anemone_rs.Update.Version.{show_digits}
use anemone_rs.Config.Translation.{Paths}
use anemone_rs.Config.App.{
  Config, ConfigDecodeError, normalize, migrate, dictionary_leaf, ehnd_leaf,
}

pub data Entry : Type 0 where
  file : Text → Entry
  unreadable directory : Entry

-- What stands at each path.
abbrev pub Disk : Type 0
Disk = Text → Option Entry

abbrev pub put_entry : Text → Option Entry → Disk → Disk
put_entry path e disk p = if text_eq path p then e else disk p

-- The toml crate, with serde's implementations for the settings.
pub record Toml : Type 0 where
  pub from_str : Text → Option Config
  pub to_string_pretty : Config → Option Text

-- The rest of std::path that is used, and whether a write or a renaming succeeds.
pub record System : Type 0 where
  pub paths : Paths
  pub is_absolute : Text → Bool
  pub extension : Text → Option Text
  pub with_file_name : Text → Text → Text
  pub can_write : Disk → Text → Bool
  pub can_rename : Disk → Text → Text → Bool

pub data ConfigLoadError : Type 0 where
  io : ConfigLoadError
  decode : ConfigDecodeError → ConfigLoadError

pub data SaveError : Type 0 where
  migration print check write : SaveError

abbrev pub exists : Option Entry → Bool
exists none = false
exists (some e) = true

abbrev pub is_file : Option Entry → Bool
is_file (some (file t)) = true
is_file (some unreadable) = true
is_file _ = false

abbrev pub is_dir : Option Entry → Bool
is_dir (some directory) = true
is_dir _ = false

-- `std::fs::read_to_string`
abbrev pub read_to_string : Option Entry → Option Text
read_to_string (some (file t)) = some t
read_to_string _ = none

-- "config.toml", ".corrupt-", "eztrans_dll" and "dll".
abbrev pub config_toml : Text
config_toml = 99 ∷ 111 ∷ 110 ∷ 102 ∷ 105 ∷ 103 ∷ 46 ∷ 116 ∷ 111 ∷ 109 ∷ 108 ∷ []

abbrev pub corrupt : Text
corrupt = 46 ∷ 99 ∷ 111 ∷ 114 ∷ 114 ∷ 117 ∷ 112 ∷ 116 ∷ 45 ∷ []

abbrev pub eztrans_dll : Text
eztrans_dll = 101 ∷ 122 ∷ 116 ∷ 114 ∷ 97 ∷ 110 ∷ 115 ∷ 95 ∷ 100 ∷ 108 ∷ 108 ∷ []

abbrev pub dll : Text
dll = 100 ∷ 108 ∷ 108 ∷ []

abbrev pub has_name : Text → Option Text → Bool
has_name name none = false
has_name name (some s) = eq_ignore_ascii_case s name

abbrev pub unwrap_or : Text → Option Text → Text
unwrap_or s none = s
unwrap_or s (some t) = t

-- The decimal digits of a `u64`.
abbrev pub show_u64 : ℕ → Text
show_u64 n = show_digits 20 n

unfoldable pub with_bundle : Config → Text → Text → Config
with_bundle c dictionary ehnd = record c {
  translation = record c.translation {
    eztrans_dictionary_path = dictionary;
    eztrans_ehnd_path = ehnd;
  };
}

module _ (toml : Toml) (sys : System) where
  unfoldable pub decoded : Option Config → ConfigDecodeError ⊎ Config
  decoded none = inl ConfigDecodeError.toml
  decoded (some c) = elim (migrate sys.paths c) [ inl e ↦ inl e | inr c' ↦ inr (normalize c') ]

  unfoldable pub from_toml_str : Text → ConfigDecodeError ⊎ Config
  from_toml_str content = decoded (toml.from_str content)

  unfoldable pub load_content : Option Text → ConfigLoadError ⊎ Config
  load_content none = inl ConfigLoadError.io
  load_content (some content) = elim (from_toml_str content) [
    | inl e ↦ inl (ConfigLoadError.decode e)
    | inr c ↦ inr c
  ]

  unfoldable pub load_from_file : Disk → Text → ConfigLoadError ⊎ Config
  load_from_file disk path = load_content (read_to_string (disk path))

  -- `save_to_file` once the settings are migrated and normal.
  unfoldable pub write_normal : Disk → Text → Option Text → SaveError ⊎ Disk
  write_normal disk path none = inl SaveError.print
  write_normal disk path (some content) = elim (from_toml_str content) [
    | inl e ↦ inl SaveError.check
    | inr c ↦
        if sys.can_write disk path
        then inr (put_entry path (some (file content)) disk)
        else inl SaveError.write
  ]

  unfoldable pub save_to_file : Disk → Text → Config → SaveError ⊎ Disk
  save_to_file disk path config = elim (migrate sys.paths config) [
    | inl e ↦ inl SaveError.migration
    | inr migrated ↦ write_normal disk path (toml.to_string_pretty (normalize migrated))
  ]

  unfoldable pub is_bundled_eztrans_path : Text → Text → Bool
  is_bundled_eztrans_path path leaf =
      has_name leaf (sys.paths.file_name path) && elim (sys.paths.parent path) [
        | none ↦ false
        | some dir ↦ has_name eztrans_dll (sys.paths.file_name dir)
      ]

  -- The guards of `relocate_missing_bundled_eztrans_paths` on the paths of the settings.
  unfoldable pub is_missing_bundle : Disk → Config → Bool
  is_missing_bundle disk c =
      let dictionary = c.translation.eztrans_dictionary_path in
      let ehnd = c.translation.eztrans_ehnd_path in
      sys.is_absolute dictionary
      && sys.is_absolute ehnd
      && not (is_file (disk dictionary) && is_dir (disk ehnd))
      && (is_bundled_eztrans_path dictionary dictionary_leaf
          || has_name dll (sys.extension dictionary))
      && is_bundled_eztrans_path ehnd ehnd_leaf

  unfoldable pub relocate_into : Disk → Config → Text → Option Config
  relocate_into disk c config_dir =
      let bundled_dir = sys.paths.join config_dir eztrans_dll in
      let bundled_dictionary = sys.paths.join bundled_dir dictionary_leaf in
      let bundled_ehnd = sys.paths.join bundled_dir ehnd_leaf in
      if is_file (disk bundled_dictionary) && is_dir (disk bundled_ehnd)
      then some (with_bundle c bundled_dictionary bundled_ehnd)
      else none

  -- The settings that were changed, or `none` for the answer `false`.
  unfoldable pub relocate_missing_bundled_eztrans_paths : Disk → Config → Text → Option Config
  relocate_missing_bundled_eztrans_paths disk c config_path =
      if is_missing_bundle disk c
      then elim (sys.paths.parent config_path) [
        | none ↦ none
        | some config_dir ↦ relocate_into disk c config_dir
      ]
      else none

  -- The name of a quarantined file.
  unfoldable pub quarantine_name : Text → ℕ → ℕ → Text
  quarantine_name path timestamp suffix = sys.with_file_name path (
      unwrap_or config_toml (sys.paths.file_name path) ++ corrupt ++ (elim suffix [
        | zero ↦ show_u64 timestamp
        | suc n ↦ show_u64 timestamp ++ b'-' ∷ show_u64 (suc n)
      ]))

  -- The loop of `quarantine_corrupt_file`, with the number of suffixes that are left to try. `none`
  -- is an error of the operating system.
  unfoldable pub quarantine_from : ℕ → Disk → Text → ℕ → ℕ → Option Disk
  quarantine_from zero disk path timestamp suffix = none
  quarantine_from (suc left) disk path timestamp suffix =
      let quarantine = quarantine_name path timestamp suffix in
      let next = quarantine_from left disk path timestamp (suc suffix) in
      if exists (disk quarantine)
      then next
      else if sys.can_rename disk path quarantine
      then some (put_entry quarantine (disk path) (put_entry path none disk))
      else none

  unfoldable pub quarantine_corrupt_file : Disk → Text → ℕ → Option Disk
  quarantine_corrupt_file disk path timestamp = quarantine_from 1000 disk path timestamp 0

  -- A save whose error is only logged.
  abbrev pub saved_or : Disk → SaveError ⊎ Disk → Disk
  saved_or disk (inl e) = disk
  saved_or disk (inr disk') = disk'

  abbrev pub quarantined_or : Disk → Option Disk → Disk
  quarantined_or disk none = disk
  quarantined_or disk (some disk') = disk'

  abbrev pub loaded : Disk → Text → Config → Option Config → Config × Disk
  loaded disk path config none = (config, disk)
  loaded disk path config (some moved) = (moved, saved_or disk (save_to_file disk path moved))

  -- The arms of `load_or_default_from` for a file that exists.
  unfoldable pub loaded_or : Disk → Text → ℕ → Config → ConfigLoadError ⊎ Config → Config × Disk
  loaded_or disk path now fallback (inr config) =
      loaded disk path config (relocate_missing_bundled_eztrans_paths disk config path)
  loaded_or disk path now fallback (inl (ConfigLoadError.decode e)) =
      (fallback, quarantined_or disk (quarantine_corrupt_file disk path now))
  loaded_or disk path now fallback (inl ConfigLoadError.io) = (fallback, disk)

  -- `fallback` is `Config::default`, and `now` the time in seconds.
  unfoldable pub load_or_default_from : Disk → Text → ℕ → Config → Config × Disk
  load_or_default_from disk path now fallback =
      if exists (disk path)
      then loaded_or disk path now fallback (load_from_file disk path)
      else (fallback, saved_or disk (save_to_file disk path fallback))
