-- ===== src/Config/Translation.antt =====
-- src/config/translation.rs: the settings of the translation, with an engine and languages for each
-- route. The paths of std::path are a parameter. The engines and the languages stay texts here.
pub mod Laws
use anemone_rs.Base.{
  ℕ, zero, suc, Bool, true, false, not, ◌&&◌, ◌||◌, Option, none, some, List, [], ◌∷◌, ◌++◌,
  if◌then◌else◌, find, filter, Text, text_eq, is_empty, eq_ignore_ascii_case, get_elem?, ◌⊎◌, inl,
  inr,
}
use anemone_rs.Update.Version.{trim}
use anemone_rs.Config.Llm.{LlmConfig}
use anemone_rs.Config.CustomApi.{CustomApiConfig, default_custom, is_default}

pub record EzTransPostprocessEntry : Type 0 where
  pub source : Text
  pub target : Text

pub data TranslationRoute : Type 0 where
  manual file : TranslationRoute

pub record TranslationRouteConfig : Type 0 where
  pub engine : Text
  pub source_lang : Text
  pub target_lang : Text
  pub custom_api : Text

pub record TranslationConfig : Type 0 where
  pub engine : Text
  pub source_lang : Text
  pub target_lang : Text
  pub manual : Option TranslationRouteConfig
  pub file : Option TranslationRouteConfig
  pub eztrans_dictionary_path : Text
  pub eztrans_ehnd_path : Text
  pub eztrans_dat_path : Option Text
  pub eztrans_process_count : ℕ
  pub eztrans_postprocess_dictionary : List EzTransPostprocessEntry
  pub deepl_api_key : Text
  pub deepl_keys : List Text
  pub deepl_strategy : Text
  pub papago_client_id : Text
  pub papago_client_secret : Text
  pub mys_translater_url : Text
  pub mys_translater_api_key : Text
  pub llm : LlmConfig
  pub custom : CustomApiConfig
  pub custom_api : Text
  pub custom_apis : List CustomApiConfig

pub data CustomApiSelectionError : Type 0 where
  empty_name : CustomApiSelectionError
  duplicate_name not_found : Text → CustomApiSelectionError

abbrev pub names_of : List CustomApiConfig → List Text
names_of [] = []
names_of (api ∷ apis) = api.name ∷ names_of apis

unfoldable pub contains : Text → List Text → Bool
contains name [] = false
contains name (n ∷ names) = text_eq n name || contains name names

-- The loop of `validate_custom_api_names`, with the set of the names that it has seen. `none` is
-- the end without an error.
unfoldable pub validate_from : List Text → List CustomApiConfig → Option CustomApiSelectionError
validate_from names [] = none
validate_from names (api ∷ apis) =
    if is_empty (trim api.name)
    then some CustomApiSelectionError.empty_name
    else if contains api.name names
    then some (CustomApiSelectionError.duplicate_name api.name)
    else validate_from (api.name ∷ names) apis

unfoldable pub validate_custom_api_names : TranslationConfig → Option CustomApiSelectionError
validate_custom_api_names c = validate_from [] c.custom_apis

abbrev pub or_not_found : Text → Option CustomApiConfig → CustomApiSelectionError ⊎ CustomApiConfig
or_not_found name none = inl (CustomApiSelectionError.not_found name)
or_not_found name (some api) = inr api

unfoldable pub active_from :
    CustomApiConfig → Text → List CustomApiConfig → CustomApiSelectionError ⊎ CustomApiConfig
active_from custom name [] = inr custom
active_from custom name (api ∷ apis) = elim (validate_from [] (api ∷ apis)) [
  | some e ↦ inl e
  | none ↦
      if is_empty name
      then inr api
      else or_not_found name (find (λ a. text_eq a.name name) (api ∷ apis))
]

unfoldable pub active_custom_api : TranslationConfig → CustomApiSelectionError ⊎ CustomApiConfig
active_custom_api c = active_from c.custom c.custom_api c.custom_apis

-- `Iterator::position`
unfoldable pub position : Text → List CustomApiConfig → Option ℕ
position name [] = none
position name (api ∷ apis) =
    if text_eq api.name name
    then some 0
    else elim (position name apis) [ none ↦ none | some i ↦ some (suc i) ]

abbrev pub or_no_index : Text → Option ℕ → CustomApiSelectionError ⊎ ℕ
or_no_index name none = inl (CustomApiSelectionError.not_found name)
or_no_index name (some i) = inr i

unfoldable pub index_from : Text → List CustomApiConfig → CustomApiSelectionError ⊎ ℕ
index_from name [] = inr 0
index_from name (api ∷ apis) = elim (validate_from [] (api ∷ apis)) [
  | some e ↦ inl e
  | none ↦ if is_empty name then inr 0 else or_no_index name (position name (api ∷ apis))
]

unfoldable pub active_custom_api_index : TranslationConfig → CustomApiSelectionError ⊎ ℕ
active_custom_api_index c = index_from c.custom_api c.custom_apis

-- The configuration after the call comes with its answer.
unfoldable pub select_custom_api :
    TranslationConfig → Text → (CustomApiSelectionError ⊎ Bool) × TranslationConfig
select_custom_api c name = elim c.custom_apis [
  | [] ↦
      if text_eq name c.custom.name
      then (inr false, c)
      else (inl (CustomApiSelectionError.not_found name), c)
  | api ∷ apis ↦ elim (validate_custom_api_names c) [
    | some e ↦ (inl e, c)
    | none ↦
        if not (contains name (names_of (api ∷ apis)))
        then (inl (CustomApiSelectionError.not_found name), c)
        else if text_eq c.custom_api name
        then (inr false, c)
        else (inr true, record c { custom_api = name })
  ]
]

unfoldable pub route_slot : TranslationConfig → TranslationRoute → Option TranslationRouteConfig
route_slot c TranslationRoute.manual = c.manual
route_slot c TranslationRoute.file = c.file

unfoldable pub put_route :
    TranslationConfig → TranslationRoute → TranslationRouteConfig → TranslationConfig
put_route c TranslationRoute.manual selection = record c { manual = some selection }
put_route c TranslationRoute.file selection = record c { file = some selection }

-- The last lines of `activate_route`: a name that is not found is replaced by the first one.
unfoldable pub repair_from : TranslationConfig → List CustomApiConfig → TranslationConfig
repair_from c [] = c
repair_from c (api ∷ apis) = elim (active_custom_api_index c) [
  | inl e ↦ record c { custom_api = api.name }
  | inr i ↦ c
]

unfoldable pub repair_custom_api : TranslationConfig → TranslationConfig
repair_custom_api c = repair_from c c.custom_apis

unfoldable pub activate_route : TranslationConfig → TranslationRoute → TranslationConfig
activate_route c route = elim (route_slot c route) [
  | none ↦ c
  | some selection ↦ repair_custom_api (record c {
    engine = selection.engine;
    source_lang = selection.source_lang;
    target_lang = selection.target_lang;
    custom_api = selection.custom_api;
  })
]

unfoldable pub active_selection : TranslationConfig → TranslationRouteConfig
active_selection c = record {
  engine = c.engine;
  source_lang = c.source_lang;
  target_lang = c.target_lang;
  custom_api = c.custom_api;
}

unfoldable pub store_active_route :
    TranslationConfig → TranslationRoute → TranslationRouteConfig × TranslationConfig
store_active_route c route = (active_selection c, put_route c route (active_selection c))

-- The derived `==`, on a slot and a selection.
unfoldable pub slot_eq : Option TranslationRouteConfig → TranslationRouteConfig → Bool
slot_eq none b = false
slot_eq (some a) b =
    text_eq a.engine b.engine
    && text_eq a.source_lang b.source_lang
    && text_eq a.target_lang b.target_lang
    && text_eq a.custom_api b.custom_api

unfoldable pub set_route_config :
    TranslationConfig → TranslationRoute → TranslationRouteConfig → Bool × TranslationConfig
set_route_config c route selection =
    if slot_eq (route_slot c route) selection
    then (false, c)
    else (true, put_route c route selection)

unfoldable pub migrate_apis : TranslationConfig → List CustomApiConfig → TranslationConfig
migrate_apis c [] = if is_default c.custom then c else record c {
  custom = default_custom;
  custom_api = c.custom.name;
  custom_apis = c.custom ∷ [];
}
migrate_apis c (api ∷ apis) = record c {
  custom = default_custom;
  custom_api = if is_empty c.custom_api then api.name else c.custom_api;
}

unfoldable pub migrate_legacy_custom_api : TranslationConfig → TranslationConfig
migrate_legacy_custom_api c = migrate_apis c c.custom_apis

-- What is used of std::path.
pub record Paths : Type 0 where
  pub file_name : Text → Option Text
  pub parent : Text → Option Text
  pub join : Text → Text → Text

-- "Dat" and "Ehnd".
abbrev pub dat : Text
dat = 68 ∷ 97 ∷ 116 ∷ []

abbrev pub ehnd : Text
ehnd = 69 ∷ 104 ∷ 110 ∷ 100 ∷ []

module _ (paths : Paths) where
  abbrev has_name : Text → Option Text → Bool
  has_name name none = false
  has_name name (some s) = eq_ignore_ascii_case s name

  abbrev sibling : Option Text → Text
  sibling none = ehnd
  sibling (some dir) = paths.join dir ehnd

  unfoldable pub dat_to_sibling_ehnd : Text → Text
  dat_to_sibling_ehnd dat_path =
      if has_name dat (paths.file_name dat_path) then sibling (paths.parent dat_path) else dat_path

  unfoldable pub move_ehnd_path : TranslationConfig → Option Text → TranslationConfig
  move_ehnd_path c none = c
  move_ehnd_path c (some dat_path) =
      if not (is_empty (trim c.eztrans_ehnd_path))
      then record c { eztrans_dat_path = none }
      else record c { eztrans_dat_path = none; eztrans_ehnd_path = dat_to_sibling_ehnd dat_path }

  unfoldable pub migrate_legacy_ehnd_path : TranslationConfig → TranslationConfig
  migrate_legacy_ehnd_path c = move_ehnd_path c c.eztrans_dat_path

-- The keys that are tried, in their order.
unfoldable pub deepl_effective_keys : TranslationConfig → List Text
deepl_effective_keys c = elim (filter (λ k. not (is_empty k)) c.deepl_keys) [
  | [] ↦ if is_empty c.deepl_api_key then [] else c.deepl_api_key ∷ []
  | key ∷ keys ↦ key ∷ keys
]
