-- ===== src/Config/Translation/Laws.antt =====
-- src/config/translation.rs: the selection of a user's service, by its name and by its index.
use anemone_rs.Base.{
  ℕ, suc, false, Option, none, some, List, [], ◌∷◌, ◌≡◌, refl, ap, sym, subst, if◌then◌else◌, find,
  Text, text_eq, text_eq_refl, is_empty, get_elem?, ◌⊎◌, inl, inr, arith, Bool-cases, Option-cases,
}
use anemone_rs.Update.Version.{trim}
use anemone_rs.Config.CustomApi.{CustomApiConfig, default_custom, is_default}
use anemone_rs.Config.Translation.{
  TranslationConfig, TranslationRoute, CustomApiSelectionError, contains, validate_from,
  active_custom_api, active_from, index_from, migrate_apis, position, or_not_found, or_no_index,
  active_custom_api_index, migrate_legacy_custom_api, repair_from, repair_custom_api,
  activate_route, store_active_route, route_slot, put_route, active_selection,
}

-- The services that can be selected.
abbrev pub available : CustomApiConfig → List CustomApiConfig → List CustomApiConfig
available custom [] = custom ∷ []
available custom (api ∷ apis) = api ∷ apis

-- The same error on both sides, or the service that stands at the index.
pub data Agree (apis : List CustomApiConfig)
    : CustomApiSelectionError ⊎ CustomApiConfig → CustomApiSelectionError ⊎ ℕ → Type 0 where
  failed : {e : CustomApiSelectionError} → Agree apis (inl e) (inl e)
  stands :
      {api : CustomApiConfig} {i : ℕ} → get_elem? apis i ≡ some api → Agree apis (inr api) (inr i)

-- A name is found where it stands, or nowhere.
data Located (apis : List CustomApiConfig) : Option CustomApiConfig → Option ℕ → Type 0 where
  nowhere : Located apis none none
  located :
      {api : CustomApiConfig} {i : ℕ}
      → get_elem? apis i ≡ some api
      → Located apis (some api) (some i)

next_index : Option ℕ → Option ℕ
next_index none = none
next_index (some i) = some (suc i)

Located-next :
    (api : CustomApiConfig) {apis : List CustomApiConfig} {o : Option CustomApiConfig}
    {p : Option ℕ}
    → Located apis o p
    → Located (api ∷ apis) o (elim p [ none ↦ none | some i ↦ some (suc i) ])
Located-next api Located.nowhere = Located.nowhere
Located-next api (Located.located h) = Located.located h

find-position-Located :
    (name : Text) (apis : List CustomApiConfig)
    → Located apis (find (λ a. text_eq a.name name) apis) (position name apis)
unfolding position
find-position-Located name [] = Located.nowhere
find-position-Located name (api ∷ apis) = elim (Bool-cases (text_eq api.name name)) [
  | inl hit ↦ rw (hit) (Located.located refl)
  | inr miss ↦ rw (miss) (Located-next api (find-position-Located name apis))
]

Located-Agree :
    (name : Text) {apis : List CustomApiConfig} {o : Option CustomApiConfig} {p : Option ℕ}
    → Located apis o p
    → Agree apis (or_not_found name o) (or_no_index name p)
Located-Agree name Located.nowhere = Agree.failed
Located-Agree name (Located.located h) = Agree.stands h

active_from-Agree :
    (custom : CustomApiConfig) (name : Text) (apis : List CustomApiConfig)
    → Agree (available custom apis) (active_from custom name apis) (index_from name apis)
unfolding active_from index_from
active_from-Agree custom name [] = Agree.stands refl
active_from-Agree custom name (api ∷ apis) = elim (Option-cases (validate_from [] (api ∷ apis))) [
  | inr bad ↦ rw (active_from, index_from, bad.1) Agree.failed
  | inl good ↦ elim (Bool-cases (is_empty name)) [
    | inl first ↦ rw (active_from, index_from, good, first) (Agree.stands refl)
    | inr named ↦
        rw (active_from, index_from, good, named)
          (Located-Agree name (find-position-Located name (api ∷ apis)))
  ]
]

-- The service that is selected is the one at the index that is selected, and both fail alike.
pub active_custom_api-Agree :
    (c : TranslationConfig)
    → Agree (available c.custom c.custom_apis) (active_custom_api c) (active_custom_api_index c)
unfolding active_custom_api active_custom_api_index
active_custom_api-Agree c = active_from-Agree c.custom c.custom_api c.custom_apis

-- Old settings with one service, whose name becomes the selection.
active_from-single :
    (custom : CustomApiConfig)
    → is_empty (trim custom.name) ≡ false
    → active_from default_custom custom.name (custom ∷ []) ≡ inr custom
unfolding active_from validate_from contains
active_from-single custom named = ground (arith, text_eq_refl custom.name)

active_from-none :
    (custom : CustomApiConfig) (name : Text) → inr custom ≡ active_from custom name []
unfolding active_from
active_from-none custom name = refl

-- A name finds its own service when that is the first one.
or_not_found-first :
    (api : CustomApiConfig) (apis : List CustomApiConfig)
    → (if is_empty api.name
        then inr api
        else or_not_found api.name (find (λ a. text_eq a.name api.name) (api ∷ apis)))
      ≡ inr api
or_not_found-first api apis = ground (arith, text_eq_refl api.name)

-- An empty selection stands for the first service, as its name does.
active_from-first :
    (custom other : CustomApiConfig) (name : Text) (api : CustomApiConfig)
    (apis : List CustomApiConfig)
    → active_from other (if is_empty name then api.name else name) (api ∷ apis)
      ≡ active_from custom name (api ∷ apis)
unfolding active_from
active_from-first custom other (c ∷ s) api apis = refl
active_from-first custom other [] api apis = elim (Option-cases (validate_from [] (api ∷ apis))) [
  | inr bad ↦ rw (active_from, bad.1) refl
  | inl good ↦ rw (active_from, good) (or_not_found-first api apis)
]

migrate_apis_keeps :
    (c : TranslationConfig) (apis : List CustomApiConfig)
    → c.custom_apis ≡ apis
    → is_empty (trim c.custom.name) ≡ false
    → active_custom_api (migrate_apis c apis) ≡ active_custom_api c
unfolding active_custom_api migrate_apis
migrate_apis_keeps c [] e named = elim (Bool-cases (is_default c.custom)) [
  | inl unset ↦ rw (migrate_apis, unset) refl
  | inr own ↦
      rw (migrate_apis, own)
        (subst
          (λ l.
            active_from default_custom c.custom.name (c.custom ∷ [])
            ≡ active_from c.custom c.custom_api l)
          (sym e) (rw (active_from-single c.custom named) (active_from-none c.custom c.custom_api)))
]
migrate_apis_keeps c (api ∷ apis) e named =
    subst
      (λ l.
        active_from default_custom (if is_empty c.custom_api then api.name else c.custom_api) l
        ≡ active_from c.custom c.custom_api l)
      (sym e) (active_from-first c.custom default_custom c.custom_api api apis)

-- The migration leaves the service that is selected, unless the old single one has a blank name.
pub active_custom_api-migrate :
    (c : TranslationConfig)
    → is_empty (trim c.custom.name) ≡ false
    → active_custom_api (migrate_legacy_custom_api c) ≡ active_custom_api c
unfolding migrate_legacy_custom_api
active_custom_api-migrate c named = migrate_apis_keeps c c.custom_apis refl named

repair_from_valid :
    (c : TranslationConfig) (apis : List CustomApiConfig) (i : ℕ)
    → active_custom_api_index c ≡ inr i
    → repair_from c apis ≡ c
unfolding repair_from
repair_from_valid c [] i h = refl
repair_from_valid c (api ∷ apis) i h = rw (repair_from, h) refl

repair_custom_api_valid :
    (c : TranslationConfig) (i : ℕ) → active_custom_api_index c ≡ inr i → repair_custom_api c ≡ c
unfolding repair_custom_api
repair_custom_api_valid c i h = repair_from_valid c c.custom_apis i h

-- A route that stores the active selection gives it back.
pub activate_route-store_active_route :
    (c : TranslationConfig) (route : TranslationRoute) (i : ℕ)
    → active_custom_api_index c ≡ inr i
    → active_selection (activate_route (store_active_route c route).1 route) ≡ active_selection c
unfolding activate_route store_active_route put_route route_slot active_custom_api_index
    active_selection
activate_route-store_active_route c TranslationRoute.manual i h =
    ap active_selection
      (repair_custom_api_valid (put_route c TranslationRoute.manual (active_selection c)) i h)
activate_route-store_active_route c TranslationRoute.file i h =
    ap active_selection
      (repair_custom_api_valid (put_route c TranslationRoute.file (active_selection c)) i h)
