-- ===== src/Config/Llm.antt =====
-- src/config/llm.rs, with the providers of src/translation/llm/mod.rs: the settings of the language
-- models, of which those of the providers that are not selected are kept in profiles.
pub mod Switch
use anemone_rs.Base.{
  ℕ, Bool, true, false, ◌||◌, Option, none, some, List, [], ◌∷◌, if◌then◌else◌, Text, text_eq,
  to_ascii_lowercase, F32, ◌⊎◌, inl, inr,
}
use anemone_rs.Config.Reasoning.{ReasoningEffort}
use anemone_rs.Config.Limits.{
  f32_zero, f32_one, llm_max_tokens, llm_debounce_ms, llm_temperature, llm_top_p, llm_penalty,
}

pub data LlmProvider : Type 0 where
  open_ai anthropic gemini grok open_router : LlmProvider

pub record EnumParseError : Type 0 where
  pub kind : Text
  pub value : Text

unfoldable pub to_str : LlmProvider → Text
to_str open_ai = 111 ∷ 112 ∷ 101 ∷ 110 ∷ 97 ∷ 105 ∷ []
to_str anthropic = 97 ∷ 110 ∷ 116 ∷ 104 ∷ 114 ∷ 111 ∷ 112 ∷ 105 ∷ 99 ∷ []
to_str gemini = 103 ∷ 101 ∷ 109 ∷ 105 ∷ 110 ∷ 105 ∷ []
to_str grok = 103 ∷ 114 ∷ 111 ∷ 107 ∷ []
to_str open_router = 111 ∷ 112 ∷ 101 ∷ 110 ∷ 114 ∷ 111 ∷ 117 ∷ 116 ∷ 101 ∷ 114 ∷ []

-- The names that `from_str` knows.
abbrev pub claude : Text
claude = 99 ∷ 108 ∷ 97 ∷ 117 ∷ 100 ∷ 101 ∷ []

abbrev pub google_ai : Text
google_ai = 103 ∷ 111 ∷ 111 ∷ 103 ∷ 108 ∷ 101 ∷ 95 ∷ 97 ∷ 105 ∷ []

abbrev pub xai : Text
xai = 120 ∷ 97 ∷ 105 ∷ []

-- "LLM 제공자"
abbrev pub provider_kind : Text
provider_kind = 76 ∷ 76 ∷ 77 ∷ 32 ∷ 51228 ∷ 44277 ∷ 51088 ∷ []

unfoldable pub provider_of : Text → Option LlmProvider
unfolding to_str
provider_of s =
    if text_eq s (to_str open_ai)
    then some open_ai
    else if text_eq s (to_str anthropic) || text_eq s claude
    then some anthropic
    else if text_eq s (to_str gemini) || text_eq s google_ai
    then some gemini
    else if text_eq s (to_str grok) || text_eq s xai
    then some grok
    else if text_eq s (to_str open_router)
    then some open_router
    else none

unfoldable pub from_str : Text → EnumParseError ⊎ LlmProvider
unfolding provider_of
from_str value = elim (provider_of (to_ascii_lowercase value)) [
  | none ↦ inl (record { kind = provider_kind; value = value })
  | some p ↦ inr p
]

pub record LlmGlossaryEntry : Type 0 where
  pub source : Text
  pub target : Text

pub record LlmProviderProfile : Type 0 where
  pub model : Text
  pub api_key : Text
  pub base_url : Text
  pub system_prompt : Text
  pub temperature : F32
  pub top_p : F32
  pub frequency_penalty : F32
  pub presence_penalty : F32
  pub max_tokens : ℕ
  pub reasoning_effort : Option ReasoningEffort
  pub glossary : List LlmGlossaryEntry
  pub debounce_ms : ℕ

-- The map of the profiles, of which the order of the keys is not read.
abbrev pub ProviderProfiles : Type 0
ProviderProfiles = Text → Option LlmProviderProfile

pub record LlmConfig : Type 0 where
  pub provider : Text
  pub model : Text
  pub api_key : Text
  pub base_url : Text
  pub system_prompt : Text
  pub temperature : F32
  pub top_p : F32
  pub frequency_penalty : F32
  pub presence_penalty : F32
  pub max_tokens : ℕ
  pub reasoning_effort : Option ReasoningEffort
  pub glossary : List LlmGlossaryEntry
  pub debounce_ms : ℕ
  pub provider_profiles : ProviderProfiles

abbrev pub default_system_prompt : Text
default_system_prompt =
    89 ∷ 111 ∷ 117 ∷ 32 ∷ 97 ∷ 114 ∷ 101 ∷ 32 ∷ 97 ∷ 32 ∷ 116 ∷ 114 ∷ 97 ∷ 110 ∷ 115 ∷ 108 ∷ 97
    ∷ 116 ∷ 111 ∷ 114 ∷ 32 ∷ 102 ∷ 111 ∷ 114 ∷ 32 ∷ 103 ∷ 97 ∷ 109 ∷ 101 ∷ 32 ∷ 97 ∷ 110 ∷ 100 ∷ 32
    ∷ 110 ∷ 111 ∷ 118 ∷ 101 ∷ 108 ∷ 32 ∷ 116 ∷ 101 ∷ 120 ∷ 116 ∷ 46 ∷ 32 ∷ 84 ∷ 114 ∷ 97 ∷ 110 ∷ 115
    ∷ 108 ∷ 97 ∷ 116 ∷ 101 ∷ 32 ∷ 123 ∷ 115 ∷ 111 ∷ 117 ∷ 114 ∷ 99 ∷ 101 ∷ 125 ∷ 32 ∷ 105 ∷ 110
    ∷ 116 ∷ 111 ∷ 32 ∷ 123 ∷ 116 ∷ 97 ∷ 114 ∷ 103 ∷ 101 ∷ 116 ∷ 125 ∷ 46 ∷ 10 ∷ 45 ∷ 32 ∷ 84 ∷ 114
    ∷ 97 ∷ 110 ∷ 115 ∷ 108 ∷ 105 ∷ 116 ∷ 101 ∷ 114 ∷ 97 ∷ 116 ∷ 101 ∷ 32 ∷ 111 ∷ 114 ∷ 32 ∷ 107
    ∷ 101 ∷ 101 ∷ 112 ∷ 32 ∷ 99 ∷ 104 ∷ 97 ∷ 114 ∷ 97 ∷ 99 ∷ 116 ∷ 101 ∷ 114 ∷ 32 ∷ 110 ∷ 97 ∷ 109
    ∷ 101 ∷ 115 ∷ 32 ∷ 97 ∷ 110 ∷ 100 ∷ 32 ∷ 112 ∷ 114 ∷ 111 ∷ 112 ∷ 101 ∷ 114 ∷ 32 ∷ 110 ∷ 111
    ∷ 117 ∷ 110 ∷ 115 ∷ 44 ∷ 32 ∷ 119 ∷ 104 ∷ 105 ∷ 99 ∷ 104 ∷ 101 ∷ 118 ∷ 101 ∷ 114 ∷ 32 ∷ 114
    ∷ 101 ∷ 97 ∷ 100 ∷ 115 ∷ 32 ∷ 109 ∷ 111 ∷ 114 ∷ 101 ∷ 32 ∷ 110 ∷ 97 ∷ 116 ∷ 117 ∷ 114 ∷ 97 ∷ 108
    ∷ 108 ∷ 121 ∷ 46 ∷ 10 ∷ 45 ∷ 32 ∷ 87 ∷ 114 ∷ 105 ∷ 116 ∷ 101 ∷ 32 ∷ 105 ∷ 110 ∷ 32 ∷ 97 ∷ 32
    ∷ 116 ∷ 111 ∷ 110 ∷ 101 ∷ 32 ∷ 116 ∷ 104 ∷ 97 ∷ 116 ∷ 32 ∷ 115 ∷ 111 ∷ 117 ∷ 110 ∷ 100 ∷ 115
    ∷ 32 ∷ 110 ∷ 97 ∷ 116 ∷ 117 ∷ 114 ∷ 97 ∷ 108 ∷ 32 ∷ 116 ∷ 111 ∷ 32 ∷ 110 ∷ 97 ∷ 116 ∷ 105 ∷ 118
    ∷ 101 ∷ 32 ∷ 123 ∷ 116 ∷ 97 ∷ 114 ∷ 103 ∷ 101 ∷ 116 ∷ 125 ∷ 32 ∷ 114 ∷ 101 ∷ 97 ∷ 100 ∷ 101
    ∷ 114 ∷ 115 ∷ 46 ∷ 10 ∷ 45 ∷ 32 ∷ 76 ∷ 105 ∷ 98 ∷ 101 ∷ 114 ∷ 97 ∷ 108 ∷ 32 ∷ 116 ∷ 114 ∷ 97
    ∷ 110 ∷ 115 ∷ 108 ∷ 97 ∷ 116 ∷ 105 ∷ 111 ∷ 110 ∷ 32 ∷ 105 ∷ 115 ∷ 32 ∷ 97 ∷ 108 ∷ 108 ∷ 111
    ∷ 119 ∷ 101 ∷ 100 ∷ 46 ∷ 10 ∷ 45 ∷ 32 ∷ 79 ∷ 117 ∷ 116 ∷ 112 ∷ 117 ∷ 116 ∷ 32 ∷ 111 ∷ 110 ∷ 108
    ∷ 121 ∷ 32 ∷ 116 ∷ 104 ∷ 101 ∷ 32 ∷ 116 ∷ 114 ∷ 97 ∷ 110 ∷ 115 ∷ 108 ∷ 97 ∷ 116 ∷ 101 ∷ 100 ∷ 32
    ∷ 116 ∷ 101 ∷ 120 ∷ 116 ∷ 46 ∷ 32 ∷ 78 ∷ 111 ∷ 32 ∷ 101 ∷ 120 ∷ 112 ∷ 108 ∷ 97 ∷ 110 ∷ 97 ∷ 116
    ∷ 105 ∷ 111 ∷ 110 ∷ 115 ∷ 44 ∷ 32 ∷ 112 ∷ 114 ∷ 101 ∷ 102 ∷ 105 ∷ 120 ∷ 101 ∷ 115 ∷ 44 ∷ 32
    ∷ 111 ∷ 114 ∷ 32 ∷ 113 ∷ 117 ∷ 111 ∷ 116 ∷ 97 ∷ 116 ∷ 105 ∷ 111 ∷ 110 ∷ 32 ∷ 109 ∷ 97 ∷ 114
    ∷ 107 ∷ 115 ∷ 46 ∷ []

abbrev pub default_profile : LlmProviderProfile
default_profile = record {
  model = [];
  api_key = [];
  base_url = [];
  system_prompt = default_system_prompt;
  temperature = f32_one;
  top_p = f32_one;
  frequency_penalty = f32_zero;
  presence_penalty = f32_zero;
  max_tokens = 1024;
  reasoning_effort = none;
  glossary = [];
  debounce_ms = 300;
}

unfoldable pub get_provider : LlmConfig → EnumParseError ⊎ LlmProvider
get_provider c = from_str c.provider

unfoldable pub active_profile : LlmConfig → LlmProviderProfile
active_profile c = record {
  model = c.model;
  api_key = c.api_key;
  base_url = c.base_url;
  system_prompt = c.system_prompt;
  temperature = c.temperature;
  top_p = c.top_p;
  frequency_penalty = c.frequency_penalty;
  presence_penalty = c.presence_penalty;
  max_tokens = c.max_tokens;
  reasoning_effort = c.reasoning_effort;
  glossary = c.glossary;
  debounce_ms = c.debounce_ms;
}

unfoldable pub apply_profile : LlmConfig → LlmProviderProfile → LlmConfig
apply_profile c p = record c {
  model = p.model;
  api_key = p.api_key;
  base_url = p.base_url;
  system_prompt = p.system_prompt;
  temperature = p.temperature;
  top_p = p.top_p;
  frequency_penalty = p.frequency_penalty;
  presence_penalty = p.presence_penalty;
  max_tokens = p.max_tokens;
  reasoning_effort = p.reasoning_effort;
  glossary = p.glossary;
  debounce_ms = p.debounce_ms;
}

-- `insert` and `remove` on the map.
abbrev pub assign : Text → Option LlmProviderProfile → ProviderProfiles → ProviderProfiles
assign k p m t = if text_eq k t then p else m t

unfoldable pub same_provider : LlmProvider → LlmProvider → Bool
same_provider p q = text_eq (to_str p) (to_str q)

abbrev pub unwrap_or_default : Option LlmProviderProfile → LlmProviderProfile
unwrap_or_default none = default_profile
unwrap_or_default (some p) = p

-- The profile of the provider that becomes the active one leaves the map.
unfoldable pub activate : LlmProvider → LlmConfig → LlmConfig
activate p c =
    apply_profile
      (record c {
        provider = to_str p;
        provider_profiles = assign (to_str p) none c.provider_profiles;
      })
      (unwrap_or_default (c.provider_profiles (to_str p)))

-- The profile of the provider that was active goes into the map.
unfoldable pub store : LlmProvider → LlmConfig → LlmConfig
store p c = record c {
  provider_profiles = assign (to_str p) (some (active_profile c)) c.provider_profiles;
}

unfoldable pub set_provider : LlmConfig → LlmProvider → LlmConfig
set_provider c provider = elim (get_provider c) [
  | inl e ↦ activate provider c
  | inr current ↦
      if same_provider current provider
      then record c { provider = to_str provider }
      else activate provider (store current c)
]

unfoldable pub normalize_profile : LlmProviderProfile → LlmProviderProfile
normalize_profile p = record p {
  max_tokens = llm_max_tokens p.max_tokens;
  debounce_ms = llm_debounce_ms p.debounce_ms;
  temperature = llm_temperature p.temperature;
  top_p = llm_top_p p.top_p;
  frequency_penalty = llm_penalty p.frequency_penalty;
  presence_penalty = llm_penalty p.presence_penalty;
}

abbrev pub map_profile :
    (LlmProviderProfile → LlmProviderProfile)
    → Option LlmProviderProfile
    → Option LlmProviderProfile
map_profile f none = none
map_profile f (some p) = some (f p)

unfoldable pub normalize : LlmConfig → LlmConfig
normalize c = record c {
  max_tokens = llm_max_tokens c.max_tokens;
  debounce_ms = llm_debounce_ms c.debounce_ms;
  temperature = llm_temperature c.temperature;
  top_p = llm_top_p c.top_p;
  frequency_penalty = llm_penalty c.frequency_penalty;
  presence_penalty = llm_penalty c.presence_penalty;
  provider_profiles = λ k. map_profile normalize_profile (c.provider_profiles k);
}
