-- ===== src/Config/Llm/Switch.antt =====
-- src/config/llm.rs: switching the provider loses no settings.
use anemone_rs.Base.{
  true, false, Option, none, some, Text, text_eq, text_eq_refl, to_ascii_lowercase, ascii_lower,
  ◌≡◌, refl, ap, text_eq_comm, inl, inr, Bool-cases, fun_ext,
}
use anemone_rs.Config.Limits.Idem.{
  llm_max_tokens_idem, llm_debounce_ms_idem, llm_temperature_idem, llm_top_p_idem, llm_penalty_idem,
}
use anemone_rs.Config.Llm.{
  LlmProvider, LlmConfig, LlmProviderProfile, to_str, from_str, provider_of, get_provider,
  active_profile, apply_profile, same_provider, activate, store, set_provider, normalize_profile,
  normalize, map_profile, unwrap_or_default,
}

from_str-to_str : (p : LlmProvider) → from_str (to_str p) ≡ inr p
unfolding to_str from_str provider_of to_ascii_lowercase text_eq ascii_lower
from_str-to_str LlmProvider.open_ai = refl
from_str-to_str LlmProvider.anthropic = refl
from_str-to_str LlmProvider.gemini = refl
from_str-to_str LlmProvider.grok = refl
from_str-to_str LlmProvider.open_router = refl

get_provider-to_str :
    (c : LlmConfig) (p : LlmProvider) → get_provider (record c { provider = to_str p }) ≡ inr p
unfolding get_provider
get_provider-to_str c p = from_str-to_str p

get_provider-activate : (p : LlmProvider) (c : LlmConfig) → get_provider (activate p c) ≡ inr p
unfolding get_provider activate apply_profile
get_provider-activate p c = from_str-to_str p

active_profile-activate :
    (p : LlmProvider) (c : LlmConfig) (kept : LlmProviderProfile)
    → c.provider_profiles (to_str p) ≡ some kept
    → active_profile (activate p c) ≡ kept
unfolding activate active_profile apply_profile
active_profile-activate p c kept h = ap unwrap_or_default h

-- The profile of a provider waits in the map while another one is active.
kept-store-activate :
    (c : LlmConfig) (p q : LlmProvider)
    → same_provider p q ≡ false
    → (store q (activate q (store p c))).provider_profiles (to_str p) ≡ some (active_profile c)
unfolding store activate apply_profile same_provider
kept-store-activate c p q h = rw (text_eq_comm (to_str q) (to_str p), h, text_eq_refl (to_str p))

set_provider_same :
    (c : LlmConfig) (p q : LlmProvider)
    → get_provider c ≡ inr p
    → same_provider p q ≡ true
    → set_provider c q ≡ record c { provider = to_str q }
unfolding set_provider
set_provider_same c p q h same = rw (set_provider, h, same) refl

set_provider_other :
    (c : LlmConfig) (p q : LlmProvider)
    → get_provider c ≡ inr p
    → same_provider p q ≡ false
    → set_provider c q ≡ activate q (store p c)
unfolding set_provider
set_provider_other c p q h other = rw (set_provider, h, other) refl

same_provider_comm : (p q : LlmProvider) → same_provider p q ≡ same_provider q p
unfolding same_provider
same_provider_comm p q = text_eq_comm (to_str p) (to_str q)

active_profile-renamed :
    (c : LlmConfig) (s t : Text)
    → active_profile (record (record c { provider = s }) { provider = t }) ≡ active_profile c
unfolding active_profile
active_profile-renamed c s t = refl

-- The settings of the active provider are the same after a switch to any provider and back.
pub set_provider_and_back :
    (c : LlmConfig) (p q : LlmProvider)
    → get_provider c ≡ inr p
    → active_profile (set_provider (set_provider c q) p) ≡ active_profile c
set_provider_and_back c p q h = elim (Bool-cases (same_provider p q)) [
  | inl same ↦
      rw
        (
          set_provider_same c p q h same,
          set_provider_same (record c { provider = to_str q }) q p (get_provider-to_str c q)
              (rw (same_provider_comm q p) same),
        )
        (active_profile-renamed c (to_str q) (to_str p))
  | inr other ↦
      rw
        (
          set_provider_other c p q h other,
          set_provider_other (activate q (store p c)) q p (get_provider-activate q (store p c))
              (rw (same_provider_comm q p) other),
        )
        (active_profile-activate p (store q (activate q (store p c))) (active_profile c)
          (kept-store-activate c p q other))
]

normalize_profile_idem :
    (p : LlmProviderProfile) → normalize_profile (normalize_profile p) ≡ normalize_profile p
unfolding normalize_profile
normalize_profile_idem p = rw (
  llm_max_tokens_idem p.max_tokens,
  llm_debounce_ms_idem p.debounce_ms,
  llm_temperature_idem p.temperature,
  llm_top_p_idem p.top_p,
  llm_penalty_idem p.frequency_penalty,
  llm_penalty_idem p.presence_penalty,
)

map_profile_idem :
    (o : Option LlmProviderProfile)
    → map_profile normalize_profile (map_profile normalize_profile o)
      ≡ map_profile normalize_profile o
map_profile_idem none = refl
map_profile_idem (some p) = ap some (normalize_profile_idem p)

pub normalize_idem : (c : LlmConfig) → normalize (normalize c) ≡ normalize c
unfolding normalize
normalize_idem c = rw (
  llm_max_tokens_idem c.max_tokens,
  llm_debounce_ms_idem c.debounce_ms,
  llm_temperature_idem c.temperature,
  llm_top_p_idem c.top_p,
  llm_penalty_idem c.frequency_penalty,
  llm_penalty_idem c.presence_penalty,
  fun_ext (λ k. map_profile_idem (c.provider_profiles k)),
)
