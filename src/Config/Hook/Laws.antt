-- ===== src/Config/Hook/Laws.antt =====
-- src/config/hook.rs: the profiles that are saved are found again, and the limits hold.
use anemone_rs.Base.{
  ℕ, ◌-◌, ◌≤◌, zero, suc, Bool, true, not, Option, none, some, List, [], ◌∷◌, ◌++◌, ltb, length,
  drop, filter, find, all, Text, option_text_eq, option_text_eq_refl, eq_ignore_ascii_case,
  eq_ignore_ascii_case_refl, ◌≡◌, refl, arith, all-filter, filter-all, all-drop, length-drop,
  length-append, Bool-cases, subst, sym, inl, inr,
}
use anemone_rs.Config.Limits.Idem.{clamp_u32_idem}
use anemone_rs.Config.Hook.{
  SavedHookProfile, HookConfig, max_saved_profiles, keeps_profile, drain_excess, normalize,
  is_other_game, saved_profile, save_profile,
}

abbrev Profiles : Type 0
Profiles = List SavedHookProfile

pub length-drain_excess : (ps : Profiles) → length (drain_excess ps) ≤ max_saved_profiles
unfolding drain_excess
length-drain_excess ps = ground (arith, length-drop (length ps - max_saved_profiles) ps)

drain_excess_within : (ps : Profiles) → length ps ≤ max_saved_profiles → drain_excess ps ≡ ps
unfolding drain_excess
drain_excess_within ps h = ground arith

all-drain_excess :
    (f : SavedHookProfile → Bool) (ps : Profiles) → all f ps ≡ true → all f (drain_excess ps) ≡ true
unfolding drain_excess
all-drain_excess f ps h = ground (arith, all-drop f (length ps - max_saved_profiles) ps h)

pub normalize_idem : (c : HookConfig) → normalize (normalize c) ≡ normalize c
unfolding normalize
normalize_idem c =
    let kept = filter keeps_profile c.saved_profiles in
    rw (
      clamp_u32_idem 100 5000 c.merge_window_ms refl,
      filter-all keeps_profile (drain_excess kept)
          (all-drain_excess keeps_profile kept (all-filter keeps_profile c.saved_profiles)),
      drain_excess_within (drain_excess kept) (length-drain_excess kept),
    )

find_skips :
    (f : SavedHookProfile → Bool) (ps : Profiles) (p : SavedHookProfile)
    → all (λ q. not (f q)) ps ≡ true
    → f p ≡ true
    → find f (ps ++ p ∷ []) ≡ some p
find_skips f [] p h hp = rw (hp)
find_skips f (q ∷ ps) p h hp = ground (arith, find_skips f ps p)

drop_snoc :
    (n : ℕ) (ps : Profiles) (p : SavedHookProfile)
    → n ≤ length ps
    → drop n (ps ++ p ∷ []) ≡ drop n ps ++ p ∷ []
drop_snoc zero ps p h = refl
drop_snoc (suc n) [] p h = ground arith
drop_snoc (suc n) (q ∷ ps) p h = drop_snoc n ps p (omega arith)

-- The profile that was saved last stays, after profiles that were saved before.
drain_excess_snoc :
    (ps : Profiles) (p : SavedHookProfile)
    → (n : ℕ) × (drain_excess (ps ++ p ∷ []) ≡ drop n ps ++ p ∷ [])
unfolding drain_excess
drain_excess_snoc ps p = elim (Bool-cases (ltb max_saved_profiles (length (ps ++ p ∷ [])))) [
  | inl over ↦
      let n = length (ps ++ p ∷ []) - max_saved_profiles in
      (n, rw (over) (drop_snoc n ps p (omega (arith, length-append ps (p ∷ [])))))
  | inr within ↦ (0, rw (within) refl)
]

all_weaken :
    (f g : SavedHookProfile → Bool) (ps : Profiles)
    → ((p : SavedHookProfile) → f p ≡ true → g p ≡ true)
    → all f ps ≡ true
    → all g ps ≡ true
all_weaken f g [] imp h = refl
all_weaken f g (p ∷ ps) imp h = ground (arith, imp p, all_weaken f g ps imp)

-- A test that no profile of another game passes finds the profile that was just saved.
find_saved :
    (f : SavedHookProfile → Bool) (c : HookConfig) (p : SavedHookProfile)
    → ((q : SavedHookProfile) → is_other_game p q ≡ true → not (f q) ≡ true)
    → f p ≡ true
    → find f (save_profile c p).saved_profiles ≡ some p
unfolding save_profile
find_saved f c p other hp =
    let kept = filter (is_other_game p) c.saved_profiles in
    let (n, drained) = drain_excess_snoc kept p in
    rw (drained) (
      find_skips f (drop n kept) p
        (all-drop (λ q. not (f q)) n kept
          (all_weaken (is_other_game p) (λ q. not (f q)) kept other
            (all-filter (is_other_game p) c.saved_profiles)))
        hp)

saved_profile-save_profile_at :
    (c : HookConfig) (p : SavedHookProfile) (digest : Option Text)
    → p.exe_sha256 ≡ digest
    → saved_profile (save_profile c p) p.process_name digest ≡ some p
unfolding saved_profile is_other_game
saved_profile-save_profile_at c p none e =
    find_saved (λ q. eq_ignore_ascii_case q.process_name p.process_name) c p (λ q h. ground arith)
      (eq_ignore_ascii_case_refl p.process_name)
saved_profile-save_profile_at c p (some digest) e = rw (
    find_saved (λ q. option_text_eq q.exe_sha256 (some digest)) c p (λ q h. ground arith)
      (subst (λ o. option_text_eq o (some digest) ≡ true) (sym e)
        (option_text_eq_refl (some digest))))

-- A profile that is saved is the one found for its game, whatever was saved before.
pub saved_profile-save_profile :
    (c : HookConfig) (p : SavedHookProfile)
    → saved_profile (save_profile c p) p.process_name p.exe_sha256 ≡ some p
saved_profile-save_profile c p = saved_profile-save_profile_at c p p.exe_sha256 refl
