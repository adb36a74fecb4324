-- ===== src/RenderCache/Measure/Laws.antt =====
-- What src/d2d/cache/measure.rs answers.
use anemone_rs.Base.{
  ℕ, ◌≡◌, refl, subst, ◌↔◌, ◌≢◌, ◌⊎◌, inl, inr, Bool-cases, ap, ◌∙◌, Bool, true, false, Option,
  none, some, if◌then◌else◌, text_eq→eq, text_eq_refl, int_eq→eq, int_eq_refl, arith,
}
use anemone_rs.RenderCache.{MeasureSlot, slot_eq, slot_eq→eq, slot_eq_refl, at, at-put}
use anemone_rs.RenderCache.Keys.Laws.{align_eq→eq, align_eq_refl}
use anemone_rs.RenderCache.Measure.{
  MeasureKey, measure_matches, MeasureCache, hit, MeasureCacheEntry, get, insert,
}

matches→eq : (r k : MeasureKey) → measure_matches r k ≡ true → r ≡ k
unfolding measure_matches
matches→eq r k h = ground (
  arith,
  int_eq→eq r.font_size k.font_size,
  align_eq→eq r.text_align k.text_align,
  text_eq→eq r.text k.text,
  text_eq→eq r.font_face k.font_face,
)

matches_refl : (r : MeasureKey) → measure_matches r r ≡ true
unfolding measure_matches
matches_refl r = ground (
  arith,
  int_eq_refl r.font_size,
  align_eq_refl r.text_align,
  text_eq_refl r.text,
  text_eq_refl r.font_face,
)

pub measure_matches_iff : (r k : MeasureKey) → (measure_matches r k ≡ true) ↔ (r ≡ k)
measure_matches_iff r k =
    (matches→eq r k, λ e. subst (λ x. measure_matches r x ≡ true) e (matches_refl r))

hit-if :
    (asked key : MeasureKey) (height : ℕ) (old : Option MeasureCacheEntry) (b : Bool)
    → hit asked (if b then some (record { key = key; height = height }) else old)
      ≡ (if b then (if measure_matches asked key then some height else none) else hit asked old)
hit-if asked key height old true = refl
hit-if asked key height old false = refl

get-insert_if :
    (c : MeasureCache) (slot other : MeasureSlot) (key asked : MeasureKey) (height : ℕ)
    → get (insert c slot key height) other asked ≡ (
        if slot_eq slot other
        then (if measure_matches asked key then some height else none)
        else get c other asked)
unfolding get insert
get-insert_if c slot other key asked height =
    ap (hit asked) (at-put c.entries slot other (some (record { key = key; height = height })))
    ∙ hit-if asked key height (at c.entries other) (slot_eq slot other)

-- A height that is found after an insertion is the inserted one, in its slot and under its key, or
-- was found before in another slot: an entry that was overwritten is never answered.
pub get-insert_sound :
    (c : MeasureCache) (slot other : MeasureSlot) (key asked : MeasureKey) (height found : ℕ)
    → get (insert c slot key height) other asked ≡ some found
    → ((slot ≡ other) × (asked ≡ key) × (found ≡ height))
      ⊎ ((slot ≢ other) × (get c other asked ≡ some found))
get-insert_sound c slot other key asked height found h = elim (Bool-cases (slot_eq slot other)) [
  | inl same ↦ inl (
    slot_eq→eq slot other same,
    ground (arith, get-insert_if c slot other key asked height, matches→eq asked key),
    ground (arith, get-insert_if c slot other key asked height),
  )
  | inr differ ↦ inr (
    (λ e. cc (differ, ap (slot_eq slot) e, slot_eq_refl slot)),
    ground (arith, get-insert_if c slot other key asked height),
  )
]

-- The inserted height is found in its slot under its key, and every other slot answers as before.
pub get-insert :
    (c : MeasureCache) (slot other : MeasureSlot) (key asked : MeasureKey) (height : ℕ)
    → slot ≢ other
    → (get (insert c slot key height) slot key ≡ some height)
      × (get (insert c slot key height) other asked ≡ get c other asked)
get-insert c slot other key asked height h = (
  ground (arith, get-insert_if c slot slot key key height, slot_eq_refl slot, matches_refl key),
  ground (arith, get-insert_if c slot other key asked height, slot_eq→eq slot other),
)
