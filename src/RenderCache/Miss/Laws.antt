-- ===== src/RenderCache/Miss/Laws.antt =====
-- The ring of src/d2d/cache/tracker.rs is the list of the last eight results.
use anemone_rs.Base.{
  ℕ, zero, suc, ◌+◌, ◌*◌, ◌/◌, ◌%◌, ◌^◌, ◌≤◌, ◌<◌, ◌≡◌, ◌↔◌, ◌≢◌, refl, ap, ◌∙◌, Bool, true, false,
  List, [], ◌∷◌, if◌then◌else◌, min, arith, length, take, length-take,
}
use native.Mathlib.Nat.{pow-suc}
use anemone_rs.RenderCache.{MeasureSlot, Slots, at, put, at-put, slot_eq, slot_eq_refl, slot_eq→eq}
use anemone_rs.RenderCache.Miss.{
  MissTracker, push_bit, count_up, record_miss, count_ones, is_overloaded, reset,
}

-- The number whose bits are the given ones, the lowest first.
pub value : List Bool → ℕ
value [] = 0
value (b ∷ bs) = (if b then 1 else 0) + 2 * value bs

pub misses : List Bool → ℕ
misses [] = 0
misses (b ∷ bs) = (if b then 1 else 0) + misses bs

count_ones-value : (n : ℕ) (bs : List Bool) → length bs ≤ n → count_ones n (value bs) ≡ misses bs
unfolding count_ones value misses
count_ones-value zero [] h = refl
count_ones-value zero (b ∷ bs) h = absurd (omega arith)
count_ones-value (suc n) [] h = omega (arith, count_ones-value n [])
count_ones-value (suc n) (true ∷ bs) h =
    let bit : (1 + 2 * value bs) % 2 ≡ 1 = omega arith in
    let half : (1 + 2 * value bs) / 2 ≡ value bs = omega arith in
    rw (half, bit) (omega (arith, count_ones-value n bs (omega arith)))
count_ones-value (suc n) (false ∷ bs) h =
    let bit : (0 + 2 * value bs) % 2 ≡ 0 = omega arith in
    let half : (0 + 2 * value bs) / 2 ≡ value bs = omega arith in
    rw (half, bit) (omega (arith, count_ones-value n bs (omega arith)))

value-take_nil : (n : ℕ) → value (take n []) ≡ 0
unfolding value
value-take_nil zero = refl
value-take_nil (suc n) = refl

-- One more bit adds at most the next power of two.
value-take :
    (n : ℕ) (h : List Bool) → (q : ℕ) × (value (take (suc n) h) ≡ value (take n h) + 2 ^ n * q)
unfolding value
value-take n [] = (0, omega (arith, value-take_nil n))
value-take zero (b ∷ h) = (if b then 1 else 0, omega arith)
value-take (suc n) (b ∷ h) = let (q, e) = value-take n h in (q, rw (e, pow-suc 2 n) (omega arith))

bit-le : (b : Bool) → (if b then 1 else 0) ≤ 1
bit-le b = ground arith

value-lt : (n : ℕ) (h : List Bool) → value (take n h) < 2 ^ n
unfolding value
value-lt zero h = omega arith
value-lt (suc n) [] = rw (pow-suc 2 n) (omega (arith, value-lt n []))
value-lt (suc n) (b ∷ h) = rw (pow-suc 2 n) (omega (arith, bit-le b, value-lt n h))

push_bit-value : (b : Bool) (h : List Bool) → push_bit (value (take 8 h)) b ≡ value (take 8 (b ∷ h))
unfolding push_bit value
push_bit-value b h = let (q, e) = value-take 7 h in omega (arith, e, value-lt 7 h, value-lt 8 h)

-- A slot whose ring holds the results `h`, the last one first.
pub record Tracks (t : MissTracker) (slot : MeasureSlot) (h : List Bool) : Type 0 where
  pub ring : at t.rings slot ≡ value (take 8 h)
  pub full : at t.filled slot ≡ min (length h) 8

reset-Tracks : (t : MissTracker) (slot : MeasureSlot) → Tracks (reset t slot) slot []
unfolding reset value
reset-Tracks t slot = record {
  ring = ground (arith, at-put t.rings slot slot 0, slot_eq_refl slot);
  full = ground (arith, at-put t.filled slot slot 0, slot_eq_refl slot);
}

at-put_self {ℓ} : {A : Type ℓ} (s : Slots A) (i : MeasureSlot) (a : A) → at (put s i a) i ≡ a
at-put_self s i a = rw (at-put s i i a, slot_eq_refl i)

record_miss-Tracks :
    (t : MissTracker) (slot : MeasureSlot) (b : Bool) (h : List Bool)
    → Tracks t slot h
    → Tracks (record_miss t slot b) slot (b ∷ h)
unfolding record_miss
record_miss-Tracks t slot b h v = record {
  ring = at-put_self t.rings slot _ ∙ ap (λ r. push_bit r b) v.ring ∙ push_bit-value b h;
  full = at-put_self t.filled slot _ ∙ ap count_up v.full ∙ count_up-min (length h);
}
  where
    count_up-min : (n : ℕ) → count_up (min n 8) ≡ min (suc n) 8
    count_up-min n = ground arith

-- The tracker after a reset of the slot and some results, the last one first.
unfoldable pub record_all : MissTracker → MeasureSlot → List Bool → MissTracker
record_all t slot [] = reset t slot
record_all t slot (b ∷ h) = record_miss (record_all t slot h) slot b

pub record_all-Tracks :
    (t : MissTracker) (slot : MeasureSlot) (h : List Bool) → Tracks (record_all t slot h) slot h
unfolding record_all
record_all-Tracks t slot [] = reset-Tracks t slot
record_all-Tracks t slot (b ∷ h) =
    record_miss-Tracks (record_all t slot h) slot b h (record_all-Tracks t slot h)

threshold-record_all :
    (t : MissTracker) (slot : MeasureSlot) (h : List Bool)
    → (record_all t slot h).threshold ≡ t.threshold
unfolding record_all record_miss reset
threshold-record_all t slot [] = refl
threshold-record_all t slot (b ∷ h) = threshold-record_all t slot h

-- A slot is overloaded exactly when eight results have come in since its reset, and at least as
-- many of the last eight as the threshold are misses.
pub is_overloaded-record_all_iff :
    (t : MissTracker) (slot : MeasureSlot) (h : List Bool)
    → (is_overloaded (record_all t slot h) slot ≡ true)
      ↔ ((8 ≤ length h) × (t.threshold ≤ misses (take 8 h)))
unfolding is_overloaded
is_overloaded-record_all_iff t slot h =
    let v = record_all-Tracks t slot h in
    ground (
      arith,
      v.ring,
      v.full,
      threshold-record_all t slot h,
      ap (count_ones 16) v.ring,
      count_ones-value 16 (take 8 h) (omega (arith, length-take 8 h)),
    )

-- What one slot records changes no verdict on another.
pub is_overloaded-record_miss_ne :
    (t : MissTracker) (slot other : MeasureSlot) (b : Bool)
    → slot ≢ other
    → is_overloaded (record_miss t slot b) other ≡ is_overloaded t other
unfolding is_overloaded record_miss
is_overloaded-record_miss_ne t slot other b h =
    let apart : slot_eq slot other ≡ false = ground (arith, slot_eq→eq slot other) in
    rw (at-put t.rings slot other _, at-put t.filled slot other _, apart)
