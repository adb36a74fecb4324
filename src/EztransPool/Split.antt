-- ===== src/EztransPool/Split.antt =====
-- Splitting and joining of batches: `split_eztrans_batch` against what the helper is sent.
use anemone_rs.Base.{
  ℕ, suc, ◌≡◌, ◌≢◌, refl, ap, ◌∙◌, Bool, true, false, some, List, [], ◌∷◌, ◌++◌, arith, length,
  Text,
}
use anemone_rs.EztransPool.{newline, split, join, trim_parts, strip_crs, split_eztrans_batch}

abbrev pub Free : ℕ → Text → Type 0
Free x [] = Unit {0}
Free x (c ∷ s) = (c ≢ x) × Free x s

abbrev pub AllFree : ℕ → List Text → Type 0
AllFree x [] = Unit {0}
AllFree x (p ∷ ps) = Free x p × AllFree x ps

split-Free : (s : Text) → Free newline s → split s ≡ s ∷ []
unfolding split
split-Free [] f = refl
split-Free (c ∷ s) f = ground (arith, split-Free s f.1)

split-append : (s t : Text) → Free newline s → split (s ++ newline ∷ t) ≡ s ∷ split t
unfolding split
split-append [] t f = refl
split-append (c ∷ s) t f = ground (arith, split-append s t f.1)

-- Lines without a line feed come back from their join.
pub split-join :
    (p : Text) (ps : List Text) → AllFree newline (p ∷ ps) → split (join (p ∷ ps)) ≡ p ∷ ps
unfolding join
split-join p [] f = split-Free p f.0
split-join p (q ∷ ps) f = split-append p (join (q ∷ ps)) f.0 ∙ ap (◌∷◌ p) (split-join q ps f.1)

pub length-strip_crs : (ps : List Text) → length (strip_crs ps) ≡ length ps
unfolding strip_crs
length-strip_crs [] = refl
length-strip_crs (p ∷ ps) = ap suc (length-strip_crs ps)

length-trim_parts : (b : Bool) (ps os : List Text) → length (trim_parts b ps os) ≡ length ps
unfolding trim_parts
length-trim_parts b [] os = refl
length-trim_parts b (p ∷ ps) [] = refl
length-trim_parts b (p ∷ ps) (o ∷ os) = ap suc (length-trim_parts true ps os)

-- A batch that is accepted has one part for each original.
pub length-split_eztrans_batch :
    (t : Text) (os parts : List Text)
    → split_eztrans_batch t os ≡ some parts
    → length parts ≡ length os
unfolding split_eztrans_batch
length-split_eztrans_batch t os parts h =
    ground (arith, length-trim_parts false (strip_crs (split t)) os)
