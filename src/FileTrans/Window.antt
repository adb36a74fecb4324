-- ===== src/FileTrans/Window.antt =====
-- `translate_eztrans_window` of src/file_trans/eztrans.rs: the lines of a window are looked up in
-- the cache of the job, and each text that is missing is translated once. The cache of the
-- quick_cache crate, the pool of helpers and the postprocessing of the job are parameters.
pub mod Scan
pub mod Exact
mod Tests
use mathlib.Core.List.{flatten}
use mathlib.Core.Option
use anemone_rs.Base.{
  ℕ, zero, suc, ◌≡◌, ◌⊎◌, Bool, true, false, not, ◌&&◌, ◌||◌, Option, none, some, List, [], ◌∷◌,
  ◌++◌, map, ◌==◌, if◌then◌else◌, length, get_elem?, Text, text_eq, is_whitespace,
}
use anemone_rs.FileTrans.Partition.{partition_eztrans_batches, is_empty}

pub data BatchResult : Type 0 where
  ok : List (List Text) → BatchResult
  err : Text → BatchResult

-- `BoundedTranslationCache` may forget, and never invents; `EzTransBatchTranslator` with its
-- process count; `PreparedJob::postprocess`.
pub record Services : Type 1 where
  pub Cache : Type 0
  pub get : Cache → Text → Option Text
  pub insert : Cache → Text → Text → Cache
  pub get_insert :
      (c : Cache) (k v q w : Text)
      → get (insert c k v) q ≡ some w
      → ((q ≡ k) × (w ≡ v)) ⊎ (get c q ≡ some w)
  pub process_count : ℕ
  pub translate_batches : List (List Text) → BatchResult
  pub postprocess : Text → Text

pub data WindowError : Type 0 where
  backend : Text → WindowError
  count_mismatch : ℕ → ℕ → WindowError

-- `panicked` stands for an index out of range.
pub data Outcome (A : Type 0) : Type 0 where
  done : A → Outcome A
  failed : WindowError → Outcome A
  panicked : Outcome A

-- `line.trim().is_empty()`
all_whitespace : Text → Bool
all_whitespace [] = true
all_whitespace (c ∷ s) = is_whitespace c && all_whitespace s

abbrev text_is_empty : Text → Bool
text_is_empty [] = true
text_is_empty (c ∷ s) = false

pub should_translate_line : Text → Bool → Bool
unfolding all_whitespace
should_translate_line line no_trans_linefeed =
    not (text_is_empty line) && not (no_trans_linefeed && all_whitespace line)

pub lookup : Text → List (Text × ℕ) → Option ℕ
lookup k [] = none
lookup k ((j, i) ∷ m) = if text_eq k j then some i else lookup k m

-- What the first loop of the function leaves for one line: `results[index]`, `line_misses[index]`,
-- and the two tables.
pub record Slot : Type 0 where
  pub result : Option Text
  pub line_miss : Option ℕ
  pub miss_by_text : List (Text × ℕ)
  pub misses : List Text

-- The vectors when the loop is over.
pub record Scanned : Type 0 where
  pub results : List (Option Text)
  pub line_misses : List (Option ℕ)
  pub misses : List Text

pub fill_untranslated : List (Option Text) → List Text → List Text
fill_untranslated [] lines = []
fill_untranslated (r ∷ rs) [] = []
fill_untranslated (none ∷ rs) (l ∷ ls) = l ∷ fill_untranslated rs ls
fill_untranslated (some t ∷ rs) (l ∷ ls) = t ∷ fill_untranslated rs ls

-- The loop that writes `translated_misses[miss_index]` into the results; `none` is a panic.
pub merge : List (Option Text) → List (Option ℕ) → List Text → Option (List (Option Text))
merge [] ks translated = some []
merge (r ∷ rs) [] translated = some (r ∷ rs)
merge (r ∷ rs) (none ∷ ks) translated = Option.map (◌∷◌ r) (merge rs ks translated)
merge (r ∷ rs) (some i ∷ ks) translated = elim (get_elem? translated i) [
  | none ↦ none
  | some t ↦ Option.map (◌∷◌ (some t)) (merge rs ks translated)
]

abbrev filled : List Text → Option (List (Option Text)) → Outcome (List Text)
filled lines (some rs) = done (fill_untranslated rs lines)
filled lines none = panicked

missed : List (Text × ℕ) → List Text → Text → Slot
missed miss_by_text misses line = elim (lookup line miss_by_text) [
  | some i ↦ record {
    result = none;
    line_miss = some i;
    miss_by_text = miss_by_text;
    misses = misses;
  }
  | none ↦ record {
    result = none;
    line_miss = some (length misses);
    miss_by_text = (line, length misses) ∷ miss_by_text;
    misses = misses ++ line ∷ [];
  }
]

module _ (v : Services) where
  looked_up : v.Cache → List (Text × ℕ) → List Text → Text → Slot
  unfolding missed
  looked_up cache miss_by_text misses line = elim (v.get cache line) [
    | some t ↦ record {
      result = some t;
      line_miss = none;
      miss_by_text = miss_by_text;
      misses = misses;
    }
    | none ↦ missed miss_by_text misses line
  ]

  -- One round of the first loop.
  pub classify : v.Cache → Bool → List (Text × ℕ) → List Text → Text → Slot
  unfolding looked_up
  classify cache no_trans_linefeed miss_by_text misses line =
      if should_translate_line line no_trans_linefeed
      then looked_up cache miss_by_text misses line
      else record { result = none; line_miss = none; miss_by_text = miss_by_text; misses = misses }

  pub scan : v.Cache → Bool → List (Text × ℕ) → List Text → List Text → Scanned
  scan cache flag miss_by_text misses [] = record {
    results = [];
    line_misses = [];
    misses = misses;
  }
  scan cache flag miss_by_text misses (line ∷ lines) =
      let s = classify cache flag miss_by_text misses line in
      let rest = scan cache flag s.miss_by_text s.misses lines in
      record {
        results = s.result ∷ rest.results;
        line_misses = s.line_miss ∷ rest.line_misses;
        misses = rest.misses;
      }

  pub insert_all : v.Cache → List Text → List Text → v.Cache
  insert_all cache [] ts = cache
  insert_all cache (o ∷ os) [] = cache
  insert_all cache (o ∷ os) (t ∷ ts) = insert_all (v.insert cache o t) os ts

  -- From the check of the counts on.
  accept : v.Cache → List Text → Scanned → List Text → v.Cache × Outcome (List Text)
  accept cache lines s translated =
      if length translated == length s.misses
      then (
        insert_all cache s.misses translated,
        filled lines (merge s.results s.line_misses translated),
      )
      else (cache, failed (count_mismatch (length s.misses) (length translated)))

  send : v.Cache → List Text → Scanned → v.Cache × Outcome (List Text)
  unfolding accept
  send cache lines s =
      elim (v.translate_batches (partition_eztrans_batches s.misses v.process_count)) [
        | ok batches ↦ accept cache lines s (map v.postprocess (flatten batches))
        | err e ↦ (cache, failed (backend e))
      ]

  pub translate_eztrans_window : v.Cache → List Text → Bool → v.Cache × Outcome (List Text)
  unfolding send
  translate_eztrans_window cache lines no_trans_linefeed =
      let s = scan cache no_trans_linefeed [] [] lines in
      if is_empty s.misses
      then (cache, done (fill_untranslated s.results lines))
      else send cache lines s
