-- ===== src/FileTrans/Partition.antt =====
-- `partition_eztrans_batches` of src/file_trans/eztrans.rs: the lines of a window are cut into
-- batches for the helper processes.
pub mod Laws
mod Tests
use anemone_rs.Base.{
  ℕ, zero, suc, ◌+◌, ◌-◌, ◌/◌, ◌%◌, Bool, true, false, not, ◌&&◌, ◌||◌, List, [], ◌∷◌, ◌++◌, ltb,
  leb, if◌then◌else◌, length, Text, saturating_add, min, max,
}

abbrev pub eztrans_batch_max_lines : ℕ
eztrans_batch_max_lines = 256

abbrev pub eztrans_batch_max_chars : ℕ
eztrans_batch_max_chars = 98304

abbrev pub clamp : ℕ → ℕ → ℕ → ℕ
clamp x lo hi = max lo (min x hi)

abbrev pub div_ceil : ℕ → ℕ → ℕ
div_ceil a b = a / b + (if ltb 0 (a % b) then 1 else 0)

-- `usize::from(!current.is_empty())`
abbrev pub separator : List Text → ℕ
separator [] = 0
separator (t ∷ ts) = 1

abbrev pub is_empty : List Text → Bool
is_empty [] = true
is_empty (t ∷ ts) = false

-- The sum over `usize` wraps.
total_chars : List Text → ℕ
total_chars [] = 0
total_chars (t ∷ ts) = (saturating_add (length t) 1 + total_chars ts) % 18446744073709551616

unfoldable pub target_lines : List Text → ℕ → ℕ
target_lines originals process_count =
    clamp (div_ceil (length originals) process_count) 1 eztrans_batch_max_lines

unfoldable pub target_chars : List Text → ℕ → ℕ
unfolding total_chars
target_chars originals process_count =
    clamp (div_ceil (total_chars originals) process_count) 1 eztrans_batch_max_chars

-- The variables of the loop.
pub record Batching : Type 0 where
  pub batches : List (List Text)
  pub current : List Text
  pub current_chars : ℕ

unfoldable pub exceeds_target : ℕ → ℕ → Batching → Text → Bool
exceeds_target max_lines max_chars b original =
    let chars =
      saturating_add (saturating_add b.current_chars (separator b.current)) (length original) in
    not (is_empty b.current)
    && (leb max_lines (length b.current)
        || (ltb max_chars chars
            || (leb eztrans_batch_max_lines (length b.current)
                || ltb eztrans_batch_max_chars chars)))

flush : Bool → Batching → Batching
flush true b = record { batches = b.batches ++ b.current ∷ []; current = []; current_chars = 0 }
flush false b = b

add_line : Text → Batching → Batching
add_line original b = record {
  batches = b.batches;
  current = b.current ++ original ∷ [];
  current_chars =
      saturating_add (saturating_add b.current_chars (separator b.current)) (length original);
}

-- One round of the loop.
unfoldable pub batch_step : ℕ → ℕ → Batching → Text → Batching
unfolding flush add_line
batch_step max_lines max_chars b original =
    add_line original (flush (exceeds_target max_lines max_chars b original) b)

unfoldable pub batch_loop : ℕ → ℕ → Batching → List Text → Batching
batch_loop max_lines max_chars b [] = b
batch_loop max_lines max_chars b (o ∷ os) =
    batch_loop max_lines max_chars (batch_step max_lines max_chars b o) os

unfoldable pub finish : Batching → List (List Text)
finish b = if is_empty b.current then b.batches else b.batches ++ b.current ∷ []

abbrev pub start : Batching
start = record { batches = []; current = []; current_chars = 0 }

unfoldable pub partition_eztrans_batches : List Text → ℕ → List (List Text)
partition_eztrans_batches originals process_count =
    let count = max process_count 1 in
    if is_empty originals
    then []
    else finish
        (batch_loop (target_lines originals count) (target_chars originals count) start originals)
