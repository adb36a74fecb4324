-- ===== src/FileTrans/Partition/Tests.antt =====
-- Runs of `partition_eztrans_batches`, and its theorems at a list of lines.
use mathlib.Core.List.{flatten}
use anemone_rs.Base.{◌≡◌, ◌≤◌, refl, List, [], ◌∷◌, Text}
use anemone_rs.FileTrans.Partition.{
  target_lines, target_chars, exceeds_target, batch_step, batch_loop, finish,
  partition_eztrans_batches,
}
use anemone_rs.FileTrans.Partition.Laws

program : Unit {0}
unfolding target_lines target_chars exceeds_target batch_step batch_loop finish
    partition_eztrans_batches
program = tt

abbrev word : Text
word = b'a' ∷ b'b' ∷ []

abbrev lines : List Text
lines = word ∷ word ∷ word ∷ []

two_processes : partition_eztrans_batches lines 2 ≡ (word ∷ word ∷ []) ∷ (word ∷ []) ∷ []
unfolding program
two_processes = refl

flatten-partition_eztrans_batches_example : flatten (partition_eztrans_batches lines 2) ≡ lines
flatten-partition_eztrans_batches_example = Laws.flatten-partition_eztrans_batches lines 2

partition_eztrans_batches-AllSized_example :
    Laws.AllSized (target_lines lines 2) (target_chars lines 2) (partition_eztrans_batches lines 2)
    × (target_lines lines 2 ≤ 256)
    × (target_chars lines 2 ≤ 98304)
partition_eztrans_batches-AllSized_example = Laws.partition_eztrans_batches-AllSized lines 2
