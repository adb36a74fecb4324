-- ===== src/FileTrans/Window/Tests.antt =====
-- Runs of `translate_eztrans_window` over an unbounded cache and a pool that marks each line, and
-- the theorems at them.
use mathlib.Core.List.{flatten}
use anemone_rs.Base.{
  ◌≡◌, refl, ◌⊎◌, inl, inr, false, Option, none, some, List, [], ◌∷◌, map, arith, Text, text_eq,
  text_eq→eq, Bool-cases, if◌then◌else◌,
}
use anemone_rs.FileTrans.Partition.{
  target_lines, target_chars, exceeds_target, batch_step, batch_loop, finish,
  partition_eztrans_batches,
}
use anemone_rs.FileTrans.Window.{
  Services, BatchResult, ok, err, done, failed, backend, should_translate_line, lookup,
  fill_untranslated, merge, classify, scan, insert_all, translate_eztrans_window,
}
use anemone_rs.FileTrans.Window.Exact
use anemone_rs.FileTrans.Window.Exact.{Exact}
use anemone_rs.FileTrans.Window.Scan.{Coherent}

program : Unit {0}
unfolding text_eq flatten target_lines target_chars exceeds_target batch_step batch_loop finish
    partition_eztrans_batches should_translate_line lookup fill_untranslated merge classify scan
    insert_all translate_eztrans_window
program = tt

abbrev find : List (Text × Text) → Text → Option Text
find [] q = none
find ((k, v) ∷ m) q = if text_eq q k then some v else find m q

find-cons :
    (c : List (Text × Text)) (k v q w : Text)
    → find ((k, v) ∷ c) q ≡ some w
    → ((q ≡ k) × (w ≡ v)) ⊎ (find c q ≡ some w)
find-cons c k v q w h = elim (Bool-cases (text_eq q k)) [
  | inl same ↦ inl (text_eq→eq q k same, ground arith)
  | inr other ↦ inr (ground arith)
]

abbrev mark : Text → Text
mark s = b'k' ∷ s

abbrev over : ((bs : List (List Text)) → BatchResult) → Services
over translate = record {
  Cache = List (Text × Text);
  get = find;
  insert = λ c k v. (k, v) ∷ c;
  get_insert = find-cons;
  process_count = 2;
  translate_batches = translate;
  postprocess = λ s. s;
}

abbrev marking : Services
marking = over λ bs. ok (map (map mark) bs)

abbrev failing : Services
failing = over λ bs. err (b'x' ∷ [])

abbrev a : Text
a = b'a' ∷ []

abbrev lines : List Text
lines = a ∷ [] ∷ (b'b' ∷ []) ∷ a ∷ []

-- The repeated line is translated once.
window_run : translate_eztrans_window marking [] lines false ≡ (
  ((b'b' ∷ [], b'k' ∷ b'b' ∷ []) ∷ (a, b'k' ∷ a) ∷ []),
  done ((b'k' ∷ a) ∷ [] ∷ (b'k' ∷ b'b' ∷ []) ∷ (b'k' ∷ a) ∷ []),
)
unfolding program
window_run = refl

failing_run : (translate_eztrans_window failing [] lines false).1 ≡ failed (backend (b'x' ∷ []))
unfolding program
failing_run = refl

empty_Coherent : Coherent marking mark false []
empty_Coherent q w h = cc

translate_eztrans_window-Exact_example :
    Exact marking mark false (translate_eztrans_window marking [] lines false) lines
translate_eztrans_window-Exact_example =
    Exact.translate_eztrans_window-Exact marking mark false [] lines (λ bs. refl) empty_Coherent
