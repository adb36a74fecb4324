-- ===== src/FileTrans/Count/Tests.antt =====
-- Runs of the pass of src/file_trans/input.rs, and the theorem at a character that two chunks share.
use anemone_rs.Base.{
  ◌≡◌, ◌++◌, refl, inl, inr, [], ◌∷◌, map, is_utf8, from_utf8, utf8_scan, utf8_next, utf8_begin,
  text_eq,
}
use anemone_rs.FileTrans.Lines.{encoding, starts_with}
use anemone_rs.FileTrans.Count.{
  chunk, strip_bom, left_over, last_is_newline, take_chunk, finish, count_from,
  validate_and_count_reader,
}
use anemone_rs.FileTrans.Count.Checked
use anemone_rs.FileTrans.Count.Checked.{accepts, concat, none_is_empty}

program : Unit {0}
unfolding validate_and_count_reader count_from take_chunk finish left_over last_is_newline strip_bom
    starts_with from_utf8 utf8_scan utf8_next utf8_begin text_eq
program = tt

-- A mark of the encoding, a line, and a last line without a line feed.
count_run :
    validate_and_count_reader
      (chunk (239 ∷ 187 ∷ 191 ∷ b'a' ∷ 10 ∷ 227 ∷ []) ∷ chunk (129 ∷ 130 ∷ []) ∷ [])
    ≡ inr 2
unfolding program
count_run = refl

cut_run : validate_and_count_reader (chunk (b'a' ∷ 10 ∷ 227 ∷ 129 ∷ []) ∷ []) ≡ inl encoding
unfolding program
cut_run = refl

accepts-validate_and_count_reader_example :
    accepts (validate_and_count_reader (map chunk ((b'a' ∷ 10 ∷ 227 ∷ []) ∷ (129 ∷ 130 ∷ []) ∷ [])))
    ≡ is_utf8 (strip_bom (b'a' ∷ 10 ∷ 227 ∷ []) ++ concat ((129 ∷ 130 ∷ []) ∷ []))
unfolding none_is_empty
accepts-validate_and_count_reader_example =
    Checked.accepts-validate_and_count_reader b'a' (10 ∷ 227 ∷ []) ((129 ∷ 130 ∷ []) ∷ []) refl
