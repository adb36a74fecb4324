-- ===== src/FileTrans/Lines/Tests.antt =====
-- Runs of src/file_trans/input.rs, and the theorem at a file in two chunks.
use anemone_rs.Base.{
  true, false, none, some, [], ◌∷◌, ◌++◌, ◌≡◌, ◌⊎◌, inr, refl, is_utf8, utf8_check, utf8_next,
  utf8_begin, text_eq,
}
use anemone_rs.FileTrans.Lines.{
  crlf, Reader, InputLine, put_back, line_len, ends_with, starts_with, read_line, split_ending, bom,
  without_bom, line_of, read_input_line,
}
use anemone_rs.FileTrans.Lines.Whole
use anemone_rs.FileTrans.Lines.Whole.{IsLine}
use anemone_rs.FileTrans.Lines.Kept.{content, copied}

-- A mark of the encoding and a line that a carriage return in one chunk and a line feed in the next end.
abbrev file : Reader
file = some (239 ∷ 187 ∷ 191 ∷ b'a' ∷ 13 ∷ []) ∷ some (10 ∷ b'b' ∷ []) ∷ []

abbrev first : InputLine
first = record { text = b'a' ∷ []; ending = crlf }

read_input_line_run : read_input_line file true ≡ inr (some first, some (b'b' ∷ []) ∷ [])
unfolding read_input_line read_line line_len ends_with starts_with put_back split_ending without_bom
    line_of is_utf8 utf8_check utf8_next utf8_begin text_eq
read_input_line_run = refl

write_output-read_input_line_example :
    IsLine (some first) (some (b'b' ∷ []) ∷ [])
    × ((copied false (some first) ++ content (some (b'b' ∷ []) ∷ []) ≡ content file)
        ⊎ ((true ≡ true)
            × (bom ++ copied false (some first) ++ content (some (b'b' ∷ []) ∷ []) ≡ content file)))
write_output-read_input_line_example =
    Whole.write_output-read_input_line file (some (b'b' ∷ []) ∷ []) true false (some first)
      read_input_line_run

-- A mark of the encoding and nothing more has no line.
bom_run : read_input_line (some bom ∷ []) true ≡ inr (none, [])
unfolding read_input_line read_line line_len ends_with starts_with put_back split_ending without_bom
    line_of is_utf8 utf8_check utf8_next utf8_begin text_eq
bom_run = refl
