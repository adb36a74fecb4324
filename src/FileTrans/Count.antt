-- ===== src/FileTrans/Count.antt =====
-- src/file_trans/input.rs: the pass that checks the encoding of an input and counts its lines.
pub mod Checked
mod Tests
use anemone_rs.Base.{
  ℕ, ◌+◌, Bool, true, false, not, ◌&&◌, ◌⊎◌, inl, inr, List, [], ◌∷◌, ◌++◌, ltb, ◌==◌,
  if◌then◌else◌, length, filter, drop, saturating_add, Utf8Result, valid, incomplete, invalid,
  from_utf8,
}
use anemone_rs.FileTrans.Lines.{
  FileTranslationError, cancelled, input, encoding, starts_with, bom, ends_with,
}

-- A turn of the loop: the token is set, the read fails, or it gives bytes, of which none is the end.
pub data Turn : Type 0 where
  stopped : Turn
  failed : Turn
  chunk : List ℕ → Turn

pub record CountState : Type 0 where
  pub pending : List ℕ
  pub total_body_bytes : ℕ
  pub newline_count : ℕ
  pub last_was_newline : Bool

unfoldable pub strip_bom : List ℕ → List ℕ
strip_bom bytes = if starts_with bytes bom then drop 3 bytes else bytes

-- What is left to check after the bytes that are pending and a chunk; `none` is not UTF-8.
unfoldable pub left_over : Utf8Result → FileTranslationError ⊎ List ℕ
left_over valid = inr []
left_over (incomplete tail) = inr tail
left_over invalid = inl encoding

unfoldable pub last_is_newline : List ℕ → Bool → Bool
last_is_newline [] before = before
last_is_newline (b ∷ bytes) before = last_is_newline bytes (b == 10)

unfoldable pub take_chunk : CountState → List ℕ → FileTranslationError ⊎ CountState
take_chunk s bytes = elim (left_over (from_utf8 (s.pending ++ bytes))) [
  | inl e ↦ inl e
  | inr pending ↦ inr (record {
    pending = pending;
    total_body_bytes = saturating_add s.total_body_bytes (length bytes);
    newline_count = saturating_add s.newline_count (length (filter (λ b. b == 10) bytes));
    last_was_newline = last_is_newline bytes s.last_was_newline;
  })
]

unfoldable pub finish : CountState → FileTranslationError ⊎ ℕ
finish s =
    if ltb 0 (length s.pending)
    then inl encoding
    else inr
        (s.newline_count + (if ltb 0 s.total_body_bytes && not s.last_was_newline then 1 else 0))

-- The loop, with whether its chunk is the first.
unfoldable pub count_from : Bool → CountState → List Turn → FileTranslationError ⊎ ℕ
count_from first_chunk s [] = finish s
count_from first_chunk s (stopped ∷ turns) = inl cancelled
count_from first_chunk s (failed ∷ turns) = inl input
count_from first_chunk s (chunk [] ∷ turns) = finish s
count_from first_chunk s (chunk (b ∷ bytes) ∷ turns) =
    elim (take_chunk s (if first_chunk then strip_bom (b ∷ bytes) else b ∷ bytes)) [
      | inl e ↦ inl e
      | inr s' ↦ count_from false s' turns
    ]

unfoldable pub validate_and_count_reader : List Turn → FileTranslationError ⊎ ℕ
validate_and_count_reader turns =
    count_from true
      (record { pending = []; total_body_bytes = 0; newline_count = 0; last_was_newline = false })
      turns
