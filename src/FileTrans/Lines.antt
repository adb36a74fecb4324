-- ===== src/FileTrans/Lines.antt =====
-- src/file_trans/input.rs and output.rs: the lines of an input and what is written for one. A string
-- is its bytes, and an error has no message.
pub mod Kept
pub mod Whole
mod Tests
use anemone_rs.Base.{
  ℕ, zero, suc, ◌+◌, ◌-◌, ◌*◌, Bool, true, false, ◌&&◌, Option, none, some, List, [], ◌∷◌, ◌++◌,
  ◌≡◌, ◌⊎◌, inl, inr, refl, ltb, leb, ◌==◌, if◌then◌else◌, length, take, drop, text_eq, is_empty,
  saturating_add, is_utf8,
}

pub data FileTranslationError : Type 0 where
  cancelled invalid_request path input encoding output runtime backend line_too_long
        too_many_lines :
      FileTranslationError

pub data LineEnding : Type 0 where
  no_ending : LineEnding
  lf : LineEnding
  crlf : LineEnding

unfoldable pub bytes : LineEnding → List ℕ
bytes no_ending = []
bytes lf = 10 ∷ []
bytes crlf = 13 ∷ 10 ∷ []

unfoldable pub separator : LineEnding → List ℕ
separator crlf = 13 ∷ 10 ∷ []
separator no_ending = 10 ∷ []
separator lf = 10 ∷ []

pub record InputLine : Type 0 where
  pub text : List ℕ
  pub ending : LineEnding

-- What `fill_buf` gives, call after call: a chunk, an empty one at the end, or an error.
abbrev pub Reader : Type 0
Reader = List (Option (List ℕ))

-- What is left of a chunk that is consumed in part.
unfoldable pub put_back : List ℕ → Reader → Reader
put_back [] reader = reader
put_back (b ∷ chunk) reader = some (b ∷ chunk) ∷ reader

abbrev pub max_line_bytes : ℕ
max_line_bytes = 8388608

-- The bytes up to the first line feed, which is one of them, or all.
unfoldable pub line_len : List ℕ → ℕ
line_len [] = 0
line_len (b ∷ chunk) = let rest = line_len chunk in if b == 10 then 1 else suc rest

unfoldable pub ends_with : List ℕ → List ℕ → Bool
ends_with xs suffix =
    leb (length suffix) (length xs) && text_eq (drop (length xs - length suffix) xs) suffix

unfoldable pub starts_with : List ℕ → List ℕ → Bool
starts_with xs prefix = text_eq (take (length prefix) xs) prefix

-- The loop of `read_input_line`, with the bytes of the line so far.
unfoldable pub read_line : List ℕ → Reader → FileTranslationError ⊎ (List ℕ × Reader)
read_line line [] = inr (line, [])
read_line line (none ∷ reader) = inl input
read_line line (some [] ∷ reader) = inr (line, some [] ∷ reader)
read_line line (some (b ∷ chunk) ∷ reader) =
    let taken = line_len (b ∷ chunk) in
    let longer = line ++ take taken (b ∷ chunk) in
    let more = read_line longer reader in
    if ltb max_line_bytes (saturating_add (length line) taken)
    then inl line_too_long
    else if ends_with (take taken (b ∷ chunk)) (10 ∷ [])
    then inr (longer, put_back (drop taken (b ∷ chunk)) reader)
    else more

unfoldable pub split_ending : List ℕ → List ℕ × LineEnding
split_ending line =
    if ends_with line (13 ∷ 10 ∷ [])
    then (take (length line - 2) line, crlf)
    else if ends_with line (10 ∷ [])
    then (take (length line - 1) line, lf)
    else (line, no_ending)

abbrev pub bom : List ℕ
bom = 239 ∷ 187 ∷ 191 ∷ []

abbrev pub has_no_ending : LineEnding → Bool
has_no_ending no_ending = true
has_no_ending lf = false
has_no_ending crlf = false

unfoldable pub without_bom : Bool → List ℕ → List ℕ
without_bom first_line text = if first_line && starts_with text bom then drop 3 text else text

-- What follows the loop.
unfoldable pub line_of : Bool → List ℕ → FileTranslationError ⊎ Option InputLine
line_of first_line line =
    if is_empty line
    then inr none
    else let body = without_bom first_line ((split_ending line).0) in
      let ending = (split_ending line).1 in
      if first_line && is_empty body && has_no_ending ending
      then inr none
      else if is_utf8 body
      then inr (some (record { text = body; ending = ending }))
      else inl encoding

abbrev pub with_reader :
    Reader
    → FileTranslationError ⊎ Option InputLine
    → FileTranslationError ⊎ (Option InputLine × Reader)
with_reader reader (inl e) = inl e
with_reader reader (inr line) = inr (line, reader)

abbrev pub line_from :
    Bool
    → FileTranslationError ⊎ (List ℕ × Reader)
    → FileTranslationError ⊎ (Option InputLine × Reader)
line_from first_line (inl e) = inl e
line_from first_line (inr r) = with_reader (r.1) (line_of first_line (r.0))

unfoldable pub read_input_line : Reader → Bool → FileTranslationError ⊎ (Option InputLine × Reader)
read_input_line reader first_line = line_from first_line (read_line [] reader)

pub data WriteType : Type 0 where
  translation_only : WriteType
  original_and_trans : WriteType
  original_trans_newline : WriteType

-- The bytes that a writer without errors gets.
unfoldable pub write_output : List ℕ → List ℕ → WriteType → LineEnding → Bool → List ℕ
write_output original translated translation_only ending has_more = translated ++ bytes ending
write_output original translated original_and_trans ending has_more =
    original ++ separator ending ++ translated ++ bytes ending
write_output original translated original_trans_newline ending has_more =
    original
    ++ separator ending
    ++ translated
    ++ (if has_more then separator ending ++ separator ending else bytes ending)

unfoldable pub detect_non_utf8_bom : List ℕ → Bool
detect_non_utf8_bom prefix =
    if starts_with prefix (0 ∷ 0 ∷ 254 ∷ 255 ∷ [])
    then true
    else if starts_with prefix (255 ∷ 254 ∷ 0 ∷ 0 ∷ [])
    then true
    else if starts_with prefix (254 ∷ 255 ∷ [])
    then true
    else starts_with prefix (255 ∷ 254 ∷ [])
