-- ===== src/FileTrans/Lines/Kept.antt =====
-- src/file_trans/input.rs and output.rs: reading the lines of an input loses no byte of it, however
-- it comes in chunks.
use anemone_rs.Base.{
  ℕ, suc, ◌-◌, Bool, true, false, ◌&&◌, Option, none, some, List, [], ◌∷◌, ◌++◌, ◌≡◌, ◌⊎◌, inl, inr,
  refl, sym, ap, ap₂, ◌∙◌, ltb, leb, ◌==◌, Sum-cases, length, take, drop, text_eq, text_eq→eq,
  is_empty, saturating_add, is_utf8, Bool-cases, append_assoc, append-nil, take-append-drop, arith,
}
use anemone_rs.FileTrans.Lines.{
  FileTranslationError, encoding, line_too_long, LineEnding, no_ending, lf, crlf, bytes, InputLine,
  Reader, put_back, line_len, ends_with, starts_with, read_line, split_ending, bom, without_bom,
  line_of, read_input_line, max_line_bytes, translation_only, write_output, with_reader, line_from,
  has_no_ending,
}

-- The bytes that a reader still gives, of which an empty chunk is the end.
unfoldable pub content : Reader → List ℕ
content [] = []
content (none ∷ reader) = content reader
content (some [] ∷ reader) = []
content (some (b ∷ chunk) ∷ reader) = (b ∷ chunk) ++ content reader

content-put_back :
    (chunk : List ℕ) (reader : Reader) → content (put_back chunk reader) ≡ chunk ++ content reader
unfolding content put_back
content-put_back [] reader = refl
content-put_back (b ∷ chunk) reader = refl

pub ok_value : FileTranslationError ⊎ (List ℕ × Reader) → List ℕ → List ℕ
ok_value (inl e) d = d
ok_value (inr r) d = r.0 ++ content (r.1)

pub ends_with_end :
    (xs suffix : List ℕ)
    → ends_with xs suffix ≡ true
    → take (length xs - length suffix) xs ++ suffix ≡ xs
unfolding ends_with
ends_with_end xs suffix h =
    let same : drop (length xs - length suffix) xs ≡ suffix = text_eq→eq _ _ (ground arith) in
    ap (λ end. take (length xs - length suffix) xs ++ end) (sym same)
    ∙ take-append-drop (length xs - length suffix) xs

pub ends_with_cons :
    (x : ℕ) (xs suffix : List ℕ) → ends_with xs suffix ≡ true → ends_with (x ∷ xs) suffix ≡ true
unfolding ends_with
ends_with_cons x xs suffix h =
    let fits : leb (length suffix) (length xs) ≡ true = ground arith in
    let same : text_eq (drop (length xs - length suffix) xs) suffix ≡ true = ground arith in
    let longer : leb (length suffix) (length (x ∷ xs)) ≡ true = ground arith in
    let size : length (x ∷ xs) - length suffix ≡ suc (length xs - length suffix) = ground arith in
    rw (longer, size, same) refl

-- What is taken of a chunk is all of it or ends with a line feed.
pub all_or_newline :
    (chunk : List ℕ)
    → (drop (line_len chunk) chunk ≡ [])
      ⊎ (ends_with (take (line_len chunk) chunk) (10 ∷ []) ≡ true)
unfolding line_len ends_with text_eq
all_or_newline [] = inl refl
all_or_newline (b ∷ chunk) = elim (Bool-cases (b == 10)) [
  | inl newline ↦ inr (rw (newline) (rw (newline) refl))
  | inr other ↦ elim (all_or_newline chunk) [
    | inl whole ↦ inl (rw (other) whole)
    | inr ended ↦ inr (rw (other) (ends_with_cons b (take (line_len chunk) chunk) (10 ∷ []) ended))
  ]
]

pub whole_chunk :
    (chunk : List ℕ)
    → ends_with (take (line_len chunk) chunk) (10 ∷ []) ≡ false
    → drop (line_len chunk) chunk ≡ []
whole_chunk chunk h = elim (all_or_newline chunk) [ inl whole ↦ whole | inr newline ↦ cc ]

consumed :
    (line : List ℕ) (n : ℕ) (chunk rest : List ℕ)
    → line ++ take n chunk ++ (drop n chunk ++ rest) ≡ line ++ (chunk ++ rest)
consumed line n chunk rest =
    append_assoc line (take n chunk) (drop n chunk ++ rest)
    ∙ ap (λ xs. line ++ xs)
        (sym (append_assoc (take n chunk) (drop n chunk) rest)
          ∙ ap (λ xs. xs ++ rest) (take-append-drop n chunk))

read_line-content :
    (line : List ℕ) (reader : Reader) (r : List ℕ × Reader)
    → read_line line reader ≡ inr r
    → r.0 ++ content (r.1) ≡ line ++ content reader
unfolding read_line content ok_value
read_line-content line [] r h = ap (λ o. ok_value o []) (sym h)
read_line-content line (none ∷ reader) r h = cc
read_line-content line (some [] ∷ reader) r h = ap (λ o. ok_value o []) (sym h)
read_line-content line (some (b ∷ chunk) ∷ reader) r h =
    let n = line_len (b ∷ chunk) in
    let head = take n (b ∷ chunk) in
    let longer = line ++ head in
    elim (Bool-cases (ltb max_line_bytes (saturating_add (length line) n))) [
      | inl over ↦
          let refused : read_line line (some (b ∷ chunk) ∷ reader) ≡ inl line_too_long =
            rw (over) refl in
          cc
      | inr within ↦ elim (Bool-cases (ends_with head (10 ∷ []))) [
        | inl newline ↦
            let found : read_line line (some (b ∷ chunk) ∷ reader)
                ≡ inr (longer, put_back (drop n (b ∷ chunk)) reader) =
              rw (within, newline) refl in
            ap (λ o. ok_value o []) (sym h ∙ found)
            ∙ ap (λ rest. longer ++ rest) (content-put_back (drop n (b ∷ chunk)) reader)
            ∙ consumed line n (b ∷ chunk) (content reader)
        | inr other ↦
            let more : read_line line (some (b ∷ chunk) ∷ reader) ≡ read_line longer reader =
              rw (within, other) refl in
            read_line-content longer reader r (sym more ∙ h)
            ∙ ap (λ rest. longer ++ (rest ++ content reader)) (sym (whole_chunk (b ∷ chunk) other))
            ∙ consumed line n (b ∷ chunk) (content reader)
      ]
    ]

pub split_ending-bytes :
    (line : List ℕ) → (split_ending line).0 ++ bytes ((split_ending line).1) ≡ line
unfolding split_ending bytes
split_ending-bytes line = elim (Bool-cases (ends_with line (13 ∷ 10 ∷ []))) [
  | inl h ↦ rw (h) (ends_with_end line (13 ∷ 10 ∷ []) h)
  | inr h ↦ elim (Bool-cases (ends_with line (10 ∷ []))) [
    | inl k ↦ rw (h, k) (ends_with_end line (10 ∷ []) k)
    | inr k ↦ rw (h, k) (append-nil line)
  ]
]

-- What is written for a line that is its own translation; nothing at the end.
unfoldable pub copied : Bool → Option InputLine → List ℕ
copied has_more none = []
copied has_more (some line) = write_output line.text line.text translation_only line.ending has_more

without_bom-bytes :
    (first_line : Bool) (text : List ℕ)
    → (without_bom first_line text ≡ text)
      ⊎ ((first_line ≡ true) × (bom ++ without_bom first_line text ≡ text))
unfolding without_bom starts_with
without_bom-bytes false text = inl refl
without_bom-bytes true text = elim (Bool-cases (text_eq (take 3 text) bom)) [
  | inl marked ↦
      let same : take 3 text ≡ bom = text_eq→eq _ _ marked in
      inr (refl, rw (marked) (ap (λ xs. xs ++ drop 3 text) (sym same) ∙ take-append-drop 3 text))
  | inr plain ↦ inl (rw (plain) refl)
]

pub option_value : FileTranslationError ⊎ Option InputLine → Option InputLine
option_value (inl e) = none
option_value (inr o) = o

nothing_left :
    (first_line : Bool) (body : List ℕ) (e : LineEnding)
    → (first_line && is_empty body && has_no_ending e) ≡ true
    → body ++ bytes e ≡ []
unfolding bytes
nothing_left true [] no_ending h = refl
nothing_left true [] lf h = cc
nothing_left true [] crlf h = cc
nothing_left true (b ∷ body) e h = cc
nothing_left false body e h = cc

pub copied-line_of :
    (first_line has_more : Bool) (b : ℕ) (line : List ℕ) (o : Option InputLine)
    → line_of first_line (b ∷ line) ≡ inr o
    → copied has_more o
      ≡ without_bom first_line ((split_ending (b ∷ line)).0) ++ bytes ((split_ending (b ∷ line)).1)
unfolding line_of copied write_output option_value
copied-line_of first_line has_more b line o h =
    let body = without_bom first_line ((split_ending (b ∷ line)).0) in
    let ending = (split_ending (b ∷ line)).1 in
    elim (Bool-cases (first_line && is_empty body && has_no_ending ending)) [
      | inl empty ↦
          let found : line_of first_line (b ∷ line) ≡ inr none = rw (empty) refl in
          ap (λ r. copied has_more (option_value r)) (sym h ∙ found)
          ∙ sym (nothing_left first_line body ending empty)
      | inr shown ↦ elim (Bool-cases (is_utf8 body)) [
        | inl valid ↦
            let found : line_of first_line (b ∷ line)
                ≡ inr (some (record { text = body; ending = ending })) =
              rw (shown, valid) refl in
            ap (λ r. copied has_more (option_value r)) (sym h ∙ found)
        | inr broken ↦
            let refused : line_of first_line (b ∷ line) ≡ inl encoding = rw (shown, broken) refl in
            cc
      ]
    ]

line_of-bytes :
    (first_line has_more : Bool) (line : List ℕ) (o : Option InputLine)
    → line_of first_line line ≡ inr o
    → (copied has_more o ≡ line) ⊎ ((first_line ≡ true) × (bom ++ copied has_more o ≡ line))
unfolding line_of copied option_value
line_of-bytes first_line has_more [] o h = inl (ap (λ r. copied has_more (option_value r)) (sym h))
line_of-bytes first_line has_more (b ∷ line) o h =
    let text = (split_ending (b ∷ line)).0 in
    let end = bytes ((split_ending (b ∷ line)).1) in
    let shown = copied-line_of first_line has_more b line o h in
    let whole = split_ending-bytes (b ∷ line) in
    elim (without_bom-bytes first_line text) [
      | inl plain ↦ inl (shown ∙ ap (λ xs. xs ++ end) plain ∙ whole)
      | inr (first, marked) ↦ inr (
        first,
        ap (λ xs. bom ++ xs) shown
            ∙ sym (append_assoc bom (without_bom first_line text) end)
            ∙ ap (λ xs. xs ++ end) marked
            ∙ whole,
      )
    ]

result_or :
    Option InputLine × Reader
    → FileTranslationError ⊎ (Option InputLine × Reader)
    → Option InputLine × Reader
result_or d (inl e) = d
result_or d (inr r) = r

with_reader_some :
    (l : FileTranslationError ⊎ Option InputLine) (reader rest : Reader) (o : Option InputLine)
    → with_reader reader l ≡ inr (o, rest)
    → (l ≡ inr o) × (reader ≡ rest)
unfolding result_or
with_reader_some (inl e) reader rest o h = cc
with_reader_some (inr line) reader rest o h =
    let same : (line, reader) ≡ (o, rest) = ap (result_or (o, rest)) h in
    (ap (λ r. inr (r.0)) same, ap (λ r. r.1) same)

-- What is read, with the rest, is the input, but for the mark of the encoding; and the line was read by
-- the loop, which leaves the rest.
pub copied-read_input_line :
    (reader rest : Reader) (first_line has_more : Bool) (o : Option InputLine)
    → read_input_line reader first_line ≡ inr (o, rest)
    → ((line : List ℕ) × (read_line [] reader ≡ inr (line, rest))
        × (line_of first_line line ≡ inr o))
      × ((copied has_more o ++ content rest ≡ content reader)
          ⊎ ((first_line ≡ true) × (bom ++ copied has_more o ++ content rest ≡ content reader)))
unfolding read_input_line
copied-read_input_line reader rest first_line has_more o h =
    elim (Sum-cases (read_line [] reader)) [
      | inl (e, failed) ↦
          let refused : read_input_line reader first_line ≡ inl e =
            ap (line_from first_line) failed in
          cc
      | inr (r, came) ↦
          let read : with_reader (r.1) (line_of first_line (r.0)) ≡ inr (o, rest) =
            sym (ap (line_from first_line) came) ∙ h in
          let (line, same) = with_reader_some (line_of first_line (r.0)) (r.1) rest o read in
          let all = read_line-content [] reader r came in
          let left : content rest ≡ content (r.1) = ap content (sym same) in
          (
            (r.0, came ∙ ap (λ x. inr (r.0, x)) same, line),
            elim (line_of-bytes first_line has_more (r.0) o line) [
              | inl plain ↦ inl (ap₂ ◌++◌ plain left ∙ all)
              | inr (first, marked) ↦ inr (first, ap₂ ◌++◌ marked left ∙ all)
            ],
          )
    ]
