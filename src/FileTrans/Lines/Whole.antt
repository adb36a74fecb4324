-- ===== src/FileTrans/Lines/Whole.antt =====
-- src/file_trans/input.rs: what `read_input_line` reads is one line, and nothing only at the end.
use anemone_rs.Base.{
  ℕ, zero, suc, ◌+◌, ◌-◌, ◌≤◌, Bool, true, false, ◌&&◌, Option, none, some, List, [], ◌∷◌, ◌++◌,
  ◌≡◌, ◌⊎◌, inl, inr, refl, sym, ap, ◌∙◌, ltb, ◌==◌, if◌then◌else◌, length, take, drop, text_eq,
  is_empty, saturating_add, is_utf8, Bool-cases, arith, subst,
}
use anemone_rs.FileTrans.Lines.{
  FileTranslationError, encoding, line_too_long, LineEnding, no_ending, lf, crlf, bytes, InputLine,
  Reader, put_back, line_len, ends_with, starts_with, read_line, split_ending, bom, without_bom,
  line_of, read_input_line, max_line_bytes, has_no_ending,
}
use anemone_rs.FileTrans.Lines.Kept.{
  content, copied, ends_with_end, ends_with_cons, split_ending-bytes, copied-read_input_line,
}

-- The number of line feeds.
unfoldable pub line_feeds : List ℕ → ℕ
line_feeds [] = 0
line_feeds (b ∷ xs) = (if b == 10 then 1 else 0) + line_feeds xs

line_feeds-append : (xs ys : List ℕ) → line_feeds (xs ++ ys) ≡ line_feeds xs + line_feeds ys
unfolding line_feeds
line_feeds-append [] ys = omega arith
line_feeds-append (b ∷ xs) ys = omega (arith, line_feeds-append xs ys)

line_feeds-drop : (n : ℕ) (xs : List ℕ) → line_feeds xs ≡ 0 → line_feeds (drop n xs) ≡ 0
unfolding line_feeds
line_feeds-drop zero xs h = h
line_feeds-drop (suc n) [] h = h
line_feeds-drop (suc n) (b ∷ xs) h = line_feeds-drop n xs (omega (arith, h))

ends_with_line_feed : (xs : List ℕ) → ends_with xs (10 ∷ []) ≡ true → 1 ≤ line_feeds xs
unfolding line_feeds
ends_with_line_feed xs h =
    let start = take (length xs - 1) xs in
    omega (arith, ap line_feeds (ends_with_end xs (10 ∷ []) h), line_feeds-append start (10 ∷ []))

ends_with-append :
    (xs ys suffix : List ℕ) → ends_with ys suffix ≡ true → ends_with (xs ++ ys) suffix ≡ true
ends_with-append [] ys suffix h = h
ends_with-append (x ∷ xs) ys suffix h =
    ends_with_cons x (xs ++ ys) suffix (ends_with-append xs ys suffix h)

-- What is taken of a chunk ends with its only line feed, or has none and is all of it.
line_len_feeds :
    (chunk : List ℕ)
    → ((line_feeds (take (line_len chunk) chunk) ≡ 1)
        × (ends_with (take (line_len chunk) chunk) (10 ∷ []) ≡ true))
      ⊎ ((line_feeds (take (line_len chunk) chunk) ≡ 0) × (drop (line_len chunk) chunk ≡ []))
unfolding line_len line_feeds ends_with text_eq
line_len_feeds [] = inr (refl, refl)
line_len_feeds (b ∷ chunk) = elim (Bool-cases (b == 10)) [
  | inl newline ↦ inl (rw (newline) (rw (newline) refl, rw (newline) refl))
  | inr other ↦ elim (line_len_feeds chunk) [
    | inl (one, ended) ↦ inl (
        rw (other) (
          rw (other) (omega (arith, one)),
          ends_with_cons b (take (line_len chunk) chunk) (10 ∷ []) ended,
        ))
    | inr (none_there, whole) ↦ inr (rw (other) (rw (other) (omega (arith, none_there)), whole))
  ]
]

-- The bytes of a line: they end with their only line feed, or have none and are the last.
abbrev IsOneLine : List ℕ × Reader → Type 0
IsOneLine r =
    ((line_feeds (r.0) ≡ 1) × (ends_with (r.0) (10 ∷ []) ≡ true))
    ⊎ ((line_feeds (r.0) ≡ 0) × (content (r.1) ≡ []))

result_of : FileTranslationError ⊎ (List ℕ × Reader) → List ℕ × Reader → List ℕ × Reader
result_of (inl e) d = d
result_of (inr r) d = r

read_line-IsOneLine :
    (line : List ℕ) (reader : Reader) (r : List ℕ × Reader)
    → line_feeds line ≡ 0
    → read_line line reader ≡ inr r
    → IsOneLine r
unfolding read_line content result_of
read_line-IsOneLine line [] r free h =
    subst IsOneLine (ap (λ o. result_of o r) h) (inr (free, refl))
read_line-IsOneLine line (none ∷ reader) r free h = cc
read_line-IsOneLine line (some [] ∷ reader) r free h =
    subst IsOneLine (ap (λ o. result_of o r) h) (inr (free, refl))
read_line-IsOneLine line (some (b ∷ chunk) ∷ reader) r free h =
    let n = line_len (b ∷ chunk) in
    let head = take n (b ∷ chunk) in
    let longer = line ++ head in
    let sum = line_feeds-append line head in
    elim (Bool-cases (ltb max_line_bytes (saturating_add (length line) n))) [
      | inl over ↦
          let refused : read_line line (some (b ∷ chunk) ∷ reader) ≡ inl line_too_long =
            rw (over) refl in
          cc
      | inr within ↦ elim (Bool-cases (ends_with head (10 ∷ []))) [
        | inl newline ↦
            let found : read_line line (some (b ∷ chunk) ∷ reader)
                ≡ inr (longer, put_back (drop n (b ∷ chunk)) reader) =
              rw (within, newline) refl in
            let one : line_feeds head ≡ 1 = elim (line_len_feeds (b ∷ chunk)) [
              | inl (one, ended) ↦ one
              | inr (none_there, whole) ↦
                  absurd (omega (arith, none_there, ends_with_line_feed head newline))
            ] in
            subst IsOneLine (ap (λ o. result_of o r) (sym found ∙ h))
              (inl (omega (arith, sum, free, one), ends_with-append line head (10 ∷ []) newline))
        | inr other ↦
            let more : read_line line (some (b ∷ chunk) ∷ reader) ≡ read_line longer reader =
              rw (within, other) refl in
            let none_there : line_feeds head ≡ 0 = elim (line_len_feeds (b ∷ chunk)) [
              | inl (one, ended) ↦ cc
              | inr (none_there, whole) ↦ none_there
            ] in
            read_line-IsOneLine longer reader r (omega (arith, sum, free, none_there))
              (sym more ∙ h)
      ]
    ]

-- A line without an ending is the last.
abbrev pub AtEnd : LineEnding → Reader → Type 0
AtEnd no_ending rest = content rest ≡ []
AtEnd lf rest = Unit {0}
AtEnd crlf rest = Unit {0}

-- The text of a line has no line feed; and where there is no line, nothing is left.
abbrev pub IsLine : Option InputLine → Reader → Type 0
IsLine none rest = content rest ≡ []
IsLine (some line) rest = (line_feeds line.text ≡ 0) × AtEnd line.ending rest

ended_once :
    (e : LineEnding) (n : ℕ) (rest : Reader)
    → n + line_feeds (bytes e) ≡ 1
    → has_no_ending e ≡ false
    → (n ≡ 0) × AtEnd e rest
unfolding bytes line_feeds
ended_once no_ending n rest h k = cc
ended_once lf n rest h k = (omega (arith, h), tt)
ended_once crlf n rest h k = (omega (arith, h), tt)

last_AtEnd : (e : LineEnding) (rest : Reader) → content rest ≡ [] → AtEnd e rest
last_AtEnd no_ending rest h = h
last_AtEnd lf rest h = tt
last_AtEnd crlf rest h = tt

split_ending_has :
    (line : List ℕ)
    → ends_with line (10 ∷ []) ≡ true
    → has_no_ending ((split_ending line).1) ≡ false
unfolding split_ending
split_ending_has line h = elim (Bool-cases (ends_with line (13 ∷ 10 ∷ []))) [
  | inl k ↦ rw (k) refl
  | inr k ↦ rw (k, h) refl
]

split_ending-AtEnd :
    (line : List ℕ) (rest : Reader)
    → IsOneLine (line, rest)
    → (line_feeds ((split_ending line).0) ≡ 0) × AtEnd ((split_ending line).1) rest
split_ending-AtEnd line rest shape =
    let text = (split_ending line).0 in
    let e = (split_ending line).1 in
    let sum : line_feeds text + line_feeds (bytes e) ≡ line_feeds line =
      sym (line_feeds-append text (bytes e)) ∙ ap line_feeds (split_ending-bytes line) in
    elim shape [
      | inl (one, ended) ↦
          ended_once e (line_feeds text) rest (sum ∙ one) (split_ending_has line ended)
      | inr (none_there, last) ↦ (omega (arith, sum, none_there), last_AtEnd e rest last)
    ]

without_bom-free :
    (first_line : Bool) (text : List ℕ)
    → line_feeds text ≡ 0
    → line_feeds (without_bom first_line text) ≡ 0
unfolding without_bom
without_bom-free first_line text h = elim (Bool-cases (first_line && starts_with text bom)) [
  | inl marked ↦ rw (marked) (line_feeds-drop 3 text h)
  | inr plain ↦ rw (plain) h
]

none_AtEnd :
    (first_line : Bool) (body : List ℕ) (e : LineEnding) (rest : Reader)
    → (first_line && is_empty body && has_no_ending e) ≡ true
    → AtEnd e rest
    → content rest ≡ []
none_AtEnd first_line body no_ending rest h end = end
none_AtEnd first_line body lf rest h end = ground (arith, h)
none_AtEnd first_line body crlf rest h end = ground (arith, h)

line_value : FileTranslationError ⊎ Option InputLine → Option InputLine → Option InputLine
line_value (inl e) d = d
line_value (inr o) d = o

line_of-IsLine :
    (first_line : Bool) (line : List ℕ) (rest : Reader) (o : Option InputLine)
    → IsOneLine (line, rest)
    → line_of first_line line ≡ inr o
    → IsLine o rest
unfolding line_of line_value line_feeds
line_of-IsLine first_line [] rest o shape h =
    let last : content rest ≡ [] = elim shape [
      | inl (one, ended) ↦ absurd (omega (arith, one))
      | inr (none_there, last) ↦ last
    ] in
    subst (λ x. IsLine x rest) (ap (λ r. line_value r o) h) last
line_of-IsLine first_line (b ∷ line) rest o shape h =
    let text = (split_ending (b ∷ line)).0 in
    let e = (split_ending (b ∷ line)).1 in
    let body = without_bom first_line text in
    let (free, end) = split_ending-AtEnd (b ∷ line) rest shape in
    elim (Bool-cases (first_line && is_empty body && has_no_ending e)) [
      | inl empty ↦
          let found : line_of first_line (b ∷ line) ≡ inr none = rw (empty) refl in
          subst (λ x. IsLine x rest) (ap (λ r. line_value r o) (sym found ∙ h))
            (none_AtEnd first_line body e rest empty end)
      | inr shown ↦ elim (Bool-cases (is_utf8 body)) [
        | inl valid ↦
            let found : line_of first_line (b ∷ line)
                ≡ inr (some (record { text = body; ending = e })) =
              rw (shown, valid) refl in
            subst (λ x. IsLine x rest) (ap (λ r. line_value r o) (sym found ∙ h))
              (without_bom-free first_line text free, end)
        | inr broken ↦
            let refused : line_of first_line (b ∷ line) ≡ inl encoding = rw (shown, broken) refl in
            cc
      ]
    ]

-- However the input comes in chunks: a line that is read has no line feed in its text, and one without
-- an ending is the last; where no line is read, nothing is left. What is written for a line as its own
-- translation, or nothing where there is none, and what is left are the input, but for a mark of the
-- encoding before a first line.
pub write_output-read_input_line :
    (reader rest : Reader) (first_line has_more : Bool) (o : Option InputLine)
    → read_input_line reader first_line ≡ inr (o, rest)
    → IsLine o rest
      × ((copied has_more o ++ content rest ≡ content reader)
          ⊎ ((first_line ≡ true) × (bom ++ copied has_more o ++ content rest ≡ content reader)))
unfolding line_feeds
write_output-read_input_line reader rest first_line has_more o h =
    let (came, kept) = copied-read_input_line reader rest first_line has_more o h in
    let (line, read, shown) = came in
    (
      line_of-IsLine first_line line rest o (read_line-IsOneLine [] reader (line, rest) refl read)
          shown,
      kept,
    )
