-- ===== src/FileTrans/Count/Checked.antt =====
-- src/file_trans/input.rs: the pass over an input accepts what is UTF-8 as a whole, however it comes
-- in chunks.
use anemone_rs.Base.{
  ℕ, Bool, true, false, none, ◌⊎◌, inl, inr, List, [], ◌∷◌, ◌++◌, ◌≡◌, refl, sym, ap, ◌∙◌, ltb,
  append_assoc, append-nil, if◌then◌else◌, arith, Sum-cases, length, map, ◌>>=◌, Utf8Result, valid,
  incomplete, invalid, from_utf8, utf8_check, utf8_check-append, idle, ended, is_utf8, scanned,
  scanned-from_utf8, is_valid, is_valid-from_utf8, not,
}
use anemone_rs.FileTrans.Lines.{FileTranslationError, encoding}
use anemone_rs.FileTrans.Count.{
  Turn, chunk, CountState, strip_bom, left_over, take_chunk, finish, count_from,
  validate_and_count_reader,
}

-- The pass has no error.
unfoldable pub accepts : FileTranslationError ⊎ ℕ → Bool
accepts (inl e) = false
accepts (inr n) = true

unfoldable pub concat : List (List ℕ) → List ℕ
concat [] = []
concat (bytes ∷ chunks) = bytes ++ concat chunks

-- Chunks that have bytes.
unfoldable pub none_is_empty : List (List ℕ) → Bool
none_is_empty [] = true
none_is_empty ([] ∷ chunks) = false
none_is_empty ((b ∷ bytes) ∷ chunks) = none_is_empty chunks

left_value : FileTranslationError ⊎ List ℕ → List ℕ → List ℕ
left_value (inl e) d = d
left_value (inr bytes) d = bytes

left_over_cases :
    (r : Utf8Result) (pending : List ℕ)
    → left_over r ≡ inr pending
    → (utf8_check idle pending ≡ scanned r) × ((pending ≡ []) ⊎ (is_valid r ≡ false))
unfolding left_over scanned is_valid left_value utf8_check
left_over_cases valid pending h =
    let none_left : pending ≡ [] = ap (λ o. left_value o pending) (sym h) in
    (ap (utf8_check idle) none_left, inl none_left)
left_over_cases (incomplete tail) pending h =
    (ap (λ o. utf8_check idle (left_value o pending)) (sym h), inr refl)
left_over_cases invalid pending h = cc

left_over_refused :
    (r : Utf8Result) (e : FileTranslationError) → left_over r ≡ inl e → scanned r ≡ none
unfolding left_over scanned
left_over_refused valid e h = cc
left_over_refused (incomplete tail) e h = cc
left_over_refused invalid e h = refl

-- Bytes are pending just when they are the start of a character.
unfoldable settled : List ℕ → Bool
settled [] = true
settled (b ∷ bytes) = not (ended (utf8_check idle (b ∷ bytes)))

settled_not_ended : (bytes : List ℕ) → ended (utf8_check idle bytes) ≡ false → settled bytes ≡ true
unfolding settled
settled_not_ended [] h = refl
settled_not_ended (b ∷ bytes) h = ap not h

refuted : (b : Bool) → not b ≡ true → false ≡ b
refuted true h = cc
refuted false h = refl

accepts_pending :
    (pending : List ℕ) (n : ℕ)
    → settled pending ≡ true
    → accepts (if ltb 0 (length pending) then inl encoding else inr n)
      ≡ ended (utf8_check idle pending)
unfolding accepts settled utf8_check
accepts_pending [] n h = refl
accepts_pending (b ∷ bytes) n h =
    let some_left : ltb 0 (length (b ∷ bytes)) ≡ true = ground arith in rw (some_left) (refuted _ h)

accepts-finish :
    (s : CountState)
    → settled s.pending ≡ true
    → accepts (finish s) ≡ ended (utf8_check idle s.pending)
unfolding finish
accepts-finish s h = accepts_pending s.pending _ h

left_over-from_utf8 :
    (bytes pending : List ℕ)
    → left_over (from_utf8 bytes) ≡ inr pending
    → (utf8_check idle pending ≡ utf8_check idle bytes) × (settled pending ≡ true)
unfolding settled
left_over-from_utf8 bytes pending h =
    let (same, rest) = left_over_cases (from_utf8 bytes) pending h in
    let check = same ∙ scanned-from_utf8 bytes in
    (
      check,
      elim rest [
        | inl none_left ↦ ap settled none_left
        | inr cut ↦
            settled_not_ended pending (ap ended check ∙ sym (is_valid-from_utf8 bytes) ∙ cut)
      ],
    )

check_more :
    (xs ys more : List ℕ)
    → utf8_check idle xs ≡ utf8_check idle ys
    → utf8_check idle (xs ++ more) ≡ utf8_check idle (ys ++ more)
check_more xs ys more h =
    utf8_check-append idle xs more
    ∙ ap (λ o. o >>= (λ next. utf8_check next more)) h
    ∙ sym (utf8_check-append idle ys more)

accepts_step : FileTranslationError ⊎ CountState → List Turn → Bool
accepts_step (inl e) turns = false
accepts_step (inr s) turns = accepts (count_from false s turns)

-- A chunk is taken, and the rest is as good as the bytes that are pending with it.
accepts-chunk :
    (s : CountState) (bytes : List ℕ) (rest : List (List ℕ))
    → ((s' : CountState)
        → settled s'.pending ≡ true
        → accepts_step (inr s') (map chunk rest)
          ≡ ended (utf8_check idle (s'.pending ++ concat rest)))
    → accepts_step (take_chunk s bytes) (map chunk rest)
      ≡ ended (utf8_check idle (s.pending ++ bytes ++ concat rest))
unfolding take_chunk accepts_step
accepts-chunk s bytes rest more = elim (Sum-cases (left_over (from_utf8 (s.pending ++ bytes)))) [
  | inl (e, refused) ↦
      let whole : utf8_check idle (s.pending ++ bytes ++ concat rest) ≡ none =
        utf8_check-append idle (s.pending ++ bytes) (concat rest)
        ∙ ap (λ o. o >>= (λ next. utf8_check next (concat rest)))
            (sym (scanned-from_utf8 (s.pending ++ bytes))
              ∙ left_over_refused (from_utf8 (s.pending ++ bytes)) e refused) in
      rw (take_chunk, refused) (sym (ap ended whole))
  | inr (pending, kept) ↦
      let (same, settled_now) = left_over-from_utf8 (s.pending ++ bytes) pending kept in
      rw (take_chunk, kept)
        (more _ settled_now ∙ ap ended (check_more pending (s.pending ++ bytes) (concat rest) same))
]

accepts_step_form :
    (o : FileTranslationError ⊎ CountState) (turns : List Turn)
    → accepts (elim o [ inl e ↦ inl e | inr s' ↦ count_from false s' turns ]) ≡ accepts_step o turns
unfolding accepts accepts_step
accepts_step_form (inl e) turns = refl
accepts_step_form (inr s) turns = refl

accepts-count_from :
    (s : CountState) (chunks : List (List ℕ))
    → none_is_empty chunks ≡ true
    → settled s.pending ≡ true
    → accepts (count_from false s (map chunk chunks))
      ≡ ended (utf8_check idle (s.pending ++ concat chunks))
unfolding count_from concat none_is_empty accepts_step accepts
accepts-count_from s [] full h =
    accepts-finish s h ∙ ap (λ xs. ended (utf8_check idle xs)) (sym (append-nil s.pending))
accepts-count_from s ([] ∷ chunks) full h = cc
accepts-count_from s ((b ∷ bytes) ∷ chunks) full h =
    accepts_step_form (take_chunk s (b ∷ bytes)) (map chunk chunks)
    ∙ accepts-chunk s (b ∷ bytes) chunks
        (λ s' settled_now. accepts-count_from s' chunks (ground arith) settled_now)
    ∙ ap (λ xs. ended (utf8_check idle xs)) (append_assoc s.pending (b ∷ bytes) (concat chunks))

-- When no read fails and the token is not set, the pass over an input accepts it just when it is UTF-8
-- as a whole, without a mark of the encoding at the start of its first chunk, however it comes in chunks.
pub accepts-validate_and_count_reader :
    (b : ℕ) (bytes : List ℕ) (chunks : List (List ℕ))
    → none_is_empty chunks ≡ true
    → accepts (validate_and_count_reader (map chunk ((b ∷ bytes) ∷ chunks)))
      ≡ is_utf8 (strip_bom (b ∷ bytes) ++ concat chunks)
unfolding validate_and_count_reader count_from is_utf8 accepts_step accepts
accepts-validate_and_count_reader b bytes chunks full =
    let start : CountState = record {
      pending = [];
      total_body_bytes = 0;
      newline_count = 0;
      last_was_newline = false;
    } in
    accepts_step_form (take_chunk start (strip_bom (b ∷ bytes))) (map chunk chunks)
    ∙ accepts-chunk start (strip_bom (b ∷ bytes)) chunks
        (λ s' settled_now. accepts-count_from s' chunks full settled_now)
