-- ===== src/HookText/Clean.antt =====
-- What `normalize` of src/hook/text_bridge/decode.rs leaves of a text.
use anemone_rs.Base.{
  ℕ, ◌≡◌, refl, ap, sym, ◌∙◌, inl, inr, Bool, true, false, Bool-cases, [], ◌∷◌, ◌++◌, arith, ◌==◌,
  if◌then◌else◌, append-nil, append_assoc, Text,
}
use anemone_rs.HookText.{is_control, ends_with_newline, push_char, normalize_from, normalize}

-- The same without the text written so far: the flag says whether it ends in a line feed.
pub clean_from : Bool → Text → Text
unfolding is_control
clean_from b [] = []
clean_from b (c ∷ s) =
    if c == 10
    then (if b then clean_from true s else 10 ∷ clean_from true s)
    else (if is_control c then clean_from b s else c ∷ clean_from false s)

ends_with_newline-snoc : (out : Text) (c : ℕ) → ends_with_newline (out ++ c ∷ []) ≡ (c == 10)
unfolding ends_with_newline
ends_with_newline-snoc [] c = refl
ends_with_newline-snoc (d ∷ []) c = refl
ends_with_newline-snoc (d ∷ e ∷ s) c = ends_with_newline-snoc (e ∷ s) c

push_char-clean_from :
    (out : Text) (c : ℕ) (s : Text)
    → push_char out c ++ clean_from (ends_with_newline (push_char out c)) s
      ≡ out ++ clean_from (ends_with_newline out) (c ∷ s)
unfolding clean_from push_char is_control
push_char-clean_from out c s = ground (
  arith,
  ends_with_newline-snoc out c,
  ends_with_newline-snoc out 10,
  append_assoc out (c ∷ []) (clean_from false s),
  append_assoc out (10 ∷ []) (clean_from true s),
)

normalize_from-clean_from :
    (out s : Text) → normalize_from out s ≡ out ++ clean_from (ends_with_newline out) s
unfolding normalize_from clean_from
normalize_from-clean_from out [] = sym (append-nil out)
normalize_from-clean_from out (c ∷ s) =
    normalize_from-clean_from (push_char out c) s ∙ push_char-clean_from out c s

-- A text without control characters but the line feed, and without two line feeds in a row; the
-- flag says that it follows a line feed.
pub data IsClean : Bool → Text → Type 0 where
  ended : {b : Bool} → IsClean b []
  newline : {s : Text} → IsClean true s → IsClean false (10 ∷ s)
  shown : {b : Bool} {c : ℕ} {s : Text} → is_control c ≡ false → IsClean false s → IsClean b (c ∷ s)

clean_from-IsClean : (b : Bool) (s : Text) → IsClean b (clean_from b s)
unfolding clean_from
clean_from-IsClean b [] = IsClean.ended
clean_from-IsClean b (c ∷ s) = elim (Bool-cases (c == 10)) [
  | inr n ↦ elim (Bool-cases (is_control c)) [
    | inl k ↦ rw (n, k) (clean_from-IsClean b s)
    | inr k ↦ rw (n, k) (IsClean.shown k (clean_from-IsClean false s))
  ]
  | inl e ↦ elim (Bool-cases b) [
    | inl t ↦ rw (e, t) (clean_from-IsClean true s)
    | inr f ↦ rw (e, f) (IsClean.newline (clean_from-IsClean true s))
  ]
]

clean_from-clean : {b : Bool} {s : Text} → IsClean b s → clean_from b s ≡ s
unfolding clean_from is_control
clean_from-clean IsClean.ended = refl
clean_from-clean (IsClean.newline h) = ap (◌∷◌ 10) (clean_from-clean h)
clean_from-clean (IsClean.shown e h) = ground (arith, e, clean_from-clean h)

normalize-clean_from : (s : Text) → normalize s ≡ clean_from false s
unfolding normalize ends_with_newline
normalize-clean_from s = normalize_from-clean_from [] s

-- A normalised text has no control character but the line feed and no two line feeds in a row, and
-- normalising it again changes nothing.
pub normalize-IsClean :
    (s : Text) → IsClean false (normalize s) × (normalize (normalize s) ≡ normalize s)
normalize-IsClean s =
    let clean : IsClean false (normalize s) =
      rw (normalize-clean_from s) (clean_from-IsClean false s) in
    (clean, normalize-clean_from (normalize s) ∙ clean_from-clean clean)
