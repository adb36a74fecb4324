-- ===== src/EztransPool/Dressed.antt =====
-- `split_eztrans_batch` against the replies of the helper, which puts spaces beside the line feeds of a
-- batch.
use anemone_rs.Base.{
  ℕ, suc, ◌≡◌, ◌≢◌, refl, ap, ap₂, ◌∙◌, Bool, true, false, none, some, List, [], ◌∷◌, ◌++◌, arith,
  ◌==◌, ◌&&◌, not, ◌⊎◌, inl, inr, append-nil, append_assoc, sym, Bool-cases, subst, if◌then◌else◌,
  length, map, Text, ==_refl,
}
use mathlib.Core.Option
use anemone_rs.EztransPool.{
  newline, join, strip_prefix, strip_suffix, strip_cr, trim_start, trim_end, trim_parts, strip_crs,
  split_eztrans_batch, has_more, starts_with_whitespace, ends_with_whitespace,
}
use anemone_rs.EztransPool.Split.{Free, AllFree, split-join, length-strip_crs}

-- A translation `q` of the line `o` that has a line of its own: no line feed, no carriage return at
-- its end, and no space at an end where the line has no white space.
pub record IsClean (o q : Text) : Type 0 where
  pub no_newline : Free newline q
  pub no_cr : strip_suffix 13 q ≡ none
  pub no_leading : (starts_with_whitespace o ≡ true) ⊎ (strip_prefix 32 q ≡ none)
  pub no_trailing : (ends_with_whitespace o ≡ true) ⊎ (strip_suffix 32 q ≡ none)

-- What may stand at an end of a part: nothing, or `c` where `allowed`.
abbrev pub AddedAs : ℕ → Bool → Text → Type 0
AddedAs c allowed added = (added ≡ []) ⊎ ((added ≡ c ∷ []) × (allowed ≡ true))

-- A part of a reply: the translation, with a space before it where a line feed comes before and the
-- line does not start with white space, one after it likewise, and a carriage return.
pub record IsDressed (after_first before_last : Bool) (o q p : Text) : Type 0 where
  pub lead : Text
  pub trail : Text
  pub cr : Text
  pub whole : p ≡ ((lead ++ q) ++ trail) ++ cr
  pub lead_added : AddedAs 32 (after_first && not (starts_with_whitespace o)) lead
  pub trail_added : AddedAs 32 (before_last && not (ends_with_whitespace o)) trail
  pub cr_added : AddedAs 13 true cr

abbrev pub AllDressed : (Text → Text) → Bool → List Text → List Text → Type 0
AllDressed f after_first [] [] = Unit {0}
AllDressed f after_first [] (p ∷ ps) = ⊥
AllDressed f after_first (o ∷ os) [] = ⊥
AllDressed f after_first (o ∷ os) (p ∷ ps) =
    IsDressed after_first (has_more os) o (f o) p × AllDressed f true os ps

abbrev pub AllClean : (Text → Text) → List Text → Type 0
AllClean f [] = Unit {0}
AllClean f (o ∷ os) = IsClean o (f o) × AllClean f os

has_more-strip_crs :
    (f : Text → Text) (os ps : List Text)
    → AllDressed f true os ps
    → has_more (strip_crs ps) ≡ has_more os
unfolding strip_crs
has_more-strip_crs f [] [] dressed = refl
has_more-strip_crs f [] (p ∷ ps) dressed = absurd dressed
has_more-strip_crs f (o ∷ os) [] dressed = absurd dressed
has_more-strip_crs f (o ∷ os) (p ∷ ps) dressed = refl

strip_space : (s : Text) → strip_prefix 32 (32 ∷ s) ≡ some s
unfolding strip_prefix
strip_space s = refl

strip_suffix_end : (x : ℕ) (s : Text) → strip_suffix x (s ++ x ∷ []) ≡ some s
unfolding strip_suffix
strip_suffix_end x [] = rw (==_refl x) refl
strip_suffix_end x (c ∷ []) = rw (==_refl x) refl
strip_suffix_end x (c ∷ d ∷ s) = ap (Option.map (◌∷◌ c)) (strip_suffix_end x (d ∷ s))

strip_suffix_other : (x y : ℕ) (s : Text) → (y == x) ≡ false → strip_suffix x (s ++ y ∷ []) ≡ none
unfolding strip_suffix
strip_suffix_other x y [] h = rw (h) refl
strip_suffix_other x y (c ∷ []) h = rw (h) refl
strip_suffix_other x y (c ∷ d ∷ s) h = ap (Option.map (◌∷◌ c)) (strip_suffix_other x y (d ∷ s) h)

strip_suffix-append :
    (x : ℕ) (p : Text) (c : ℕ) (q : Text)
    → strip_suffix x (c ∷ q) ≡ none
    → strip_suffix x (p ++ c ∷ q) ≡ none
unfolding strip_suffix
strip_suffix-append x [] c q h = h
strip_suffix-append x (a ∷ []) c q h = ap (Option.map (◌∷◌ a)) h
strip_suffix-append x (a ∷ b ∷ p) c q h =
    ap (Option.map (◌∷◌ a)) (strip_suffix-append x (b ∷ p) c q h)

lead_no_cr :
    (b : Bool) (lead q : Text)
    → strip_suffix 13 q ≡ none
    → AddedAs 32 b lead
    → strip_suffix 13 (lead ++ q) ≡ none
unfolding strip_suffix
lead_no_cr b lead [] h (inl e) = rw (e) refl
lead_no_cr b lead [] h (inr (e, ok)) = rw (e) refl
lead_no_cr b lead (c ∷ q) h added = strip_suffix-append 13 lead c q h

undressed-no_cr :
    (b m : Bool) (o q : Text) (lead trail : Text)
    → IsClean o q
    → AddedAs 32 b lead
    → AddedAs 32 m trail
    → strip_suffix 13 ((lead ++ q) ++ trail) ≡ none
unfolding strip_suffix
undressed-no_cr b m o q lead trail clean added (inr (e, ok)) =
    rw (e) (strip_suffix_other 13 32 (lead ++ q) refl)
undressed-no_cr b m o q lead trail clean added (inl e) =
    rw (e, append-nil (lead ++ q)) (lead_no_cr b lead q clean.no_cr added)

strip_cr-added :
    (x cr : Text) → strip_suffix 13 x ≡ none → AddedAs 13 true cr → strip_cr (x ++ cr) ≡ x
unfolding strip_cr
strip_cr-added x cr h (inl e) = rw (e, append-nil x, h) refl
strip_cr-added x cr h (inr (e, ok)) = rw (e, strip_suffix_end 13 x) refl

either : (b : Bool) (s : Text) → (if b then s else s) ≡ s
either true s = refl
either false s = refl

never : (b : Bool) (s t : Text) → (if b && false then s else t) ≡ t
never true s t = refl
never false s t = refl

other_prefix :
    (c : ℕ) (q rest : Text) → strip_prefix 32 (c ∷ q) ≡ none → strip_prefix 32 (c ∷ rest) ≡ none
unfolding strip_prefix
other_prefix c q rest h = elim (Bool-cases (c == 32)) [
  | inl space ↦ let found : strip_prefix 32 (c ∷ q) ≡ some q = rw (space) refl in cc
  | inr other ↦ rw (other) refl
]

trim_end-added :
    (m : Bool) (o q trail : Text)
    → (ends_with_whitespace o ≡ true) ⊎ (strip_suffix 32 q ≡ none)
    → AddedAs 32 (m && not (ends_with_whitespace o)) trail
    → trim_end m o (q ++ trail) ≡ q
unfolding trim_end
trim_end-added m o q trail clean (inr (e, ok)) = rw (e, ok, strip_suffix_end 32 q) refl
trim_end-added m o q trail (inl space) (inl e) = rw (e, append-nil q, space) (never m _ q)
trim_end-added m o q trail (inr plain) (inl e) = rw (e, append-nil q, plain) (either _ q)

trim_start-added :
    (b : Bool) (o lead : Text) (c : ℕ) (q rest : Text)
    → (starts_with_whitespace o ≡ true) ⊎ (strip_prefix 32 (c ∷ q) ≡ none)
    → AddedAs 32 (b && not (starts_with_whitespace o)) lead
    → trim_start b o (lead ++ (c ∷ rest)) ≡ c ∷ rest
unfolding trim_start
trim_start-added b o lead c q rest clean (inr (e, ok)) = rw (e, ok, strip_space (c ∷ rest)) refl
trim_start-added b o lead c q rest (inl space) (inl e) = rw (e, space) (never b _ (c ∷ rest))
trim_start-added b o lead c q rest (inr plain) (inl e) =
    rw (e, other_prefix c q rest plain) (either _ (c ∷ rest))

trim_end_nil : (m : Bool) (o : Text) → trim_end m o [] ≡ []
unfolding trim_end strip_suffix
trim_end_nil m o = either _ []

-- An empty translation with its spaces: the first test takes one of them, or there is none.
trim_nil :
    (b m : Bool) (o lead trail : Text)
    → AddedAs 32 (b && not (starts_with_whitespace o)) lead
    → AddedAs 32 (m && not (ends_with_whitespace o)) trail
    → trim_end m o (trim_start b o (lead ++ trail)) ≡ []
unfolding trim_start strip_prefix strip_suffix
trim_nil b m o lead trail (inr (e, ok)) end =
    rw (e, ok) (trim_end-added m o [] trail (inr refl) end)
trim_nil b m o lead trail (inl e) (inl f) =
    rw (e, f) (ap (trim_end m o) (either _ []) ∙ trim_end_nil m o)
trim_nil b m o lead trail (inl e) (inr (f, ok)) =
    elim (Bool-cases (b && not (starts_with_whitespace o))) [
      | inl test ↦ rw (e, f, test) (trim_end_nil m o)
      | inr test ↦ rw (e, f, test) (trim_end-added m o [] (32 ∷ []) (inr refl) (inr (refl, ok)))
    ]

trim-added :
    (b m : Bool) (o q lead trail : Text)
    → IsClean o q
    → AddedAs 32 (b && not (starts_with_whitespace o)) lead
    → AddedAs 32 (m && not (ends_with_whitespace o)) trail
    → trim_end m o (trim_start b o ((lead ++ q) ++ trail)) ≡ q
trim-added b m o [] lead trail clean start end =
    rw (append-nil lead) (trim_nil b m o lead trail start end)
trim-added b m o (c ∷ q) lead trail clean start end =
    rw
      (
        append_assoc lead (c ∷ q) trail,
        trim_start-added b o lead c q (q ++ trail) clean.no_leading start,
      )
      (trim_end-added m o (c ∷ q) trail clean.no_trailing end)

-- What the two loops make of the parts of a reply.
trim_parts-dressed :
    (f : Text → Text) (b : Bool) (os ps : List Text)
    → AllClean f os
    → AllDressed f b os ps
    → trim_parts b (strip_crs ps) os ≡ map f os
unfolding trim_parts strip_crs
trim_parts-dressed f b [] [] clean dressed = refl
trim_parts-dressed f b [] (p ∷ ps) clean dressed = absurd dressed
trim_parts-dressed f b (o ∷ os) [] clean dressed = absurd dressed
trim_parts-dressed f b (o ∷ os) (p ∷ ps) clean dressed =
    let d = dressed.0 in
    let body = (d.lead ++ f o) ++ d.trail in
    let no_cr = undressed-no_cr _ _ o (f o) d.lead d.trail clean.0 d.lead_added d.trail_added in
    let stripped : strip_cr p ≡ body =
      ap strip_cr d.whole ∙ strip_cr-added body d.cr no_cr d.cr_added in
    let more : has_more (strip_crs ps) ≡ has_more os = has_more-strip_crs f os ps dressed.1 in
    ap₂ ◌∷◌
      (ap (λ m. trim_end m o (trim_start b o (strip_cr p))) more
        ∙ ap (λ s. trim_end (has_more os) o (trim_start b o s)) stripped
        ∙ trim-added b (has_more os) o (f o) d.lead d.trail clean.0 d.lead_added d.trail_added)
      (trim_parts-dressed f true os ps clean.1 dressed.1)

length-dressed :
    (f : Text → Text) (b : Bool) (os ps : List Text) → AllDressed f b os ps → length ps ≡ length os
length-dressed f b [] [] dressed = refl
length-dressed f b [] (p ∷ ps) dressed = absurd dressed
length-dressed f b (o ∷ os) [] dressed = absurd dressed
length-dressed f b (o ∷ os) (p ∷ ps) dressed = ap suc (length-dressed f true os ps dressed.1)

Free-append : (x : ℕ) (s t : Text) → Free x s → Free x t → Free x (s ++ t)
Free-append x [] t a b = b
Free-append x (c ∷ s) t a b = (a.0, Free-append x s t a.1 b)

added-Free :
    (c : ℕ) (allowed : Bool) (s : Text) → c ≢ newline → AddedAs c allowed s → Free newline s
added-Free c allowed s ne (inl e) = subst (Free newline) (sym e) tt
added-Free c allowed s ne (inr (e, ok)) = subst (Free newline) (sym e) (ne, tt)

AllDressed-Free :
    (f : Text → Text) (b : Bool) (os ps : List Text)
    → AllClean f os
    → AllDressed f b os ps
    → AllFree newline ps
AllDressed-Free f b [] [] clean dressed = tt
AllDressed-Free f b [] (p ∷ ps) clean dressed = absurd dressed
AllDressed-Free f b (o ∷ os) [] clean dressed = absurd dressed
AllDressed-Free f b (o ∷ os) (p ∷ ps) clean dressed =
    let d = dressed.0 in
    let free_lead = added-Free 32 _ d.lead (λ e. absurd (omega (arith, e))) d.lead_added in
    let free_trail = added-Free 32 _ d.trail (λ e. absurd (omega (arith, e))) d.trail_added in
    let free_cr = added-Free 13 _ d.cr (λ e. absurd (omega (arith, e))) d.cr_added in
    (
      subst (Free newline) (sym d.whole) (
          Free-append newline ((d.lead ++ f o) ++ d.trail) d.cr
            (Free-append newline (d.lead ++ f o) d.trail
              (Free-append newline d.lead (f o) free_lead clean.0.no_newline) free_trail)
            free_cr),
      AllDressed-Free f true os ps clean.1 dressed.1,
    )

-- A reply whose parts are the translations with such spaces and carriage returns is accepted, and
-- gives the translations back.
pub split_eztrans_batch-join :
    (f : Text → Text) (o : Text) (os ps : List Text)
    → AllClean f (o ∷ os)
    → AllDressed f false (o ∷ os) ps
    → split_eztrans_batch (join ps) (o ∷ os) ≡ some (map f (o ∷ os))
unfolding split_eztrans_batch
split_eztrans_batch-join f o os [] clean dressed = absurd dressed
split_eztrans_batch-join f o os (p ∷ ps) clean dressed =
    let parts = split-join p ps (AllDressed-Free f false (o ∷ os) (p ∷ ps) clean dressed) in
    let size = length-strip_crs (p ∷ ps) ∙ length-dressed f false (o ∷ os) (p ∷ ps) dressed in
    rw
      (
        parts,
        size,
        ==_refl (length (o ∷ os)),
        trim_parts-dressed f false (o ∷ os) (p ∷ ps) clean dressed,
      )
      refl
