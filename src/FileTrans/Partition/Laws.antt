-- ===== src/FileTrans/Partition/Laws.antt =====
-- What the batches of src/file_trans/eztrans.rs hold, and how large they get.
use mathlib.Core.List.{flatten}
use anemone_rs.Base.{
  ℕ, ◌+◌, ◌<◌, ◌≤◌, ◌≡◌, refl, ap, sym, ◌∙◌, ◌⊎◌, inl, inr, Bool, true, false, List, [], ◌∷◌, ◌++◌,
  append_assoc, append-nil, length, length-append, arith, Text, min, max, usize_max, Bool-cases,
}
use anemone_rs.EztransPool.{join, newline}
use anemone_rs.FileTrans.Partition.{
  Batching, exceeds_target, flush, add_line, batch_step, batch_loop, finish, start,
  partition_eztrans_batches, target_lines, target_chars, eztrans_batch_max_lines,
  eztrans_batch_max_chars, separator,
}

flatten-append {ℓ} :
    {A : Type ℓ} (xs ys : List (List A)) → flatten (xs ++ ys) ≡ flatten xs ++ flatten ys
unfolding flatten
flatten-append [] ys = refl
flatten-append (x ∷ xs) ys = rw (flatten-append xs ys) (sym (append_assoc x _ _))

flatten-snoc : (xs : List (List Text)) (x : List Text) → flatten (xs ++ x ∷ []) ≡ flatten xs ++ x
unfolding flatten
flatten-snoc xs x = flatten-append xs (x ∷ []) ∙ ap (◌++◌ (flatten xs)) (append-nil x)

-- the lines taken so far, in order
taken : Batching → List Text
taken b = flatten b.batches ++ b.current

taken-step : (m c : ℕ) (b : Batching) (o : Text) → taken (batch_step m c b o) ≡ taken b ++ o ∷ []
unfolding taken batch_step
taken-step m c b o = elim (Bool-cases (exceeds_target m c b o)) [
  | inl e ↦ rw (e, flatten-snoc b.batches b.current) refl
  | inr e ↦ rw e (sym (append_assoc (flatten b.batches) b.current (o ∷ [])))
]

taken-loop : (m c : ℕ) (b : Batching) (os : List Text) → taken (batch_loop m c b os) ≡ taken b ++ os
unfolding batch_loop
taken-loop m c b [] = sym (append-nil (taken b))
taken-loop m c b (o ∷ os) =
    taken-loop m c (batch_step m c b o) os
    ∙ ap (λ l. l ++ os) (taken-step m c b o)
    ∙ append_assoc (taken b) (o ∷ []) os

flatten-finish :
    (bs : List (List Text)) (cur : List Text) (n : ℕ)
    → flatten (finish (record { batches = bs; current = cur; current_chars = n }))
      ≡ flatten bs ++ cur
unfolding finish
flatten-finish bs [] n = sym (append-nil (flatten bs))
flatten-finish bs (o ∷ os) n = flatten-snoc bs (o ∷ os)

-- The batches, joined again, are the lines in their order: none is lost, added or moved.
pub flatten-partition_eztrans_batches :
    (os : List Text) (n : ℕ) → flatten (partition_eztrans_batches os n) ≡ os
unfolding partition_eztrans_batches flatten taken
flatten-partition_eztrans_batches [] n = refl
flatten-partition_eztrans_batches (o ∷ os) n =
    flatten-finish _ _ _
    ∙ taken-loop (target_lines (o ∷ os) (max n 1)) (target_chars (o ∷ os) (max n 1)) start (o ∷ os)

length-join-snoc :
    (l : List Text) (o : Text)
    → length (join (l ++ o ∷ [])) ≡ length (join l) + separator l + length o
unfolding join
length-join-snoc [] o = omega arith
length-join-snoc (p ∷ []) o = omega (arith, length-append p (newline ∷ o))
length-join-snoc (p ∷ q ∷ l) o = omega (
  arith,
  length-append p (newline ∷ join (q ∷ l)),
  length-append p (newline ∷ join (q ∷ l ++ o ∷ [])),
  length-join-snoc (q ∷ l) o,
)

-- A batch has a line, at most `m` of them, and no more than `c` characters once its lines are
-- joined, unless it is a single line.
abbrev pub Fits : ℕ → ℕ → List Text → Type 0
Fits m c l = (length l ≤ m) × ((length (join l) ≤ c) ⊎ (length l ≤ 1))

abbrev pub AllSized : ℕ → ℕ → List (List Text) → Type 0
AllSized m c [] = Unit {0}
AllSized m c (l ∷ ls) = (1 ≤ length l) × Fits m c l × AllSized m c ls

AllSized-snoc :
    (m c : ℕ) (ls : List (List Text)) (l : List Text)
    → AllSized m c ls
    → 1 ≤ length l
    → Fits m c l
    → AllSized m c (ls ++ l ∷ [])
AllSized-snoc m c [] l a h f = (h, f, tt)
AllSized-snoc m c (x ∷ ls) l a h f = (a.0, a.1, AllSized-snoc m c ls l a.2 h f)

record IsBatching (m c : ℕ) (b : Batching) : Type 0 where
  sized : AllSized m c b.batches
  fits : Fits m c b.current
  chars : b.current_chars ≡ min (length (join b.current)) usize_max

module _ (m c : ℕ) (m_pos : 1 ≤ m) (m_le : m ≤ eztrans_batch_max_lines)
    (c_le : c ≤ eztrans_batch_max_chars) where
  flush-IsBatching :
      (b : Batching) (e : Bool)
      → (e ≡ true → 1 ≤ length b.current)
      → IsBatching m c b
      → IsBatching m c (flush e b)
  unfolding flush join
  flush-IsBatching b true full v = record {
    sized = AllSized-snoc m c b.batches b.current v.sized (full refl) v.fits;
    fits = (omega arith, inr (omega arith));
    chars = refl;
  }
  flush-IsBatching b false full v = v

  -- There is room for a line: in an empty batch, or within both limits.
  abbrev Room : Batching → Text → Type 0
  Room b o =
      (length b.current < m)
      × ((length b.current ≡ 0)
          ⊎ (min (min (b.current_chars + separator b.current) usize_max + length o) usize_max ≤ c))

  flush-Room :
      (b : Batching) (o : Text) → IsBatching m c b → Room (flush (exceeds_target m c b o) b) o
  unfolding flush exceeds_target
  flush-Room b o v = elim (Bool-cases (exceeds_target m c b o)) [
    | inl e ↦ rw (e, flush) (omega arith, inl refl)
    | inr e ↦ rw (e, flush) (room b.current (b.current_chars) e)
  ]
    where
      room :
          (cur : List Text) (n : ℕ)
          → exceeds_target m c (record { batches = b.batches; current = cur; current_chars = n }) o
            ≡ false
          → Room (record { batches = b.batches; current = cur; current_chars = n }) o
      room [] n e = (omega arith, inl refl)
      room (p ∷ ps) n e = ground arith

  exceeds-pos : (b : Batching) (o : Text) → exceeds_target m c b o ≡ true → 1 ≤ length b.current
  unfolding exceeds_target
  exceeds-pos b o e = pos b.current e
    where
      pos :
          (cur : List Text)
          → exceeds_target m c (record b { current = cur }) o ≡ true
          → 1 ≤ length cur
      pos [] e = cc
      pos (p ∷ ps) e = omega arith

  add_line-IsBatching :
      (o : Text) (b : Batching) → Room b o → IsBatching m c b → IsBatching m c (add_line o b)
  unfolding add_line
  add_line-IsBatching o b r v = record {
    sized = v.sized;
    fits = (
      omega (arith, length-append b.current (o ∷ [])),
      elim r.1 [
        | inl empty ↦ inr (omega (arith, length-append b.current (o ∷ [])))
        | inr within ↦ inl (omega (arith, v.chars, length-join-snoc b.current o))
      ],
    );
    chars = omega (arith, v.chars, length-join-snoc b.current o);
  }

  batch_loop-IsBatching :
      (b : Batching) (os : List Text) → IsBatching m c b → IsBatching m c (batch_loop m c b os)
  unfolding batch_loop batch_step
  batch_loop-IsBatching b [] v = v
  batch_loop-IsBatching b (o ∷ os) v =
      batch_loop-IsBatching (batch_step m c b o) os
        (add_line-IsBatching o _ (flush-Room b o v) (flush-IsBatching b _ (exceeds-pos b o) v))

  finish-AllSized : (b : Batching) → IsBatching m c b → AllSized m c (finish b)
  unfolding finish
  finish-AllSized b v = go b.current v.fits
    where
      go : (cur : List Text) → Fits m c cur → AllSized m c (finish (record b { current = cur }))
      go [] f = v.sized
      go (p ∷ ps) f = AllSized-snoc m c b.batches (p ∷ ps) v.sized (omega arith) f

start-IsBatching : (m c : ℕ) → IsBatching m c start
unfolding join
start-IsBatching m c = record { sized = tt; fits = (omega arith, inr (omega arith)); chars = refl }

-- Each batch has a line, at most the target number of lines, and no more characters than the
-- target once joined, unless it is a single line; the targets are at most 256 and 98304.
pub partition_eztrans_batches-AllSized :
    (os : List Text) (n : ℕ)
    → AllSized
        (target_lines os (max n 1))
        (target_chars os (max n 1))
        (partition_eztrans_batches os n)
      × (target_lines os (max n 1) ≤ 256)
      × (target_chars os (max n 1) ≤ 98304)
unfolding partition_eztrans_batches target_lines target_chars
partition_eztrans_batches-AllSized [] n = (tt, omega arith, omega arith)
partition_eztrans_batches-AllSized (o ∷ os) n =
    let m = target_lines (o ∷ os) (max n 1) in
    let c = target_chars (o ∷ os) (max n 1) in
    let m_pos : 1 ≤ m = omega arith in
    let m_le : m ≤ 256 = omega arith in
    let c_le : c ≤ 98304 = omega arith in
    (
      finish-AllSized m c m_pos m_le c_le _
          (batch_loop-IsBatching m c m_pos m_le c_le start (o ∷ os) (start-IsBatching m c)),
      m_le,
      c_le,
    )
