-- ===== src/FileTrans/Window/Scan.antt =====
-- The first loop of `translate_eztrans_window` of src/file_trans/eztrans.rs: what the vectors hold
-- for each line, and where the missing texts stand.
use anemone_rs.Base.{
  ℕ, ◌≡◌, refl, ap, sym, ◌∙◌, inl, inr, Bool, true, false, Option, none, some, List, [], ◌∷◌, ◌++◌,
  append-nil, append_assoc, arith, get_elem?, get_elem?-append, get_elem?-snoc, Text, text_eq,
  text_eq→eq, Bool-cases, Option-cases,
}
use anemone_rs.FileTrans.Window.{
  Services, Slot, should_translate_line, lookup, missed, looked_up, classify, scan,
}

pub record Extends (ms ns : List Text) : Type 0 where
  pub more : List Text
  pub extended : ns ≡ ms ++ more

Extends-refl : (ms : List Text) → Extends ms ms
Extends-refl ms = record { more = []; extended = sym (append-nil ms) }

snoc-Extends : (ms : List Text) (l : Text) → Extends ms (ms ++ l ∷ [])
snoc-Extends ms l = record { more = l ∷ []; extended = refl }

Extends-trans : {a b c : List Text} → Extends a b → Extends b c → Extends a c
Extends-trans {a} e f = record {
  more = e.more ++ f.more;
  extended = f.extended ∙ ap (λ l. l ++ f.more) e.extended ∙ append_assoc a e.more f.more;
}

get_elem?-Extends :
    {ms ns : List Text} (i : ℕ) {x : Text}
    → Extends ms ns
    → get_elem? ms i ≡ some x
    → get_elem? ns i ≡ some x
get_elem?-Extends {ms} i e h = rw e.extended (get_elem?-append ms e.more i h)

-- Each entry of the table names a place of its text.
abbrev pub Table : List (Text × ℕ) → List Text → Type 0
Table [] ms = Unit {0}
Table ((t, i) ∷ m) ms = (get_elem? ms i ≡ some t) × Table m ms

Table-Extends : (m : List (Text × ℕ)) {ms ns : List Text} → Extends ms ns → Table m ms → Table m ns
Table-Extends [] e t = tt
Table-Extends ((t, i) ∷ m) e h = (get_elem?-Extends i e h.0, Table-Extends m e h.1)

lookup-Table :
    (k : Text) (m : List (Text × ℕ)) (ms : List Text) (i : ℕ)
    → Table m ms
    → lookup k m ≡ some i
    → get_elem? ms i ≡ some k
unfolding lookup
lookup-Table k [] ms i t h = cc
lookup-Table k ((j, n) ∷ m) ms i t h = elim (Bool-cases (text_eq k j)) [
  | inl same ↦ ground (arith, text_eq→eq k j same)
  | inr other ↦ lookup-Table k m ms i t.1 (rw other at h)
]

module _ (v : Services) (g : Text → Text) (flag : Bool) where
  -- What the cache holds is the translation.
  abbrev pub Coherent : v.Cache → Type 0
  Coherent cache = (q w : Text) → v.get cache q ≡ some w → w ≡ v.postprocess (g q)

  -- What the vectors may hold for a line, by the list of missing texts.
  pub data SlotOk (ms : List Text) : Text → Option Text → Option ℕ → Type 0 where
    cached :
        {l t : Text}
        → should_translate_line l flag ≡ true
        → t ≡ v.postprocess (g l)
        → SlotOk ms l (some t) none
    waiting :
        {l : Text} {i : ℕ}
        → should_translate_line l flag ≡ true
        → get_elem? ms i ≡ some l
        → SlotOk ms l none (some i)
    kept : {l : Text} → should_translate_line l flag ≡ false → SlotOk ms l none none

  SlotOk-Extends :
      {ms ns : List Text} {l : Text} {r : Option Text} {k : Option ℕ}
      → Extends ms ns
      → SlotOk ms l r k
      → SlotOk ns l r k
  SlotOk-Extends e (cached h p) = cached h p
  SlotOk-Extends e (waiting {i = n} h p) = waiting h (get_elem?-Extends n e p)
  SlotOk-Extends e (kept h) = kept h

  pub data AllOk (ms : List Text) : List Text → List (Option Text) → List (Option ℕ) → Type 0 where
    nil : AllOk ms [] [] []
    cons :
        {l : Text} {r : Option Text} {k : Option ℕ} {ls : List Text} {rs : List (Option Text)}
        {ks : List (Option ℕ)}
        → SlotOk ms l r k
        → AllOk ms ls rs ks
        → AllOk ms (l ∷ ls) (r ∷ rs) (k ∷ ks)

  record Classified (ms : List Text) (l : Text) (s : Slot) : Type 0 where
    grown : Extends ms s.misses
    table : Table s.miss_by_text s.misses
    slot : SlotOk s.misses l s.result s.line_miss

  missed-Classified :
      (m : List (Text × ℕ)) (ms : List Text) (l : Text)
      → Table m ms
      → should_translate_line l flag ≡ true
      → Classified ms l (missed m ms l)
  unfolding missed
  missed-Classified m ms l t h = elim (Option-cases (lookup l m)) [
    | inl new ↦
        rw (new, missed)
          (record {
            grown = snoc-Extends ms l;
            table = (get_elem?-snoc ms l, Table-Extends m (snoc-Extends ms l) t);
            slot = waiting h (get_elem?-snoc ms l);
          })
    | inr (i, old) ↦
        rw (old, missed)
          (record {
            grown = Extends-refl ms;
            table = t;
            slot = waiting h (lookup-Table l m ms i t old);
          })
  ]

  classify-Classified :
      (cache : v.Cache) (m : List (Text × ℕ)) (ms : List Text) (l : Text)
      → Coherent cache
      → Table m ms
      → Classified ms l (classify v cache flag m ms l)
  unfolding classify looked_up
  classify-Classified cache m ms l c t = elim (Bool-cases (should_translate_line l flag)) [
    | inr skip ↦ rw skip (record { grown = Extends-refl ms; table = t; slot = kept skip })
    | inl send ↦ rw send (elim (Option-cases (v.get cache l)) [
      | inl absent ↦ rw (absent, looked_up) (missed-Classified m ms l t send)
      | inr (w, hit) ↦
          rw (hit, looked_up)
            (record { grown = Extends-refl ms; table = t; slot = cached send (c l w hit) })
    ])
  ]

  -- After the loop every line has its translation, the place of its text among the missing texts,
  -- or is not to be translated.
  pub scan-AllOk :
      (cache : v.Cache) (m : List (Text × ℕ)) (ms ls : List Text)
      → Coherent cache
      → Table m ms
      → let s = scan v cache flag m ms ls in
        Extends ms s.misses × AllOk s.misses ls s.results s.line_misses
  unfolding scan
  scan-AllOk cache m ms [] c t = (Extends-refl ms, nil)
  scan-AllOk cache m ms (l ∷ ls) c t =
      let k = classify-Classified cache m ms l c t in
      let s = classify v cache flag m ms l in
      let (grown, rest) = scan-AllOk cache s.miss_by_text s.misses ls c k.table in
      (Extends-trans k.grown grown, cons (SlotOk-Extends grown k.slot) rest)
