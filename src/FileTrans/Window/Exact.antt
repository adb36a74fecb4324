-- ===== src/FileTrans/Window/Exact.antt =====
-- What `translate_eztrans_window` of src/file_trans/eztrans.rs returns over a pool that translates
-- line by line.
use mathlib.Core.List.{flatten, map-append}
use anemone_rs.Base.{
  ℕ, ◌≡◌, refl, ap, ap₂, sym, ◌∙◌, inl, inr, Bool, Option, none, some, List, [], ◌∷◌, ◌++◌, map,
  arith, length, length-map, ==_refl, get_elem?-map, Text, if◌then◌else◌,
}
use anemone_rs.FileTrans.Partition.{partition_eztrans_batches, is_empty}
use anemone_rs.FileTrans.Partition.Laws.{flatten-partition_eztrans_batches}
use anemone_rs.FileTrans.Window.{
  Services, ok, Outcome, WindowError, done, failed, Scanned, should_translate_line,
  fill_untranslated, merge, scan, insert_all, send, accept, translate_eztrans_window,
}
use anemone_rs.FileTrans.Window.Scan.{Coherent, cached, waiting, kept, AllOk, nil, cons, scan-AllOk}

flatten-map :
    (g : Text → Text) (bs : List (List Text)) → flatten (map (map g) bs) ≡ map g (flatten bs)
unfolding flatten
flatten-map g [] = refl
flatten-map g (b ∷ bs) = ap (◌++◌ (map g b)) (flatten-map g bs) ∙ sym (map-append g b (flatten bs))

map-map : (f g : Text → Text) (xs : List Text) → map f (map g xs) ≡ map (λ x. f (g x)) xs
map-map f g [] = refl
map-map f g (x ∷ xs) = ap (◌∷◌ (f (g x))) (map-map f g xs)

module _ (v : Services) (g : Text → Text) (flag : Bool) where
  abbrev pub translation : Text → Text
  translation l = v.postprocess (g l)

  -- The line that the output gets: its translation, or the line itself.
  abbrev pub expected : Text → Text
  expected l = if should_translate_line l flag then translation l else l

  -- With no missing text the vectors already hold every translation.
  fill-exact :
      {ls : List Text} {rs : List (Option Text)} {ks : List (Option ℕ)}
      → AllOk v g flag [] ls rs ks
      → fill_untranslated rs ls ≡ map expected ls
  unfolding fill_untranslated
  fill-exact nil = refl
  fill-exact (cons (cached h p) a) = ap₂ ◌∷◌ (rw h p) (fill-exact a)
  fill-exact (cons (waiting h p) a) = cc
  fill-exact (cons (kept h) a) = ap₂ ◌∷◌ (rw h) (fill-exact a)

  -- Otherwise they do once the translations of the missing texts are written in.
  merge-exact :
      {ms ls : List Text} {rs : List (Option Text)} {ks : List (Option ℕ)}
      → AllOk v g flag ms ls rs ks
      → (ns : List (Option Text)) × (merge rs ks (map translation ms) ≡ some ns)
        × (fill_untranslated ns ls ≡ map expected ls)
  unfolding merge fill_untranslated
  merge-exact nil = ([], refl, refl)
  merge-exact (cons {l = l} (cached {t = t} h p) a) =
      let (ns, m, f) = merge-exact a in (some t ∷ ns, rw (m, merge) refl, ap₂ ◌∷◌ (rw h p) f)
  merge-exact {ms} (cons {l = l} (waiting {i = i} h p) a) =
      let (ns, m, f) = merge-exact a in
      (
        some (translation l) ∷ ns,
        rw (get_elem?-map translation ms i p, m, merge) refl,
        ap₂ ◌∷◌ (rw h refl) f,
      )
  merge-exact (cons (kept h) a) =
      let (ns, m, f) = merge-exact a in (none ∷ ns, rw (m, merge) refl, ap₂ ◌∷◌ (rw h refl) f)

  insert_all-Coherent :
      (cache : v.Cache) (ms : List Text)
      → Coherent v g flag cache
      → Coherent v g flag (insert_all v cache ms (map translation ms))
  unfolding insert_all
  insert_all-Coherent cache [] c = c
  insert_all-Coherent cache (m ∷ ms) c =
      insert_all-Coherent (v.insert cache m (translation m)) ms λ q w h.
        elim (v.get_insert cache m (translation m) q w h) [
          | inl (same, value) ↦ value ∙ ap translation (sym same)
          | inr old ↦ c q w old
        ]

  -- The pool keeps to its contract: the batches come back translated line by line.
  abbrev pub Linewise : Type 0
  Linewise = (bs : List (List Text)) → v.translate_batches bs ≡ ok (map (map g) bs)

  abbrev pub Exact : v.Cache × Outcome (List Text) → List Text → Type 0
  Exact r ls = (r.1 ≡ done (map expected ls)) × Coherent v g flag r.0

  accept-Exact :
      (cache : v.Cache) (ls : List Text) (s : Scanned)
      → Coherent v g flag cache
      → AllOk v g flag s.misses ls s.results s.line_misses
      → Exact (accept v cache ls s (map translation s.misses)) ls
  unfolding accept
  accept-Exact cache ls s c a =
      let (ns, m, f) = merge-exact a in
      rw (length-map translation s.misses, ==_refl (length s.misses))
        (rw m (ap done f), insert_all-Coherent cache s.misses c)

  send-Exact :
      (cache : v.Cache) (ls : List Text) (s : Scanned)
      → Linewise
      → Coherent v g flag cache
      → AllOk v g flag s.misses ls s.results s.line_misses
      → Exact (send v cache ls s) ls
  unfolding send
  send-Exact cache ls s p c a =
      let sent : map v.postprocess
            (flatten (map (map g) (partition_eztrans_batches s.misses v.process_count)))
          ≡ map translation s.misses =
        ap (map v.postprocess) (
          flatten-map g _ ∙ ap (map g) (flatten-partition_eztrans_batches s.misses v.process_count))
        ∙ map-map v.postprocess g s.misses in
      rw (p, send, sent) (accept-Exact cache ls s c a)

  settled :
      (cache : v.Cache) (ls ms : List Text) (rs : List (Option Text)) (ks : List (Option ℕ))
      → Linewise
      → Coherent v g flag cache
      → AllOk v g flag ms ls rs ks
      → Exact
          (if is_empty ms
            then (cache, done (fill_untranslated rs ls))
            else send v cache ls (record { results = rs; line_misses = ks; misses = ms }))
          ls
  settled cache ls [] rs ks p c a = (ap done (fill-exact a), c)
  settled cache ls (m ∷ ms) rs ks p c a =
      send-Exact cache ls (record { results = rs; line_misses = ks; misses = m ∷ ms }) p c a

  -- Over a pool that translates line by line, and a cache that holds nothing but translations, every
  -- line that is to be translated gets the postprocessed translation of its text, every other line
  -- stays as it is, and the cache still holds nothing but translations.
  pub translate_eztrans_window-Exact :
      (cache : v.Cache) (ls : List Text)
      → Linewise
      → Coherent v g flag cache
      → Exact (translate_eztrans_window v cache ls flag) ls
  unfolding translate_eztrans_window
  translate_eztrans_window-Exact cache ls p c =
      settled cache ls _ _ _ p c (scan-AllOk v g flag cache [] [] ls c tt).1

module _ (v : Services) (cache : v.Cache) (ls : List Text) where
  accept-keeps :
      (s : Scanned) (ts : List Text) (e : WindowError)
      → (accept v cache ls s ts).1 ≡ failed e
      → (accept v cache ls s ts).0 ≡ cache
  unfolding accept
  accept-keeps s ts e h = ground arith

  send-keeps :
      (s : Scanned) (e : WindowError)
      → (send v cache ls s).1 ≡ failed e
      → (send v cache ls s).0 ≡ cache
  unfolding send
  send-keeps s e h = ground (arith, accept-keeps s)

  -- A window that fails leaves the cache as it was.
  pub translate_eztrans_window_keeps :
      (flag : Bool) (e : WindowError)
      → (translate_eztrans_window v cache ls flag).1 ≡ failed e
      → (translate_eztrans_window v cache ls flag).0 ≡ cache
  unfolding translate_eztrans_window
  translate_eztrans_window_keeps flag e h =
      ground (arith, send-keeps (scan v cache flag [] [] ls) e)
