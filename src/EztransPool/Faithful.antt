-- ===== src/EztransPool/Faithful.antt =====
-- What `translate_resilient` of src/translation/eztrans_process/pool.rs returns over a helper that
-- translates line by line, and may refuse longer batches.
use anemone_rs.Base.{
  ℕ, zero, suc, false, ◌/◌, ◌<◌, ◌≤◌, ◌≡◌, refl, ap, ap₂, sym, ◌∙◌, List, [], ◌∷◌, ◌++◌, arith,
  length, length-take, length-drop, take, drop, take-append-drop, Text, map,
}
use mathlib.Core.List.{map-append}
use anemone_rs.EztransPool.{
  newline, Helper, Reply, done, ok, engine, transport, verdict, M, join, attempt, retry, settle,
  translate_resilient, Verdict, finish, bisect, give_up,
}
use anemone_rs.EztransPool.Split.{Free, AllFree}
use anemone_rs.EztransPool.Dressed.{IsClean, AllClean, AllDressed, split_eztrans_batch-join}
use anemone_rs.EztransPool.Resilient.{Ends, EndsFrom, >>=-Ends, Ends-done}

-- The reply is the translation of each line, beside whose line feeds the helper may put spaces, or a
-- refusal of a batch of several lines.
abbrev pub Honest : (Text → Text) → List Text → Reply → Type 0
Honest f os (ok t) = (ps : List Text) × (t ≡ join ps) × AllDressed f false os ps
Honest f os (engine e) = 1 < length os
Honest f os (transport e) = ⊥

AllFree-take : (n : ℕ) (os : List Text) → AllFree newline os → AllFree newline (take n os)
AllFree-take zero os a = tt
AllFree-take (suc n) [] a = tt
AllFree-take (suc n) (o ∷ os) a = (a.0, AllFree-take n os a.1)

AllFree-drop : (n : ℕ) (os : List Text) → AllFree newline os → AllFree newline (drop n os)
AllFree-drop zero os a = a
AllFree-drop (suc n) [] a = tt
AllFree-drop (suc n) (o ∷ os) a = AllFree-drop n os a.1

module _ (h : Helper) (f : Text → Text) (clean : (p : Text) → Free newline p → IsClean p (f p))
    (honest : (s : h.State) (o : Text) (os : List Text)
      → AllFree newline (o ∷ os)
      → Honest f (o ∷ os) (h.call s (join (o ∷ os))).1) where
  AllClean-map : (os : List Text) → AllFree newline os → AllClean f os
  AllClean-map [] a = tt
  AllClean-map (o ∷ os) a = (clean o a.0, AllClean-map os a.1)

  abbrev Exact : List Text → List Text → Type 0
  Exact os ls = ls ≡ map f os

  retry-Honest :
      (os : List Text) (t : Text) (s : h.State) (r : Reply)
      → Honest f os r
      → Ends ⊥ (Honest f os) (retry h t (s, r)).1
  unfolding retry
  retry-Honest os t s (ok u) m = m
  retry-Honest os t s (engine e) m = m
  retry-Honest os t s (transport e) m = absurd m

  attempt-Honest :
      (o : Text) (os : List Text)
      → AllFree newline (o ∷ os)
      → EndsFrom ⊥ (Honest f (o ∷ os)) (attempt h (join (o ∷ os)))
  unfolding attempt
  attempt-Honest o os a s = retry-Honest (o ∷ os) (join (o ∷ os)) _ _ (honest s o os a)

  abbrev GoodVerdict : List Text → Verdict → Type 0
  GoodVerdict os (finish ps) = Exact os ps
  GoodVerdict os bisect = 1 < length os
  GoodVerdict os (give_up e) = ⊥

  verdict-Good :
      (o : Text) (os : List Text) (r : Reply)
      → AllFree newline (o ∷ os)
      → Honest f (o ∷ os) r
      → GoodVerdict (o ∷ os) (verdict (o ∷ os) r)
  unfolding verdict
  verdict-Good o os (ok t) a (ps, e, dressed) =
      rw (e, verdict, split_eztrans_batch-join f o os ps (AllClean-map (o ∷ os) a) dressed) refl
  verdict-Good o os (engine e) a m = ground arith
  verdict-Good o os (transport e) a m = absurd m

  map-halves : (n : ℕ) (os : List Text) → map f (take n os) ++ map f (drop n os) ≡ map f os
  map-halves n os = sym (map-append f (take n os) (drop n os)) ∙ ap (map f) (take-append-drop n os)

  settle-Exact :
      (again : List Text → M h.State (List Text)) (fuel : ℕ) (o : Text) (os : List Text)
      (v : Verdict)
      → ((ls : List Text)
          → length ls < fuel
          → AllFree newline ls
          → EndsFrom ⊥ (Exact ls) (again ls))
      → length (o ∷ os) ≤ fuel
      → AllFree newline (o ∷ os)
      → GoodVerdict (o ∷ os) v
      → EndsFrom ⊥ (Exact (o ∷ os)) (settle h again (o ∷ os) v)
  unfolding settle
  settle-Exact again fuel o os (finish ps) ih b a g s = g
  settle-Exact again fuel o [] bisect ih b a g s = absurd (omega arith)
  settle-Exact again fuel o (p ∷ os) bisect ih b a g s =
      let l = o ∷ p ∷ os in
      let n = length l / 2 in
      >>=-Ends ⊥ (Exact (take n l)) (Exact l) (again (take n l)) _
        (ih (take n l) (omega (arith, length-take n l)) (AllFree-take n l a))
        (λ x hx.
          >>=-Ends ⊥ (Exact (drop n l)) (Exact l) (again (drop n l)) _
            (ih (drop n l) (omega (arith, length-drop n l)) (AllFree-drop n l a))
            λ y hy t. ap₂ ◌++◌ hx hy ∙ map-halves n l)
        s
  settle-Exact again fuel o os (give_up e) ih b a g s = absurd g

  translate_resilient-Exact :
      (fuel : ℕ) (os : List Text)
      → length os < fuel
      → AllFree newline os
      → EndsFrom ⊥ (Exact os) (translate_resilient h fuel os)
  unfolding translate_resilient
  translate_resilient-Exact zero os b a s = absurd (omega arith)
  translate_resilient-Exact (suc fuel) [] b a s = refl
  translate_resilient-Exact (suc fuel) (o ∷ os) b a s =
      >>=-Ends ⊥ (Honest f (o ∷ os)) _ (attempt h (join (o ∷ os))) _ (attempt-Honest o os a)
        (λ r m.
          settle-Exact (translate_resilient h fuel) fuel o os (verdict (o ∷ os) r)
            (λ ls lt free. translate_resilient-Exact fuel ls lt free) (omega arith) a
            (verdict-Good o os r a m))
        s

  -- A helper that translates each line of a batch by a function into a clean line, and may put a space
  -- at either side of a line feed where the original has no white space, and a carriage return at the
  -- end of a line, or that refuses a batch of several lines, yields exactly the translations of the
  -- originals, in order; the originals have no line feed and the fuel exceeds their number.
  pub translate_resilient-map :
      (fuel : ℕ) (os : List Text) (s : h.State)
      → length os < fuel
      → AllFree newline os
      → (translate_resilient h fuel os s).1 ≡ done (map f os)
  translate_resilient-map fuel os s b a =
      let (ls, e, x) = Ends-done (Exact os) _ (translate_resilient-Exact fuel os b a s) in
      e ∙ ap done x
