-- ===== src/EztransPool/Resilient.antt =====
-- `translate_resilient` of src/translation/eztrans_process/pool.rs: it ends, and its result has one
-- line for each original.
use anemone_rs.Base.{
  ℕ, zero, suc, ◌/◌, ◌<◌, ◌≤◌, ◌≡◌, refl, inl, inr, List, [], ◌∷◌, arith, length, length-append,
  length-take, length-drop, take, drop, Text, ◌==◌, Bool-cases, Option-cases,
}
use anemone_rs.EztransPool.{
  Helper, Reply, Outcome, done, failed, out_of_fuel, ok, engine, transport, Verdict, finish, bisect,
  give_up, verdict, M, bind_outcome, ◌>>=◌, join, split_eztrans_batch, attempt, restart, retry,
  single, translated_single_boundary_fallback, halves, bisected, settle, translate_resilient,
}
use anemone_rs.EztransPool.Split.{length-split_eztrans_batch}

-- A run ends with a result that satisfies `P`, or with an error, which only `F` allows.
abbrev pub Ends : {A : Type 0} → Type 0 → (A → Type 0) → Outcome A → Type 0
Ends F P (done a) = P a
Ends F P (failed e) = F
Ends F P out_of_fuel = ⊥

-- the same for a program, from every state of the helper
abbrev pub EndsFrom : {S A : Type 0} → Type 0 → (A → Type 0) → M S A → Type 0
EndsFrom {S} F P m = (s : S) → Ends F P (m s).1

bind_outcome-Ends :
    {S A B : Type 0} (F : Type 0) (P : A → Type 0) (Q : B → Type 0) (r : S × Outcome A)
    (f : A → M S B)
    → Ends F P r.1
    → ((a : A) → P a → EndsFrom F Q (f a))
    → Ends F Q (bind_outcome r f).1
bind_outcome-Ends F P Q (s, done a) f h k = k a h s
bind_outcome-Ends F P Q (s, failed e) f h k = h
bind_outcome-Ends F P Q (s, out_of_fuel) f h k = absurd h

pub >>=-Ends :
    {S A B : Type 0} (F : Type 0) (P : A → Type 0) (Q : B → Type 0) (m : M S A) (f : A → M S B)
    → EndsFrom F P m
    → ((a : A) → P a → EndsFrom F Q (f a))
    → EndsFrom F Q (m >>= f)
>>=-Ends F P Q m f h k s = bind_outcome-Ends F P Q (m s) f (h s) k

-- A broken transport is what `F` allows.
abbrev pub Mild : Type 0 → Reply → Type 0
Mild F (ok t) = Unit {0}
Mild F (engine e) = Unit {0}
Mild F (transport e) = F

module _ (h : Helper) (F : Type 0) (mild : (s : h.State) (t : Text) → Mild F (h.call s t).1) where
  restart-Ends : (t e : Text) → F → EndsFrom F (Mild F) (restart h t e)
  unfolding restart
  restart-Ends t e f s = elim (Option-cases (h.respawn s).1) [
    | inl fresh ↦ rw (fresh, restart) (mild _ t)
    | inr (r, refused) ↦ rw (refused, restart) f
  ]

  retry-Ends :
      (t : Text) (s : h.State) (r : Reply) → Mild F r → Ends F (Mild F) (retry h t (s, r)).1
  unfolding retry
  retry-Ends t s (ok u) m = tt
  retry-Ends t s (engine e) m = tt
  retry-Ends t s (transport e) m = restart-Ends t e m s

  attempt-Ends : (t : Text) → EndsFrom F (Mild F) (attempt h t)
  unfolding attempt
  attempt-Ends t s = retry-Ends t _ _ (mild s t)

  single-Ends : (r : Reply) → Mild F r → EndsFrom F (λ _. Unit {0}) (single h r)
  unfolding single
  single-Ends (ok t) m s = tt
  single-Ends (engine e) m s = tt
  single-Ends (transport e) m s = m

  abbrev SameLength : List Text → List Text → Type 0
  SameLength os ls = length ls ≡ length os

  halves-Ends :
      (again : List Text → M h.State (List Text)) (os : List Text)
      → EndsFrom F (SameLength (take (length os / 2) os)) (again (take (length os / 2) os))
      → EndsFrom F (SameLength (drop (length os / 2) os)) (again (drop (length os / 2) os))
      → EndsFrom F (SameLength os) (halves h again os)
  unfolding halves
  halves-Ends again os left right =
      let n = length os / 2 in
      >>=-Ends F (SameLength (take n os)) (SameLength os) (again (take n os)) _ left λ l hl.
        >>=-Ends F (SameLength (drop n os)) (SameLength os) (again (drop n os)) _ right
          λ r hr s. omega (arith, length-append l r, length-take n os, length-drop n os)

  bisected-Ends :
      (again : List Text → M h.State (List Text)) (fuel : ℕ) (o : Text) (os : List Text)
      → ((ls : List Text) → length ls < fuel → EndsFrom F (SameLength ls) (again ls))
      → length (o ∷ os) ≤ fuel
      → EndsFrom F (SameLength (o ∷ os)) (bisected h again (o ∷ os))
  unfolding bisected translated_single_boundary_fallback
  bisected-Ends again fuel o [] ih b =
      >>=-Ends F (λ _. Unit {0}) _ _ _
        (>>=-Ends F (Mild F) _ (attempt h o) (single h) (attempt-Ends o) single-Ends) λ l _ s. refl
  bisected-Ends again fuel o (p ∷ os) ih b =
      let n = length (o ∷ p ∷ os) / 2 in
      halves-Ends again (o ∷ p ∷ os)
        (ih (take n (o ∷ p ∷ os)) (omega (arith, length-take n (o ∷ p ∷ os))))
        (ih (drop n (o ∷ p ∷ os)) (omega (arith, length-drop n (o ∷ p ∷ os))))

  abbrev GoodVerdict : List Text → Verdict → Type 0
  GoodVerdict os (finish parts) = SameLength os parts
  GoodVerdict os bisect = Unit {0}
  GoodVerdict os (give_up e) = F

  verdict-Good : (os : List Text) (r : Reply) → Mild F r → GoodVerdict os (verdict os r)
  unfolding verdict
  verdict-Good os (ok t) m = elim (Option-cases (split_eztrans_batch t os)) [
    | inl e ↦ rw (e, verdict) tt
    | inr (ps, e) ↦ rw (e, verdict) (length-split_eztrans_batch t os ps e)
  ]
  verdict-Good os (engine e) m = elim (Bool-cases (length os == 1)) [
    | inl one ↦ rw one (ground arith)
    | inr more ↦ rw more tt
  ]
  verdict-Good os (transport e) m = m

  settle-Ends :
      (again : List Text → M h.State (List Text)) (fuel : ℕ) (o : Text) (os : List Text)
      (v : Verdict)
      → ((ls : List Text) → length ls < fuel → EndsFrom F (SameLength ls) (again ls))
      → length (o ∷ os) ≤ fuel
      → GoodVerdict (o ∷ os) v
      → EndsFrom F (SameLength (o ∷ os)) (settle h again (o ∷ os) v)
  unfolding settle
  settle-Ends again fuel o os (finish ps) ih b g s = g
  settle-Ends again fuel o os bisect ih b g s = bisected-Ends again fuel o os ih b s
  settle-Ends again fuel o os (give_up e) ih b g s = g

  -- With more fuel than lines the run ends, and a result has one line for each original. It fails
  -- only if some call of the helper breaks the transport: `F` is what such a call allows.
  translate_resilient-Ends :
      (fuel : ℕ) (os : List Text)
      → length os < fuel
      → EndsFrom F (SameLength os) (translate_resilient h fuel os)
  unfolding translate_resilient
  translate_resilient-Ends zero os b s = absurd (omega arith)
  translate_resilient-Ends (suc fuel) [] b s = refl
  translate_resilient-Ends (suc fuel) (o ∷ os) b s =
      >>=-Ends F (Mild F) _ (attempt h (join (o ∷ os))) _ (attempt-Ends (join (o ∷ os)))
        (λ r m.
          settle-Ends (translate_resilient h fuel) fuel o os (verdict (o ∷ os) r)
            (λ ls lt. translate_resilient-Ends fuel ls lt) (omega arith)
            (verdict-Good (o ∷ os) r m))
        s

Mild-all : (r : Reply) → Mild (Unit {0}) r
Mild-all (ok t) = tt
Mild-all (engine e) = tt
Mild-all (transport e) = tt

-- Whatever the helper answers, from more fuel than there are lines the run ends, with an error or
-- with one line for each original.
pub translate_resilient-total :
    (h : Helper) (fuel : ℕ) (os : List Text) (s : h.State)
    → length os < fuel
    → Ends (Unit {0}) (λ ls. length ls ≡ length os) (translate_resilient h fuel os s).1
translate_resilient-total h fuel os s b =
    translate_resilient-Ends h (Unit {0}) (λ t u. Mild-all _) fuel os b s

pub Ends-done :
    {A : Type 0} (P : A → Type 0) (r : Outcome A) → Ends ⊥ P r → (a : A) × (r ≡ done a) × P a
Ends-done P (done a) p = (a, refl, p)
Ends-done P (failed e) p = absurd p
Ends-done P out_of_fuel p = absurd p

-- If no call of the helper breaks the transport, the run returns one line for each original: an
-- engine that refuses texts never makes the batch fail.
pub translate_resilient-done :
    (h : Helper) (fuel : ℕ) (os : List Text) (s : h.State)
    → ((t : h.State) (u : Text) → Mild ⊥ (h.call t u).1)
    → length os < fuel
    → (ls : List Text) × ((translate_resilient h fuel os s).1 ≡ done ls) × (length ls ≡ length os)
translate_resilient-done h fuel os s mild b =
    Ends-done (λ ls. length ls ≡ length os) _ (translate_resilient-Ends h ⊥ mild fuel os b s)
