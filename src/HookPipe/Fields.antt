-- ===== src/HookPipe/Fields.antt =====
-- src/hook/pipe_client/command.rs: fields that are written one after the other.
use anemone_rs.Base.{
  ℕ, zero, suc, ◌+◌, ◌≤◌, Bool, true, ◌&&◌, some, List, [], ◌∷◌, ◌≡◌, refl, sym, ◌∙◌, arith, length,
  take, drop, leb, get_elem?, some_injective, subst,
}
use anemone_rs.HookPipe.Bytes.{write_bytes}
use anemone_rs.HookPipe.Writes.{length-write_bytes, written, unchanged}

unfoldable pub write_all : List ℕ → List (ℕ × List ℕ) → List ℕ
write_all out [] = out
write_all out (f ∷ fields) = write_all (write_bytes out (f.0) (f.1)) fields

-- Each field starts where the one before it ends or later, and the last one ends within the size.
unfoldable pub in_order : ℕ → ℕ → List (ℕ × List ℕ) → Bool
in_order start size [] = leb start size
in_order start size (f ∷ fields) = leb start (f.0) && in_order (f.0 + length (f.1)) size fields

in_order_within :
    (start size : ℕ) (fields : List (ℕ × List ℕ)) → in_order start size fields ≡ true → start ≤ size
unfolding in_order
in_order_within start size [] h = ground arith
in_order_within start size (f ∷ fields) h =
    let rest = in_order_within (f.0 + length (f.1)) size fields (ground arith) in
    ground (arith, rest)

pub in_order_tail :
    (start size : ℕ) (f : ℕ × List ℕ) (fields : List (ℕ × List ℕ))
    → in_order start size (f ∷ fields) ≡ true
    → (start ≤ f.0)
      × (in_order (f.0 + length (f.1)) size fields ≡ true)
      × (f.0 + length (f.1) ≤ size)
unfolding in_order
in_order_tail start size f fields h =
    let rest : in_order (f.0 + length (f.1)) size fields ≡ true = ground arith in
    (ground arith, rest, in_order_within (f.0 + length (f.1)) size fields rest)

unchanged_by_all :
    (n start from size : ℕ) (fields : List (ℕ × List ℕ)) (out : List ℕ)
    → start + n ≤ from
    → in_order from size fields ≡ true
    → size ≡ length out
    → take n (drop start (write_all out fields)) ≡ take n (drop start out)
unfolding write_all
unchanged_by_all n start from size [] out h order len = refl
unchanged_by_all n start from size (f ∷ fields) out h order len =
    let (later, rest, fits) = in_order_tail from size f fields order in
    unchanged_by_all n start (f.0 + length (f.1)) size fields (write_bytes out (f.0) (f.1))
      (omega (arith, later)) rest
      (len ∙ sym (length-write_bytes out (f.0) (f.1) (omega (arith, fits, len))))
    ∙ unchanged n start (f.0) out (f.1) (omega (arith, later)) (omega (arith, fits, len))

pub held :
    (i from size : ℕ) (fields : List (ℕ × List ℕ)) (out : List ℕ) (f : ℕ × List ℕ)
    → in_order from size fields ≡ true
    → size ≡ length out
    → get_elem? fields i ≡ some f
    → take (length (f.1)) (drop (f.0) (write_all out fields)) ≡ f.1
unfolding write_all
held i from size [] out f order len h = cc
held zero from size (g ∷ fields) out f order len h =
    let (later, rest, fits) = in_order_tail from size g fields order in
    let at_end = g.0 + length (g.1) in
    let out' = write_bytes out (g.0) (g.1) in
    let same : size ≡ length out' =
      len ∙ sym (length-write_bytes out (g.0) (g.1) (omega (arith, fits, len))) in
    let here : take (length (g.1)) (drop (g.0) (write_all out' fields)) ≡ g.1 =
      unchanged_by_all (length (g.1)) (g.0) at_end size fields out' (omega arith) rest same
      ∙ written out (g.0) (g.1) (omega (arith, fits, len)) in
    subst (λ x. take (length (x.1)) (drop (x.0) (write_all out' fields)) ≡ x.1) (some_injective h)
      here
held (suc i) from size (g ∷ fields) out f order len h =
    let (later, rest, fits) = in_order_tail from size g fields order in
    held i (g.0 + length (g.1)) size fields (write_bytes out (g.0) (g.1)) f rest
      (len ∙ sym (length-write_bytes out (g.0) (g.1) (omega (arith, fits, len)))) h

pub length-write_all :
    (from size : ℕ) (fields : List (ℕ × List ℕ)) (out : List ℕ)
    → in_order from size fields ≡ true
    → size ≡ length out
    → length (write_all out fields) ≡ size
unfolding write_all
length-write_all from size [] out order len = sym len
length-write_all from size (f ∷ fields) out order len =
    let (later, rest, fits) = in_order_tail from size f fields order in
    length-write_all (f.0 + length (f.1)) size fields (write_bytes out (f.0) (f.1)) rest
      (len ∙ sym (length-write_bytes out (f.0) (f.1) (omega (arith, fits, len))))
