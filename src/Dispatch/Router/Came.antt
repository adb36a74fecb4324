-- ===== src/Dispatch/Router/Came.antt =====
-- Which request the waiting responses of src/translation/worker/dispatch.rs answer.
use anemone_rs.Base.{
  ℕ, ◌≡◌, ◌∙◌, sym, ◌⊎◌, inl, inr, true, false, Option-cases, some, List, arith, ◌==◌,
}
use mathlib.Core.List.{Memᴰ}
use anemone_rs.Dispatch.{PendingEntry, TranslationResponse, World, take_pending}
use anemone_rs.Dispatch.Kept.{AllOf, take_pending-AllOf, take_pending-entry}
use anemone_rs.Dispatch.Router.{with_state, take_response_for_target}

-- A waiting response answers the request `id`, is for another target, or was waiting before.
pub data Came {R : Type 0} (t id : ℕ) (old : List (PendingEntry R)) (e : PendingEntry R)
    : Type 0 where
  newest : e.req_id ≡ id → Came t id old e
  elsewhere : (e.target == t) ≡ false → Came t id old e
  earlier : Memᴰ e old → Came t id old e

Came-answer :
    {R : Type 0} (t id n : ℕ) (old : List (PendingEntry R)) (r : TranslationResponse R)
    (x : PendingEntry R)
    → Came t id old x
    → (x.target == t) ≡ true
    → x.req_id ≡ n
    → x.response ≡ r
    → (n ≡ id) ⊎ ((e : PendingEntry R) × Memᴰ e old × (e.req_id ≡ n) × (e.response ≡ r))
Came-answer t id n old r x (Came.newest e) at f g = inl (sym f ∙ e)
Came-answer t id n old r x (Came.elsewhere e) at f g = ground (arith, at, e)
Came-answer t id n old r x (Came.earlier m) at f g = inr (x, m, f, g)

module _ {J R : Type 0} where
  pub take-Came :
      (w : World J R) (u t id : ℕ) (old : List (PendingEntry R))
      → AllOf (Came t id old) w.state.pending
      → AllOf (Came t id old) (take_response_for_target w u).1.state.pending
  unfolding take_response_for_target with_state
  take-Came w u t id old c = elim (Option-cases (take_pending w.state.pending u)) [
    | inl e ↦ rw (take_response_for_target, e) c
    | inr ((r, left), e) ↦ rw (take_response_for_target, e) (take_pending-AllOf u r left c e)
  ]

  pub taken-Came :
      (w : World J R) (t id n : ℕ) (old : List (PendingEntry R)) (r : TranslationResponse R)
      → AllOf (Came t id old) w.state.pending
      → (take_response_for_target w t).0 ≡ some (n, r)
      → (n ≡ id) ⊎ ((e : PendingEntry R) × Memᴰ e old × (e.req_id ≡ n) × (e.response ≡ r))
  unfolding take_response_for_target
  taken-Came w t id n old r c h = elim (Option-cases (take_pending w.state.pending t)) [
    | inl e ↦ ground (arith, e, h)
    | inr (((n', r'), left), e) ↦
        let same : (n' ≡ n) × (r' ≡ r) = ground (arith, e, h) in
        let (x, came, at, f, g) = take_pending-entry t n' r' left c e in
        Came-answer t id n old r x came at (f ∙ same.0) (g ∙ same.1)
  ]
