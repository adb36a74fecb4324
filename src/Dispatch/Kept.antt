-- ===== src/Dispatch/Kept.antt =====
-- What src/translation/worker/state.rs keeps of the waiting responses has the properties that all
-- of them had.
use anemone_rs.Base.{
  ℕ, zero, suc, ◌≡◌, ◌∙◌, refl, inl, inr, true, Bool-cases, some, Option-cases, List, [], ◌∷◌, ◌++◌,
  arith, ltb, ◌==◌, length, drop,
}
use mathlib.Core.List.{Memᴰ}
use anemone_rs.Dispatch.{
  PendingEntry, TranslationResponse, push_pending, take_pending, keep_going, drop_id, drop_for,
}

pub data AllOf {A : Type 0} (P : A → Type 0) : List A → Type 0 where
  none_left : AllOf P []
  also : {x : A} {xs : List A} → P x → AllOf P xs → AllOf P (x ∷ xs)

module _ {A : Type 0} {P : A → Type 0} where
  pub AllOf-Mem : (xs : List A) → ((x : A) → Memᴰ x xs → P x) → AllOf P xs
  AllOf-Mem [] f = AllOf.none_left
  AllOf-Mem (x ∷ xs) f = AllOf.also (f x (Memᴰ.head refl)) (AllOf-Mem xs (λ y m. f y (Memᴰ.tail m)))

  AllOf-snoc : {xs : List A} (x : A) → AllOf P xs → P x → AllOf P (xs ++ x ∷ [])
  AllOf-snoc x AllOf.none_left p = AllOf.also p AllOf.none_left
  AllOf-snoc x (AllOf.also q a) p = AllOf.also q (AllOf-snoc x a p)

  AllOf-drop : (n : ℕ) {xs : List A} → AllOf P xs → AllOf P (drop n xs)
  AllOf-drop zero a = a
  AllOf-drop (suc n) AllOf.none_left = AllOf.none_left
  AllOf-drop (suc n) (AllOf.also p a) = AllOf-drop n a

module _ {R : Type 0} {P : PendingEntry R → Type 0} where
  pub push_pending-AllOf :
      {es : List (PendingEntry R)} (e : PendingEntry R)
      → AllOf P es
      → P e
      → AllOf P (push_pending es e)
  unfolding push_pending
  push_pending-AllOf {es} e a p = elim (Bool-cases (ltb 100 (length (es ++ e ∷ [])))) [
    | inl c ↦ rw c (AllOf-drop _ (AllOf-snoc e a p))
    | inr c ↦ rw c (AllOf-snoc e a p)
  ]

  pub drop_id-AllOf : {es : List (PendingEntry R)} (id : ℕ) → AllOf P es → AllOf P (drop_id es id)
  unfolding drop_id
  drop_id-AllOf id AllOf.none_left = AllOf.none_left
  drop_id-AllOf id (AllOf.also {x = e} p a) = elim (Bool-cases (e.req_id == id)) [
    | inl c ↦ rw c (drop_id-AllOf id a)
    | inr c ↦ rw c (AllOf.also p (drop_id-AllOf id a))
  ]

  pub drop_for-AllOf :
      {es : List (PendingEntry R)} (target : ℕ) → AllOf P es → AllOf P (drop_for es target)
  unfolding drop_for
  drop_for-AllOf target AllOf.none_left = AllOf.none_left
  drop_for-AllOf target (AllOf.also {x = e} p a) = elim (Bool-cases (e.target == target)) [
    | inl c ↦ rw c (drop_for-AllOf target a)
    | inr c ↦ rw c (AllOf.also p (drop_for-AllOf target a))
  ]

  pub take_pending-AllOf :
      {es : List (PendingEntry R)} (target : ℕ) (r : ℕ × TranslationResponse R)
      (left : List (PendingEntry R))
      → AllOf P es
      → take_pending es target ≡ some (r, left)
      → AllOf P left
  unfolding take_pending keep_going
  take_pending-AllOf target r left AllOf.none_left h = ground arith
  take_pending-AllOf target r left (AllOf.also {x = e} {xs = es} p a) h =
      elim (Bool-cases (e.target == target)) [
        | inl c ↦ let same : es ≡ left = ground (arith, c, h) in rw (← same) a
        | inr c ↦ elim (Option-cases (take_pending es target)) [
          | inl f ↦ ground (arith, c, f, h)
          | inr ((r', left'), f) ↦
              let same : e ∷ left' ≡ left = ground (arith, c, f, h) in
              rw (← same) (AllOf.also p (take_pending-AllOf target r' left' a f))
        ]
      ]

  -- The response that is taken was a waiting one for the target.
  pub take_pending-entry :
      {es : List (PendingEntry R)} (target id : ℕ) (r : TranslationResponse R)
      (left : List (PendingEntry R))
      → AllOf P es
      → take_pending es target ≡ some ((id, r), left)
      → (e : PendingEntry R) × P e
        × ((e.target == target) ≡ true)
        × (e.req_id ≡ id)
        × (e.response ≡ r)
  unfolding take_pending keep_going
  take_pending-entry target id r left AllOf.none_left h = ground arith
  take_pending-entry target id r left (AllOf.also {x = e} {xs = es} p a) h =
      elim (Bool-cases (e.target == target)) [
        | inl c ↦
            let same : (e.req_id ≡ id) × (e.response ≡ r) = ground (arith, c, h) in
            (e, p, c, same.0, same.1)
        | inr c ↦ elim (Option-cases (take_pending es target)) [
          | inl f ↦ ground (arith, c, f, h)
          | inr (((id', r'), left'), f) ↦
              let same : (id' ≡ id) × (r' ≡ r) = ground (arith, c, f, h) in
              let (x, q, t, i, j) = take_pending-entry target id' r' left' a f in
              (x, q, t, i ∙ same.0, j ∙ same.1)
        ]
      ]
