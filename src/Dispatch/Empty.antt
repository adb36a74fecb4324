-- ===== src/Dispatch/Empty.antt =====
-- What src/translation/worker/state.rs does to a target for which no response waits.
use anemone_rs.Base.{
  ℕ, zero, suc, ◌≡◌, refl, inl, inr, false, Bool-cases, List, [], ◌∷◌, ◌++◌, arith, ltb, ◌==◌,
  length, drop,
}
use anemone_rs.Dispatch.{PendingEntry, push_pending, drop_id, drop_for}
use anemone_rs.Dispatch.Pending.{queue_for}

module _ {R : Type 0} where
  pub queue_for-drop_nil :
      (n t : ℕ) (es : List (PendingEntry R)) → queue_for t es ≡ [] → queue_for t (drop n es) ≡ []
  unfolding queue_for
  queue_for-drop_nil zero t es h = h
  queue_for-drop_nil (suc n) t [] h = refl
  queue_for-drop_nil (suc n) t (e ∷ es) h = queue_for-drop_nil n t es (ground (arith, h))

  pub queue_for-snoc :
      (t : ℕ) (es : List (PendingEntry R)) (e : PendingEntry R)
      → queue_for t es ≡ []
      → (e.target == t) ≡ false
      → queue_for t (es ++ e ∷ []) ≡ []
  unfolding queue_for
  queue_for-snoc t [] e h n = rw n refl
  queue_for-snoc t (x ∷ es) e h n = ground (arith, queue_for-snoc t es e)

  pub queue_for-push_pending :
      (t : ℕ) (es : List (PendingEntry R)) (e : PendingEntry R)
      → queue_for t es ≡ []
      → (e.target == t) ≡ false
      → queue_for t (push_pending es e) ≡ []
  unfolding push_pending
  queue_for-push_pending t es e h n = elim (Bool-cases (ltb 100 (length (es ++ e ∷ [])))) [
    | inl c ↦ rw c (queue_for-drop_nil _ t (es ++ e ∷ []) (queue_for-snoc t es e h n))
    | inr c ↦ rw c (queue_for-snoc t es e h n)
  ]

  pub queue_for-drop_id :
      (t id : ℕ) (es : List (PendingEntry R))
      → queue_for t es ≡ []
      → queue_for t (drop_id es id) ≡ []
  unfolding drop_id queue_for
  queue_for-drop_id t id [] h = refl
  queue_for-drop_id t id (e ∷ es) h = ground (arith, queue_for-drop_id t id es)

  pub queue_for-drop_for-nil :
      (t u : ℕ) (es : List (PendingEntry R))
      → queue_for t es ≡ []
      → queue_for t (drop_for es u) ≡ []
  unfolding drop_for queue_for
  queue_for-drop_for-nil t u [] h = refl
  queue_for-drop_for-nil t u (e ∷ es) h = ground (arith, queue_for-drop_for-nil t u es)
