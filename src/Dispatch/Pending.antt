-- ===== src/Dispatch/Pending.antt =====
-- What src/translation/worker/state.rs keeps of the responses that nobody has taken.
use anemone_rs.Base.{
  ℕ, ◌-◌, ◌≤◌, ◌≡◌, refl, ◌∙◌, inl, inr, false, Bool-cases, Option-cases, none, some, List, [], ◌∷◌,
  ◌++◌, arith, ◌==◌, length, length-append, length-drop, if◌then◌else◌,
}
use anemone_rs.Dispatch.{
  PendingEntry, TranslationResponse, push_pending, take_pending, keep_going, drop_for,
}

module _ {R : Type 0} where
  -- The store never holds more than a hundred responses, and the newest is the last of them.
  pub length-push_pending :
      (es : List (PendingEntry R)) (e : PendingEntry R)
      → length es ≤ 100
      → length (push_pending es e) ≤ 100
  unfolding push_pending
  length-push_pending es e h =
      ground
        (arith, length-append es (e ∷ []), length-drop (length (es ++ e ∷ []) - 100) (es ++ e ∷ []))

  -- The responses for one target, oldest first.
  unfoldable pub queue_for : ℕ → List (PendingEntry R) → List (PendingEntry R)
  queue_for target [] = []
  queue_for target (e ∷ es) =
      if e.target == target then e ∷ queue_for target es else queue_for target es

  -- What taking for `target` leaves: the oldest response for it is gone, and all other targets'
  -- queues are as before.
  pub record Took (target : ℕ) (es : List (PendingEntry R)) (id : ℕ) (r : TranslationResponse R)
      (rest : List (PendingEntry R)) : Type 0 where
    pub entry : PendingEntry R
    pub first : queue_for target es ≡ entry ∷ queue_for target rest
    pub fields : (entry.req_id ≡ id) × (entry.response ≡ r)
    pub others : (t : ℕ) → ((t == target) ≡ false) → queue_for t rest ≡ queue_for t es

  -- A response that is taken for a target is the oldest that waits for it, with its id; the rest of
  -- its queue follows, and the queues of all other targets are as before.
  pub take_pending-Took :
      (es : List (PendingEntry R)) (target id : ℕ) (r : TranslationResponse R)
      (rest : List (PendingEntry R))
      → take_pending es target ≡ some ((id, r), rest)
      → Took target es id r rest
  unfolding take_pending keep_going queue_for
  take_pending-Took [] target id r rest h = ground arith
  take_pending-Took (e ∷ es) target id r rest h = elim (Bool-cases (e.target == target)) [
    | inl c ↦
        let same : (es ≡ rest) × (e.req_id ≡ id) × (e.response ≡ r) = ground (arith, c, h) in
        record {
          entry = e;
          first = rw (c, same.0) refl;
          fields = (same.1, same.2);
          others = λ t n. ground (arith, c, n, same.0);
        }
    | inr c ↦ elim (Option-cases (take_pending es target)) [
      | inl f ↦ ground (arith, c, f, h)
      | inr (((id', r'), left), f) ↦
          let same : (id' ≡ id) × (r' ≡ r) × (e ∷ left ≡ rest) = ground (arith, c, f, h) in
          let i = take_pending-Took es target id' r' left f in
          record {
            entry = i.entry;
            first = rw (c, ← same.2, c) i.first;
            fields = (i.fields.0 ∙ same.0, i.fields.1 ∙ same.1);
            others = λ t n. ground (arith, same.2, i.others t n);
          }
    ]
  ]

  pub take_pending-none :
      (es : List (PendingEntry R)) (target : ℕ)
      → queue_for target es ≡ []
      → take_pending es target ≡ none
  unfolding take_pending keep_going queue_for
  take_pending-none [] target h = refl
  take_pending-none (e ∷ es) target h = ground (arith, take_pending-none es target)

  pub take_pending-some :
      (es rest : List (PendingEntry R)) (target : ℕ) (e : PendingEntry R)
      → queue_for target es ≡ e ∷ rest
      → (left : List (PendingEntry R)) × (take_pending es target
          ≡ some ((e.req_id, e.response), left))
  unfolding take_pending keep_going queue_for
  take_pending-some [] rest target e h = ground arith
  take_pending-some (x ∷ es) rest target e h = elim (Bool-cases (x.target == target)) [
    | inl c ↦ (es, ground (arith, c, h))
    | inr c ↦
        let (left, f) = take_pending-some es rest target e (ground (arith, c, h)) in
        (x ∷ left, rw (c, f) refl)
  ]

  pub queue_for-drop_for :
      (es : List (PendingEntry R)) (target : ℕ) → queue_for target (drop_for es target) ≡ []
  unfolding drop_for queue_for
  queue_for-drop_for [] target = refl
  queue_for-drop_for (e ∷ es) target = ground (arith, queue_for-drop_for es target)
