-- ===== src/AppState/Pending.antt =====
-- src/app/state.rs: the request whose answer the window waits for, and the text that waits to be read
-- from the clipboard. An instant is a number of nanoseconds.
use anemone_rs.Base.{
  ℕ, ◌-◌, Bool, true, false, Option, none, some, List, [], ◌∷◌, ◌≡◌, ◌⊎◌, refl, ap, ◌∙◌, inl, inr,
  ltb, ◌==◌, if◌then◌else◌, Bool-cases, Text,
}
use anemone_rs.AppState.Model.{PendingTranslation, CacheKey, ClipboardDebounce}

-- `HOOK_PENDING_TIMEOUT`
abbrev pub hook_pending_timeout : ℕ
hook_pending_timeout = 30000000000

-- `Instant::elapsed`, which stops at zero.
abbrev pub age : PendingTranslation → ℕ → ℕ
age p now = now - p.requested_at

unfoldable pub waits_for_pending_translation : Option ℕ → Bool
waits_for_pending_translation none = false
waits_for_pending_translation (some pending_age) = ltb pending_age hook_pending_timeout

-- `result` is the answer of the worker, an error or a translation.
pub record TranslationCompletion (T E : Type 0) : Type 0 where
  pub original : Text
  pub cache_key : CacheKey
  pub result : E ⊎ T

module _ {T E : Type 0} where
  abbrev pub completion : PendingTranslation → E ⊎ T → TranslationCompletion T E
  completion request result = record {
    original = request.original;
    cache_key = request.cache_key;
    result = result;
  }

  -- The completion, and what is pending afterwards.
  unfoldable pub correlate_translation :
      Option PendingTranslation
      → ℕ
      → E ⊎ T
      → Option (TranslationCompletion T E) × Option PendingTranslation
  correlate_translation none req_id result = (none, none)
  correlate_translation (some request) req_id result =
      if request.req_id == req_id
      then (some (completion request result), none)
      else (none, some request)

  abbrev pub cons_some :
      Option (TranslationCompletion T E)
      → List (TranslationCompletion T E)
      → List (TranslationCompletion T E)
  cons_some none rest = rest
  cons_some (some c) rest = c ∷ rest

  -- Answers one after the other, with the completions they gave.
  unfoldable pub correlate_all :
      Option PendingTranslation
      → List (ℕ × (E ⊎ T))
      → List (TranslationCompletion T E) × Option PendingTranslation
  correlate_all pending [] = ([], pending)
  correlate_all pending (a ∷ answers) =
      let (done, pending') = correlate_translation pending a.0 a.1 in
      let (rest, pending'') = correlate_all pending' answers in (cons_some done rest, pending'')

  -- The first answer that belongs to a request.
  unfoldable pub first_answer : PendingTranslation → List (ℕ × (E ⊎ T)) → Option (E ⊎ T)
  first_answer request [] = none
  first_answer request (a ∷ rest) =
      if request.req_id == a.0 then some a.1 else first_answer request rest

  -- What is done and what is pending once the first answer has come, or none has.
  abbrev pub settled :
      PendingTranslation
      → Option (E ⊎ T)
      → List (TranslationCompletion T E) × Option PendingTranslation
  settled request none = ([], some request)
  settled request (some result) = (completion request result ∷ [], none)

  correlate_all_none : (answers : List (ℕ × (E ⊎ T))) → correlate_all none answers ≡ ([], none)
  unfolding correlate_all correlate_translation
  correlate_all_none [] = refl
  correlate_all_none (a ∷ rest) = correlate_all_none rest

  correlate_first :
      (request : PendingTranslation) (a : ℕ × (E ⊎ T)) (rest : List (ℕ × (E ⊎ T)))
      → (request.req_id == a.0) ≡ true
      → correlate_all (some request) (a ∷ rest)
        ≡ (completion request a.1 ∷ (correlate_all none rest).0, (correlate_all none rest).1)
  unfolding correlate_all correlate_translation
  correlate_first request a rest h = rw (correlate_all, correlate_translation, h) refl

  correlate_stale :
      (request : PendingTranslation) (a : ℕ × (E ⊎ T)) (rest : List (ℕ × (E ⊎ T)))
      → (request.req_id == a.0) ≡ false
      → correlate_all (some request) (a ∷ rest) ≡ correlate_all (some request) rest
  unfolding correlate_all correlate_translation
  correlate_stale request a rest h = rw (correlate_all, correlate_translation, h) refl

  correlate_none :
      (request : PendingTranslation) → correlate_all (some request) [] ≡ ([], some request)
  unfolding correlate_all
  correlate_none request = refl

  -- Of all the answers that come, the first that belongs to the pending request completes it, and
  -- no other changes anything.
  pub correlate_all-settled :
      (request : PendingTranslation) (answers : List (ℕ × (E ⊎ T)))
      → correlate_all (some request) answers ≡ settled request (first_answer request answers)
  unfolding first_answer
  correlate_all-settled request [] = correlate_none request
  correlate_all-settled request (a ∷ rest) = elim (Bool-cases (request.req_id == a.0)) [
    | inl own ↦ rw (own) (
        correlate_first request a rest own
        ∙ ap (λ r. (completion request a.1 ∷ r.0, r.1)) (correlate_all_none rest))
    | inr stale ↦
        rw (stale) (correlate_stale request a rest stale ∙ correlate_all-settled request rest)
  ]

unfoldable pub submit : ClipboardDebounce → Text → ClipboardDebounce
submit d text = record { pending = some text }

unfoldable pub take : ClipboardDebounce → Option Text × ClipboardDebounce
take d = (d.pending, record { pending = none })

unfoldable pub clear : ClipboardDebounce → ClipboardDebounce
clear d = record { pending = none }
