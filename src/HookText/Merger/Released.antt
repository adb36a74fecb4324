-- ===== src/HookText/Merger/Released.antt =====
-- What the flushes of src/hook/text_bridge/merger.rs take out is what was waiting.
use anemone_rs.Base.{
  ℕ, zero, suc, ◌≡◌, refl, ap, ap₂, sym, ◌∙◌, ◌⊎◌, inl, inr, Bool-cases, Option-cases, none, some,
  List, [], ◌∷◌, ◌++◌, arith, ◌==◌, ltb, if◌then◌else◌, append-nil, append_assoc, length, Text,
}
use anemone_rs.HookText.LeadBytes.{HookSource, source_eq}
use anemone_rs.HookText.LeadBytes.Isolated.{source_eq→eq}
use anemone_rs.HookText.Merger.{
  PendingText, Pending, TextMerger, Flush, assign, release, release_all, pop_top, is_due, flush_due,
  flush_rest, flush_expired, drain_all, duration, set_window_ms, new,
}

-- The text that came out for a source, before it is trimmed, and the text that waits for it.
unfoldable pub out_text : HookSource → List (HookSource × PendingText) → Text
out_text s [] = []
out_text s (e ∷ es) = (if source_eq e.0 s then e.1.text else []) ++ out_text s es

unfoldable pub waiting_text : HookSource → Pending → Text
waiting_text s m = elim (m s) [ none ↦ [] | some p ↦ p.text ]

pub out_text-append :
    (s : HookSource) (xs ys : List (HookSource × PendingText))
    → out_text s (xs ++ ys) ≡ out_text s xs ++ out_text s ys
unfolding out_text
out_text-append s [] ys = refl
out_text-append s (x ∷ xs) ys =
    ap (λ t. (if source_eq x.0 s then x.1.text else []) ++ t) (out_text-append s xs ys)
    ∙ sym (append_assoc (if source_eq x.0 s then x.1.text else []) (out_text s xs) (out_text s ys))

-- Taking a buffer out moves its text from the waiting to what came out.
pub release-out_text :
    (s u : HookSource) (m : Pending)
    → out_text s (release u m).0 ++ waiting_text s (release u m).1 ≡ waiting_text s m
unfolding out_text waiting_text release assign
release-out_text s u m = elim (Option-cases (m u)) [
  | inl e ↦ ground (arith, e)
  | inr (p, e) ↦ elim (Bool-cases (source_eq u s)) [
    | inr n ↦ ground (arith, e, n)
    | inl y ↦ ground (arith, e, y, ap m (source_eq→eq u s y), append-nil p.text)
  ]
]

release_all-out_text :
    (s : HookSource) (us : List HookSource) (m : Pending)
    → out_text s (release_all us m).0 ++ waiting_text s (release_all us m).1 ≡ waiting_text s m
unfolding release_all out_text
release_all-out_text s [] m = refl
release_all-out_text s (u ∷ us) m =
    let (out, m') = release u m in
    let (rest, m'') = release_all us m' in
    ap (λ t. t ++ waiting_text s m'') (out_text-append s out rest)
    ∙ append_assoc (out_text s out) (out_text s rest) (waiting_text s m'')
    ∙ ap (λ t. out_text s out ++ t) (release_all-out_text s us m')
    ∙ release-out_text s u m

-- What one turn of the loop does.
data Turn (fuel now window : ℕ) (f : Flush) : Flush → Type 0 where
  stopped : Turn fuel now window f f
  skipped :
      (g : Flush)
      → g.expired ≡ f.expired
      → g.pending ≡ f.pending
      → Turn fuel now window f (flush_due fuel now window g)
  released :
      (g : Flush) (u : HookSource)
      → g.expired ≡ f.expired ++ (release u f.pending).0
      → g.pending ≡ (release u f.pending).1
      → Turn fuel now window f (flush_due fuel now window g)

List-cases : {A : Type 0} (xs : List A) → (xs ≡ []) ⊎ ((y : A) × (ys : List A) × (xs ≡ y ∷ ys))
List-cases [] = inl refl
List-cases (x ∷ xs) = inr (x, xs, refl)

flush_due-Turn :
    (fuel now window : ℕ) (f : Flush) → Turn fuel now window f (flush_due (suc fuel) now window f)
unfolding flush_due
flush_due-Turn fuel now window f = elim (List-cases f.deadlines) [
  | inl e ↦ rw (flush_due (suc fuel) now window f, e) Turn.stopped
  | inr (d, ds, e) ↦
      let top = (pop_top d ds).0 in
      elim (Bool-cases (ltb now top.0)) [
        | inl y ↦ rw (flush_due (suc fuel) now window f, e, y) Turn.stopped
        | inr n ↦ elim (Bool-cases (is_due window top.0 (f.pending top.1))) [
          | inl y ↦
              rw (flush_due (suc fuel) now window f, e, n, y) (Turn.released _ top.1 refl refl)
          | inr k ↦ rw (flush_due (suc fuel) now window f, e, n, k) (Turn.skipped _ refl refl)
        ]
      ]
]

abbrev total : HookSource → Flush → Text
total s f = out_text s f.expired ++ waiting_text s f.pending

Turn-total :
    (s : HookSource) (fuel now window : ℕ) (f r : Flush)
    → ((g : Flush) → total s (flush_due fuel now window g) ≡ total s g)
    → Turn fuel now window f r
    → total s r ≡ total s f
Turn-total s fuel now window f _ h Turn.stopped = refl
Turn-total s fuel now window f _ h (Turn.skipped g e p) =
    h g ∙ ap₂ (λ a b. out_text s a ++ waiting_text s b) e p
Turn-total s fuel now window f _ h (Turn.released g u e p) =
    let out = (release u f.pending).0 in
    let left = waiting_text s (release u f.pending).1 in
    h g
    ∙ ap₂ (λ a b. out_text s a ++ waiting_text s b) e p
    ∙ ap (λ t. t ++ left) (out_text-append s f.expired out)
    ∙ append_assoc (out_text s f.expired) (out_text s out) left
    ∙ ap (λ t. out_text s f.expired ++ t) (release-out_text s u f.pending)

flush_due-out_text :
    (s : HookSource) (fuel now window : ℕ) (f : Flush)
    → total s (flush_due fuel now window f) ≡ total s f
unfolding flush_due
flush_due-out_text s zero now window f = refl
flush_due-out_text s (suc fuel) now window f =
    Turn-total s fuel now window f _ (λ g. flush_due-out_text s fuel now window g)
      (flush_due-Turn fuel now window f)

drained_first :
    (s : HookSource) (t : TextMerger) (f : Flush)
    → let all = if t.window_ms == 0 then release_all t.keys f.pending else ([], f.pending) in
      out_text s all.0 ++ waiting_text s all.1 ≡ waiting_text s f.pending
unfolding out_text
drained_first s t f = elim (Bool-cases (t.window_ms == 0)) [
  | inl e ↦ rw e (release_all-out_text s t.keys f.pending)
  | inr e ↦ rw e refl
]

flush_rest-out_text :
    (s : HookSource) (t : TextMerger) (f : Flush)
    → out_text s (flush_rest t f).0 ++ waiting_text s (flush_rest t f).1.pending ≡ total s f
unfolding flush_rest
flush_rest-out_text s t f =
    let all = if t.window_ms == 0 then release_all t.keys f.pending else ([], f.pending) in
    let long = release_all f.over_limit all.1 in
    let left = waiting_text s long.1 in
    ap (λ o. o ++ left)
      (out_text-append s f.expired (all.0 ++ long.0)
        ∙ ap (λ o. out_text s f.expired ++ o) (out_text-append s all.0 long.0))
    ∙ append_assoc (out_text s f.expired) (out_text s all.0 ++ out_text s long.0) left
    ∙ ap (λ o. out_text s f.expired ++ o)
        (append_assoc (out_text s all.0) (out_text s long.0) left
          ∙ ap (λ o. out_text s all.0 ++ o) (release_all-out_text s f.over_limit all.1)
          ∙ drained_first s t f)

pub flush_expired-out_text :
    (s : HookSource) (t : TextMerger) (now : ℕ)
    → out_text s (flush_expired t now).0 ++ waiting_text s (flush_expired t now).1.pending
      ≡ waiting_text s t.pending
unfolding flush_expired out_text
flush_expired-out_text s t now =
    flush_rest-out_text s t _
    ∙ flush_due-out_text s (length t.deadlines) now (duration t.window_ms) _

pub drain_all-out_text :
    (s : HookSource) (t : TextMerger)
    → out_text s (drain_all t).0 ++ waiting_text s (drain_all t).1.pending
      ≡ waiting_text s t.pending
unfolding drain_all
drain_all-out_text s t = release_all-out_text s t.keys t.pending

pub window_ms-set_window_ms :
    (t : TextMerger) (window : ℕ) → (set_window_ms t window).window_ms ≡ window
unfolding set_window_ms
window_ms-set_window_ms t window = refl

pub window_ms-new : (window : ℕ) → (new window).window_ms ≡ window
unfolding new
window_ms-new window = refl
