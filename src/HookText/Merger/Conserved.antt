-- ===== src/HookText/Merger/Conserved.antt =====
-- That src/hook/text_bridge/merger.rs loses, repeats and moves no text of a source.
use anemone_rs.Base.{
  ℕ, ◌≡◌, refl, ap, sym, ◌∙◌, inl, inr, Bool, true, false, Bool-cases, Option, none, some, List, [],
  ◌∷◌, ◌++◌, if◌then◌else◌, append-nil, append_assoc, Text, ltb, leb, utf16_len, arith, ◌&&◌,
}
use anemone_rs.HookText.LeadBytes.{HookSource, source_eq}
use anemone_rs.HookText.LeadBytes.Isolated.{source_eq→eq}
use anemone_rs.HookText.Merger.{
  HookText, PendingText, Pending, TextMerger, new, assign, release, set_window_ms, is_expired,
  piece, extended, append_piece, submit_at, flush_expired, drain_all, remove_source,
}
use anemone_rs.HookText.Merger.Released.{
  out_text, waiting_text, out_text-append, release-out_text, flush_expired-out_text,
  drain_all-out_text,
}

-- What the program does with a merger.
pub data Event : Type 0 where
  submitted : HookText → ℕ → Event
  flushed : ℕ → Event
  windowed : ℕ → Event
  drained : Event

unfoldable pub perform : TextMerger → Event → List (HookSource × PendingText) × TextMerger
perform t (Event.submitted event received_at) = submit_at t event received_at
perform t (Event.flushed now) = flush_expired t now
perform t (Event.windowed window_ms) = ([], set_window_ms t window_ms)
perform t Event.drained = drain_all t

unfoldable pub run : TextMerger → List Event → List (HookSource × PendingText) × TextMerger
run t [] = ([], t)
run t (e ∷ es) = let (out, t') = perform t e in let (rest, t'') = run t' es in (out ++ rest, t'')

-- A text as it is sent, and a line feed where it is a whole sentence of two code units or more: a
-- character past the basic plane is two.
unfoldable pub sentence : Bool → Text → Text
sentence false text = text
sentence true [] = []
sentence true (c ∷ []) = if ltb c 65536 then c ∷ [] else c ∷ 10 ∷ []
sentence true (c ∷ d ∷ text) = (c ∷ d ∷ text) ++ 10 ∷ []

-- The texts that a source sends, in their order.
unfoldable pub pieces : HookSource → List Event → Text
pieces s [] = []
pieces s (Event.submitted event received_at ∷ es) =
    (if source_eq event.source s then sentence event.full_string event.text else []) ++ pieces s es
pieces s (Event.flushed now ∷ es) = pieces s es
pieces s (Event.windowed window_ms ∷ es) = pieces s es
pieces s (Event.drained ∷ es) = pieces s es

utf16_len_pair : (c d : ℕ) (text : Text) → leb 2 (utf16_len (c ∷ d ∷ text)) ≡ true
unfolding utf16_len
utf16_len_pair c d text = ground arith

piece_at :
    (full : Bool) (text : Text)
    → text ++ (if full && leb 2 (utf16_len text) then 10 ∷ [] else []) ≡ sentence full text
unfolding sentence utf16_len
piece_at false text = append-nil text
piece_at true [] = refl
piece_at true (c ∷ []) = elim (Bool-cases (ltb c 65536)) [
  | inl small ↦ rw small refl
  | inr large ↦ rw large refl
]
piece_at true (c ∷ d ∷ text) = rw (utf16_len_pair c d text) refl

piece-sentence : (event : HookText) → piece event ≡ sentence event.full_string event.text
unfolding piece
piece-sentence event = piece_at event.full_string event.text

assign-waiting_text :
    (s u : HookSource) (p : PendingText) (m : Pending) (b : Bool)
    → source_eq u s ≡ b
    → waiting_text s (assign u (some p) m) ≡ (if b then p.text else waiting_text s m)
unfolding waiting_text assign
assign-waiting_text s u p m true y =
    ap (λ b. elim (if b then some p else m s) [ none ↦ [] | some q ↦ q.text ]) y
assign-waiting_text s u p m false n =
    ap (λ b. elim (if b then some p else m s) [ none ↦ [] | some q ↦ q.text ]) n

extended-text :
    (o : Option PendingText) (event : HookText) (received_at : ℕ)
    → (extended o event received_at).text ≡ elim o [ none ↦ [] | some p ↦ p.text ] ++ piece event
unfolding extended
extended-text none event received_at = refl
extended-text (some p) event received_at = refl

-- A piece is appended to what waits for its source.
append_piece-waiting_text :
    (s : HookSource) (t : TextMerger) (m : Pending) (over : List HookSource) (event : HookText)
    (received_at : ℕ)
    → waiting_text s (append_piece t m over event received_at).pending
      ≡ waiting_text s m ++ (if source_eq event.source s then piece event else [])
unfolding append_piece waiting_text assign
append_piece-waiting_text s t m over event received_at =
    let p = extended (m event.source) event received_at in
    elim (Bool-cases (source_eq event.source s)) [
      | inr n ↦
          assign-waiting_text s event.source p m false n
          ∙ sym (append-nil (waiting_text s m))
          ∙ ap (λ b. waiting_text s m ++ (if b then piece event else [])) (sym n)
      | inl y ↦
          assign-waiting_text s event.source p m true y
          ∙ extended-text (m event.source) event received_at
          ∙ ap (λ u. waiting_text u m ++ piece event) (source_eq→eq event.source s y)
          ∙ ap (λ b. waiting_text s m ++ (if b then piece event else [])) (sym y)
    ]

submit_at-out_text :
    (s : HookSource) (t : TextMerger) (event : HookText) (received_at : ℕ)
    → out_text s (submit_at t event received_at).0
        ++ waiting_text s (submit_at t event received_at).1.pending
      ≡ waiting_text s t.pending ++ (if source_eq event.source s then piece event else [])
unfolding submit_at out_text
submit_at-out_text s t event received_at =
    let add = if source_eq event.source s then piece event else [] in
    let (out, m) = release event.source t.pending in
    elim (Bool-cases (is_expired t.window_ms received_at (t.pending event.source))) [
      | inr n ↦ rw n (append_piece-waiting_text s t t.pending t.over_limit event received_at)
      | inl y ↦ rw y (
          ap (λ o. out_text s out ++ o)
            (append_piece-waiting_text s t m (remove_source event.source t.over_limit) event
              received_at)
          ∙ sym (append_assoc (out_text s out) (waiting_text s m) add)
          ∙ ap (λ o. o ++ add) (release-out_text s event.source t.pending))
    ]

perform-out_text :
    (s : HookSource) (t : TextMerger) (e : Event)
    → out_text s (perform t e).0 ++ waiting_text s (perform t e).1.pending
      ≡ waiting_text s t.pending ++ pieces s (e ∷ [])
unfolding perform pieces out_text set_window_ms
perform-out_text s t (Event.submitted event received_at) =
    submit_at-out_text s t event received_at
    ∙ ap (λ o. waiting_text s t.pending ++ (if source_eq event.source s then o else []))
        (piece-sentence event)
    ∙ ap (λ o. waiting_text s t.pending ++ o)
        (sym (
          append-nil
            (if source_eq event.source s then sentence event.full_string event.text else [])))
perform-out_text s t (Event.flushed now) =
    flush_expired-out_text s t now ∙ sym (append-nil (waiting_text s t.pending))
perform-out_text s t (Event.windowed window_ms) = sym (append-nil (waiting_text s t.pending))
perform-out_text s t Event.drained =
    drain_all-out_text s t ∙ sym (append-nil (waiting_text s t.pending))

pieces-cons :
    (s : HookSource) (e : Event) (es : List Event)
    → pieces s (e ∷ es) ≡ pieces s (e ∷ []) ++ pieces s es
unfolding pieces
pieces-cons s (Event.submitted event received_at) es =
    ap (λ o. o ++ pieces s es)
      (sym (
        append-nil
          (if source_eq event.source s then sentence event.full_string event.text else [])))
pieces-cons s (Event.flushed now) es = refl
pieces-cons s (Event.windowed window_ms) es = refl
pieces-cons s Event.drained es = refl

run-out_text :
    (s : HookSource) (t : TextMerger) (es : List Event)
    → out_text s (run t es).0 ++ waiting_text s (run t es).1.pending
      ≡ waiting_text s t.pending ++ pieces s es
unfolding run out_text pieces
run-out_text s t [] = sym (append-nil (waiting_text s t.pending))
run-out_text s t (e ∷ es) =
    let (out, t') = perform t e in
    let (rest, t'') = run t' es in
    ap (λ o. o ++ waiting_text s t''.pending) (out_text-append s out rest)
    ∙ append_assoc (out_text s out) (out_text s rest) (waiting_text s t''.pending)
    ∙ ap (λ o. out_text s out ++ o) (run-out_text s t' es)
    ∙ sym (append_assoc (out_text s out) (waiting_text s t'.pending) (pieces s es))
    ∙ ap (λ o. o ++ pieces s es) (perform-out_text s t e)
    ∙ append_assoc (waiting_text s t.pending) (pieces s (e ∷ [])) (pieces s es)
    ∙ ap (λ o. waiting_text s t.pending ++ o) (sym (pieces-cons s e es))

-- However pieces, flushes, changes of the window and drains follow each other on a new merger, what
-- came out for a source, before it is trimmed, followed by what waits for it is every text that the
-- source sent, in its order, with a line feed after each whole sentence of two code units or more:
-- no text is lost, repeated, moved or mixed with another source's.
pub run-pieces :
    (window_ms : ℕ) (s : HookSource) (es : List Event)
    → out_text s (run (new window_ms) es).0 ++ waiting_text s (run (new window_ms) es).1.pending
      ≡ pieces s es
unfolding new waiting_text
run-pieces window_ms s es = run-out_text s (new window_ms) es
