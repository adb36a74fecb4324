-- ===== src/Backlog/Render.antt =====
-- The display of src/app/backlog.rs: `render`, `render_entry_lengths` and the filters.
use anemone_rs.Base.{
  ℕ, zero, suc, ◌+◌, ◌≡◌, ◌≢◌, refl, ap, sym, ◌∙◌, Bool, true, false, Option, none, some, Text,
  List, [], ◌∷◌, ◌++◌, append_assoc, append-nil, map, arith, take, drop, take-append-drop, ltb,
}
use anemone_rs.Backlog.{
  LogEntry, BacklogStore, StyledText, TextKind, BacklogFilter, push, format_entry, name_segments,
  original_segments, translation_segments, render, render_entries, shown_units,
  render_entry_lengths,
}
use anemone_rs.Backlog.Push.{IsValid, Fits, push-Evicts}

render_entries-append :
    (xs ys : List LogEntry) (f : BacklogFilter) (b : Bool)
    → render_entries (xs ++ ys) f b ≡ render_entries xs f b ++ render_entries ys f b
unfolding render_entries
render_entries-append [] ys f b = refl
render_entries-append (x ∷ xs) ys f b = simp (render_entries-append xs ys, append_assoc)

render_entries-split :
    (n : ℕ) (xs : List LogEntry) (f : BacklogFilter) (b : Bool)
    → render_entries xs f b ≡ render_entries (take n xs) f b ++ render_entries (drop n xs) f b
render_entries-split n xs f b =
    ap (λ ys. render_entries ys f b) (sym (take-append-drop n xs))
    ∙ render_entries-append (take n xs) (drop n xs) f b

-- On a valid store, a push of a fitting entry drops some number of oldest entries, which is
-- reported by its flag: the display before, followed by the new entry's segments, is the display
-- of the dropped entries followed by the display after the push.
pub render-push :
    (s : BacklogStore) (e : LogEntry) (f : BacklogFilter) (b : Bool)
    → IsValid s
    → Fits e
    → (n : ℕ) × ((push s e).1 ≡ ltb 0 n)
      × (render s f b ++ format_entry e f b
          ≡ render (record s { entries = take n (s.entries ++ e ∷ []) }) f b
            ++ render (push s e).0 f b)
unfolding render
render-push s e f b v h =
    let r = push-Evicts s e v h in
    (r.dropped, r.flag, rw r.kept (shown ∙ render_entries-split r.dropped _ f b))
  where
    shown :
        render_entries s.entries f b ++ format_entry e f b
        ≡ render_entries (s.entries ++ e ∷ []) f b
    shown = sym (render_entries-append s.entries (e ∷ []) f b ∙ ap (◌++◌ _) (append-nil _))

shown_units-append :
    (xs ys : List StyledText) → shown_units (xs ++ ys) ≡ shown_units xs + shown_units ys
unfolding shown_units
shown_units-append [] ys = omega arith
shown_units-append (x ∷ xs) ys = omega (arith, shown_units-append xs ys)

pub sum : List ℕ → ℕ
sum [] = 0
sum (x ∷ xs) = x + sum xs

shown_units-take :
    (n : ℕ) (es : List LogEntry) (f : BacklogFilter) (b : Bool)
    → shown_units (render_entries (take n es) f b)
      ≡ sum (take n (map (λ e. shown_units (format_entry e f b)) es))
unfolding sum shown_units render_entries
shown_units-take zero es f b = refl
shown_units-take (suc n) [] f b = refl
shown_units-take (suc n) (e ∷ es) f b =
    shown_units-append (format_entry e f b) (render_entries (take n es) f b)
    ∙ ap (◌+◌ _) (shown_units-take n es f b)

-- The lengths that `render_entry_lengths` reports for the first `n` entries add up to the UTF-16
-- code units that these entries take in the display.
pub shown_units-render :
    (s : BacklogStore) (n : ℕ) (f : BacklogFilter) (b : Bool)
    → shown_units (render (record s { entries = take n s.entries }) f b)
      ≡ sum (take n (render_entry_lengths s f b))
unfolding render render_entry_lengths
shown_units-render s n f b = shown_units-take n s.entries f b

abbrev pub AllKinds : (TextKind → Type 0) → List StyledText → Type 0
AllKinds P [] = Unit {0}
AllKinds P (t ∷ ts) = P t.kind × AllKinds P ts

AllKinds-append :
    (P : TextKind → Type 0) (xs ys : List StyledText)
    → AllKinds P xs
    → AllKinds P ys
    → AllKinds P (xs ++ ys)
AllKinds-append P [] ys h k = k
AllKinds-append P (x ∷ xs) ys h k = (h.0, AllKinds-append P xs ys h.1 k)

-- The kinds of text that a filter lets through.
abbrev pub Shows : BacklogFilter → TextKind → Type 0
Shows BacklogFilter.original k = k ≢ TextKind.translation
Shows BacklogFilter.translation k = k ≡ TextKind.translation
Shows BacklogFilter.all k = Unit

name-Shows : (o : Option Text) (f : BacklogFilter) → AllKinds (Shows f) (name_segments o f)
unfolding format_entry
name-Shows none f = tt
name-Shows (some s) BacklogFilter.original = ((λ e. cc), tt)
name-Shows (some s) BacklogFilter.translation = tt
name-Shows (some s) BacklogFilter.all = (tt, tt)

original-Shows :
    (s : Text) (f : BacklogFilter) (b : Bool) → AllKinds (Shows f) (original_segments s f b)
unfolding format_entry
original-Shows s BacklogFilter.original true = ((λ e. cc), ((λ e. cc), tt))
original-Shows s BacklogFilter.original false = ((λ e. cc), tt)
original-Shows s BacklogFilter.translation b = tt
original-Shows s BacklogFilter.all true = (tt, (tt, tt))
original-Shows s BacklogFilter.all false = (tt, tt)

translation-Shows :
    (o : Option Text) (f : BacklogFilter) (b : Bool)
    → AllKinds (Shows f) (translation_segments o f b)
unfolding format_entry
translation-Shows none f b = tt
translation-Shows (some s) BacklogFilter.original b = tt
translation-Shows (some s) BacklogFilter.translation true = (refl, (refl, tt))
translation-Shows (some s) BacklogFilter.translation false = (refl, tt)
translation-Shows (some s) BacklogFilter.all true = (tt, (tt, tt))
translation-Shows (some s) BacklogFilter.all false = (tt, tt)

render_entries-Shows :
    (es : List LogEntry) (f : BacklogFilter) (b : Bool) → AllKinds (Shows f) (render_entries es f b)
unfolding render_entries format_entry
render_entries-Shows [] f b = tt
render_entries-Shows (e ∷ es) f b =
    AllKinds-append (Shows f) (format_entry e f b) _
      (AllKinds-append (Shows f) _ _ (name-Shows e.name f) (
        AllKinds-append (Shows f) _ _ (original-Shows e.original f b)
          (translation-Shows e.translation f b)))
      (render_entries-Shows es f b)

-- The display under the filter for originals has no segment of a translation, and the display
-- under the filter for translations has no other segment.
pub render-Shows :
    (s : BacklogStore) (f : BacklogFilter) (b : Bool) → AllKinds (Shows f) (render s f b)
unfolding render
render-Shows s f b = render_entries-Shows s.entries f b
