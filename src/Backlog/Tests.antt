-- ===== src/Backlog/Tests.antt =====
-- Runs of src/app/backlog.rs, and its theorems at concrete stores.
use anemone_rs.Base.{
  ℕ, ◌≡◌, refl, true, false, none, some, [], ◌∷◌, ◌++◌, ltb, take, arith, utf8_len, utf16_len, inl,
}
use anemone_rs.Backlog.{
  LogEntry, BacklogStore, BacklogFilter, entry_text_bytes, evict, push, format_entry, render,
  render_entry_lengths, shown_units, export_text,
}
use mathlib.Core.List.{flatten}
use anemone_rs.Backlog.Evict.{total_bytes, Evicts}
use anemone_rs.Backlog.Push
use anemone_rs.Backlog.Push.{IsValid, Fits}
use anemone_rs.Backlog.Render

program : Unit {0}
unfolding flatten entry_text_bytes evict push format_entry render render_entry_lengths shown_units
    export_text utf8_len utf16_len total_bytes
program = tt

abbrev line : LogEntry
line = record {
  name = some (0x3042 ∷ []);
  original = 0x3044 ∷ 0x1F600 ∷ [];
  translation = some (b'o' ∷ b'k' ∷ []);
}

abbrev plain : LogEntry
plain = record { name = none; original = b'a' ∷ []; translation = none }

abbrev one : BacklogStore
one = record { entries = line ∷ []; text_bytes = 12 }

line_bytes : entry_text_bytes line ≡ 12
unfolding program
line_bytes = refl

push_run : push one plain ≡ (record { entries = line ∷ plain ∷ []; text_bytes = 13 }, false)
unfolding program
push_run = refl

lengths_run : render_entry_lengths one BacklogFilter.all true ≡ 13 ∷ []
unfolding program
lengths_run = refl

export_run : export_text (record one { entries = plain ∷ [] }) ≡ b'a' ∷ 13 ∷ 10 ∷ 13 ∷ 10 ∷ []
unfolding program
export_run = refl

-- Two entries over the byte limit: the oldest leaves, and the new one stays though it is too long.
evict_run :
    evict (plain ∷ line ∷ []) 4194400 false
    ≡ (record { entries = line ∷ []; text_bytes = 4194399 }, true)
unfolding program
evict_run = refl

one-IsValid : IsValid one
unfolding program
one-IsValid = record {
  exact = refl;
  within = (omega arith, inl (omega arith));
  all_fit = (omega arith, tt);
}

plain-Fits : Fits plain
unfolding program
plain-Fits = omega arith

push-Evicts_example : Evicts (line ∷ plain ∷ []) false (push one plain)
push-Evicts_example = Push.push-Evicts one plain one-IsValid plain-Fits

render-push_example :
    (n : ℕ) × ((push one plain).1 ≡ ltb 0 n)
    × (render one BacklogFilter.all true ++ format_entry plain BacklogFilter.all true
        ≡ render (record one { entries = take n (line ∷ plain ∷ []) }) BacklogFilter.all true
          ++ render (push one plain).0 BacklogFilter.all true)
render-push_example = Render.render-push one plain BacklogFilter.all true one-IsValid plain-Fits
