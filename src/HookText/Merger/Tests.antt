-- ===== src/HookText/Merger/Tests.antt =====
-- Runs of src/hook/text_bridge/merger.rs with two sources, and the theorem at such a run.
use anemone_rs.Base.{◌≡◌, refl, false, List, [], ◌∷◌, ◌++◌, map, Text, is_whitespace, utf16_len}
use anemone_rs.Update.Version.{trim, trim_start, trim_end}
use anemone_rs.HookText.LeadBytes.{HookSource, source_eq}
use anemone_rs.HookText.Merger.{
  HookText, into_hook_text, new, assign, remove_source, release, release_all, deadlines_of,
  set_window_ms, is_expired, piece, extended, append_piece, submit_at, source_gt, is_above, pop_top,
  is_due, flush_due, flush_rest, flush_expired, drain_all,
}
use anemone_rs.HookText.Merger.Conserved
use anemone_rs.HookText.Merger.Conserved.{Event, perform, run, pieces}
use anemone_rs.HookText.Merger.Released.{out_text, waiting_text}

program : Unit {0}
unfolding is_whitespace utf16_len trim trim_start trim_end source_eq into_hook_text new assign
    remove_source release release_all deadlines_of set_window_ms is_expired piece extended
    append_piece submit_at source_gt is_above pop_top is_due flush_due flush_rest flush_expired
    drain_all perform run
program = tt

abbrev first : HookSource
first = record { address = 1; context = 0; subcontext = 0 }

abbrev second : HookSource
second = record { address = 2; context = 0; subcontext = 0 }

abbrev sends : HookSource → Text → HookText
sends s t = record { source = s; hook_name = []; text = t; full_string = false }

-- Two pieces within the window, one of another source, a late one, and a flush.
abbrev events : List Event
events =
    Event.submitted (sends first (b'a' ∷ [])) 0
    ∷ Event.submitted (sends second (b'x' ∷ [])) 1
    ∷ Event.submitted (sends first (b'b' ∷ [])) 5000000
    ∷ Event.submitted (sends first (b'c' ∷ [])) 25000000
    ∷ Event.flushed 30000000
    ∷ []

-- With a window of 10 ms the late piece lets the first two go, and the flush the other source's.
merged_run :
    map into_hook_text (run (new 10) events).0
    ≡ sends first (b'a' ∷ b'b' ∷ []) ∷ sends second (b'x' ∷ []) ∷ []
unfolding program
merged_run = refl

drained_run :
    map into_hook_text (run (new 10) (events ++ Event.drained ∷ [])).0
    ≡ sends first (b'a' ∷ b'b' ∷ []) ∷ sends second (b'x' ∷ []) ∷ sends first (b'c' ∷ []) ∷ []
unfolding program
drained_run = refl

run-pieces_example :
    out_text first (run (new 10) events).0 ++ waiting_text first (run (new 10) events).1.pending
    ≡ pieces first events
run-pieces_example = Conserved.run-pieces 10 first events
