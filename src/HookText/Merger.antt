-- ===== src/HookText/Merger.antt =====
-- src/hook/text_bridge/merger.rs: the pieces that a source sends within a short time become one
-- text. Instants are nanoseconds; `keys` is an order in which the map's entries may be drained, and
-- a heap or a set is a list.
pub mod Released
pub mod Conserved
mod Tests
use anemone_rs.Base.{
  ℕ, zero, suc, ◌+◌, ◌-◌, ◌*◌, Bool, true, false, not, ◌&&◌, ◌||◌, Option, none, some, List, [],
  ◌∷◌, ◌++◌, map, ltb, leb, ◌==◌, if◌then◌else◌, length, Text, utf16_len, saturating_add,
}
use anemone_rs.HookText.LeadBytes.{HookSource, source_eq}
use anemone_rs.Update.Version.{trim}

abbrev pub max_buffer_chars : ℕ
max_buffer_chars = 3000

pub record HookText : Type 0 where
  pub source : HookSource
  pub hook_name : Text
  pub text : Text
  pub full_string : Bool

pub record PendingText : Type 0 where
  pub text : Text
  pub hook_name : Text
  pub last_seen : ℕ
  pub full_string : Bool
  pub char_count : ℕ

abbrev pub Pending : Type 0
Pending = HookSource → Option PendingText

pub record TextMerger : Type 0 where
  pub window_ms : ℕ
  pub pending : Pending
  pub keys : List HookSource
  pub deadlines : List (ℕ × HookSource)
  pub over_limit : List HookSource

-- `Duration::from_millis`
abbrev pub duration : ℕ → ℕ
duration ms = ms * 1000000

pub into_hook_text : HookSource × PendingText → HookText
into_hook_text e = record {
  source = e.0;
  hook_name = e.1.hook_name;
  text = trim e.1.text;
  full_string = e.1.full_string;
}

pub new : ℕ → TextMerger
new window_ms = record {
  window_ms = window_ms;
  pending = λ s. none;
  keys = [];
  deadlines = [];
  over_limit = [];
}

pub assign : HookSource → Option PendingText → Pending → Pending
assign s p m t = if source_eq s t then p else m t

pub remove_source : HookSource → List HookSource → List HookSource
remove_source s [] = []
remove_source s (t ∷ ts) = if source_eq s t then remove_source s ts else t ∷ remove_source s ts

-- `remove` on the map, with what came out.
pub release : HookSource → Pending → List (HookSource × PendingText) × Pending
release s m = elim (m s) [ none ↦ ([], m) | some p ↦ ((s, p) ∷ [], assign s none m) ]

-- `drain` on the map, or the loop over the sources that are too long.
pub release_all : List HookSource → Pending → List (HookSource × PendingText) × Pending
release_all [] m = ([], m)
release_all (s ∷ ss) m =
    let (out, m') = release s m in let (rest, m'') = release_all ss m' in (out ++ rest, m'')

pub deadlines_of : ℕ → Pending → List HookSource → List (ℕ × HookSource)
deadlines_of window m [] = []
deadlines_of window m (s ∷ ss) = elim (m s) [
  | none ↦ deadlines_of window m ss
  | some p ↦ (p.last_seen + window, s) ∷ deadlines_of window m ss
]

pub set_window_ms : TextMerger → ℕ → TextMerger
set_window_ms t window_ms = record {
  window_ms = window_ms;
  pending = t.pending;
  keys = t.keys;
  deadlines = if ltb 0 window_ms then deadlines_of (duration window_ms) t.pending t.keys else [];
  over_limit = t.over_limit;
}

-- Whether the window of a buffer has passed when the next piece comes.
pub is_expired : ℕ → ℕ → Option PendingText → Bool
is_expired window_ms received_at none = false
is_expired window_ms received_at (some p) =
    ltb 0 window_ms
    && (leb p.last_seen received_at && leb (duration window_ms) (received_at - p.last_seen))

-- What a piece adds to its buffer.
pub piece : HookText → Text
piece event =
    event.text ++ (if event.full_string && leb 2 (utf16_len event.text) then 10 ∷ [] else [])

pub extended : Option PendingText → HookText → ℕ → PendingText
extended none event received_at = record {
  text = piece event;
  hook_name = event.hook_name;
  last_seen = received_at;
  full_string = event.full_string;
  char_count = length event.text;
}
extended (some p) event received_at = record {
  text = p.text ++ piece event;
  hook_name = event.hook_name;
  last_seen = received_at;
  full_string = event.full_string;
  char_count = saturating_add p.char_count (length event.text);
}

-- `submit_at`, past the buffer that has expired.
pub append_piece : TextMerger → Pending → List HookSource → HookText → ℕ → TextMerger
append_piece t m over event received_at =
    let p = extended (m event.source) event received_at in
    record {
      window_ms = t.window_ms;
      pending = assign event.source (some p) m;
      keys = event.source ∷ remove_source event.source t.keys;
      deadlines =
          if ltb 0 t.window_ms
          then (received_at + duration t.window_ms, event.source) ∷ t.deadlines
          else t.deadlines;
      over_limit =
          if ltb max_buffer_chars p.char_count
          then event.source ∷ remove_source event.source over
          else over;
    }

-- What comes out is a text of the source, if anything.
pub submit_at : TextMerger → HookText → ℕ → List (HookSource × PendingText) × TextMerger
submit_at t event received_at =
    if is_expired t.window_ms received_at (t.pending event.source)
    then (let (out, m) = release event.source t.pending in
        (out, append_piece t m (remove_source event.source t.over_limit) event received_at))
    else ([], append_piece t t.pending t.over_limit event received_at)

-- The order of sources, and of the heap: the earliest deadline first, then the greater source.
pub source_gt : HookSource → HookSource → Bool
source_gt s t =
    ltb t.address s.address
    || ((s.address == t.address)
        && (ltb t.context s.context || ((s.context == t.context) && ltb t.subcontext s.subcontext)))

pub is_above : ℕ × HookSource → ℕ × HookSource → Bool
is_above a b = ltb a.0 b.0 || ((a.0 == b.0) && source_gt a.1 b.1)

-- The top of a heap, and the rest.
pub pop_top : ℕ × HookSource → List (ℕ × HookSource) → (ℕ × HookSource) × List (ℕ × HookSource)
pop_top a [] = (a, [])
pop_top a (b ∷ bs) =
    if is_above b a
    then (let (top, rest) = pop_top b bs in (top, a ∷ rest))
    else (let (top, rest) = pop_top a bs in (top, b ∷ rest))

pub is_due : ℕ → ℕ → Option PendingText → Bool
is_due window deadline none = false
is_due window deadline (some p) = p.last_seen + window == deadline

-- The state of the loop of `flush_expired`.
pub record Flush : Type 0 where
  pub expired : List (HookSource × PendingText)
  pub pending : Pending
  pub deadlines : List (ℕ × HookSource)
  pub over_limit : List HookSource

-- The loop over the deadlines that have passed; each turn takes one off the heap.
pub flush_due : ℕ → ℕ → ℕ → Flush → Flush
flush_due zero now window f = f
flush_due (suc fuel) now window f = elim f.deadlines [
  | [] ↦ f
  | d ∷ ds ↦
      let (top, rest) = pop_top d ds in
      let (out, m) = release top.1 f.pending in
      let skipped = flush_due fuel now window (record {
        expired = f.expired;
        pending = f.pending;
        deadlines = rest;
        over_limit = f.over_limit;
      }) in
      let released = flush_due fuel now window (record {
        expired = f.expired ++ out;
        pending = m;
        deadlines = rest;
        over_limit = remove_source top.1 f.over_limit;
      }) in
      if ltb now top.0
      then f
      else (if is_due window top.0 (f.pending top.1) then released else skipped)
]

-- The end of `flush_expired`: everything without a window, then the sources that are too long.
pub flush_rest : TextMerger → Flush → List (HookSource × PendingText) × TextMerger
flush_rest t f =
    let (all, m) = if t.window_ms == 0 then release_all t.keys f.pending else ([], f.pending) in
    let (long, m') = release_all f.over_limit m in
    (
      f.expired ++ (all ++ long),
      record {
        window_ms = t.window_ms;
        pending = m';
        keys = t.keys;
        deadlines = f.deadlines;
        over_limit = [];
      },
    )

pub flush_expired : TextMerger → ℕ → List (HookSource × PendingText) × TextMerger
flush_expired t now = flush_rest t (
    flush_due (length t.deadlines) now (duration t.window_ms) (record {
      expired = [];
      pending = t.pending;
      deadlines = t.deadlines;
      over_limit = t.over_limit;
    }))

pub drain_all : TextMerger → List (HookSource × PendingText) × TextMerger
drain_all t =
    let (out, m) = release_all t.keys t.pending in
    (
      out,
      record {
        window_ms = t.window_ms;
        pending = m;
        keys = t.keys;
        deadlines = [];
        over_limit = [];
      },
    )
