-- ===== src/Backlog.antt =====
-- src/app/backlog.rs: the history of translated sentences that the backlog window shows.
-- Texts are lists of scalar values; writing the exported text to a file is left out.
pub mod Evict
pub mod Push
pub mod Render
mod Tests
use anemone_rs.Base.{
  ℕ, ◌+◌, ◌-◌, Bool, true, false, ◌&&◌, ◌||◌, Option, none, some, List, [], ◌∷◌, ◌++◌, ltb,
  if◌then◌else◌, length, Text, utf8_len, utf16_len, saturating_add, map,
}
use mathlib.Core.List.{flatten}

abbrev pub max_backlog_entries : ℕ
max_backlog_entries = 1000

abbrev pub max_backlog_text_bytes : ℕ
max_backlog_text_bytes = 4194304

pub data TextKind : Type 0 where
  name original translation : TextKind

pub record StyledText : Type 0 where
  pub text : Text
  pub kind : TextKind

pub data BacklogFilter : Type 0 where
  original translation all : BacklogFilter

pub record LogEntry : Type 0 where
  pub name : Option Text
  pub original : Text
  pub translation : Option Text

pub record BacklogStore : Type 0 where
  pub entries : List LogEntry
  pub text_bytes : ℕ

pub new : BacklogStore
new = record { entries = []; text_bytes = 0 }

opt_len : Option Text → ℕ
opt_len none = 0
opt_len (some s) = utf8_len s

pub entry_text_bytes : LogEntry → ℕ
unfolding opt_len
entry_text_bytes e =
    saturating_add (saturating_add (opt_len e.name) (utf8_len e.original)) (opt_len e.translation)

-- The condition of the loop in `push`.
abbrev pub over_limit : ℕ → ℕ → Bool
over_limit len text_bytes =
    ltb max_backlog_entries len || (ltb max_backlog_text_bytes text_bytes && ltb 1 len)

-- The loop of `push`: entries leave at the front. The flag is the loop's `evicted`.
pub evict : List LogEntry → ℕ → Bool → BacklogStore × Bool
evict [] text_bytes evicted = (record { entries = []; text_bytes = text_bytes }, evicted)
evict (e ∷ es) text_bytes evicted =
    if over_limit (length (e ∷ es)) text_bytes
    then evict es (text_bytes - entry_text_bytes e) true
    else (record { entries = e ∷ es; text_bytes = text_bytes }, evicted)

pub push : BacklogStore → LogEntry → BacklogStore × Bool
push s entry =
    evict (s.entries ++ entry ∷ []) (saturating_add s.text_bytes (entry_text_bytes entry)) false

pub clear : BacklogStore → BacklogStore
clear s = record { entries = []; text_bytes = 0 }

abbrev pub line_feed : Text
line_feed = 13 ∷ 10 ∷ []

-- `format!("[{name}] ")`
abbrev pub name_tag : Text → Text
name_tag s = b'[' ∷ (s ++ b']' ∷ b' ' ∷ [])

abbrev pub shows_original : BacklogFilter → Bool
shows_original BacklogFilter.translation = false
shows_original _ = true

abbrev pub shows_translation : BacklogFilter → Bool
shows_translation BacklogFilter.original = false
shows_translation _ = true

abbrev pub with_linefeed : Bool → Text → TextKind → List StyledText
with_linefeed add_linefeed s k =
    record { text = s; kind = k }
    ∷ (if add_linefeed then record { text = line_feed; kind = k } ∷ [] else [])

name_segments : Option Text → BacklogFilter → List StyledText
name_segments none filter = []
name_segments (some s) filter =
    if shows_original filter then record { text = name_tag s; kind = TextKind.name } ∷ [] else []

original_segments : Text → BacklogFilter → Bool → List StyledText
original_segments s filter add_linefeed =
    if shows_original filter then with_linefeed add_linefeed s TextKind.original else []

translation_segments : Option Text → BacklogFilter → Bool → List StyledText
translation_segments none filter add_linefeed = []
translation_segments (some s) filter add_linefeed =
    if shows_translation filter then with_linefeed add_linefeed s TextKind.translation else []

pub format_entry : LogEntry → BacklogFilter → Bool → List StyledText
unfolding name_segments original_segments translation_segments
format_entry e filter add_linefeed =
    name_segments e.name filter
    ++ (original_segments e.original filter add_linefeed
        ++ translation_segments e.translation filter add_linefeed)

render_entries : List LogEntry → BacklogFilter → Bool → List StyledText
render_entries [] filter add_linefeed = []
render_entries (e ∷ es) filter add_linefeed =
    format_entry e filter add_linefeed ++ render_entries es filter add_linefeed

pub render : BacklogStore → BacklogFilter → Bool → List StyledText
unfolding render_entries
render s filter add_linefeed = render_entries s.entries filter add_linefeed

-- The code units of some segments: the inner sum of `render_entry_lengths`.
pub shown_units : List StyledText → ℕ
shown_units [] = 0
shown_units (t ∷ ts) = utf16_len t.text + shown_units ts

pub render_entry_lengths : BacklogStore → BacklogFilter → Bool → List ℕ
render_entry_lengths s filter add_linefeed =
    map (λ e. shown_units (format_entry e filter add_linefeed)) s.entries

export_name : Option Text → Text
export_name none = []
export_name (some s) = name_tag s

export_translation : Option Text → Text
export_translation none = []
export_translation (some s) = s ++ line_feed

export_entry : LogEntry → Text
unfolding export_name export_translation
export_entry e =
    export_name e.name
    ++ (e.original ++ (line_feed ++ (export_translation e.translation ++ line_feed)))

pub export_text : BacklogStore → Text
unfolding export_entry
export_text s = flatten (map export_entry s.entries)
