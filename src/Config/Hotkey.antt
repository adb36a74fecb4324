-- ===== src/Config/Hotkey.antt =====
-- src/config/hotkey.rs: the hotkeys, as they are written in the settings' file and as they are
-- registered. The virtual key codes of Win32 are a parameter: the code of each row of the table.
pub mod RoundTrip
pub mod Conflict
use anemone_rs.Base.{
  ℕ, suc, Bool, true, false, ◌&&◌, ◌||◌, Option, none, some, List, [], ◌∷◌, ◌++◌, if◌then◌else◌,
  ◌==◌, find, Text, text_eq, is_empty, to_ascii_lowercase, eq_ignore_ascii_case, ◌⊎◌, inl, inr,
}
use anemone_rs.Update.Version.{trim, split}

pub record HotkeySpec : Type 0 where
  pub ctrl : Bool
  pub shift : Bool
  pub alt : Bool
  pub win : Bool
  pub vk : ℕ

pub data HotkeyParseError : Type 0 where
  empty missing_key : HotkeyParseError
  unknown_key : Text → HotkeyParseError

-- The names of the rows of the table, in their order.
abbrev pub key_names : List Text
key_names =
    (65 ∷ [])
    ∷ (66 ∷ [])
    ∷ (67 ∷ [])
    ∷ (68 ∷ [])
    ∷ (69 ∷ [])
    ∷ (70 ∷ [])
    ∷ (71 ∷ [])
    ∷ (72 ∷ [])
    ∷ (73 ∷ [])
    ∷ (74 ∷ [])
    ∷ (75 ∷ [])
    ∷ (76 ∷ [])
    ∷ (77 ∷ [])
    ∷ (78 ∷ [])
    ∷ (79 ∷ [])
    ∷ (80 ∷ [])
    ∷ (81 ∷ [])
    ∷ (82 ∷ [])
    ∷ (83 ∷ [])
    ∷ (84 ∷ [])
    ∷ (85 ∷ [])
    ∷ (86 ∷ [])
    ∷ (87 ∷ [])
    ∷ (88 ∷ [])
    ∷ (89 ∷ [])
    ∷ (90 ∷ [])
    ∷ (48 ∷ [])
    ∷ (49 ∷ [])
    ∷ (50 ∷ [])
    ∷ (51 ∷ [])
    ∷ (52 ∷ [])
    ∷ (53 ∷ [])
    ∷ (54 ∷ [])
    ∷ (55 ∷ [])
    ∷ (56 ∷ [])
    ∷ (57 ∷ [])
    ∷ (85 ∷ 112 ∷ [])
    ∷ (68 ∷ 111 ∷ 119 ∷ 110 ∷ [])
    ∷ (76 ∷ 101 ∷ 102 ∷ 116 ∷ [])
    ∷ (82 ∷ 105 ∷ 103 ∷ 104 ∷ 116 ∷ [])
    ∷ (83 ∷ 112 ∷ 97 ∷ 99 ∷ 101 ∷ [])
    ∷ (84 ∷ 97 ∷ 98 ∷ [])
    ∷ (70 ∷ 49 ∷ [])
    ∷ (70 ∷ 50 ∷ [])
    ∷ (70 ∷ 51 ∷ [])
    ∷ (70 ∷ 52 ∷ [])
    ∷ (70 ∷ 53 ∷ [])
    ∷ (70 ∷ 54 ∷ [])
    ∷ (70 ∷ 55 ∷ [])
    ∷ (70 ∷ 56 ∷ [])
    ∷ (70 ∷ 57 ∷ [])
    ∷ (70 ∷ 49 ∷ 48 ∷ [])
    ∷ (70 ∷ 49 ∷ 49 ∷ [])
    ∷ (70 ∷ 49 ∷ 50 ∷ [])
    ∷ (59 ∷ [])
    ∷ (47 ∷ [])
    ∷ (96 ∷ [])
    ∷ (91 ∷ [])
    ∷ (92 ∷ [])
    ∷ (93 ∷ [])
    ∷ (39 ∷ [])
    ∷ (44 ∷ [])
    ∷ (45 ∷ [])
    ∷ (46 ∷ [])
    ∷ (61 ∷ [])
    ∷ []

abbrev pub bool_eq : Bool → Bool → Bool
bool_eq true b = b
bool_eq false true = false
bool_eq false false = true

-- The derived `==`.
unfoldable pub spec_eq : HotkeySpec → HotkeySpec → Bool
spec_eq a b =
    bool_eq a.ctrl b.ctrl
    && bool_eq a.shift b.shift
    && bool_eq a.alt b.alt
    && bool_eq a.win b.win
    && (a.vk == b.vk)

-- "Ctrl", "Shift", "Alt" and "Win".
abbrev pub ctrl_name : Text
ctrl_name = 67 ∷ 116 ∷ 114 ∷ 108 ∷ []

abbrev pub shift_name : Text
shift_name = 83 ∷ 104 ∷ 105 ∷ 102 ∷ 116 ∷ []

abbrev pub alt_name : Text
alt_name = 65 ∷ 108 ∷ 116 ∷ []

abbrev pub win_name : Text
win_name = 87 ∷ 105 ∷ 110 ∷ []

-- "control" and "windows".
abbrev pub control : Text
control = 99 ∷ 111 ∷ 110 ∷ 116 ∷ 114 ∷ 111 ∷ 108 ∷ []

abbrev pub windows : Text
windows = 119 ∷ 105 ∷ 110 ∷ 100 ∷ 111 ∷ 119 ∷ 115 ∷ []

-- `parts.join("+")`
unfoldable pub join_plus : List Text → Text
join_plus [] = []
join_plus (p ∷ []) = p
join_plus (p ∷ q ∷ ps) = p ++ b'+' ∷ join_plus (q ∷ ps)

abbrev pub push_if : Bool → Text → List Text → List Text
push_if b part rest = if b then part ∷ rest else rest

unfoldable pub is_one_of : Text → Text → Text → Bool
is_one_of s t u = text_eq s t || text_eq s u

-- What the loop of `from_str` has read.
pub record Read : Type 0 where
  pub ctrl : Bool
  pub shift : Bool
  pub alt : Bool
  pub win : Bool
  pub vk : Option ℕ

abbrev pub nothing_read : Read
nothing_read = record { ctrl = false; shift = false; alt = false; win = false; vk = none }

unfoldable pub finish : Read → HotkeyParseError ⊎ HotkeySpec
finish t = elim t.vk [
  | none ↦ inl HotkeyParseError.missing_key
  | some vk ↦ inr (record { ctrl = t.ctrl; shift = t.shift; alt = t.alt; win = t.win; vk = vk })
]

module _ (codes : ℕ → ℕ) where
  -- The table from the row `i` on.
  unfoldable pub rows : ℕ → List Text → List (Text × ℕ)
  rows i [] = []
  rows i (name ∷ names) = (name, codes i) ∷ rows (suc i) names

  abbrev pub key_table : List (Text × ℕ)
  key_table = rows 0 key_names

  abbrev second : Option (Text × ℕ) → Option ℕ
  second none = none
  second (some row) = some row.1

  abbrev first : Option (Text × ℕ) → Option Text
  first none = none
  first (some row) = some row.0

  unfoldable pub vk_from_key_name : Text → Option ℕ
  vk_from_key_name name = second (find (λ row. eq_ignore_ascii_case row.0 name) key_table)

  unfoldable pub key_name_from_vk : ℕ → Option Text
  key_name_from_vk vk = first (find (λ row. row.1 == vk) key_table)

  unfoldable pub is_valid : HotkeySpec → Bool
  unfolding key_name_from_vk
  is_valid spec = elim (key_name_from_vk spec.vk) [ none ↦ false | some name ↦ true ]

  abbrev unwrap_or_mark : Option Text → Text
  unwrap_or_mark none = b'?' ∷ []
  unwrap_or_mark (some name) = name

  unfoldable pub parts : HotkeySpec → List Text
  parts spec = push_if spec.ctrl ctrl_name (
      push_if spec.shift shift_name (
        push_if spec.alt alt_name
          (push_if spec.win win_name (unwrap_or_mark (key_name_from_vk spec.vk) ∷ []))))

  unfoldable pub fmt : HotkeySpec → Text
  fmt spec = join_plus (parts spec)

  -- One turn of the loop, on the trimmed token.
  unfoldable pub read_token : Read → Text → HotkeyParseError ⊎ Read
  read_token t token =
      let lower = to_ascii_lowercase token in
      if is_empty token
      then inr t
      else if is_one_of lower (to_ascii_lowercase ctrl_name) control
      then inr (record t { ctrl = true })
      else if text_eq lower (to_ascii_lowercase shift_name)
      then inr (record t { shift = true })
      else if text_eq lower (to_ascii_lowercase alt_name)
      then inr (record t { alt = true })
      else if is_one_of lower (to_ascii_lowercase win_name) windows
      then inr (record t { win = true })
      else elim (vk_from_key_name token) [
        | none ↦ inl (HotkeyParseError.unknown_key token)
        | some vk ↦ inr (record t { vk = some vk })
      ]

  unfoldable pub read_tokens : Read → List Text → HotkeyParseError ⊎ Read
  read_tokens t [] = inr t
  read_tokens t (token ∷ tokens) = elim (read_token t (trim token)) [
    | inl e ↦ inl e
    | inr t' ↦ read_tokens t' tokens
  ]

  unfoldable pub from_str : Text → HotkeyParseError ⊎ HotkeySpec
  from_str s =
      let trimmed = trim s in
      if is_empty trimmed
      then inl HotkeyParseError.empty
      else elim (read_tokens nothing_read (split b'+' trimmed)) [ inl e ↦ inl e | inr t ↦ finish t ]

pub data HotkeySlot : Type 0 where
  toggle_window text_size_up text_size_down clipboard_watch : HotkeySlot

pub record HotkeyConfig : Type 0 where
  pub toggle_window : HotkeySpec
  pub text_size_up : HotkeySpec
  pub text_size_down : HotkeySpec
  pub clipboard_watch : HotkeySpec

-- The derived `==`.
unfoldable pub hotkeys_eq : HotkeyConfig → HotkeyConfig → Bool
hotkeys_eq a b =
    spec_eq a.toggle_window b.toggle_window
    && spec_eq a.text_size_up b.text_size_up
    && spec_eq a.text_size_down b.text_size_down
    && spec_eq a.clipboard_watch b.clipboard_watch

abbrev ctrl_shift : ℕ → HotkeySpec
ctrl_shift vk = record { ctrl = true; shift = true; alt = false; win = false; vk = vk }

-- The rows of A, Up, Down and C.
abbrev pub default_hotkeys : (ℕ → ℕ) → HotkeyConfig
default_hotkeys codes = record {
  toggle_window = ctrl_shift (codes 0);
  text_size_up = ctrl_shift (codes 36);
  text_size_down = ctrl_shift (codes 37);
  clipboard_watch = ctrl_shift (codes 2);
}

unfoldable pub get : HotkeyConfig → HotkeySlot → HotkeySpec
get c HotkeySlot.toggle_window = c.toggle_window
get c HotkeySlot.text_size_up = c.text_size_up
get c HotkeySlot.text_size_down = c.text_size_down
get c HotkeySlot.clipboard_watch = c.clipboard_watch

unfoldable pub set : HotkeyConfig → HotkeySlot → HotkeySpec → HotkeyConfig
set c HotkeySlot.toggle_window spec = record c { toggle_window = spec }
set c HotkeySlot.text_size_up spec = record c { text_size_up = spec }
set c HotkeySlot.text_size_down spec = record c { text_size_down = spec }
set c HotkeySlot.clipboard_watch spec = record c { clipboard_watch = spec }

unfoldable pub entries : HotkeyConfig → List (HotkeySlot × HotkeySpec)
entries c =
    (HotkeySlot.toggle_window, c.toggle_window)
    ∷ (HotkeySlot.text_size_up, c.text_size_up)
    ∷ (HotkeySlot.text_size_down, c.text_size_down)
    ∷ (HotkeySlot.clipboard_watch, c.clipboard_watch)
    ∷ []

-- The inner loop of `find_conflict`.
unfoldable pub conflict_with :
    HotkeySlot → HotkeySpec → List (HotkeySlot × HotkeySpec) → Option (HotkeySlot × HotkeySlot)
conflict_with slot spec [] = none
conflict_with slot spec (e ∷ es) =
    if spec_eq spec e.1 then some (slot, e.0) else conflict_with slot spec es

unfoldable pub first_conflict : List (HotkeySlot × HotkeySpec) → Option (HotkeySlot × HotkeySlot)
first_conflict [] = none
first_conflict (e ∷ es) = elim (conflict_with e.0 e.1 es) [
  | none ↦ first_conflict es
  | some pair ↦ some pair
]

unfoldable pub find_conflict : HotkeyConfig → Option (HotkeySlot × HotkeySlot)
unfolding entries
find_conflict c = first_conflict (entries c)
