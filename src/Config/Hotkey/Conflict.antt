-- ===== src/Config/Hotkey/Conflict.antt =====
-- src/config/hotkey.rs: a conflict is reported just when two hotkeys are the same.
use anemone_rs.Base.{
  Bool, true, false, Option, none, some, ==_iff, ◌≡◌, ◌≢◌, ◌↔◌, refl, ap, sym, subst, inl, inr,
  arith, Bool-cases,
}
use anemone_rs.Config.Hotkey.{
  HotkeySpec, HotkeySlot, HotkeyConfig, spec_eq, bool_eq, get, entries, conflict_with,
  first_conflict, find_conflict,
}

bool_eq→eq : (a b : Bool) → bool_eq a b ≡ true → a ≡ b
bool_eq→eq true b h = sym h
bool_eq→eq false true h = cc
bool_eq→eq false false h = refl

bool_eq_refl : (a : Bool) → bool_eq a a ≡ true
bool_eq_refl true = refl
bool_eq_refl false = refl

pub spec_eq→eq : (a b : HotkeySpec) → spec_eq a b ≡ true → a ≡ b
unfolding spec_eq
spec_eq→eq a b h = grind (arith, bool_eq→eq, ==_iff)

pub spec_eq_refl : (a : HotkeySpec) → spec_eq a a ≡ true
unfolding spec_eq
spec_eq_refl a =
    ground
      (arith, bool_eq_refl a.ctrl, bool_eq_refl a.shift, bool_eq_refl a.alt, bool_eq_refl a.win)

abbrev Judged : HotkeyConfig → Option (HotkeySlot × HotkeySlot) → Type 0
Judged c none = (a b : HotkeySlot) → get c a ≡ get c b → a ≡ b
Judged c (some pair) = (pair.0 ≢ pair.1) × (get c pair.0 ≡ get c pair.1)

apart : (x y : HotkeySpec) → spec_eq x y ≡ false → x ≡ y → {A : Type 0} → A
apart x y n h = ground (arith, spec_eq_refl y, ap (λ z. spec_eq z y) h)

AllApart : HotkeyConfig → Type 0
AllApart c =
    (spec_eq c.toggle_window c.text_size_up ≡ false)
    × (spec_eq c.toggle_window c.text_size_down ≡ false)
    × (spec_eq c.toggle_window c.clipboard_watch ≡ false)
    × (spec_eq c.text_size_up c.text_size_down ≡ false)
    × (spec_eq c.text_size_up c.clipboard_watch ≡ false)
    × (spec_eq c.text_size_down c.clipboard_watch ≡ false)

all_apart : (c : HotkeyConfig) → AllApart c → (a b : HotkeySlot) → get c a ≡ get c b → a ≡ b
unfolding get AllApart
all_apart c n HotkeySlot.toggle_window HotkeySlot.toggle_window h = refl
all_apart c n HotkeySlot.toggle_window HotkeySlot.text_size_up h =
    apart c.toggle_window c.text_size_up n.0 (h)
all_apart c n HotkeySlot.toggle_window HotkeySlot.text_size_down h =
    apart c.toggle_window c.text_size_down n.1 (h)
all_apart c n HotkeySlot.toggle_window HotkeySlot.clipboard_watch h =
    apart c.toggle_window c.clipboard_watch n.2 (h)
all_apart c n HotkeySlot.text_size_up HotkeySlot.toggle_window h =
    apart c.toggle_window c.text_size_up n.0 (sym h)
all_apart c n HotkeySlot.text_size_up HotkeySlot.text_size_up h = refl
all_apart c n HotkeySlot.text_size_up HotkeySlot.text_size_down h =
    apart c.text_size_up c.text_size_down n.3 (h)
all_apart c n HotkeySlot.text_size_up HotkeySlot.clipboard_watch h =
    apart c.text_size_up c.clipboard_watch n.4 (h)
all_apart c n HotkeySlot.text_size_down HotkeySlot.toggle_window h =
    apart c.toggle_window c.text_size_down n.1 (sym h)
all_apart c n HotkeySlot.text_size_down HotkeySlot.text_size_up h =
    apart c.text_size_up c.text_size_down n.3 (sym h)
all_apart c n HotkeySlot.text_size_down HotkeySlot.text_size_down h = refl
all_apart c n HotkeySlot.text_size_down HotkeySlot.clipboard_watch h =
    apart c.text_size_down c.clipboard_watch n.5 (h)
all_apart c n HotkeySlot.clipboard_watch HotkeySlot.toggle_window h =
    apart c.toggle_window c.clipboard_watch n.2 (sym h)
all_apart c n HotkeySlot.clipboard_watch HotkeySlot.text_size_up h =
    apart c.text_size_up c.clipboard_watch n.4 (sym h)
all_apart c n HotkeySlot.clipboard_watch HotkeySlot.text_size_down h =
    apart c.text_size_down c.clipboard_watch n.5 (sym h)
all_apart c n HotkeySlot.clipboard_watch HotkeySlot.clipboard_watch h = refl

reported :
    (c : HotkeyConfig) (a b : HotkeySlot)
    → find_conflict c ≡ some (a, b)
    → a ≢ b
    → spec_eq (get c a) (get c b) ≡ true
    → Judged c (find_conflict c)
reported c a b found distinct same =
    subst (Judged c) (sym found) (distinct, spec_eq→eq (get c a) (get c b) same)

find_conflict-Judged : (c : HotkeyConfig) → Judged c (find_conflict c)
unfolding find_conflict entries first_conflict conflict_with get AllApart
find_conflict-Judged c = elim (Bool-cases (spec_eq c.toggle_window c.text_size_up)) [
  | inl e ↦ reported c HotkeySlot.toggle_window HotkeySlot.text_size_up (ground arith) (λ h. cc) e
  | inr n0 ↦ elim (Bool-cases (spec_eq c.toggle_window c.text_size_down)) [
    | inl e ↦
        reported c HotkeySlot.toggle_window HotkeySlot.text_size_down (ground arith) (λ h. cc) e
    | inr n1 ↦ elim (Bool-cases (spec_eq c.toggle_window c.clipboard_watch)) [
      | inl e ↦
          reported c HotkeySlot.toggle_window HotkeySlot.clipboard_watch (ground arith) (λ h. cc) e
      | inr n2 ↦ elim (Bool-cases (spec_eq c.text_size_up c.text_size_down)) [
        | inl e ↦
            reported c HotkeySlot.text_size_up HotkeySlot.text_size_down (ground arith) (λ h. cc) e
        | inr n3 ↦ elim (Bool-cases (spec_eq c.text_size_up c.clipboard_watch)) [
          | inl e ↦
              reported c HotkeySlot.text_size_up HotkeySlot.clipboard_watch (ground arith) (λ h. cc)
                e
          | inr n4 ↦ elim (Bool-cases (spec_eq c.text_size_down c.clipboard_watch)) [
            | inl e ↦
                reported c HotkeySlot.text_size_down HotkeySlot.clipboard_watch (ground arith)
                  (λ h. cc) e
            | inr n5 ↦
                let found : find_conflict c ≡ none = ground arith in
                subst (Judged c) (sym found) (all_apart c (n0, n1, n2, n3, n4, n5))
          ]
        ]
      ]
    ]
  ]
]

-- Two slots with the same hotkey.
abbrev pub Clash : HotkeyConfig → HotkeySlot × HotkeySlot → Type 0
Clash c pair = (pair.0 ≢ pair.1) × (get c pair.0 ≡ get c pair.1)

from_Judged :
    (c : HotkeyConfig) (o : Option (HotkeySlot × HotkeySlot))
    → Judged c o
    → ((pair : HotkeySlot × HotkeySlot) × (o ≡ some pair))
      ↔ ((pair : HotkeySlot × HotkeySlot) × Clash c pair)
from_Judged c none judged = (
  (λ found. ground (arith, found.1)),
  λ clash. ground (arith, clash.1.0 (judged clash.0.0 clash.0.1 clash.1.1)),
)
from_Judged c (some pair) judged = ((λ found. (pair, judged)), λ clash. (pair, refl))

-- A conflict is reported just when two slots have the same hotkey.
pub find_conflict_iff :
    (c : HotkeyConfig)
    → ((pair : HotkeySlot × HotkeySlot) × (find_conflict c ≡ some pair))
      ↔ ((pair : HotkeySlot × HotkeySlot) × Clash c pair)
find_conflict_iff c = from_Judged c (find_conflict c) (find_conflict-Judged c)
