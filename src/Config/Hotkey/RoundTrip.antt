-- ===== src/Config/Hotkey/RoundTrip.antt =====
-- src/config/hotkey.rs: a hotkey is read back from its text.
use anemone_rs.Base.{
  ℕ, suc, Bool, true, false, not, ◌&&◌, ◌||◌, Option, none, some, List, [], ◌∷◌, ◌++◌, all, ◌==◌,
  find, Option-cases, ascii_lower, Text, text_eq, is_empty, is_whitespace, to_ascii_lowercase,
  eq_ignore_ascii_case, eq_ignore_ascii_case_refl, ◌≡◌, refl, ap, inl, inr, arith, Bool-cases,
}
use anemone_rs.Update.Version.{trim, trim_start, trim_end, split, cons_head}
use anemone_rs.Update.Version.Split.{trim_end-cons}
use anemone_rs.Config.Hotkey.{
  HotkeySpec, Read, nothing_read, key_names, ctrl_name, shift_name, alt_name, win_name, control,
  windows, join_plus, push_if, is_one_of, finish, rows, key_table, vk_from_key_name,
  key_name_from_vk, is_valid, parts, fmt, read_token, read_tokens, from_str,
}

-- A text without white space and without a plus.
unfoldable plain : Text → Bool
plain = all (λ c. not (is_whitespace c) && not (c == b'+'))

unfoldable solid : Text → Bool
solid = all (λ c. not (is_whitespace c))

trim_start-solid : (s : Text) → solid s ≡ true → trim_start s ≡ s
unfolding trim_start solid
trim_start-solid [] h = refl
trim_start-solid (c ∷ s) h = ground arith

trim_end-solid : (s : Text) → solid s ≡ true → trim_end s ≡ s
unfolding solid trim_end
trim_end-solid [] h = refl
trim_end-solid (c ∷ s) h = trim_end-cons c s (ground arith) (trim_end-solid s (ground arith))

trim-solid : (s : Text) → solid s ≡ true → trim s ≡ s
unfolding trim
trim-solid s h = rw (trim_start-solid s h) (trim_end-solid s h)

plain-solid : (s : Text) → plain s ≡ true → solid s ≡ true
unfolding plain solid
plain-solid [] h = refl
plain-solid (c ∷ s) h = ground (arith, plain-solid s)

solid-append : (s t : Text) → solid s ≡ true → solid t ≡ true → solid (s ++ t) ≡ true
unfolding solid
solid-append [] t h k = k
solid-append (c ∷ s) t h k = ground (arith, solid-append s t)

split-plain : (s : Text) → plain s ≡ true → split b'+' s ≡ s ∷ []
unfolding split cons_head plain
split-plain [] h = refl
split-plain (c ∷ s) h = ground (arith, split-plain s)

split-plus : (s t : Text) → plain s ≡ true → split b'+' (s ++ b'+' ∷ t) ≡ s ∷ split b'+' t
unfolding split cons_head plain
split-plus [] t h = refl
split-plus (c ∷ s) t h = ground (arith, split-plus s t)

-- Texts that are joined are split again.
split-join_plus :
    (p : Text) (ps : List Text)
    → all plain (p ∷ ps) ≡ true
    → split b'+' (join_plus (p ∷ ps)) ≡ p ∷ ps
unfolding join_plus
split-join_plus p [] h = split-plain p (ground arith)
split-join_plus p (q ∷ ps) h =
    rw (split-plus p (join_plus (q ∷ ps)) (ground arith))
      (ap (◌∷◌ p) (split-join_plus q ps (ground arith)))

solid-join_plus : (ps : List Text) → all plain ps ≡ true → solid (join_plus ps) ≡ true
unfolding join_plus solid is_whitespace
solid-join_plus [] h = refl
solid-join_plus (p ∷ []) h = plain-solid p (ground arith)
solid-join_plus (p ∷ q ∷ ps) h =
    solid-append p (b'+' ∷ join_plus (q ∷ ps)) (plain-solid p (ground arith))
      (solid-join_plus (q ∷ ps) (ground arith))

is_empty-join_plus :
    (p : Text) (ps : List Text) → is_empty p ≡ false → is_empty (join_plus (p ∷ ps)) ≡ false
unfolding join_plus
is_empty-join_plus p [] h = h
is_empty-join_plus [] (q ∷ ps) h = refl
is_empty-join_plus (c ∷ p) (q ∷ ps) h = refl

split_joined :
    (ps : List Text)
    → all plain ps ≡ true
    → is_empty (join_plus ps) ≡ false
    → split b'+' (join_plus ps) ≡ ps
unfolding join_plus
split_joined [] h full = cc
split_joined (p ∷ ps) h full = split-join_plus p ps h

or_false : (b : Bool) → (b || false) ≡ b
or_false true = refl
or_false false = refl

-- What makes a name of the table a key, and neither empty nor a modifier.
unfoldable is_key : Text → Bool
is_key name =
    let lower = to_ascii_lowercase name in
    plain name
    && not (is_empty name)
    && not (is_one_of lower (to_ascii_lowercase ctrl_name) control)
    && not (text_eq lower (to_ascii_lowercase shift_name))
    && not (text_eq lower (to_ascii_lowercase alt_name))
    && not (is_one_of lower (to_ascii_lowercase win_name) windows)

unfoldable distinct : List Text → Bool
distinct [] = true
distinct (n ∷ ns) = all (λ m. not (eq_ignore_ascii_case n m)) ns && distinct ns

all-is_key : all is_key key_names ≡ true
unfolding is_key plain is_whitespace is_one_of to_ascii_lowercase ascii_lower text_eq
all-is_key = refl

distinct-key_names : distinct key_names ≡ true
unfolding distinct eq_ignore_ascii_case to_ascii_lowercase ascii_lower text_eq
distinct-key_names = refl

module _ (codes : ℕ → ℕ) where
  -- A row that is found has a name of the table.
  found_all :
      (f : Text → Bool) (vk i : ℕ) (ns : List Text) (row : Text × ℕ)
      → all f ns ≡ true
      → find (λ r. r.1 == vk) (rows codes i ns) ≡ some row
      → (f row.0 ≡ true) × (row.1 ≡ vk)
  unfolding rows
  found_all f vk i [] row h found = cc
  found_all f vk i (n ∷ ns) row h found = elim (Bool-cases (codes i == vk)) [
    | inl hit ↦ ground arith
    | inr miss ↦ found_all f vk (suc i) ns row (ground arith) (ground arith)
  ]

  find-name :
      (vk i : ℕ) (ns : List Text) (row : Text × ℕ)
      → distinct ns ≡ true
      → find (λ r. r.1 == vk) (rows codes i ns) ≡ some row
      → find (λ r. eq_ignore_ascii_case r.0 row.0) (rows codes i ns) ≡ some row
  unfolding rows distinct
  find-name vk i [] row h found = cc
  find-name vk i (n ∷ ns) row h found = elim (Bool-cases (codes i == vk)) [
    | inl hit ↦ ground (arith, eq_ignore_ascii_case_refl n)
    | inr miss ↦
        let rest : find (λ r. r.1 == vk) (rows codes (suc i) ns) ≡ some row = ground arith in
        let (other, _) =
          found_all (λ m. not (eq_ignore_ascii_case n m)) vk (suc i) ns row (ground arith) rest in
        let tail = find-name vk (suc i) ns row (ground arith) rest in ground arith
  ]

  -- The name that is shown for a code is a key of the table, and is read as the code.
  key_name_found :
      (vk : ℕ) (name : Text)
      → key_name_from_vk codes vk ≡ some name
      → (is_key name ≡ true) × (vk_from_key_name codes name ≡ some vk)
  unfolding key_name_from_vk vk_from_key_name
  key_name_found vk name h = elim (Option-cases (find (λ r. r.1 == vk) (key_table codes))) [
    | inl e ↦ ground arith
    | inr found ↦
        let (keyed, coded) = found_all is_key vk 0 key_names found.0 all-is_key found.1 in
        let named = find-name vk 0 key_names found.0 distinct-key_names found.1 in ground arith
  ]

  read_token-key :
      (t : Read) (name : Text) (vk : ℕ)
      → is_key name ≡ true
      → vk_from_key_name codes name ≡ some vk
      → read_token codes t (trim name) ≡ inr (record t { vk = some vk })
  unfolding read_token is_key
  read_token-key t name vk h found =
      rw (trim-solid name (plain-solid name (ground arith))) (ground arith)

  -- Each modifier is read where it was written.
  read-ctrl :
      (b : Bool) (t : Read) (rest : List Text)
      → read_tokens codes t (push_if b ctrl_name rest)
        ≡ read_tokens codes (record t { ctrl = b || t.ctrl }) rest
  unfolding read_tokens read_token trim trim_start trim_end is_whitespace is_one_of
      to_ascii_lowercase ascii_lower text_eq
  read-ctrl true t rest = refl
  read-ctrl false t rest = refl

  read-shift :
      (b : Bool) (t : Read) (rest : List Text)
      → read_tokens codes t (push_if b shift_name rest)
        ≡ read_tokens codes (record t { shift = b || t.shift }) rest
  unfolding read_tokens read_token trim trim_start trim_end is_whitespace is_one_of
      to_ascii_lowercase ascii_lower text_eq
  read-shift true t rest = refl
  read-shift false t rest = refl

  read-alt :
      (b : Bool) (t : Read) (rest : List Text)
      → read_tokens codes t (push_if b alt_name rest)
        ≡ read_tokens codes (record t { alt = b || t.alt }) rest
  unfolding read_tokens read_token trim trim_start trim_end is_whitespace is_one_of
      to_ascii_lowercase ascii_lower text_eq
  read-alt true t rest = refl
  read-alt false t rest = refl

  read-win :
      (b : Bool) (t : Read) (rest : List Text)
      → read_tokens codes t (push_if b win_name rest)
        ≡ read_tokens codes (record t { win = b || t.win }) rest
  unfolding read_tokens read_token trim trim_start trim_end is_whitespace is_one_of
      to_ascii_lowercase ascii_lower text_eq
  read-win true t rest = refl
  read-win false t rest = refl

  read-key :
      (t : Read) (name : Text) (vk : ℕ)
      → is_key name ≡ true
      → vk_from_key_name codes name ≡ some vk
      → read_tokens codes t (name ∷ []) ≡ inr (record t { vk = some vk })
  unfolding read_tokens
  read-key t name vk h found = rw (read_tokens, read_token-key t name vk h found) refl

  all-push_if :
      (f : Text → Bool) (b : Bool) (part : Text) (rest : List Text)
      → f part ≡ true
      → all f rest ≡ true
      → all f (push_if b part rest) ≡ true
  all-push_if f true part rest h k = ground arith
  all-push_if f false part rest h k = k

  modifiers_plain :
      (plain ctrl_name ≡ true)
      × (plain shift_name ≡ true)
      × (plain alt_name ≡ true)
      × (plain win_name ≡ true)
  unfolding plain is_whitespace
  modifiers_plain = (refl, refl, refl, refl)

  -- The parts of a hotkey, with the name of its key.
  named_parts : HotkeySpec → Text → List Text
  named_parts spec name = push_if spec.ctrl ctrl_name (
      push_if spec.shift shift_name
        (push_if spec.alt alt_name (push_if spec.win win_name (name ∷ []))))

  plain-named_parts :
      (spec : HotkeySpec) (name : Text)
      → plain name ≡ true
      → all plain (named_parts spec name) ≡ true
  unfolding named_parts
  plain-named_parts spec name h =
      let (c, s, a, w) = modifiers_plain in
      all-push_if plain spec.ctrl ctrl_name _ c (
        all-push_if plain spec.shift shift_name _ s (
          all-push_if plain spec.alt alt_name _ a
            (all-push_if plain spec.win win_name (name ∷ []) w (rw h refl))))

  read_tokens-named_parts :
      (spec : HotkeySpec) (name : Text)
      → is_key name ≡ true
      → vk_from_key_name codes name ≡ some spec.vk
      → read_tokens codes nothing_read (named_parts spec name)
        ≡ inr (record {
          ctrl = spec.ctrl || false;
          shift = spec.shift || false;
          alt = spec.alt || false;
          win = spec.win || false;
          vk = some spec.vk;
        })
  unfolding named_parts
  read_tokens-named_parts spec name h found =
      rw
        (
          read-ctrl spec.ctrl nothing_read,
          read-shift spec.shift,
          read-alt spec.alt,
          read-win spec.win,
        )
        (read-key _ name spec.vk h found)

  is_empty-push_if :
      (b : Bool) (part : Text) (rest : List Text)
      → is_empty part ≡ false
      → is_empty (join_plus rest) ≡ false
      → is_empty (join_plus (push_if b part rest)) ≡ false
  is_empty-push_if true part rest h k = is_empty-join_plus part rest h
  is_empty-push_if false part rest h k = k

  is_empty-named_parts :
      (spec : HotkeySpec) (name : Text)
      → is_empty name ≡ false
      → is_empty (join_plus (named_parts spec name)) ≡ false
  unfolding named_parts
  is_empty-named_parts spec name h = is_empty-push_if spec.ctrl ctrl_name _ refl (
      is_empty-push_if spec.shift shift_name _ refl (
        is_empty-push_if spec.alt alt_name _ refl
          (is_empty-push_if spec.win win_name (name ∷ []) refl (is_empty-join_plus name [] h))))

  from_str-named_parts :
      (spec : HotkeySpec) (name : Text)
      → is_key name ≡ true
      → vk_from_key_name codes name ≡ some spec.vk
      → from_str codes (join_plus (named_parts spec name)) ≡ inr spec
  unfolding from_str is_key finish
  from_str-named_parts spec name h found =
      let ps = named_parts spec name in
      let flat : all plain ps ≡ true = plain-named_parts spec name (ground arith) in
      let full : is_empty (join_plus ps) ≡ false = is_empty-named_parts spec name (ground arith) in
      rw (
        trim-solid (join_plus ps) (solid-join_plus ps flat),
        full,
        split_joined ps flat full,
        read_tokens-named_parts spec name h found,
        or_false spec.ctrl,
        or_false spec.shift,
        or_false spec.alt,
        or_false spec.win,
      )

  named-valid :
      (spec : HotkeySpec) (o : Option Text)
      → key_name_from_vk codes spec.vk ≡ o
      → is_valid codes spec ≡ true
      → (name : Text) × (o ≡ some name)
  unfolding is_valid
  named-valid spec none e valid = ground arith
  named-valid spec (some name) e valid = (name, refl)

  -- A hotkey whose code is in the table is read back from the text that shows it.
  pub from_str-fmt_key :
      (spec : HotkeySpec) → is_valid codes spec ≡ true → from_str codes (fmt codes spec) ≡ inr spec
  unfolding is_valid fmt parts named_parts
  from_str-fmt_key spec valid =
      let (name, found) = named-valid spec (key_name_from_vk codes spec.vk) refl valid in
      let (keyed, coded) = key_name_found spec.vk name found in
      rw (found) (from_str-named_parts spec name keyed coded)
