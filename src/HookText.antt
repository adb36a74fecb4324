-- ===== src/HookText.antt =====
-- src/hook/text_bridge/decode.rs: the clean-up of decoded text, and the lead bytes that are held
-- back for a hook that sends single bytes. The decoders and the tables of code pages are parameters.
pub mod Clean
pub mod LeadBytes
pub mod Merger
mod Tests
use anemone_rs.Base.{
  ℕ, Bool, true, false, ◌||◌, ◌&&◌, List, [], ◌∷◌, ◌++◌, leb, ◌==◌, if◌then◌else◌, Text,
}

-- `char::is_control`
pub is_control : ℕ → Bool
is_control c = leb c 31 || (leb 127 c && leb c 159)

-- `out.ends_with('\n')`
pub ends_with_newline : Text → Bool
ends_with_newline [] = false
ends_with_newline (c ∷ []) = c == 10
ends_with_newline (c ∷ d ∷ s) = ends_with_newline (d ∷ s)

-- The body of the loop of `normalize`.
pub push_char : Text → ℕ → Text
unfolding is_control ends_with_newline
push_char out ch =
    if (ch == 13) || ((ch == 11) || (ch == 12))
    then out
    else (if ch == 10
        then (if ends_with_newline out then out else out ++ 10 ∷ [])
        else (if is_control ch then out else out ++ ch ∷ []))

pub normalize_from : Text → Text → Text
normalize_from out [] = out
normalize_from out (ch ∷ s) = normalize_from (push_char out ch) s

pub normalize : Text → Text
normalize text = normalize_from [] text
