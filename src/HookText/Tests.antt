-- ===== src/HookText/Tests.antt =====
-- Runs of src/hook/text_bridge/decode.rs, and the theorems at these runs.
use anemone_rs.Base.{ℕ, ◌≡◌, refl, false, none, List, [], ◌∷◌, leb}
use anemone_rs.HookText.{is_control, ends_with_newline, push_char, normalize_from, normalize}
use anemone_rs.HookText.Clean
use anemone_rs.HookText.Clean.{IsClean}
use anemone_rs.HookText.LeadBytes.{HookSource, Codec, is_ansi_codec, ansi_codepage}
use anemone_rs.HookText.LeadBytes.Isolated
use anemone_rs.HookText.LeadBytes.Isolated.{characters, bytes_of, decode_all, text_of}

program : Unit {0}
unfolding is_control ends_with_newline push_char normalize_from normalize
program = tt

-- A carriage return, a tab and the second of two line feeds go.
normalize_run : normalize (b'a' ∷ 13 ∷ 10 ∷ 13 ∷ 10 ∷ 9 ∷ b' ' ∷ []) ≡ b'a' ∷ 10 ∷ b' ' ∷ []
unfolding program
normalize_run = refl

normalize-IsClean_example :
    IsClean false (normalize (b'a' ∷ 10 ∷ 10 ∷ []))
    × (normalize (normalize (b'a' ∷ 10 ∷ 10 ∷ [])) ≡ normalize (b'a' ∷ 10 ∷ 10 ∷ []))
normalize-IsClean_example = Clean.normalize-IsClean (b'a' ∷ 10 ∷ 10 ∷ [])

-- Bytes from 129 on lead, and a character is decoded as its bytes.
abbrev plain : Codec
plain = record {
  decode_payload = λ flags codepage bytes. bytes;
  is_unicode = λ flags. false;
  is_dbcs_lead_byte = λ codepage byte. leb 129 byte;
}

abbrev first : HookSource
first = record { address = 1; context = 0; subcontext = 0 }

abbrev second : HookSource
second = record { address = 2; context = 0; subcontext = 0 }

abbrev mixed : List (HookSource × ℕ)
mixed = (first, 130) ∷ (second, 65) ∷ (second, 131) ∷ (first, 160) ∷ []

text_of-characters_example :
    text_of plain 0 0 (λ s. none) first mixed
    ≡ decode_all
        (plain.decode_payload 0 0)
        (characters (plain.is_dbcs_lead_byte 932) none (bytes_of first mixed))
unfolding is_ansi_codec ansi_codepage
text_of-characters_example = Isolated.text_of-characters plain 0 0 refl (λ s. none) first mixed
