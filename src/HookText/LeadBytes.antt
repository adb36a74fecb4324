-- ===== src/HookText/LeadBytes.antt =====
-- `LeadBytes` of src/hook/text_bridge/decode.rs: the first byte of a two-byte character is held back
-- for its source until the next byte comes.
pub mod Isolated
use anemone_rs.Base.{
  ℕ, Bool, true, false, ◌&&◌, not, Option, none, some, List, [], ◌∷◌, ◌++◌, ◌==◌, if◌then◌else◌,
  Text,
}

pub record HookSource : Type 0 where
  pub address : ℕ
  pub context : ℕ
  pub subcontext : ℕ

-- The decoders, the flags of `HookType` that name a Unicode codec, and the table of lead bytes.
pub record Codec : Type 0 where
  pub decode_payload : ℕ → ℕ → List ℕ → Text
  pub is_unicode : ℕ → Bool
  pub is_dbcs_lead_byte : ℕ → ℕ → Bool

unfoldable pub source_eq : HookSource → HookSource → Bool
source_eq s t =
    (s.address == t.address) && ((s.context == t.context) && (s.subcontext == t.subcontext))

abbrev pub Held : Type 0
Held = HookSource → Option ℕ

-- `insert` and `remove` of the map.
pub hold : HookSource → Option ℕ → Held → Held
hold s b h t = if source_eq s t then b else h t

unfoldable pub ansi_codepage : ℕ → ℕ
ansi_codepage detected_codepage = if detected_codepage == 0 then 932 else detected_codepage

module _ (codec : Codec) where
  unfoldable pub is_ansi_codec : ℕ → Bool
  is_ansi_codec flags = not (codec.is_unicode flags)

  -- Past the two early returns: one byte of an ANSI codec.
  pub decode_byte : Held → HookSource → ℕ → ℕ → ℕ → Held × Text
  decode_byte h source flags detected_codepage byte = elim (h source) [
    | some lead ↦
        (hold source none h, codec.decode_payload flags detected_codepage (lead ∷ byte ∷ []))
    | none ↦
        if codec.is_dbcs_lead_byte (ansi_codepage detected_codepage) byte
        then (hold source (some byte) h, [])
        else (h, codec.decode_payload flags detected_codepage (byte ∷ []))
  ]

  pub decode : Held → HookSource → ℕ → ℕ → List ℕ → Held × Text
  unfolding decode_byte
  decode h source flags detected_codepage [] = (h, codec.decode_payload flags detected_codepage [])
  decode h source flags detected_codepage (byte ∷ []) =
      if is_ansi_codec flags
      then decode_byte h source flags detected_codepage byte
      else (h, codec.decode_payload flags detected_codepage (byte ∷ []))
  decode h source flags detected_codepage (b ∷ c ∷ bytes) =
      (h, codec.decode_payload flags detected_codepage (b ∷ c ∷ bytes))
