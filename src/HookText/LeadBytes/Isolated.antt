-- ===== src/HookText/LeadBytes/Isolated.antt =====
-- That the sources of src/hook/text_bridge/decode.rs do not mix their bytes.
use anemone_rs.Base.{
  ℕ, ◌≡◌, refl, ap, ◌∙◌, inl, inr, Bool, true, false, Bool-cases, Option, none, some, List, [], ◌∷◌,
  ◌++◌, arith, Text, if◌then◌else◌,
}
use anemone_rs.HookText.LeadBytes.{
  HookSource, Codec, source_eq, Held, hold, ansi_codepage, is_ansi_codec, decode_byte, decode,
}

-- The characters that a stream of bytes has, after a lead byte that is held. One that stays held at
-- the end is no character yet.
pub characters : (ℕ → Bool) → Option ℕ → List ℕ → List (List ℕ)
characters is_lead held [] = []
characters is_lead (some lead) (b ∷ bs) = (lead ∷ b ∷ []) ∷ characters is_lead none bs
characters is_lead none (b ∷ bs) =
    if is_lead b then characters is_lead (some b) bs else (b ∷ []) ∷ characters is_lead none bs

-- The bytes of one source among those of all.
pub bytes_of : HookSource → List (HookSource × ℕ) → List ℕ
bytes_of s [] = []
bytes_of s (e ∷ es) = if source_eq e.0 s then e.1 ∷ bytes_of s es else bytes_of s es

pub decode_all : (List ℕ → Text) → List (List ℕ) → Text
decode_all f [] = []
decode_all f (c ∷ cs) = f c ++ decode_all f cs

pub source_eq→eq : (s t : HookSource) → source_eq s t ≡ true → s ≡ t
unfolding source_eq
source_eq→eq s t h = ground (arith, h)

module _ (codec : Codec) (flags detected_codepage : ℕ) where
  -- What `decode` gives for one source when the hooks of all sources send single bytes.
  pub text_of : Held → HookSource → List (HookSource × ℕ) → Text
  text_of h s [] = []
  text_of h s (e ∷ es) =
      let (h', text) = decode codec h e.0 flags detected_codepage (e.1 ∷ []) in
      (if source_eq e.0 s then text else []) ++ text_of h' s es

  decode-other :
      (h : Held) (s t : HookSource) (b : ℕ)
      → source_eq t s ≡ false
      → (decode codec h t flags detected_codepage (b ∷ [])).0 s ≡ h s
  unfolding decode decode_byte hold
  decode-other h s t b n = ground (arith, n)

  decode-same :
      is_ansi_codec codec flags ≡ true
      → (h : Held) (s t : HookSource) (b : ℕ) (bs : List ℕ) → source_eq t s ≡ true
      → (decode codec h t flags detected_codepage (b ∷ [])).1
          ++ decode_all (codec.decode_payload flags detected_codepage) (
              characters
                (codec.is_dbcs_lead_byte (ansi_codepage detected_codepage))
                ((decode codec h t flags detected_codepage (b ∷ [])).0 s)
                bs)
        ≡ decode_all
            (codec.decode_payload flags detected_codepage)
            (characters (codec.is_dbcs_lead_byte (ansi_codepage detected_codepage)) (h s) (b ∷ bs))
  unfolding decode decode_byte hold decode_all characters
  decode-same a h s t b bs e = ground (arith, a, e, ap h (source_eq→eq t s e))

  -- However the bytes of the sources come in turn, an ANSI hook's text for a source is the text of
  -- the characters that the bytes of this source alone make.
  pub text_of-characters :
      is_ansi_codec codec flags ≡ true
      → (h : Held) (s : HookSource) (es : List (HookSource × ℕ))
      → text_of h s es
        ≡ decode_all (codec.decode_payload flags detected_codepage) (
            characters
              (codec.is_dbcs_lead_byte (ansi_codepage detected_codepage))
              (h s)
              (bytes_of s es))
  unfolding text_of decode_all bytes_of characters
  text_of-characters a h s [] = refl
  text_of-characters a h s ((t, b) ∷ es) =
      let next = text_of-characters a (decode codec h t flags detected_codepage (b ∷ [])).0 s es in
      elim (Bool-cases (source_eq t s)) [
        | inr n ↦ rw n (
            next
            ∙ ap
                (λ o. decode_all (codec.decode_payload flags detected_codepage) (
                  characters (codec.is_dbcs_lead_byte (ansi_codepage detected_codepage)) o
                    (bytes_of s es)))
                (decode-other h s t b n))
        | inl e ↦ rw e (
            ap (λ o. (decode codec h t flags detected_codepage (b ∷ [])).1 ++ o) next
            ∙ decode-same a h s t b (bytes_of s es) e)
      ]
