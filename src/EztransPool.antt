-- ===== src/EztransPool.antt =====
-- src/translation/eztrans_process/pool.rs, and `split_eztrans_batch` of src/file_trans/eztrans.rs:
-- a batch of lines is translated by one call of a helper process, and bisected when the helper
-- refuses it or changes its line boundaries. The helper process and its start are parameters.
pub mod Split
pub mod Dressed
pub mod Resilient
pub mod Faithful
mod Tests
use anemone_rs.Base.{
  ℕ, zero, suc, ◌+◌, ◌/◌, Bool, true, false, not, ◌&&◌, ◌||◌, Option, none, some, List, [], ◌∷◌,
  ◌++◌, leb, ◌==◌, if◌then◌else◌, length, take, drop, Text, is_whitespace,
}
use mathlib.Core.Option
use mathlib.Core.Option.{get_or}

abbrev pub newline : ℕ
newline = 10

-- `split('\n')`: one more part than there are line feeds.
cons_head : ℕ → List Text → List Text
cons_head c [] = (c ∷ []) ∷ []
cons_head c (p ∷ ps) = (c ∷ p) ∷ ps

unfoldable pub split : Text → List Text
unfolding cons_head
split [] = [] ∷ []
split (c ∷ s) = if c == newline then [] ∷ split s else cons_head c (split s)

-- `join("\n")`
unfoldable pub join : List Text → Text
join [] = []
join (p ∷ []) = p
join (p ∷ q ∷ ps) = p ++ newline ∷ join (q ∷ ps)

pub strip_prefix : ℕ → Text → Option Text
strip_prefix x [] = none
strip_prefix x (c ∷ s) = if c == x then some s else none

pub strip_suffix : ℕ → Text → Option Text
strip_suffix x [] = none
strip_suffix x (c ∷ []) = if c == x then some [] else none
strip_suffix x (c ∷ d ∷ s) = Option.map (◌∷◌ c) (strip_suffix x (d ∷ s))

pub starts_with_whitespace : Text → Bool
unfolding is_whitespace
starts_with_whitespace [] = false
starts_with_whitespace (c ∷ s) = is_whitespace c

pub ends_with_whitespace : Text → Bool
unfolding is_whitespace
ends_with_whitespace [] = false
ends_with_whitespace (c ∷ []) = is_whitespace c
ends_with_whitespace (c ∷ d ∷ s) = ends_with_whitespace (d ∷ s)

pub strip_cr : Text → Text
strip_cr s = get_or (strip_suffix 13 s) s

-- The two tests of the loop over the parts: at `index > 0`, and at `index < last`.
pub trim_start : Bool → Text → Text → Text
trim_start after_first original part =
    if after_first && not (starts_with_whitespace original)
    then get_or (strip_prefix 32 part) part
    else part

pub trim_end : Bool → Text → Text → Text
trim_end before_last original part =
    if before_last && not (ends_with_whitespace original)
    then get_or (strip_suffix 32 part) part
    else part

abbrev pub has_more : List Text → Bool
has_more [] = false
has_more (p ∷ ps) = true

-- The loop over `parts.iter_mut().zip(originals)`.
pub trim_parts : Bool → List Text → List Text → List Text
unfolding trim_start trim_end
trim_parts after_first [] originals = []
trim_parts after_first (p ∷ ps) [] = p ∷ ps
trim_parts after_first (p ∷ ps) (o ∷ os) =
    trim_end (has_more ps) o (trim_start after_first o p) ∷ trim_parts true ps os

pub strip_crs : List Text → List Text
strip_crs [] = []
strip_crs (p ∷ ps) = strip_cr p ∷ strip_crs ps

pub split_eztrans_batch : Text → List Text → Option (List Text)
unfolding strip_crs strip_cr
split_eztrans_batch translated originals =
    let parts = strip_crs (split translated) in
    if length parts == length originals then some (trim_parts false parts originals) else none

-- What the helper answers: the `Ok` and the `CallError` of `EzTransWorkerClient::translate`.
pub data Reply : Type 0 where
  ok : Text → Reply
  engine : Text → Reply
  transport : Text → Reply

pub data PoolError : Type 0 where
  restart_failed : Text → Text → PoolError
  transport_failed : Text → PoolError

-- `out_of_fuel` is no result of the code: see Resilient.
pub data Outcome (A : Type 0) : Type 0 where
  done : A → Outcome A
  failed : PoolError → Outcome A
  out_of_fuel : Outcome A

-- A program over the state `S` of the helper, its errors leaving early as under `?`.
abbrev pub M : Type 0 → Type 0 → Type 0
M S A = S → S × Outcome A

abbrev pub bind_outcome : {S A B : Type 0} → S × Outcome A → (A → M S B) → S × Outcome B
bind_outcome (s, done a) f = f a s
bind_outcome (s, failed e) f = (s, failed e)
bind_outcome (s, out_of_fuel) f = (s, out_of_fuel)

infixl 5 ◌>>=◌
abbrev pub ◌>>=◌ : {S A B : Type 0} → M S A → (A → M S B) → M S B
◌>>=◌ m f s = bind_outcome (m s) f

abbrev pub pure : {S A : Type 0} → A → M S A
pure a s = (s, done a)

abbrev pub fail : {S A : Type 0} → PoolError → M S A
fail e s = (s, failed e)

abbrev pub exhausted : {S A : Type 0} → M S A
exhausted s = (s, out_of_fuel)

-- The helper process as the pool sees it: a call, and a restart that may fail with a message.
pub record Helper : Type 1 where
  pub State : Type 0
  pub call : State → Text → State × Reply
  pub respawn : State → State × Option Text

-- `format!("[번역 실패: {error}]")`
pub failure_line : Text → Text
failure_line error = 91 ∷ 0xBC88 ∷ 0xC5ED ∷ 32 ∷ 0xC2E4 ∷ 0xD328 ∷ 58 ∷ 32 ∷ (error ++ 93 ∷ [])

pub data Verdict : Type 0 where
  finish : List Text → Verdict
  bisect : Verdict
  give_up : Text → Verdict

-- The match on `translated`, down to the bisection.
pub verdict : List Text → Reply → Verdict
verdict originals (ok translated) = elim (split_eztrans_batch translated originals) [
  | some parts ↦ finish parts
  | none ↦ bisect
]
verdict originals (engine error) =
    if length originals == 1 then finish (failure_line error ∷ []) else bisect
verdict originals (transport error) = give_up error

module _ (h : Helper) where
  -- `*client = respawn()…?; client.translate(text)`
  restart : Text → Text → M h.State Reply
  restart text first_error s =
      let (s', r) = h.respawn s in
      elim r [
        | none ↦ let (s'', reply) = h.call s' text in (s'', done reply)
        | some restart_error ↦ (s', failed (restart_failed restart_error first_error))
      ]

  retry : Text → h.State × Reply → h.State × Outcome Reply
  unfolding restart
  retry text (s, ok t) = (s, done (ok t))
  retry text (s, engine e) = (s, done (engine e))
  retry text (s, transport e) = restart text e s

  -- One call, and a second one to a fresh helper when the transport broke.
  pub attempt : Text → M h.State Reply
  unfolding retry
  attempt text s = retry text (h.call s text)

  single : Reply → M h.State Text
  single (ok value) = pure value
  single (engine error) = pure (failure_line error)
  single (transport error) = fail (transport_failed error)

  pub translated_single_boundary_fallback : Text → M h.State Text
  unfolding single
  translated_single_boundary_fallback original = do reply ← attempt original; single reply

  halves : (List Text → M h.State (List Text)) → List Text → M h.State (List Text)
  halves again originals = do
    left ← again (take (length originals / 2) originals)
    right ← again (drop (length originals / 2) originals)
    pure (left ++ right)

  -- Past the match: a single line is sent once more, and a longer batch is cut in two.
  bisected : (List Text → M h.State (List Text)) → List Text → M h.State (List Text)
  unfolding halves
  bisected again [] = halves again []
  bisected again (o ∷ []) = do line ← translated_single_boundary_fallback o; pure (line ∷ [])
  bisected again (o ∷ p ∷ os) = halves again (o ∷ p ∷ os)

  settle : (List Text → M h.State (List Text)) → List Text → Verdict → M h.State (List Text)
  unfolding bisected
  settle again originals (finish parts) = pure parts
  settle again originals bisect = bisected again originals
  settle again originals (give_up error) = fail (transport_failed error)

  pub translate_resilient : ℕ → List Text → M h.State (List Text)
  unfolding settle
  translate_resilient zero originals = exhausted
  translate_resilient (suc fuel) [] = pure []
  translate_resilient (suc fuel) (o ∷ os) = do
    reply ← attempt (join (o ∷ os))
    settle (translate_resilient fuel) (o ∷ os) (verdict (o ∷ os) reply)
