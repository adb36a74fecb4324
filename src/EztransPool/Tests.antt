-- ===== src/EztransPool/Tests.antt =====
-- Runs of src/translation/eztrans_process/pool.rs over a helper that refuses batches of several
-- lines, and over one that dies, with the theorems at these helpers.
use anemone_rs.Base.{
  ℕ, suc, ◌≡◌, refl, sym, ◌∙◌, inl, inr, Bool, true, false, not, ◌++◌, if◌then◌else◌, append-nil,
  none, some, List, [], ◌∷◌, arith, length, Text, map, is_whitespace,
}
use anemone_rs.EztransPool.{
  newline, Helper, Reply, done, failed, ok, engine, transport, restart_failed, split, join,
  strip_prefix, strip_suffix, starts_with_whitespace, ends_with_whitespace, trim_parts,
  split_eztrans_batch, failure_line, verdict, attempt, translated_single_boundary_fallback,
  translate_resilient,
}
use anemone_rs.EztransPool.Split
use anemone_rs.EztransPool.Split.{Free, AllFree}
use anemone_rs.EztransPool.Dressed.{IsClean, AddedAs}
use anemone_rs.EztransPool.Resilient
use anemone_rs.EztransPool.Resilient.{Ends, Mild}
use anemone_rs.EztransPool.Faithful
use anemone_rs.EztransPool.Faithful.{Honest}

program : Unit {0}
unfolding split join is_whitespace strip_prefix strip_suffix starts_with_whitespace
    ends_with_whitespace trim_parts split_eztrans_batch failure_line verdict attempt
    translated_single_boundary_fallback translate_resilient
program = tt

-- `timid` answers single lines only, and counts its calls.
abbrev timid_reply : List Text → Reply
timid_reply (p ∷ []) = ok (b'k' ∷ [])
timid_reply _ = engine (b'n' ∷ [])

abbrev timid : Helper
timid = record { State = ℕ; call = λ n t. (suc n, timid_reply (split t)); respawn = λ n. (n, none) }

abbrev dead : Helper
dead = record {
  State = ℕ;
  call = λ n t. (suc n, transport (b'x' ∷ []));
  respawn = λ n. (n, some (b'y' ∷ []));
}

abbrev lines : List Text
lines = (b'a' ∷ []) ∷ (b'b' ∷ []) ∷ (b'c' ∷ []) ∷ []

-- Three lines take five calls: the batch, its halves, and the two lines of the second half.
timid_run :
    translate_resilient timid 4 lines 0 ≡ (5, done ((b'k' ∷ []) ∷ (b'k' ∷ []) ∷ (b'k' ∷ []) ∷ []))
unfolding program
timid_run = refl

dead_run : translate_resilient dead 4 lines 0 ≡ (1, failed (restart_failed (b'y' ∷ []) (b'x' ∷ [])))
unfolding program
dead_run = refl

-- A space between the translations belongs to neither line.
split_run :
    split_eztrans_batch (b'x' ∷ b' ' ∷ 13 ∷ 10 ∷ b' ' ∷ b'y' ∷ []) ((b'a' ∷ []) ∷ (b'b' ∷ []) ∷ [])
    ≡ some ((b'x' ∷ []) ∷ (b'y' ∷ []) ∷ [])
unfolding program
split_run = refl

k-IsClean : (p : Text) → Free newline p → IsClean p (b'k' ∷ [])
unfolding program
k-IsClean p f = record {
  no_newline = ((λ e. absurd (omega arith)), tt);
  no_cr = refl;
  no_leading = inr refl;
  no_trailing = inr refl;
}

timid-Mild : (n : ℕ) (ps : List Text) → Mild ⊥ (timid_reply ps)
timid-Mild n [] = tt
timid-Mild n (p ∷ []) = tt
timid-Mild n (p ∷ q ∷ ps) = tt

before_feed : Text → Text
before_feed o = if not (ends_with_whitespace o) then 32 ∷ [] else []

after_feed : Text → Text
after_feed o = if not (starts_with_whitespace o) then 32 ∷ [] else []

-- `spacing` answers two lines at most, with spaces beside the line feed and a carriage return.
abbrev spacing_reply : List Text → Reply
spacing_reply (p ∷ []) = ok (b'k' ∷ [])
spacing_reply (p ∷ q ∷ []) =
    ok (join (((b'k' ∷ before_feed p) ++ 13 ∷ []) ∷ (after_feed q ++ b'k' ∷ []) ∷ []))
spacing_reply _ = engine (b'n' ∷ [])

abbrev spacing : Helper
spacing = record {
  State = ℕ;
  call = λ n t. (suc n, spacing_reply (split t));
  respawn = λ n. (n, none);
}

-- The first half is one line, the second half two, in one call.
spacing_run :
    translate_resilient spacing 4 lines 0 ≡ (3, done ((b'k' ∷ []) ∷ (b'k' ∷ []) ∷ (b'k' ∷ []) ∷ []))
unfolding program before_feed after_feed
spacing_run = refl

added_where : (allowed : Bool) → AddedAs 32 allowed (if allowed then 32 ∷ [] else [])
added_where true = inr (refl, refl)
added_where false = inl refl

spacing_reply-Honest :
    (o : Text) (os : List Text) → Honest (λ _. b'k' ∷ []) (o ∷ os) (spacing_reply (o ∷ os))
unfolding before_feed after_feed join
spacing_reply-Honest o [] = (
  (b'k' ∷ []) ∷ [],
  refl,
  (
    record {
      lead = [];
      trail = [];
      cr = [];
      whole = refl;
      lead_added = inl refl;
      trail_added = inl refl;
      cr_added = inl refl;
    },
    tt,
  ),
)
spacing_reply-Honest o (q ∷ []) = (
  ((b'k' ∷ before_feed o) ++ 13 ∷ []) ∷ (after_feed q ++ b'k' ∷ []) ∷ [],
  refl,
  (
    record {
      lead = [];
      trail = before_feed o;
      cr = 13 ∷ [];
      whole = refl;
      lead_added = inl refl;
      trail_added = added_where _;
      cr_added = inr (refl, refl);
    },
    (
      record {
        lead = after_feed q;
        trail = [];
        cr = [];
        whole = sym (
            append-nil ((after_feed q ++ b'k' ∷ []) ++ [])
            ∙ append-nil (after_feed q ++ b'k' ∷ []));
        lead_added = added_where _;
        trail_added = inl refl;
        cr_added = inl refl;
      },
      tt,
    ),
  ),
)
spacing_reply-Honest o (p ∷ q ∷ os) = omega arith

spacing-Honest :
    (n : ℕ) (o : Text) (os : List Text)
    → AllFree newline (o ∷ os)
    → Honest (λ _. b'k' ∷ []) (o ∷ os) (spacing_reply (split (join (o ∷ os))))
spacing-Honest n o os a = rw (Split.split-join o os a) (spacing_reply-Honest o os)

lines_free : AllFree newline lines
lines_free = (
  (λ e. absurd (omega arith), tt),
  ((λ e. absurd (omega arith), tt), ((λ e. absurd (omega arith), tt), tt)),
)

translate_resilient-total_example :
    Ends (Unit {0}) (λ ls. length ls ≡ 3) (translate_resilient dead 4 lines 0).1
translate_resilient-total_example = Resilient.translate_resilient-total dead 4 lines 0 (omega arith)

translate_resilient-map_example :
    (translate_resilient spacing 4 lines 0).1 ≡ done (map (λ _. b'k' ∷ []) lines)
translate_resilient-map_example =
    Faithful.translate_resilient-map spacing (λ _. b'k' ∷ []) k-IsClean spacing-Honest 4 lines 0
      (omega arith) lines_free
