-- ===== src/Backlog/Evict.antt =====
-- The eviction loop of src/app/backlog.rs.
use anemone_rs.Base.{
  ℕ, zero, suc, ◌+◌, ◌-◌, ◌<◌, ◌≤◌, ◌≡◌, refl, ◌⊎◌, inl, inr, Bool, true, false, List, [], ◌∷◌,
  ◌++◌, ltb, length, arith, drop, Bool-cases, ◌||◌,
}
use anemone_rs.Backlog.{
  LogEntry, BacklogStore, entry_text_bytes, over_limit, evict, max_backlog_entries,
  max_backlog_text_bytes,
}

-- What the entries hold, summed without saturation.
unfoldable pub total_bytes : List LogEntry → ℕ
total_bytes [] = 0
total_bytes (e ∷ es) = entry_text_bytes e + total_bytes es

pub total_bytes-append :
    (xs ys : List LogEntry) → total_bytes (xs ++ ys) ≡ total_bytes xs + total_bytes ys
unfolding total_bytes
total_bytes-append [] ys = omega arith
total_bytes-append (e ∷ xs) ys = omega (arith, total_bytes-append xs ys)

-- At most the limits; a single entry may exceed the bytes.
abbrev pub Within : List LogEntry → Type 0
Within es =
    (length es ≤ max_backlog_entries)
    × ((total_bytes es ≤ max_backlog_text_bytes) ⊎ (length es ≤ 1))

pub record Evicts (es : List LogEntry) (was : Bool) (r : BacklogStore × Bool) : Type 0 where
  pub dropped : ℕ
  pub fits : dropped ≤ length es
  pub keeps_last : 0 < length es → dropped < length es
  pub kept : r.0.entries ≡ drop dropped es
  pub bytes : r.0.text_bytes ≡ total_bytes r.0.entries
  pub within : Within r.0.entries
  pub fewest : (k : ℕ) → k < dropped → ¬ Within (drop k es)
  pub flag : r.1 ≡ (was || ltb 0 dropped)

over-not-Within :
    (es : List LogEntry) → over_limit (length es) (total_bytes es) ≡ true → ¬ Within es
over-not-Within es h w = ground arith

not-over-Within : (es : List LogEntry) → over_limit (length es) (total_bytes es) ≡ false → Within es
not-over-Within es h = ground arith

over-length : (n b : ℕ) → over_limit n b ≡ true → 1 < n
over-length n b h = ground arith

Evicts-step :
    (e : LogEntry) (es : List LogEntry) (was : Bool) (r : BacklogStore × Bool)
    → over_limit (length (e ∷ es)) (total_bytes (e ∷ es)) ≡ true
    → Evicts es true r
    → Evicts (e ∷ es) was r
Evicts-step e es was r over ih = record {
  dropped = suc ih.dropped;
  fits = omega (arith, ih.fits);
  keeps_last = λ _. omega (
    arith,
    ih.keeps_last (omega (arith, over-length (length (e ∷ es)) (total_bytes (e ∷ es)) over)),
  );
  kept = ih.kept;
  bytes = ih.bytes;
  within = ih.within;
  fewest = fewer;
  flag = ground (arith, ih.flag);
}
  where
    fewer : (k : ℕ) → k < suc ih.dropped → ¬ Within (drop k (e ∷ es))
    fewer zero h = over-not-Within (e ∷ es) over
    fewer (suc k) h = ih.fewest k (omega arith)

Evicts-stop :
    (es : List LogEntry) (was : Bool)
    → Within es
    → Evicts es was (record { entries = es; text_bytes = total_bytes es }, was)
Evicts-stop es was within = record {
  dropped = 0;
  fits = omega arith;
  keeps_last = λ h. h;
  kept = refl;
  bytes = refl;
  within = within;
  fewest = λ k h. absurd (omega arith);
  flag = ground arith;
}

-- From the exact byte count the loop drops the fewest oldest entries that bring the store within
-- its limits.
pub evict-Evicts : (es : List LogEntry) (was : Bool) → Evicts es was (evict es (total_bytes es) was)
unfolding evict total_bytes
evict-Evicts [] was = Evicts-stop [] was (omega arith, inl (omega arith))
evict-Evicts (e ∷ es) was =
    elim (Bool-cases (over_limit (length (e ∷ es)) (total_bytes (e ∷ es)))) [
      | inl over ↦
          let rest : entry_text_bytes e + total_bytes es - entry_text_bytes e ≡ total_bytes es =
            omega arith in
          rw (over, rest) (Evicts-step e es was _ over (evict-Evicts es true))
      | inr within ↦ rw within (Evicts-stop (e ∷ es) was (not-over-Within (e ∷ es) within))
    ]
