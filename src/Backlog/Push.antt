-- ===== src/Backlog/Push.antt =====
-- What src/app/backlog.rs keeps when entries are pushed.
use anemone_rs.Base.{
  ℕ, zero, suc, ◌≤◌, ◌≡◌, refl, ap, sym, inl, false, List, [], ◌∷◌, ◌++◌, arith, drop, subst,
}
use anemone_rs.Backlog.{clear, LogEntry, BacklogStore, entry_text_bytes, evict, push, new}
use anemone_rs.Backlog.Evict.{total_bytes, total_bytes-append, Within, Evicts, evict-Evicts}

-- No text of a running program is longer than this many bytes.
abbrev pub Fits : LogEntry → Type 0
Fits e = entry_text_bytes e ≤ 4611686018427387904

abbrev pub AllFit : List LogEntry → Type 0
AllFit [] = Unit {0}
AllFit (e ∷ es) = Fits e × AllFit es

-- The counter is exact, and the store is within its limits.
pub record IsValid (s : BacklogStore) : Type 0 where
  pub exact : s.text_bytes ≡ total_bytes s.entries
  pub within : Within s.entries
  pub all_fit : AllFit s.entries

AllFit-append : (xs : List LogEntry) (e : LogEntry) → AllFit xs → Fits e → AllFit (xs ++ e ∷ [])
AllFit-append [] e a f = (f, tt)
AllFit-append (x ∷ xs) e a f = (a.0, AllFit-append xs e a.1 f)

AllFit-drop : (n : ℕ) (xs : List LogEntry) → AllFit xs → AllFit (drop n xs)
AllFit-drop zero xs a = a
AllFit-drop (suc n) [] a = tt
AllFit-drop (suc n) (x ∷ xs) a = AllFit-drop n xs a.1

total-le : (xs : List LogEntry) → Within xs → AllFit xs → total_bytes xs ≤ 4611686018427387904
unfolding total_bytes
total-le [] w a = omega arith
total-le (x ∷ []) w a = omega arith
total-le (x ∷ y ∷ xs) w a = ground arith

-- Nothing saturates, so `push` runs its loop from the exact count.
push-evict :
    (s : BacklogStore) (e : LogEntry)
    → IsValid s
    → Fits e
    → push s e ≡ evict (s.entries ++ e ∷ []) (total_bytes (s.entries ++ e ∷ [])) false
unfolding push total_bytes
push-evict s e v f =
    ap (λ b. evict (s.entries ++ e ∷ []) b false)
      (omega (
        arith,
        total-le s.entries v.within v.all_fit,
        total_bytes-append s.entries (e ∷ []),
        v.exact,
      ))

-- On a valid store a push appends the entry, drops the fewest oldest entries that bring the store
-- back within its limits, never the new one, and reports whether it dropped any.
pub push-Evicts :
    (s : BacklogStore) (e : LogEntry)
    → IsValid s
    → Fits e
    → Evicts (s.entries ++ e ∷ []) false (push s e)
push-Evicts s e v f = rw (push-evict s e v f) (evict-Evicts (s.entries ++ e ∷ []) false)

-- A push keeps the store valid.
pub push-IsValid : (s : BacklogStore) (e : LogEntry) → IsValid s → Fits e → IsValid (push s e).0
push-IsValid s e v f =
    let r = push-Evicts s e v f in
    record {
      exact = r.bytes;
      within = r.within;
      all_fit =
          subst AllFit (sym r.kept)
            (AllFit-drop r.dropped _ (AllFit-append s.entries e v.all_fit f));
    }

pub new-IsValid : IsValid new
unfolding new total_bytes
new-IsValid = record { exact = refl; within = (omega arith, inl (omega arith)); all_fit = tt }

pub push_all : BacklogStore → List LogEntry → BacklogStore
push_all s [] = s
push_all s (e ∷ es) = push_all (push s e).0 es

pub clear-IsValid : (s : BacklogStore) → IsValid (clear s)
unfolding clear total_bytes
clear-IsValid s = record { exact = refl; within = (omega arith, inl (omega arith)); all_fit = tt }
