-- ===== src/TranslationCache/Queue.antt =====
-- The queue of src/app/translation_cache.rs: what it can hold, and what it does to the memory.
use anemone_rs.Base.{ℕ, ◌≡◌, refl, Bool, true, false, List, [], ◌∷◌, ◌++◌, arith, Text}
use anemone_rs.TranslationCache.{MemoryKey, CacheWrite, Memory, insert, no_memory}

-- The memory with the queued puts on top of it, past the last clear. A prune, which takes rows out of
-- the database and then of the memory, has no part here before it is carried out.
unfoldable pub after : Memory → List CacheWrite → Memory
after m [] = m
after m (CacheWrite.put_write k v now ∷ q) = after (insert k v m) q
after m (CacheWrite.clear_write ∷ q) = after no_memory q
after m (CacheWrite.prune_write now ∷ q) = after m q

-- What the queue can hold under the two flags: puts, then at most one prune, then at most one clear.
pub data Queued : List CacheWrite → Bool → Bool → Type 0 where
  idle : Queued [] false false
  putting :
      {k : MemoryKey} {v : Text} {now : ℕ} {q : List CacheWrite} {c p : Bool}
      → Queued q c p
      → Queued (CacheWrite.put_write k v now ∷ q) c p
  pruning : {now : ℕ} → Queued (CacheWrite.prune_write now ∷ []) false true
  pruning_first :
      {now : ℕ} → Queued (CacheWrite.prune_write now ∷ CacheWrite.clear_write ∷ []) true true
  clearing : Queued (CacheWrite.clear_write ∷ []) true false

pub Queued-put :
    {q : List CacheWrite} {c p : Bool} (k : MemoryKey) (v : Text) (now : ℕ)
    → c ≡ false
    → p ≡ false
    → Queued q c p
    → Queued (q ++ CacheWrite.put_write k v now ∷ []) c p
Queued-put k v now e f Queued.idle = Queued.putting Queued.idle
Queued-put k v now e f (Queued.putting h) = Queued.putting (Queued-put k v now e f h)
Queued-put k v now e f Queued.pruning = ground (arith, f)
Queued-put k v now e f Queued.pruning_first = ground (arith, f)
Queued-put k v now e f Queued.clearing = ground (arith, e)

pub Queued-prune :
    {q : List CacheWrite} {c p : Bool} (now : ℕ)
    → c ≡ false
    → p ≡ false
    → Queued q c p
    → Queued (q ++ CacheWrite.prune_write now ∷ []) c true
Queued-prune now e f Queued.idle = Queued.pruning
Queued-prune now e f (Queued.putting h) = Queued.putting (Queued-prune now e f h)
Queued-prune now e f Queued.pruning = ground (arith, f)
Queued-prune now e f Queued.pruning_first = ground (arith, f)
Queued-prune now e f Queued.clearing = ground (arith, e)

pub Queued-clear :
    {q : List CacheWrite} {c p : Bool}
    → c ≡ false
    → Queued q c p
    → Queued (q ++ CacheWrite.clear_write ∷ []) true p
Queued-clear e Queued.idle = Queued.clearing
Queued-clear e (Queued.putting h) = Queued.putting (Queued-clear e h)
Queued-clear e Queued.pruning = Queued.pruning_first
Queued-clear e Queued.pruning_first = ground (arith, e)
Queued-clear e Queued.clearing = ground (arith, e)

pub Queued-nil :
    {q : List CacheWrite} {c p : Bool} → q ≡ [] → Queued q c p → (c ≡ false) × (p ≡ false)
Queued-nil e Queued.idle = (refl, refl)
Queued-nil e (Queued.putting h) = cc
Queued-nil e Queued.pruning = cc
Queued-nil e Queued.pruning_first = cc
Queued-nil e Queued.clearing = cc

pub after-put :
    (m : Memory) (q : List CacheWrite) (k : MemoryKey) (v : Text) (now : ℕ)
    → after m (q ++ CacheWrite.put_write k v now ∷ []) ≡ insert k v (after m q)
unfolding after
after-put m [] k v now = refl
after-put m (CacheWrite.put_write l u t ∷ q) k v now = after-put (insert l u m) q k v now
after-put m (CacheWrite.clear_write ∷ q) k v now = after-put no_memory q k v now
after-put m (CacheWrite.prune_write t ∷ q) k v now = after-put m q k v now

pub after-prune :
    (m : Memory) (q : List CacheWrite) (now : ℕ)
    → after m (q ++ CacheWrite.prune_write now ∷ []) ≡ after m q
unfolding after
after-prune m [] now = refl
after-prune m (CacheWrite.put_write l u t ∷ q) now = after-prune (insert l u m) q now
after-prune m (CacheWrite.clear_write ∷ q) now = after-prune no_memory q now
after-prune m (CacheWrite.prune_write t ∷ q) now = after-prune m q now
