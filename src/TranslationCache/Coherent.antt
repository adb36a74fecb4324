-- ===== src/TranslationCache/Coherent.antt =====
-- That the memory table of src/app/translation_cache.rs and the database agree.
use anemone_rs.Base.{
  ℕ, zero, suc, length, Option-cases, ◌+◌, ◌≡◌, refl, ap, sym, ◌∙◌, subst, ◌⊎◌, inl, inr, Bool,
  true, false, Bool-cases, some, List, [], ◌∷◌, arith, leb, Text,
}
use anemone_rs.TranslationCache.{
  MemoryKey, CacheWrite, Sqlite, TranslationCacheStore, insert, no_memory, load_memory,
  clear_connection, get, enqueue, with_memory, with_puts, with_flags, schedule_prune, count_put,
  put, clear,
}
use anemone_rs.TranslationCache.Writer.{Event, written, write, open_store, perform, run}
use anemone_rs.TranslationCache.Queue.{
  after, Queued, Queued-put, Queued-prune, Queued-clear, after-put, after-prune, Queued-nil,
}

-- A database whose upsert puts one row in, whose DELETE leaves no row and whose VACUUM no change,
-- and on which none of the three fails.
pub record IsReliable (lib : Sqlite) : Type 0 where
  pub upserts :
      (db : lib.Db) (k : MemoryKey) (v : Text) (now : ℕ)
      → (db' : lib.Db) × (lib.upsert db k v now ≡ some db')
        × (load_memory lib db' ≡ insert k v (load_memory lib db))
  pub clears : (db : lib.Db) → load_memory lib (clear_connection lib db) ≡ no_memory

pub record IsCoherent (lib : Sqlite) (s : TranslationCacheStore lib.Db) : Type 0 where
  pub alive : (s.writer ≡ true) × (s.receiver ≡ true)
  pub queued : Queued s.queue s.clear_in_progress s.prune_in_progress
  pub agrees : s.clear_in_progress ≡ false → s.memory ≡ after (load_memory lib s.db) s.queue

length_zero : (q : List CacheWrite) → length q ≡ 0 → q ≡ []
length_zero [] l = refl
length_zero (c ∷ q) l = ground (arith, l)

-- Turns of the writer.
pub turns : ℕ → List Event
turns zero = []
turns (suc n) = Event.wrote ∷ turns n

module _ (lib : Sqlite) where
  schedule_prune-enqueue :
      (s : TranslationCacheStore lib.Db) (now : ℕ)
      → s.prune_in_progress ≡ false
      → s.writer ≡ true
      → s.receiver ≡ true
      → schedule_prune s now
        ≡ enqueue (with_flags s s.clear_in_progress true) (CacheWrite.prune_write now)
  unfolding schedule_prune
  schedule_prune-enqueue s now f w r = ground (arith, f, w, r)

  schedule_prune-IsCoherent :
      (s : TranslationCacheStore lib.Db) (now : ℕ)
      → s.clear_in_progress ≡ false
      → s.prune_in_progress ≡ false
      → IsCoherent lib s
      → IsCoherent lib (schedule_prune s now)
  unfolding enqueue with_flags
  schedule_prune-IsCoherent s now e f i =
      subst (IsCoherent lib) (sym (schedule_prune-enqueue s now f i.alive.0 i.alive.1)) (record {
        alive = i.alive;
        queued = Queued-prune now e f i.queued;
        agrees = λ h. i.agrees h ∙ sym (after-prune (load_memory lib s.db) s.queue now);
      })

  with_puts-IsCoherent :
      (s : TranslationCacheStore lib.Db) (n : ℕ) → IsCoherent lib s → IsCoherent lib (with_puts s n)
  unfolding with_puts
  with_puts-IsCoherent s n i = record { alive = i.alive; queued = i.queued; agrees = i.agrees }

  count_put-IsCoherent :
      (s : TranslationCacheStore lib.Db) (now : ℕ)
      → s.clear_in_progress ≡ false
      → s.prune_in_progress ≡ false
      → IsCoherent lib s
      → IsCoherent lib (count_put s now)
  unfolding count_put with_puts
  count_put-IsCoherent s now e f i = elim (Bool-cases (leb 100 (s.puts_since_prune + 1))) [
    | inl c ↦
        subst (IsCoherent lib) (ground (arith, c))
          (schedule_prune-IsCoherent (with_puts s 0) now e f (with_puts-IsCoherent s 0 i))
    | inr c ↦
        subst (IsCoherent lib) (ground (arith, c))
          (with_puts-IsCoherent s (s.puts_since_prune + 1) i)
  ]

  -- A put that is taken in: the memory and the queue get it.
  abbrev taken_in :
      TranslationCacheStore lib.Db → MemoryKey → Text → ℕ → TranslationCacheStore lib.Db
  taken_in s k v now = enqueue (with_memory s (insert k v s.memory)) (CacheWrite.put_write k v now)

  taken_in-IsCoherent :
      (s : TranslationCacheStore lib.Db) (k : MemoryKey) (v : Text) (now : ℕ)
      → s.clear_in_progress ≡ false
      → s.prune_in_progress ≡ false
      → IsCoherent lib s
      → IsCoherent lib (taken_in s k v now)
  unfolding enqueue with_memory
  taken_in-IsCoherent s k v now e f i = record {
    alive = i.alive;
    queued = Queued-put k v now e f i.queued;
    agrees =
        λ h. ap (insert k v) (i.agrees h) ∙ sym (after-put (load_memory lib s.db) s.queue k v now);
  }

  put-cases :
      (s : TranslationCacheStore lib.Db) (k : MemoryKey) (v : Text) (now later : ℕ)
      → s.writer ≡ true
      → s.receiver ≡ true
      → (put s k v now later ≡ s)
        ⊎ ((s.clear_in_progress ≡ false)
            × (s.prune_in_progress ≡ false)
            × (put s k v now later ≡ count_put (taken_in s k v now) later))
  unfolding put
  put-cases s k v now later w r = ground (arith, w, r)

  put-IsCoherent :
      (s : TranslationCacheStore lib.Db) (k : MemoryKey) (v : Text) (now later : ℕ)
      → IsCoherent lib s
      → IsCoherent lib (put s k v now later)
  unfolding enqueue with_memory
  put-IsCoherent s k v now later i = elim (put-cases s k v now later i.alive.0 i.alive.1) [
    | inl e ↦ subst (IsCoherent lib) (sym e) i
    | inr (c, p, e) ↦
        subst (IsCoherent lib) (sym e) (
          count_put-IsCoherent (taken_in s k v now) later c p (taken_in-IsCoherent s k v now c p i))
  ]

  -- What a clear that is taken in leaves.
  abbrev emptied : TranslationCacheStore lib.Db → TranslationCacheStore lib.Db
  emptied s =
      enqueue (with_memory (with_flags (with_puts s 0) true s.prune_in_progress) no_memory)
        CacheWrite.clear_write

  clear-cases :
      (s : TranslationCacheStore lib.Db)
      → s.writer ≡ true
      → s.receiver ≡ true
      → (clear s ≡ with_puts s 0) ⊎ ((s.clear_in_progress ≡ false) × (clear s ≡ emptied s))
  unfolding clear with_puts
  clear-cases s w r = ground (arith, w, r)

  clear-IsCoherent :
      (s : TranslationCacheStore lib.Db) → IsCoherent lib s → IsCoherent lib (clear s)
  unfolding enqueue with_memory with_flags with_puts
  clear-IsCoherent s i = elim (clear-cases s i.alive.0 i.alive.1) [
    | inl e ↦ subst (IsCoherent lib) (sym e) (with_puts-IsCoherent s 0 i)
    | inr (c, e) ↦ subst (IsCoherent lib) (sym e) (record {
      alive = i.alive;
      queued = Queued-clear c i.queued;
      agrees = λ h. ground (arith, h);
    })
  ]

  write-upsert :
      (s : TranslationCacheStore lib.Db) (db' : lib.Db) (k : MemoryKey) (v : Text) (now : ℕ)
      (q : List CacheWrite)
      → lib.upsert s.db k v now ≡ some db'
      → written lib s db' q ≡ write lib s (CacheWrite.put_write k v now ∷ q)
  unfolding write
  write-upsert s db' k v now q e = ground (arith, e)

  write-IsCoherent :
      IsReliable lib
      → (s : TranslationCacheStore lib.Db) (q : List CacheWrite) (c p : Bool) → s.queue ≡ q
      → s.clear_in_progress ≡ c
      → s.prune_in_progress ≡ p
      → Queued q c p
      → IsCoherent lib s
      → IsCoherent lib (write lib s q)
  unfolding write written with_flags with_memory after
  write-IsCoherent r s _ _ _ eq ec ep Queued.idle i = i
  write-IsCoherent r s _ _ _ eq ec ep (Queued.putting {k} {v} {now} {q} h) i =
      let (db', e, l) = r.upserts s.db k v now in
      subst (IsCoherent lib) (write-upsert s db' k v now q e) (record {
        alive = i.alive;
        queued = rw (ec, ep) h;
        agrees =
            λ x. i.agrees x ∙ ap (after (load_memory lib s.db)) eq ∙ ap (λ m. after m q) (sym l);
      })
  write-IsCoherent r s _ _ _ eq ec ep Queued.pruning i = record {
    alive = i.alive;
    queued = rw ec Queued.idle;
    agrees = λ h. refl;
  }
  write-IsCoherent r s _ _ _ eq ec ep Queued.pruning_first i = record {
    alive = i.alive;
    queued = rw ec Queued.clearing;
    agrees = λ h. ground (arith, h, ec);
  }
  write-IsCoherent r s _ _ _ eq ec ep Queued.clearing i = record {
    alive = i.alive;
    queued = rw ep Queued.idle;
    agrees = λ h. sym (r.clears s.db);
  }

  perform-IsCoherent :
      IsReliable lib
      → (s : TranslationCacheStore lib.Db) (e : Event) → IsCoherent lib s
      → IsCoherent lib (perform lib s e)
  unfolding perform
  perform-IsCoherent r s (Event.called_put k v now later) i = put-IsCoherent s k v now later i
  perform-IsCoherent r s Event.called_clear i = clear-IsCoherent s i
  perform-IsCoherent r s Event.wrote i =
      write-IsCoherent r s s.queue s.clear_in_progress s.prune_in_progress refl refl refl i.queued i

  open_store-IsCoherent : (db : lib.Db) (now : ℕ) → IsCoherent lib (open_store lib db now)
  unfolding open_store after
  open_store-IsCoherent db now =
      schedule_prune-IsCoherent _ now refl refl
        (record { alive = (refl, refl); queued = Queued.idle; agrees = λ h. refl })

  pub run-IsCoherent :
      IsReliable lib
      → (s : TranslationCacheStore lib.Db) (es : List Event) → IsCoherent lib s
      → IsCoherent lib (run lib s es)
  unfolding run
  run-IsCoherent r s [] i = i
  run-IsCoherent r s (e ∷ es) i = run-IsCoherent r (perform lib s e) es (perform-IsCoherent r s e i)

  write-queue :
      (s : TranslationCacheStore lib.Db) (c : CacheWrite) (q : List CacheWrite)
      → (write lib s (c ∷ q)).queue ≡ q
  unfolding write written with_flags with_memory
  write-queue s (CacheWrite.put_write k v now) q = elim (Option-cases (lib.upsert s.db k v now)) [
    | inl e ↦ rw (write, e) refl
    | inr (db', e) ↦ rw (write, e) refl
  ]
  write-queue s CacheWrite.clear_write q = refl
  write-queue s (CacheWrite.prune_write now) q = refl

  wrote-queue :
      (n : ℕ) (s : TranslationCacheStore lib.Db) (q : List CacheWrite)
      → s.queue ≡ q
      → length q ≡ suc n
      → length (perform lib s Event.wrote).queue ≡ n
  unfolding perform
  wrote-queue n s [] e l = ground (arith, l)
  wrote-queue n s (c ∷ q) e l =
      ap (λ x. length (write lib s x).queue) e ∙ ap length (write-queue s c q) ∙ omega (arith, l)

  caught_up-queue :
      (n : ℕ) (s : TranslationCacheStore lib.Db)
      → length s.queue ≡ n
      → (run lib s (turns n)).queue ≡ []
  unfolding run turns
  caught_up-queue zero s l = length_zero s.queue l
  caught_up-queue (suc n) s l =
      caught_up-queue n (perform lib s Event.wrote) (wrote-queue n s s.queue refl l)

  -- On a database that works, however the puts and clears of the window and the commands of the
  -- writer interleave after the store is opened, the queue holds puts, then at most one prune, then
  -- at most one clear, and unless a clear is under way the memory is what the database holds with the
  -- queued puts on top of it. A prune that is queued has no part in that: it takes rows out of both
  -- when it is carried out.
  pub run-open_store-IsCoherent :
      IsReliable lib
      → (db : lib.Db) (now : ℕ) (es : List Event)
      → IsCoherent lib (run lib (open_store lib db now) es)
  run-open_store-IsCoherent r db now es =
      run-IsCoherent r (open_store lib db now) es (open_store-IsCoherent db now)

  -- As many turns of the writer as there are commands in the queue.
  abbrev pub caught_up : TranslationCacheStore lib.Db → TranslationCacheStore lib.Db
  caught_up s = run lib s (turns (length s.queue))

  -- On a database that works, after any interleaving since the store was opened, as many turns of the
  -- writer as there are commands in its queue, the prunes and clears with them, empty the queue and
  -- lower both flags, and then a lookup gives what the database holds.
  pub get-caught_up :
      IsReliable lib
      → (db : lib.Db) (now : ℕ) (es : List Event) (k : MemoryKey)
      → ((caught_up (run lib (open_store lib db now) es)).queue ≡ [])
        × ((caught_up (run lib (open_store lib db now) es)).clear_in_progress ≡ false)
        × ((caught_up (run lib (open_store lib db now) es)).prune_in_progress ≡ false)
        × (get (caught_up (run lib (open_store lib db now) es)) k
            ≡ load_memory lib (caught_up (run lib (open_store lib db now) es)).db k)
  unfolding get after
  get-caught_up r db now es k =
      let s = run lib (open_store lib db now) es in
      let i = run-IsCoherent r s (turns (length s.queue)) (run-open_store-IsCoherent r db now es) in
      let q = caught_up-queue (length s.queue) s refl in
      let (c, p) = Queued-nil q i.queued in
      (
        q,
        c,
        p,
        rw (get, c) (ap (λ m. m k) (i.agrees c ∙ ap (after (load_memory lib (caught_up s).db)) q)),
      )
