-- ===== src/TranslationCache.antt =====
-- src/app/translation_cache.rs: the memory table that the program reads, and the thread that writes
-- the same changes to SQLite. A language of a key is its text, the clock's readings are arguments,
-- and the statements on the database, each of which may fail, are a parameter.
pub mod Writer
pub mod Queue
pub mod Coherent
mod Tests
use anemone_rs.Base.{
  ℕ, zero, suc, ◌+◌, ◌-◌, Bool, true, false, ◌&&◌, Option, none, some, List, [], ◌∷◌, ◌++◌, ltb,
  leb, if◌then◌else◌, Text, text_eq, ℤ, pos, negsuc,
}

abbrev pub cache_ttl_secs : ℕ
cache_ttl_secs = 2592000

abbrev pub cache_max_rows : ℕ
cache_max_rows = 10000

abbrev pub puts_per_prune : ℕ
puts_per_prune = 100

pub record MemoryKey : Type 0 where
  pub engine_id : Text
  pub source_lang : Text
  pub target_lang : Text
  pub original : Text

pub data CacheWrite : Type 0 where
  put_write : MemoryKey → Text → ℕ → CacheWrite
  clear_write : CacheWrite
  prune_write : ℕ → CacheWrite

-- The statements on `translation_cache`: the upsert, the deletions, the VACUUM and the SELECT. One
-- that fails leaves the table alone.
pub record Sqlite : Type 1 where
  pub Db : Type 0
  pub upsert : Db → MemoryKey → Text → ℕ → Option Db
  pub delete_all : Db → Option Db
  pub vacuum : Db → Option Db
  pub delete_before : Db → ℤ → Option Db
  pub keep_newest : Db → ℕ → Option Db
  pub rows : Db → Option (List (MemoryKey × Text))

abbrev pub Memory : Type 0
Memory = MemoryKey → Option Text

-- `receiver` says whether the writer thread still takes commands.
pub record TranslationCacheStore (Db : Type 0) : Type 0 where
  pub memory : Memory
  pub writer : Bool
  pub receiver : Bool
  pub queue : List CacheWrite
  pub db : Db
  pub puts_since_prune : ℕ
  pub clear_in_progress : Bool
  pub prune_in_progress : Bool

pub key_eq : MemoryKey → MemoryKey → Bool
key_eq k j =
    text_eq k.engine_id j.engine_id
    && (text_eq k.source_lang j.source_lang
        && (text_eq k.target_lang j.target_lang && text_eq k.original j.original))

-- `HashMap::insert`, and the empty table.
pub insert : MemoryKey → Text → Memory → Memory
insert k v m j = if key_eq k j then some v else m j

abbrev pub no_memory : Memory
no_memory j = none

pub load_rows : Memory → List (MemoryKey × Text) → Memory
load_rows m [] = m
load_rows m (r ∷ rs) = load_rows (insert r.0 r.1 m) rs

-- `now - CACHE_TTL_SECS`
pub cutoff : ℕ → ℤ
cutoff now =
    if ltb now cache_ttl_secs then negsuc (cache_ttl_secs - now - 1) else pos (now - cache_ttl_secs)

module _ (lib : Sqlite) where
  pub load_memory : lib.Db → Memory
  load_memory db = elim (lib.rows db) [ none ↦ no_memory | some rs ↦ load_rows no_memory rs ]

  pub prune_connection : lib.Db → ℕ → lib.Db
  prune_connection db now = elim (lib.delete_before db (cutoff now)) [
    | none ↦ db
    | some db' ↦ elim (lib.keep_newest db' cache_max_rows) [ none ↦ db' | some db'' ↦ db'' ]
  ]

  -- `delete … and_then vacuum`: what the table is afterwards.
  pub clear_connection : lib.Db → lib.Db
  clear_connection db = elim (lib.delete_all db) [
    | none ↦ db
    | some db' ↦ elim (lib.vacuum db') [ none ↦ db' | some db'' ↦ db'' ]
  ]

module _ {Db : Type 0} where
  pub get : TranslationCacheStore Db → MemoryKey → Option Text
  get s key = if s.clear_in_progress then none else s.memory key

  -- `writer.send(…)` with the bookkeeping that its success and its failure need.
  pub enqueue : TranslationCacheStore Db → CacheWrite → TranslationCacheStore Db
  enqueue s c = record {
    memory = s.memory;
    writer = s.writer;
    receiver = s.receiver;
    queue = s.queue ++ c ∷ [];
    db = s.db;
    puts_since_prune = s.puts_since_prune;
    clear_in_progress = s.clear_in_progress;
    prune_in_progress = s.prune_in_progress;
  }

  pub with_memory : TranslationCacheStore Db → Memory → TranslationCacheStore Db
  with_memory s m = record {
    memory = m;
    writer = s.writer;
    receiver = s.receiver;
    queue = s.queue;
    db = s.db;
    puts_since_prune = s.puts_since_prune;
    clear_in_progress = s.clear_in_progress;
    prune_in_progress = s.prune_in_progress;
  }

  pub with_puts : TranslationCacheStore Db → ℕ → TranslationCacheStore Db
  with_puts s n = record {
    memory = s.memory;
    writer = s.writer;
    receiver = s.receiver;
    queue = s.queue;
    db = s.db;
    puts_since_prune = n;
    clear_in_progress = s.clear_in_progress;
    prune_in_progress = s.prune_in_progress;
  }

  pub with_flags : TranslationCacheStore Db → Bool → Bool → TranslationCacheStore Db
  with_flags s c p = record {
    memory = s.memory;
    writer = s.writer;
    receiver = s.receiver;
    queue = s.queue;
    db = s.db;
    puts_since_prune = s.puts_since_prune;
    clear_in_progress = c;
    prune_in_progress = p;
  }

  pub schedule_prune : TranslationCacheStore Db → ℕ → TranslationCacheStore Db
  schedule_prune s now =
      if s.prune_in_progress
      then s
      else (if s.writer && s.receiver
          then enqueue (with_flags s s.clear_in_progress true) (CacheWrite.prune_write now)
          else with_flags s s.clear_in_progress false)

  -- The end of `put`, past the send: every hundredth put schedules a prune.
  pub count_put : TranslationCacheStore Db → ℕ → TranslationCacheStore Db
  count_put s now =
      if leb puts_per_prune (s.puts_since_prune + 1)
      then schedule_prune (with_puts s 0) now
      else with_puts s (s.puts_since_prune + 1)

  -- `now` is the clock for the row, `later` for a prune.
  pub put : TranslationCacheStore Db → MemoryKey → Text → ℕ → ℕ → TranslationCacheStore Db
  put s key translation now later =
      if s.clear_in_progress
      then s
      else (if s.prune_in_progress
          then s
          else (if s.writer && s.receiver
              then count_put
                  (enqueue (with_memory s (insert key translation s.memory))
                    (CacheWrite.put_write key translation now))
                  later
              else with_memory s (insert key translation s.memory)))

  -- Without a writer there is no path either.
  pub clear : TranslationCacheStore Db → TranslationCacheStore Db
  clear s =
      let reset = with_puts s 0 in
      if s.writer
      then (if s.clear_in_progress
          then reset
          else (if s.receiver
              then enqueue (with_memory (with_flags reset true s.prune_in_progress) no_memory)
                  CacheWrite.clear_write
              else with_memory reset no_memory))
      else reset
