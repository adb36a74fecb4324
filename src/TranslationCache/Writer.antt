-- ===== src/TranslationCache/Writer.antt =====
-- The writer thread of src/app/translation_cache.rs, and the calls and commands in their order.
use anemone_rs.Base.{ℕ, true, false, none, some, List, [], ◌∷◌, Text}
use anemone_rs.TranslationCache.{
  MemoryKey, CacheWrite, Sqlite, TranslationCacheStore, no_memory, load_memory, prune_connection,
  clear_connection, with_memory, with_flags, schedule_prune, put, clear,
}

-- What the program does next: a call of the window's thread, or one command of the writer's loop.
pub data Event : Type 0 where
  called_put : MemoryKey → Text → ℕ → ℕ → Event
  called_clear : Event
  wrote : Event

module _ (lib : Sqlite) where
  unfoldable pub written :
      TranslationCacheStore lib.Db → lib.Db → List CacheWrite → TranslationCacheStore lib.Db
  written s db queue = record {
    memory = s.memory;
    writer = s.writer;
    receiver = s.receiver;
    queue = queue;
    db = db;
    puts_since_prune = s.puts_since_prune;
    clear_in_progress = s.clear_in_progress;
    prune_in_progress = s.prune_in_progress;
  }

  -- One turn of the loop of `spawn_writer`.
  unfoldable pub write :
      TranslationCacheStore lib.Db → List CacheWrite → TranslationCacheStore lib.Db
  write s [] = s
  write s (CacheWrite.put_write key translation now ∷ q) =
      elim (lib.upsert s.db key translation now) [
        | none ↦ written s s.db q
        | some db' ↦ written s db' q
      ]
  write s (CacheWrite.clear_write ∷ q) =
      with_flags (with_memory (written s (clear_connection lib s.db) q) no_memory) false
        s.prune_in_progress
  write s (CacheWrite.prune_write now ∷ q) =
      with_flags
        (with_memory (written s (prune_connection lib s.db now) q)
          (load_memory lib (prune_connection lib s.db now)))
        s.clear_in_progress false

  -- `open` on a database that opens, with its writer running.
  unfoldable pub open_store : lib.Db → ℕ → TranslationCacheStore lib.Db
  open_store db now =
      schedule_prune
        (record {
          memory = load_memory lib db;
          writer = true;
          receiver = true;
          queue = [];
          db = db;
          puts_since_prune = 0;
          clear_in_progress = false;
          prune_in_progress = false;
        })
        now

  unfoldable pub perform : TranslationCacheStore lib.Db → Event → TranslationCacheStore lib.Db
  perform s (Event.called_put key translation now later) = put s key translation now later
  perform s Event.called_clear = clear s
  perform s Event.wrote = write s s.queue

  unfoldable pub run : TranslationCacheStore lib.Db → List Event → TranslationCacheStore lib.Db
  run s [] = s
  run s (e ∷ es) = run (perform s e) es
