-- ===== src/TranslationCache/Tests.antt =====
-- Runs of src/app/translation_cache.rs over a table that is a log of its rows, and the theorems at
-- these runs.
use anemone_rs.Base.{
  ◌-◌, ◌≡◌, refl, false, none, some, List, [], ◌∷◌, ◌++◌, length, drop, Text, text_eq,
}
use anemone_rs.TranslationCache.{
  MemoryKey, Sqlite, Memory, key_eq, insert, no_memory, load_rows, cutoff, load_memory,
  prune_connection, clear_connection, get, enqueue, with_memory, with_puts, with_flags,
  schedule_prune, count_put, put, clear,
}
use anemone_rs.TranslationCache.Writer.{Event, written, write, open_store, perform, run}
use anemone_rs.TranslationCache.Coherent
use anemone_rs.TranslationCache.Coherent.{caught_up, IsReliable, IsCoherent}

program : Unit {0}
unfolding text_eq key_eq insert load_rows cutoff load_memory prune_connection clear_connection get
    enqueue with_memory with_puts with_flags schedule_prune count_put put clear written write
    open_store perform run
program = tt

abbrev log_table : Sqlite
log_table = record {
  Db = List (MemoryKey × Text);
  upsert = λ db k v now. some (db ++ (k, v) ∷ []);
  delete_all = λ db. some [];
  vacuum = λ db. some db;
  delete_before = λ db c. some db;
  keep_newest = λ db n. some (drop (length db - n) db);
  rows = λ db. some db;
}

load_rows-snoc :
    (m : Memory) (rs : List (MemoryKey × Text)) (k : MemoryKey) (v : Text)
    → load_rows m (rs ++ (k, v) ∷ []) ≡ insert k v (load_rows m rs)
unfolding load_rows
load_rows-snoc m [] k v = refl
load_rows-snoc m (r ∷ rs) k v = load_rows-snoc (insert r.0 r.1 m) rs k v

log_table-IsReliable : IsReliable log_table
unfolding load_memory clear_connection load_rows
log_table-IsReliable = record {
  upserts = λ db k v now. (db ++ (k, v) ∷ [], refl, load_rows-snoc no_memory db k v);
  clears = λ db. refl;
}

abbrev hello : MemoryKey
hello = record {
  engine_id = b'e' ∷ [];
  source_lang = b'j' ∷ [];
  target_lang = b'k' ∷ [];
  original = b'h' ∷ [];
}

abbrev bye : MemoryKey
bye = record {
  engine_id = b'e' ∷ [];
  source_lang = b'j' ∷ [];
  target_lang = b'k' ∷ [];
  original = b'b' ∷ [];
}

-- The prune of the start is written, then two puts, and the first of them is written.
abbrev calls : List Event
calls =
    Event.wrote
    ∷ Event.called_put hello (b'x' ∷ []) 5 5
    ∷ Event.called_put bye (b'y' ∷ []) 6 6
    ∷ Event.wrote
    ∷ []

abbrev all_written : List Event
all_written =
    Event.wrote
    ∷ Event.called_put hello (b'x' ∷ []) 5 5
    ∷ Event.called_put bye (b'y' ∷ []) 6 6
    ∷ Event.wrote
    ∷ Event.wrote
    ∷ []

pending_run : get (run log_table (open_store log_table [] 0) calls) bye ≡ some (b'y' ∷ [])
unfolding program
pending_run = refl

-- A put before the prune of the start is written is not taken in.
late_run :
    get (run log_table (open_store log_table [] 0) (Event.called_put hello [] 5 5 ∷ [])) hello
    ≡ none
unfolding program
late_run = refl

clear_run :
    get (run log_table (open_store log_table ((hello, []) ∷ []) 0) (Event.called_clear ∷ [])) hello
    ≡ none
unfolding program
clear_run = refl

run-open_store-IsCoherent_example :
    IsCoherent log_table (run log_table (open_store log_table [] 0) calls)
run-open_store-IsCoherent_example =
    Coherent.run-open_store-IsCoherent log_table log_table-IsReliable [] 0 calls

get-caught_up_example :
    ((caught_up log_table (run log_table (open_store log_table [] 0) calls)).queue ≡ [])
    × ((caught_up log_table (run log_table (open_store log_table [] 0) calls)).clear_in_progress
        ≡ false)
    × ((caught_up log_table (run log_table (open_store log_table [] 0) calls)).prune_in_progress
        ≡ false)
    × (get (caught_up log_table (run log_table (open_store log_table [] 0) calls)) hello
        ≡ load_memory log_table
            (caught_up log_table (run log_table (open_store log_table [] 0) calls)).db
            hello)
get-caught_up_example = Coherent.get-caught_up log_table log_table-IsReliable [] 0 calls hello
