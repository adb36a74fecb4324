-- ===== src/Lib.antt =====
-- Verification of anemone_rs, a Windows program that takes the text of a game from a hook, from the
-- clipboard or from a file, has it translated, and shows it over the game.
--
-- The program: src/app keeps the state of the window and its history; src/translation prepares jobs,
-- runs them on a worker (worker/) and on helper processes of EzTrans (eztrans_process/); src/file_trans
-- translates whole files through the same helpers; src/d2d draws, with caches that spare the layout of
-- unchanged text; src/update looks for new releases; src/hook talks to the process of the game. The
-- settings of src/config are read from a file and changed by the actions of the window. The
-- dispatcher answers src/app through queues of responses, the file translation calls the pool of
-- helpers with batches of lines, and the window shows what the history renders.
--
-- What models what:
--   Base           shared names, native lists, texts as lists of scalar values, machine integers
--   Backlog        src/app/backlog.rs: the history, its eviction, its rendering and its export
--   EztransPool    src/translation/eztrans_process/pool.rs: attempts, restarts and the bisection of
--                  a batch; `split_eztrans_batch` of src/file_trans/eztrans.rs
--   FileTrans      src/file_trans/eztrans.rs: Partition for `partition_eztrans_batches`, Window for
--                  `translate_eztrans_window`; Lines and Count for input.rs and output.rs, the
--                  lines of a file and the pass that counts them
--   RenderCache    src/d2d/cache and src/d2d/style.rs: Keys and Outline for the keys and their borrowed
--                  views, Measure for the measured heights, Unused and Miss for the trackers
--   Update         src/update/version.rs, check.rs, schedule.rs, sha256.rs and mod.rs: versions,
--                  digests, the choice of a release, the trust of its addresses, and when to look
--   HookText       src/hook/text_bridge/decode.rs: the clean-up of hooked text, and the lead bytes;
--                  Merger for merger.rs, which joins the pieces of a source
--   TranslationCache  src/app/translation_cache.rs: the memory table of the window and, in Writer, the
--                  thread that writes its changes to SQLite, as interleaved steps
--   Config         src/config: Text, Limits, Hook, Llm, Hotkey, CustomApi, Translation and App for the
--                  settings and their normal form, File for the file, its check and its quarantine
--   AppState       src/app/state.rs: Model for the state and its actions, Reducer for `update` and the
--                  commands, Actions for the queue of src/app/action.rs and the window's turns,
--                  Pending and HookQueue for the translations and hooked texts of src/app/hook_text.rs
--   HookPipe       src/hook/pipe_client: Bytes, Frame and Notification for notification.rs, Command for
--                  command.rs, Layout for what they take from the hooking library
--   Dispatch       src/translation/worker/state.rs and dispatch.rs: Router is an interpreter of the
--                  sequences of calls and of ends of tasks
-- A struct is a record and an enum a data type with the names of the source; an operation is a
-- function of the state with the operation's name, which gives the new state. The child modules named
-- for a property (Evict, Faithful, Exact, Laws, RoundTrip, Silent, Latest, Answered, Coherent, Normal,
-- Loaded, Kept, Switch, Valid, Preview, Effects, OnlyFrames, Delivered, Written, Checked, Dressed,
-- Whole) hold proofs, and each Tests module holds runs at concrete data.
--
-- Bounds and fuel: `usize`, `u32`, `u64`, `i32` and `i64` keep their limits, with saturation,
-- wrapping and checks written out where the code has them. `translate_resilient` takes fuel: it
-- halves its batch, and fuel of one more than the number of lines is shown to be enough. The
-- decimal digits of a `u32` take fuel ten, which is enough for every 32-bit number. The loop over
-- a heap takes as much fuel as the heap has entries, of which each turn takes one. The names of a
-- quarantined file are tried a thousand times, as in the code. The loop over the arguments of a
-- message takes fuel of as many turns as its payload has bytes, of which each turn takes four or
-- more. A 32-bit float is its bits. Every other loop is structural.
--
-- Parameters: the helper process and its restart, the cache of the quick_cache crate, the URL
-- parser, the statements on SQLite, the decoders of hooked text, and the engines' results, which
-- come with the event that ends a task; the reader and the printer of TOML, the paths, what the file
-- system answers, the codes of the keys; and the layouts, the numbers of the calls and the frame
-- builder of the hooking library. A call of the dispatcher and the end of a task are one
-- step each: the order of the locks inside a call is not interleaved. So is a call of the cache of
-- translations, and a command of its writer.
--
-- Not modelled: Win32 and Direct2D calls, the dialogs, the command line, HTTP clients, the
-- injection of the hook, logging, and the stubs of closed parts: they are calls of the system with
-- little state of their own. The actions of the window are reduced one after the other, and what
-- their effects do to the window in between is left out. The preview of a file, its
-- pipeline and its supervision, the tables of languages, the download and replacement of a
-- release and the geometry of snapping have logic of their own, and no model yet.
pub mod Base
pub mod Backlog
pub mod EztransPool
pub mod FileTrans
pub mod RenderCache
pub mod Update
pub mod Dispatch
pub mod TranslationCache
pub mod HookText
pub mod HookPipe
pub mod Config
pub mod AppState
