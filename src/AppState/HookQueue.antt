-- ===== src/AppState/HookQueue.antt =====
-- src/app/hook_text.rs: the sentences of the game that wait for the translation before them.
use anemone_rs.Base.{
  ℕ, ◌≤◌, Bool, true, false, not, ◌&&◌, Option, none, some, List, [], ◌∷◌, ◌++◌, ◌≡◌, refl, ap, sym,
  ◌∙◌, arith, leb, if◌then◌else◌, Bool-cases, inl, inr, Text, is_empty, length, length-append,
  append_assoc, append-nil, eq_ignore_ascii_case,
}
use anemone_rs.Config.Hook.{SavedHookProfile, saved_profile}
use anemone_rs.HookText.Merger.{drain_all}
use anemone_rs.AppState.Model.{AppModel, AppState, QueuedHookText, PendingTranslation}
use anemone_rs.AppState.Pending.{waits_for_pending_translation, age}

abbrev pub max_queued_hook_texts : ℕ
max_queued_hook_texts = 8

abbrev pub Queue : Type 0
Queue = List QueuedHookText

-- `pop_front`, and `push_back` after it.
unfoldable pub queue_hook_text : Queue → QueuedHookText → List QueuedHookText × Queue
queue_hook_text [] text = ([], text ∷ [])
queue_hook_text (q ∷ queue) text =
    if leb max_queued_hook_texts (length (q ∷ queue))
    then (q ∷ [], queue ++ text ∷ [])
    else ([], (q ∷ queue) ++ text ∷ [])

-- The loop of `take_queued_hook_text`.
unfoldable pub join_pieces : Text → Queue → Text
join_pieces joined [] = joined
join_pieces joined (piece ∷ queue) =
    join_pieces
      ((if piece.full_string && not (is_empty joined) then joined ++ 10 ∷ [] else joined)
        ++ piece.text)
      queue

unfoldable pub take_queued_hook_text : Queue → Option Text × Queue
take_queued_hook_text queue =
    let joined = join_pieces [] queue in (if is_empty joined then none else some joined, [])

abbrev age_of : Option PendingTranslation → ℕ → Option ℕ
age_of none now = none
age_of (some p) now = some (age p now)

-- The text that is to be requested, if any, and the queue that is left.
unfoldable pub pump_hook_translation : AppState → ℕ → Option Text × AppState
pump_hook_translation s now = elim s.hook_text_queue [
  | [] ↦ (none, s)
  | q ∷ queue ↦
      if waits_for_pending_translation (age_of s.pending_translation now)
      then (none, s)
      else let (joined, rest) = take_queued_hook_text (q ∷ queue) in
        (joined, record s { hook_text_queue = rest })
]

abbrev pub is_known : Text → List Text → Bool
is_known name [] = false
is_known name (known ∷ engines) =
    if eq_ignore_ascii_case known name then true else is_known name engines

unfoldable pub handle_engine_detected : AppState → Text → AppState
handle_engine_detected s engine_name = elim s.hook_session [
  | none ↦ s
  | some session ↦ if is_known engine_name session.detected_engines then s else record s {
    hook_session =
        some (record session { detected_engines = session.detected_engines ++ engine_name ∷ [] });
  }
]

-- The changes of the state in `handle_hook_attached`; the profile is selected in the dialog.
unfoldable pub handle_hook_attached :
    AppModel → ℕ → Text → Text → Option Text → Option SavedHookProfile × AppModel
handle_hook_attached m pid arch_label process_name exe_sha256 = (
  saved_profile m.config.hook process_name exe_sha256,
  record m {
    config = record m.config {
      hook = record m.config.hook {
        enabled = true;
        last_target_pid = pid;
        last_target_name = process_name;
      };
    };
    runtime = record m.runtime {
      hook_session = some (record {
        pid = pid;
        process_name = process_name;
        exe_sha256 = exe_sha256;
        arch_label = arch_label;
        detected_engines = [];
      });
    };
  },
)

-- `clear_hook_pending` and the end of the session in `handle_hook_detached`.
unfoldable pub handle_hook_detached : AppState → AppState
handle_hook_detached s = record s {
  hook_merger = (drain_all s.hook_merger).1;
  hook_text_queue = [];
  hook_session = none;
}

queued_full :
    (q : QueuedHookText) (queue : Queue) (text : QueuedHookText)
    → leb max_queued_hook_texts (length (q ∷ queue)) ≡ true
    → queue_hook_text (q ∷ queue) text ≡ (q ∷ [], queue ++ text ∷ [])
unfolding queue_hook_text
queued_full q queue text h = rw (queue_hook_text, h) refl

queued_room :
    (q : QueuedHookText) (queue : Queue) (text : QueuedHookText)
    → leb max_queued_hook_texts (length (q ∷ queue)) ≡ false
    → queue_hook_text (q ∷ queue) text ≡ ([], (q ∷ queue) ++ text ∷ [])
unfolding queue_hook_text
queued_room q queue text h = rw (queue_hook_text, h) refl

-- Sentences one after the other, with all that were dropped.
unfoldable pub queue_all : Queue → List QueuedHookText → List QueuedHookText × Queue
queue_all queue [] = ([], queue)
queue_all queue (t ∷ ts) =
    let (dropped, next) = queue_hook_text queue t in
    let (more, final) = queue_all next ts in (dropped ++ more, final)

queue_hook_text-conserved :
    (queue : Queue) (text : QueuedHookText)
    → (queue_hook_text queue text).0 ++ (queue_hook_text queue text).1 ≡ queue ++ text ∷ []
unfolding queue_hook_text
queue_hook_text-conserved [] text = refl
queue_hook_text-conserved (q ∷ queue) text =
    elim (Bool-cases (leb max_queued_hook_texts (length (q ∷ queue)))) [
      | inl full ↦ ap (λ r. r.0 ++ r.1) (queued_full q queue text full)
      | inr room ↦ ap (λ r. r.0 ++ r.1) (queued_room q queue text room)
    ]

queue_hook_text-bound :
    (queue : Queue) (text : QueuedHookText)
    → length queue ≤ max_queued_hook_texts
    → length (queue_hook_text queue text).1 ≤ max_queued_hook_texts
unfolding queue_hook_text
queue_hook_text-bound [] text h = omega arith
queue_hook_text-bound (q ∷ queue) text h =
    elim (Bool-cases (leb max_queued_hook_texts (length (q ∷ queue)))) [
      | inl full ↦ omega (
        arith,
        ap (λ r. length r.1) (queued_full q queue text full),
        length-append queue (text ∷ []),
      )
      | inr room ↦ ground (
        arith,
        ap (λ r. length r.1) (queued_room q queue text room),
        length-append queue (text ∷ []),
      )
    ]

-- Sentences are dropped from the front only: those that were dropped, and then those that wait, are
-- those that waited and came, in their order; and at most eight wait.
pub queue_all-conserved :
    (queue : Queue) (texts : List QueuedHookText)
    → length queue ≤ max_queued_hook_texts
    → ((queue_all queue texts).0 ++ (queue_all queue texts).1 ≡ queue ++ texts)
      × (length (queue_all queue texts).1 ≤ max_queued_hook_texts)
unfolding queue_all
queue_all-conserved queue [] h = (sym (append-nil queue), h)
queue_all-conserved queue (t ∷ ts) h =
    let (dropped, next) = queue_hook_text queue t in
    let (same, bound) = queue_all-conserved next ts (queue_hook_text-bound queue t h) in
    (
      append_assoc dropped (queue_all next ts).0 (queue_all next ts).1
          ∙ ap (λ r. dropped ++ r) same
          ∙ sym (append_assoc dropped next ts)
          ∙ ap (λ r. r ++ ts) (queue_hook_text-conserved queue t)
          ∙ append_assoc queue (t ∷ []) ts,
      bound,
    )
