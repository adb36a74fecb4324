-- ===== src/Dispatch/Router/Tests.antt =====
-- Runs of src/translation/worker/dispatch.rs with three targets, and the theorems at these runs.
use anemone_rs.Base.{ℕ, ◌≡◌, refl, ◌⊎◌, inl, inr, true, false, none, some, List, [], ◌∷◌, length}
use mathlib.Core.List.{Memᴰ}
use anemone_rs.Dispatch.{
  PendingEntry, World, worker_unavailable, route_slot_new, dispatch_state_new, spawn, assign_id,
  push_pending, push_response, keep_going, take_pending, drop_id, drop_for, drop_response,
  drop_target, set_latest, cancel, withdraw,
}
use anemone_rs.Dispatch.Pending.{queue_for}
use anemone_rs.Dispatch.Router.{
  Event, remove_at, with_state, with_slots, with_jobs, register, route, send, enter, request,
  take_response_for_target, unregister, receive, stored, route_response, finish, supersede, close,
  exit, perform, run,
}
use anemone_rs.Dispatch.Router.Valid
use anemone_rs.Dispatch.Router.Valid.{IsValid}
use anemone_rs.Dispatch.Router.Silent
use anemone_rs.Dispatch.Router.Latest
use anemone_rs.Dispatch.Router.Answered

program : Unit {0}
unfolding route_slot_new dispatch_state_new spawn assign_id push_pending push_response keep_going
    take_pending drop_id drop_for drop_response drop_target set_latest cancel withdraw remove_at
    with_state with_slots with_jobs register route send enter request take_response_for_target
    unregister receive stored route_response finish supersede close exit perform run queue_for
program = tt

-- A request replaced before its task ends, one for another target, and the ends of their tasks.
abbrev two_requests : List (Event ℕ ℕ)
two_requests =
    Event.requested 7 [] 1
    ∷ Event.received
    ∷ Event.requested 8 [] 2
    ∷ Event.requested 7 [] 3
    ∷ Event.received
    ∷ Event.received
    ∷ []

abbrev replaced : List (Event ℕ ℕ)
replaced =
    Event.requested 7 [] 1
    ∷ Event.received
    ∷ Event.requested 7 [] 3
    ∷ Event.received
    ∷ Event.finished 0 40 true
    ∷ Event.finished 0 50 true
    ∷ []

abbrev refused : List (Event ℕ ℕ)
refused = Event.requested 7 [] 1 ∷ Event.received ∷ Event.finished 0 40 false ∷ []

abbrev closing : List (Event ℕ ℕ)
closing = Event.closed ∷ Event.exited ∷ []

abbrev ends : List (Event ℕ ℕ)
ends =
    Event.received
    ∷ Event.finished 0 40 true
    ∷ Event.finished 0 50 true
    ∷ Event.finished 0 60 true
    ∷ Event.finished 0 60 true
    ∷ []

abbrev newest_id : ℕ
newest_id = 4

-- Task 0 answers the older request of target 7, and nobody hears of it; task 2 answers the newer.
stale_run : (take_response_for_target (run spawn replaced) 7).0 ≡ some (2, record { result = 50 })
unfolding program
stale_run = refl

refusal_run : (take_response_for_target (run spawn refused) 7).0 ≡ none
unfolding program
refusal_run = refl

closed_run : (request (run spawn closing) 7 [] 1).0 ≡ inl worker_unavailable
unfolding program
closed_run = refl

abbrev busy : World ℕ ℕ
busy = run spawn two_requests

run-spawn-IsValid_example : IsValid busy
run-spawn-IsValid_example = Valid.run-spawn-IsValid two_requests

unregister_stays_silent_example :
    (take_response_for_target
      (run
        (unregister busy 7)
        (Event.finished 0 40 true ∷ Event.finished 1 50 true ∷ Event.taken 8 ∷ []))
      7).0
    ≡ none
unregister_stays_silent_example =
    Silent.unregister_stays_silent busy 7
      (Event.finished 0 40 true ∷ Event.finished 1 50 true ∷ Event.taken 8 ∷ [])
      (refl, (refl, (refl, tt)))

request_delivers_latest_example :
    (newest_id ≡ newest_id)
    ⊎ ((e : PendingEntry ℕ) × Memᴰ e busy.state.pending
        × (e.req_id ≡ newest_id)
        × (e.response ≡ record { result = 60 }))
unfolding program
request_delivers_latest_example =
    Latest.request_delivers_latest busy 7 4 [] 5 ends 4 (record { result = 60 })
      (Valid.run-spawn-IsValid two_requests) refl (refl, (refl, (refl, (refl, (refl, tt))))) refl

request_answered_example :
    ((request busy 9 [] 6).0 ≡ inr busy.state.next_id)
    × ((take_response_for_target
          (run
            (request busy 9 [] 6).1
            (Event.received ∷ Event.finished (length busy.running) 70 true ∷ []))
          9).0
        ≡ some (busy.state.next_id, record { result = 70 }))
unfolding program
request_answered_example = Answered.request_answered busy 9 [] 6 70 refl refl refl refl

abbrev waiting : List (PendingEntry ℕ)
waiting =
    record { req_id = 1; target = 8; response = record { result = 10 } }
    ∷ record { req_id = 2; target = 7; response = record { result = 20 } }
    ∷ record { req_id = 3; target = 7; response = record { result = 30 } }
    ∷ []
