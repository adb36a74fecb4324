-- ===== src/Dispatch/Router.antt =====
-- The calls of src/translation/worker/dispatch.rs and the ends of its tasks, and the sequences of
-- them that a program can see. A call that the runtime cannot make then leaves the world alone.
pub mod Frames
pub mod Valid
pub mod Silent
pub mod Came
pub mod Latest
pub mod Answered
mod Tests
use anemone_rs.Base.{
  ℕ, zero, suc, ◌+◌, ◌⊎◌, inl, inr, Bool, true, false, not, ◌&&◌, Option, none, some, List, [], ◌∷◌,
  ◌++◌, ◌==◌, if◌then◌else◌, length, Text,
}
use anemone_rs.Dispatch.{
  TranslationRequest, TranslationRequestError, worker_unavailable, TranslationResponse,
  PendingEntry, RouteSlot, DispatchState, DispatchJob, World, insert, route_slot_new, assign_id,
  push_response, take_pending, drop_response, drop_target, set_latest, cancel, withdraw,
}

-- What the program's threads do next. `finished` ends the task at a place of `running` with a result,
-- and says whether the notifier took the news; `superseded` ends one that sees a newer request.
pub data Event (J R : Type 0) : Type 0 where
  requested : ℕ → Text → J → Event J R
  taken : ℕ → Event J R
  unregistered : ℕ → Event J R
  received : Event J R
  finished : ℕ → R → Bool → Event J R
  superseded : ℕ → Event J R
  closed : Event J R
  exited : Event J R

pub remove_at {ℓ} : {A : Type ℓ} → List A → ℕ → Option (A × List A)
remove_at [] i = none
remove_at (x ∷ xs) zero = some (x, xs)
remove_at (x ∷ xs) (suc i) = elim (remove_at xs i) [ none ↦ none | some r ↦ some (r.0, x ∷ r.1) ]

module _ {J R : Type 0} where
  pub with_state : World J R → DispatchState R → World J R
  with_state w s = record {
    state = s;
    routes = w.routes;
    slots = w.slots;
    fresh = w.fresh;
    sender = w.sender;
    receiver = w.receiver;
    queue = w.queue;
    running = w.running;
  }

  pub with_slots : World J R → (ℕ → RouteSlot) → World J R
  with_slots w slots = record {
    state = w.state;
    routes = w.routes;
    slots = slots;
    fresh = w.fresh;
    sender = w.sender;
    receiver = w.receiver;
    queue = w.queue;
    running = w.running;
  }

  pub with_jobs : World J R → List (DispatchJob J) → List (DispatchJob J) → World J R
  with_jobs w queue running = record {
    state = w.state;
    routes = w.routes;
    slots = w.slots;
    fresh = w.fresh;
    sender = w.sender;
    receiver = w.receiver;
    queue = queue;
    running = running;
  }

  -- A new slot at the first free address.
  pub register : World J R → ℕ → World J R
  register w target = record {
    state = w.state;
    routes = insert target (some w.fresh) w.routes;
    slots = insert w.fresh route_slot_new w.slots;
    fresh = w.fresh + 1;
    sender = w.sender;
    receiver = w.receiver;
    queue = w.queue;
    running = w.running;
  }

  -- `routes.entry(target).or_insert_with(…)`
  pub route : World J R → ℕ → ℕ × World J R
  unfolding register
  route w target = elim (w.routes target) [ none ↦ (w.fresh, register w target) | some a ↦ (a, w) ]

  -- The end of `request`, with the slot in hand: the job goes into the channel, or the slot is
  -- taken back.
  pub send : World J R → ℕ → ℕ → TranslationRequest J → (TranslationRequestError ⊎ ℕ) × World J R
  unfolding with_slots with_jobs
  send w a target req =
      if w.sender && w.receiver
      then (
        inr req.id,
        with_jobs w (w.queue ++ record { target = target; req = req; route = a } ∷ []) w.running,
      )
      else (inl worker_unavailable, with_slots w (insert a (withdraw (w.slots a) req.id) w.slots))

  -- `request`, from the id on.
  pub enter : World J R → ℕ → TranslationRequest J → (TranslationRequestError ⊎ ℕ) × World J R
  unfolding route send
  enter w target req =
      let (a, w') = route w target in
      send (with_slots w' (insert a (set_latest req.id) w'.slots)) a target req

  pub request : World J R → ℕ → Text → J → (TranslationRequestError ⊎ ℕ) × World J R
  unfolding enter with_state
  request w target text job =
      let (id, s) = assign_id w.state in
      enter (with_state w s) target (record { id = id; text = text; job = job })

  pub take_response_for_target : World J R → ℕ → Option (ℕ × TranslationResponse R) × World J R
  unfolding with_state
  take_response_for_target w target = elim (take_pending w.state.pending target) [
    | none ↦ (none, w)
    | some r ↦ (some r.0, with_state w (record { next_id = w.state.next_id; pending = r.1 }))
  ]

  pub unregister : World J R → ℕ → World J R
  unregister w target = record {
    state = drop_target w.state target;
    routes = insert target none w.routes;
    slots = elim (w.routes target) [ none ↦ w.slots | some a ↦ insert a cancel w.slots ];
    fresh = w.fresh;
    sender = w.sender;
    receiver = w.receiver;
    queue = w.queue;
    running = w.running;
  }

  -- One turn of the loop of `worker_thread`.
  pub receive : World J R → List (DispatchJob J) → World J R
  unfolding with_jobs
  receive w [] = w
  receive w (job ∷ jobs) =
      if (w.slots job.route).latest_id == job.req.id
      then with_jobs w jobs (w.running ++ job ∷ [])
      else with_jobs w jobs w.running

  pub stored : World J R → ℕ → ℕ → R → World J R
  unfolding with_state
  stored w target req_id result = with_state w (
      push_response w.state
        (record { req_id = req_id; target = target; response = record { result = result } }))

  -- `route_response`; the flag is what the notifier answers.
  pub route_response : World J R → ℕ → ℕ → ℕ → R → Bool → World J R
  unfolding stored
  route_response w target a req_id result notified = elim (w.routes target) [
    | none ↦ w
    | some current ↦
        if (current == a) && ((w.slots a).latest_id == req_id)
        then (if notified
            then stored w target req_id result
            else with_state (stored w target req_id result)
                (drop_response (stored w target req_id result).state req_id))
        else w
  ]

  pub finish : World J R → Option (DispatchJob J × List (DispatchJob J)) → R → Bool → World J R
  unfolding route_response
  finish w none result notified = w
  finish w (some r) result notified =
      route_response (with_jobs w w.queue r.1) r.0.target r.0.route r.0.req.id result notified

  -- `wait_until_superseded` returns once the channel holds another id.
  pub supersede : World J R → Option (DispatchJob J × List (DispatchJob J)) → World J R
  supersede w none = w
  supersede w (some r) =
      if (w.slots r.0.route).cancellation == r.0.req.id then w else with_jobs w w.queue r.1

  -- `shutdown` drops the sender; the worker then ends, and its runtime with the tasks.
  pub close : World J R → World J R
  close w = record {
    state = w.state;
    routes = w.routes;
    slots = w.slots;
    fresh = w.fresh;
    sender = false;
    receiver = w.receiver;
    queue = w.queue;
    running = w.running;
  }

  pub exit : World J R → List (DispatchJob J) → World J R
  exit w (job ∷ jobs) = w
  exit w [] = if w.sender then w else record {
    state = w.state;
    routes = w.routes;
    slots = w.slots;
    fresh = w.fresh;
    sender = w.sender;
    receiver = false;
    queue = [];
    running = [];
  }

  pub perform : World J R → Event J R → World J R
  perform w (Event.requested target text job) = (request w target text job).1
  perform w (Event.taken target) = (take_response_for_target w target).1
  perform w (Event.unregistered target) = unregister w target
  perform w Event.received = receive w w.queue
  perform w (Event.finished i result notified) = finish w (remove_at w.running i) result notified
  perform w (Event.superseded i) = supersede w (remove_at w.running i)
  perform w Event.closed = close w
  perform w Event.exited = exit w w.queue

  pub run : World J R → List (Event J R) → World J R
  run w [] = w
  run w (e ∷ es) = run (perform w e) es
