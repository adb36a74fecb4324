-- ===== src/Dispatch/Router/Frames.antt =====
-- What the calls of src/translation/worker/dispatch.rs do to the routes, to the slots and to the
-- responses that wait.
use anemone_rs.Base.{
  ℕ, ◌≡◌, inl, inr, Bool, false, Option, some, Option-cases, Bool-cases, List, arith, ◌==◌, Text,
  ◌&&◌,
}
use anemone_rs.Dispatch.{
  PendingEntry, DispatchJob, World, push_pending, drop_id, push_response, drop_response, set_latest,
  assign_id,
}
use anemone_rs.Dispatch.Router.{
  with_state, with_slots, with_jobs, register, route, send, enter, request,
  take_response_for_target, receive, stored, route_response, supersede, exit,
}

-- The entry that a result becomes.
abbrev pub response_entry : {R : Type 0} → ℕ → ℕ → R → PendingEntry R
response_entry target id result = record {
  req_id = id;
  target = target;
  response = record { result = result };
}

-- A response is stored only for the newest request of a route that is still the target's own, and
-- it is dropped again, with all of its id, when the notifier refuses.
pub data Routes {J R : Type 0} (w : World J R) (target a id : ℕ) (result : R)
    : List (PendingEntry R) → Type 0 where
  dropped : Routes w target a id result w.state.pending
  kept :
      w.routes target ≡ some a
      → (w.slots a).latest_id ≡ id
      → Routes w target a id result (push_pending w.state.pending (response_entry target id result))
  refused :
      w.routes target ≡ some a
      → (w.slots a).latest_id ≡ id
      → Routes w target a id result
          (drop_id (push_pending w.state.pending (response_entry target id result)) id)

module _ {J R : Type 0} where
  pub request-pending :
      (w : World J R) (target : ℕ) (text : Text) (job : J)
      → (request w target text job).1.state.pending ≡ w.state.pending
  unfolding request enter send route register with_state with_slots with_jobs assign_id
  request-pending w target text job = ground arith

  pub request-route :
      (w : World J R) (target : ℕ) (text : Text) (job : J)
      → ((request w target text job).1.routes ≡ (route w target).1.routes)
        × ((request w target text job).1.fresh ≡ (route w target).1.fresh)
  unfolding request enter send route register with_state with_slots with_jobs assign_id
  request-route w target text job = ground arith

  pub request-routes :
      (w : World J R) (t target : ℕ) (text : Text) (job : J)
      → (target == t) ≡ false
      → (request w target text job).1.routes t ≡ w.routes t
  unfolding request enter send route register with_state with_slots with_jobs assign_id
  request-routes w t target text job n = ground arith

  -- A request writes to no slot but its own.
  pub request-slots :
      (w : World J R) (target a : ℕ) (text : Text) (job : J)
      → ((route w target).0 == a) ≡ false
      → (request w target text job).1.slots a ≡ w.slots a
  unfolding request enter send route register with_state with_slots with_jobs assign_id
  request-slots w target a text job n = ground arith

  -- A request that is taken in leaves its id in the slot of its route.
  pub request-latest :
      (w : World J R) (target id : ℕ) (text : Text) (job : J)
      → (request w target text job).0 ≡ inr id
      → (a : ℕ) × ((request w target text job).1.routes target ≡ some a)
        × (((request w target text job).1.slots a).latest_id ≡ id)
  unfolding request enter send route register with_state with_slots with_jobs assign_id set_latest
  request-latest w target id text job h = ((route w target).0, ground (arith, h), ground (arith, h))

  -- What taking a response leaves of the world.
  pub take-frame :
      (w : World J R) (target : ℕ)
      → ((take_response_for_target w target).1.routes ≡ w.routes)
        × ((take_response_for_target w target).1.slots ≡ w.slots)
        × ((take_response_for_target w target).1.fresh ≡ w.fresh)
  unfolding take_response_for_target with_state
  take-frame w target = ground arith

  pub route_response-routes :
      (w : World J R) (target a id : ℕ) (result : R) (notified : Bool)
      → (route_response w target a id result notified).routes ≡ w.routes
  unfolding route_response stored with_state push_response drop_response
  route_response-routes w target a id result notified = ground arith

  pub route_response-slots :
      (w : World J R) (target a id : ℕ) (result : R) (notified : Bool)
      → (route_response w target a id result notified).slots ≡ w.slots
  unfolding route_response stored with_state push_response drop_response
  route_response-slots w target a id result notified = ground arith

  pub route_response-fresh :
      (w : World J R) (target a id : ℕ) (result : R) (notified : Bool)
      → (route_response w target a id result notified).fresh ≡ w.fresh
  unfolding route_response stored with_state push_response drop_response
  route_response-fresh w target a id result notified = ground arith

  pub route_response-Routes :
      (w : World J R) (target a id : ℕ) (result : R) (notified : Bool)
      → Routes w target a id result (route_response w target a id result notified).state.pending
  unfolding route_response stored with_state push_response drop_response
  route_response-Routes w target a id result notified = elim (Option-cases (w.routes target)) [
    | inl e ↦ rw (route_response, e) Routes.dropped
    | inr (c, e) ↦ elim (Bool-cases ((c == a) && ((w.slots a).latest_id == id))) [
      | inr n ↦ rw (route_response, e, n) Routes.dropped
      | inl y ↦
          let same : (c ≡ a) × ((w.slots a).latest_id ≡ id) = ground (arith, y) in
          elim (Bool-cases notified) [
            | inl f ↦ rw (route_response, e, y, f) (Routes.kept (ground (arith, e, same)) same.1)
            | inr f ↦ rw (route_response, e, y, f) (Routes.refused (ground (arith, e, same)) same.1)
          ]
    ]
  ]

  pub receive-frame :
      (w : World J R) (jobs : List (DispatchJob J))
      → ((receive w jobs).routes ≡ w.routes)
        × ((receive w jobs).slots ≡ w.slots)
        × ((receive w jobs).fresh ≡ w.fresh)
        × ((receive w jobs).state ≡ w.state)
  unfolding receive with_jobs
  receive-frame w jobs = ground arith

  pub supersede-frame :
      (w : World J R) (r : Option (DispatchJob J × List (DispatchJob J)))
      → ((supersede w r).routes ≡ w.routes)
        × ((supersede w r).slots ≡ w.slots)
        × ((supersede w r).fresh ≡ w.fresh)
        × ((supersede w r).state ≡ w.state)
  unfolding supersede with_jobs
  supersede-frame w r = ground arith

  pub exit-frame :
      (w : World J R) (jobs : List (DispatchJob J))
      → ((exit w jobs).routes ≡ w.routes)
        × ((exit w jobs).slots ≡ w.slots)
        × ((exit w jobs).fresh ≡ w.fresh)
        × ((exit w jobs).state ≡ w.state)
  unfolding exit
  exit-frame w jobs = ground arith
