-- ===== src/Dispatch/Router/Valid.antt =====
-- The routes of src/translation/worker/dispatch.rs: in every world that the program can reach, each
-- target has a slot of its own, and the responses that wait are at most a hundred.
use anemone_rs.Base.{
  ℕ, ◌+◌, ◌≤◌, ◌<◌, ◌≡◌, inl, inr, Bool, Option-cases, Option, none, some, List, [], ◌∷◌, arith,
  length, Text,
}
use anemone_rs.Dispatch.{
  PendingEntry, TranslationResponse, DispatchJob, World, push_pending, drop_id, drop_for,
  drop_target, take_pending, keep_going, spawn, dispatch_state_new, insert,
}
use anemone_rs.Dispatch.Pending.{length-push_pending}
use anemone_rs.Dispatch.Router.{
  Event, with_state, with_jobs, register, route, request, take_response_for_target, unregister,
  receive, route_response, finish, supersede, close, exit, perform, run, remove_at,
}
use anemone_rs.Dispatch.Router.Frames.{
  Routes, response_entry, request-pending, request-route, take-frame, route_response-routes,
  route_response-fresh, route_response-Routes, receive-frame, supersede-frame, exit-frame,
}

-- The routes lead to allocated slots, and no two of them to one slot.
pub record IsApart (routes : ℕ → Option ℕ) (fresh : ℕ) : Type 0 where
  pub owned : (t a : ℕ) → routes t ≡ some a → a < fresh
  pub apart : (t u a : ℕ) → routes t ≡ some a → routes u ≡ some a → t ≡ u

pub record IsValid {J R : Type 0} (w : World J R) : Type 0 where
  pub apart : IsApart w.routes w.fresh
  pub bounded : length w.state.pending ≤ 100

IsApart-insert :
    (routes : ℕ → Option ℕ) (fresh t : ℕ)
    → IsApart routes fresh
    → IsApart (insert t (some fresh) routes) (fresh + 1)
IsApart-insert routes fresh t i = record {
  owned = λ u a h. ground (arith, i.owned u a, h);
  apart = λ u v a h k. ground (arith, i.owned u a, i.owned v a, i.apart u v a, h, k);
}

IsApart-remove :
    (routes : ℕ → Option ℕ) (fresh t : ℕ)
    → IsApart routes fresh
    → IsApart (insert t none routes) fresh
IsApart-remove routes fresh t i = record {
  owned = λ u a h. ground (arith, i.owned u a, h);
  apart = λ u v a h k. ground (arith, i.apart u v a, h, k);
}

module _ {R : Type 0} where
  length-drop_id : (id : ℕ) (es : List (PendingEntry R)) → length (drop_id es id) ≤ length es
  unfolding drop_id
  length-drop_id id [] = omega arith
  length-drop_id id (e ∷ es) = ground (arith, length-drop_id id es)

  length-drop_for : (t : ℕ) (es : List (PendingEntry R)) → length (drop_for es t) ≤ length es
  unfolding drop_for
  length-drop_for t [] = omega arith
  length-drop_for t (e ∷ es) = ground (arith, length-drop_for t es)

  length-take_pending :
      (es : List (PendingEntry R)) (t : ℕ) (r : ℕ × TranslationResponse R)
      (left : List (PendingEntry R))
      → take_pending es t ≡ some (r, left)
      → length left ≤ length es
  unfolding take_pending keep_going
  length-take_pending [] t r left h = ground arith
  length-take_pending (e ∷ es) t r left h = elim (Option-cases (take_pending es t)) [
    | inl f ↦ ground (arith, f, h)
    | inr ((r', left'), f) ↦ ground (arith, f, h, length-take_pending es t r' left' f)
  ]

module _ {J R : Type 0} where
  Routes-bounded :
      (w : World J R) (target a id : ℕ) (result : R) (es : List (PendingEntry R))
      → length w.state.pending ≤ 100
      → Routes w target a id result es
      → length es ≤ 100
  Routes-bounded w target a id result _ h Routes.dropped = h
  Routes-bounded w target a id result _ h (Routes.kept e f) =
      length-push_pending w.state.pending (response_entry target id result) h
  Routes-bounded w target a id result _ h (Routes.refused e f) = omega (
    arith,
    length-push_pending w.state.pending (response_entry target id result) h,
    length-drop_id id (push_pending w.state.pending (response_entry target id result)),
  )

  route-IsApart :
      (w : World J R) (t : ℕ)
      → IsApart w.routes w.fresh
      → IsApart (route w t).1.routes (route w t).1.fresh
  unfolding route register
  route-IsApart w t i = elim (Option-cases (w.routes t)) [
    | inl e ↦ rw (route, e) (IsApart-insert w.routes w.fresh t i)
    | inr (a, e) ↦ rw (route, e) i
  ]

  request-IsValid :
      (w : World J R) (t : ℕ) (text : Text) (job : J) → IsValid w → IsValid (request w t text job).1
  request-IsValid w t text job i =
      let f = request-route w t text job in
      record {
        apart = rw (f.0, f.1) (route-IsApart w t i.apart);
        bounded = rw (request-pending w t text job) i.bounded;
      }

  take-bounded :
      (w : World J R) (t : ℕ)
      → length w.state.pending ≤ 100
      → length (take_response_for_target w t).1.state.pending ≤ 100
  unfolding take_response_for_target with_state
  take-bounded w t h = elim (Option-cases (take_pending w.state.pending t)) [
    | inl e ↦ rw (take_response_for_target, e) h
    | inr ((r, left), e) ↦
        rw (take_response_for_target, e)
          (omega (arith, length-take_pending w.state.pending t r left e))
  ]

  -- Two worlds with the same routes and as many responses are valid alike.
  IsValid-frame :
      (w v : World J R)
      → v.routes ≡ w.routes
      → v.fresh ≡ w.fresh
      → length v.state.pending ≤ 100
      → IsValid w
      → IsValid v
  IsValid-frame w v e f h i = record { apart = rw (e, f) i.apart; bounded = h }

  finish-IsValid :
      (w : World J R) (r : Option (DispatchJob J × List (DispatchJob J))) (result : R)
      (notified : Bool)
      → IsValid w
      → IsValid (finish w r result notified)
  unfolding finish with_jobs
  finish-IsValid w none result notified i = i
  finish-IsValid w (some (job, jobs)) result notified i =
      let v = with_jobs w w.queue jobs in
      IsValid-frame w (route_response v job.target job.route job.req.id result notified)
        (route_response-routes v job.target job.route job.req.id result notified)
        (route_response-fresh v job.target job.route job.req.id result notified)
        (Routes-bounded v job.target job.route job.req.id result _ i.bounded
          (route_response-Routes v job.target job.route job.req.id result notified))
        i

  pub perform-IsValid : (w : World J R) (e : Event J R) → IsValid w → IsValid (perform w e)
  unfolding perform close unregister drop_target
  perform-IsValid w (Event.requested t text job) i = request-IsValid w t text job i
  perform-IsValid w (Event.taken t) i =
      let f = take-frame w t in
      IsValid-frame w (take_response_for_target w t).1 f.0 f.2 (take-bounded w t i.bounded) i
  perform-IsValid w (Event.unregistered t) i = record {
    apart = IsApart-remove w.routes w.fresh t i.apart;
    bounded = omega (arith, i.bounded, length-drop_for t w.state.pending);
  }
  perform-IsValid w Event.received i =
      let f = receive-frame w w.queue in
      IsValid-frame w (receive w w.queue) f.0 f.2 (rw f.3 i.bounded) i
  perform-IsValid w (Event.finished n result notified) i =
      finish-IsValid w (remove_at w.running n) result notified i
  perform-IsValid w (Event.superseded n) i =
      let f = supersede-frame w (remove_at w.running n) in
      IsValid-frame w (supersede w (remove_at w.running n)) f.0 f.2 (rw f.3 i.bounded) i
  perform-IsValid w Event.closed i = record { apart = i.apart; bounded = i.bounded }
  perform-IsValid w Event.exited i =
      let f = exit-frame w w.queue in IsValid-frame w (exit w w.queue) f.0 f.2 (rw f.3 i.bounded) i

  pub run-IsValid : (w : World J R) (es : List (Event J R)) → IsValid w → IsValid (run w es)
  unfolding run
  run-IsValid w [] i = i
  run-IsValid w (e ∷ es) i = run-IsValid (perform w e) es (perform-IsValid w e i)

  -- In every world that the program reaches, the routes of different targets lead to different
  -- slots, all of them allocated, and at most a hundred responses wait.
  pub run-spawn-IsValid : (es : List (Event J R)) → IsValid (run spawn es)
  unfolding spawn dispatch_state_new
  run-spawn-IsValid es = run-IsValid spawn es (record {
    apart = record { owned = λ t a h. ground (arith, h); apart = λ t u a h k. ground (arith, h) };
    bounded = omega arith;
  })
