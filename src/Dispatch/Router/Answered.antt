-- ===== src/Dispatch/Router/Answered.antt =====
-- That src/translation/worker/dispatch.rs answers: a request whose task ends is delivered.
use anemone_rs.Base.{
  ℕ, zero, suc, ◌≤◌, ◌≡◌, refl, ap, ◌∙◌, sym, inl, inr, true, Bool-cases, some, List, [], ◌∷◌, ◌++◌,
  arith, ltb, ◌==◌, ==_refl, length, drop, length-append, Text,
}
use anemone_rs.Dispatch.{
  PendingEntry, DispatchJob, World, push_pending, push_response, assign_id, set_latest,
}
use anemone_rs.Dispatch.Pending.{queue_for, take_pending-some}
use anemone_rs.Dispatch.Router.{
  Event, with_state, with_slots, with_jobs, register, route, send, enter, request,
  take_response_for_target, receive, stored, route_response, finish, perform, run, remove_at,
}
use anemone_rs.Dispatch.Router.Frames.{response_entry, request-pending}

remove_at-last :
    {A : Type 0} (xs : List A) (x : A) → remove_at (xs ++ x ∷ []) (length xs) ≡ some (x, xs)
unfolding remove_at
remove_at-last [] x = refl
remove_at-last (y ∷ xs) x = rw (remove_at-last xs x) refl

module _ {R : Type 0} where
  queue_for-drop_snoc :
      (n t : ℕ) (es : List (PendingEntry R)) (e : PendingEntry R)
      → n ≤ length es
      → queue_for t es ≡ []
      → (e.target == t) ≡ true
      → queue_for t (drop n (es ++ e ∷ [])) ≡ e ∷ []
  unfolding queue_for
  queue_for-drop_snoc zero t [] e h k c = rw c refl
  queue_for-drop_snoc (suc n) t [] e h k c = ground arith
  queue_for-drop_snoc zero t (x ∷ es) e h k c = ground (arith, k, queue_for-drop_snoc zero t es e)
  queue_for-drop_snoc (suc n) t (x ∷ es) e h k c =
      queue_for-drop_snoc n t es e (omega (arith, h)) (ground (arith, k)) c

  -- A response that is stored for a target with none waiting is the one it waits for.
  pub queue_for-push_pending_empty :
      (t : ℕ) (es : List (PendingEntry R)) (e : PendingEntry R)
      → queue_for t es ≡ []
      → (e.target == t) ≡ true
      → queue_for t (push_pending es e) ≡ e ∷ []
  unfolding push_pending
  queue_for-push_pending_empty t es e h c = elim (Bool-cases (ltb 100 (length (es ++ e ∷ [])))) [
    | inl f ↦ rw f (queue_for-drop_snoc _ t es e (omega (arith, length-append es (e ∷ []))) h c)
    | inr f ↦ rw f (queue_for-drop_snoc 0 t es e (omega arith) h c)
  ]

module _ {J R : Type 0} where
  -- The job that a request leaves.
  job_of : World J R → ℕ → Text → J → DispatchJob J
  job_of w t text job = record {
    target = t;
    req = record { id = w.state.next_id; text = text; job = job };
    route = (route w t).0;
  }

  request-queue :
      (w : World J R) (t : ℕ) (text : Text) (job : J)
      → w.sender ≡ true
      → w.receiver ≡ true
      → w.queue ≡ []
      → ((request w t text job).0 ≡ inr w.state.next_id)
        × ((request w t text job).1.queue ≡ job_of w t text job ∷ [])
        × ((request w t text job).1.running ≡ w.running)
        × ((request w t text job).1.routes t ≡ some (route w t).0)
        × (((request w t text job).1.slots (route w t).0).latest_id ≡ w.state.next_id)
  unfolding request enter send route register with_state with_slots with_jobs assign_id set_latest
      job_of
  request-queue w t text job s r q = ground (arith, s, r, q)

  receive-newest :
      (w : World J R) (job : DispatchJob J)
      → w.queue ≡ job ∷ []
      → (w.slots job.route).latest_id ≡ job.req.id
      → receive w w.queue ≡ with_jobs w [] (w.running ++ job ∷ [])
  unfolding receive
  receive-newest w job q l = rw (q, receive w (job ∷ []), l, ==_refl job.req.id) refl

  finish-newest :
      (w : World J R) (job : DispatchJob J) (jobs : List (DispatchJob J)) (result : R)
      → w.routes job.target ≡ some job.route
      → (w.slots job.route).latest_id ≡ job.req.id
      → (finish w (some (job, jobs)) result true).state.pending
        ≡ push_pending w.state.pending (response_entry job.target job.req.id result)
  unfolding finish route_response stored with_state with_jobs push_response
  finish-newest w job jobs result e l = ground (arith, e, l)

  take-first :
      (w : World J R) (t : ℕ) (e : PendingEntry R)
      → queue_for t w.state.pending ≡ e ∷ []
      → (take_response_for_target w t).0 ≡ some (e.req_id, e.response)
  unfolding take_response_for_target
  take-first w t e h =
      let (left, f) = take_pending-some w.state.pending [] t e h in
      rw (take_response_for_target, f) refl

  newest_answered :
      (w : World J R) (job : DispatchJob J) (result : R)
      → w.queue ≡ job ∷ []
      → w.routes job.target ≡ some job.route
      → (w.slots job.route).latest_id ≡ job.req.id
      → queue_for job.target w.state.pending ≡ []
      → (take_response_for_target
          (run w (Event.received ∷ Event.finished (length w.running) result true ∷ []))
          job.target).0
        ≡ some (job.req.id, record { result = result })
  unfolding run perform with_jobs
  newest_answered w job result q e l h =
      let r = receive-newest w job q l in
      let v = with_jobs w [] (w.running ++ job ∷ []) in
      let done : (run w
            (Event.received ∷ Event.finished (length w.running) result true ∷ [])).state.pending
          ≡ push_pending w.state.pending (response_entry job.target job.req.id result) =
        rw (run, perform, r, remove_at-last w.running job)
          (finish-newest v job w.running result e l) in
      take-first _ job.target (response_entry job.target job.req.id result) (
        ap (queue_for job.target) done
        ∙ queue_for-push_pending_empty job.target w.state.pending
            (response_entry job.target job.req.id result) h (==_refl job.target))

  -- A request is answered: when the channel and its worker live, nothing is queued and nothing
  -- waits for the target, the job goes to a task, and the target then takes the result of that task
  -- under the id that the request returned, whatever else is running or waiting.
  pub request_answered :
      (w : World J R) (t : ℕ) (text : Text) (job : J) (result : R)
      → w.sender ≡ true
      → w.receiver ≡ true
      → w.queue ≡ []
      → queue_for t w.state.pending ≡ []
      → ((request w t text job).0 ≡ inr w.state.next_id)
        × ((take_response_for_target
              (run
                (request w t text job).1
                (Event.received ∷ Event.finished (length w.running) result true ∷ []))
              t).0
            ≡ some (w.state.next_id, record { result = result }))
  unfolding job_of
  request_answered w t text job result s r q h =
      let f = request-queue w t text job s r q in
      (
        f.0,
        ap
              (λ n.
                (take_response_for_target
                  (run (request w t text job).1
                    (Event.received ∷ Event.finished (length n) result true ∷ []))
                  t).0)
              (sym f.2)
            ∙ newest_answered (request w t text job).1 (job_of w t text job) result f.1 f.3 f.4
                (ap (queue_for t) (request-pending w t text job) ∙ h),
      )
