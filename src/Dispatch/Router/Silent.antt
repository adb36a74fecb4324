-- ===== src/Dispatch/Router/Silent.antt =====
-- Once a target is unregistered in src/translation/worker/dispatch.rs, no older task reaches it.
use anemone_rs.Base.{
  ℕ, ◌≡◌, refl, ap, ◌∙◌, inl, inr, Bool, false, Bool-cases, Option-cases, Option, none, some, List,
  [], ◌∷◌, arith, ◌==◌, ==_refl, ==_iff,
}
use anemone_rs.Dispatch.{PendingEntry, DispatchJob, World, take_pending, drop_target}
use anemone_rs.Dispatch.Router.{
  Event, with_state, with_jobs, request, take_response_for_target, unregister, route_response,
  finish, close, perform, run, remove_at,
}
use anemone_rs.Dispatch.Empty.{queue_for-push_pending, queue_for-drop_id, queue_for-drop_for-nil}
use anemone_rs.Dispatch.Router.Frames.{
  Routes, response_entry, request-pending, request-routes, route_response-routes,
  route_response-Routes, receive-frame, supersede-frame, exit-frame,
}
use anemone_rs.Dispatch.Pending.{
  queue_for, take_pending-none, take_pending-Took, queue_for-drop_for,
}

-- An event that is no request for the target.
abbrev pub requests : {J R : Type 0} → ℕ → Event J R → Bool
requests t (Event.requested target text job) = target == t
requests t _ = false

abbrev pub NoRequest : {J R : Type 0} → ℕ → List (Event J R) → Type 0
NoRequest t [] = Unit {0}
NoRequest t (e ∷ es) = (requests t e ≡ false) × NoRequest t es

-- No route leads to the target, and no response waits for it.
pub record IsSilent {J R : Type 0} (t : ℕ) (w : World J R) : Type 0 where
  pub unrouted : w.routes t ≡ none
  pub empty : queue_for t w.state.pending ≡ []

module _ {J R : Type 0} where
  -- Unregistering silences the target, whatever the program did before.
  pub unregister-IsSilent : (w : World J R) (t : ℕ) → IsSilent t (unregister w t)
  unfolding unregister drop_target
  unregister-IsSilent w t = record {
    unrouted = rw (==_refl t) refl;
    empty = queue_for-drop_for w.state.pending t;
  }

  request-IsSilent :
      (w : World J R) (t target : ℕ) (text : List ℕ) (job : J)
      → (target == t) ≡ false
      → IsSilent t w
      → IsSilent t (request w target text job).1
  request-IsSilent w t target text job n s = record {
    unrouted = request-routes w t target text job n ∙ s.unrouted;
    empty = ap (queue_for t) (request-pending w target text job) ∙ s.empty;
  }

  take-IsSilent :
      (w : World J R) (t target : ℕ)
      → IsSilent t w
      → IsSilent t (take_response_for_target w target).1
  unfolding take_response_for_target with_state
  take-IsSilent w t target s = elim (Option-cases (take_pending w.state.pending target)) [
    | inl e ↦ rw (take_response_for_target, e) s
    | inr (((id, r), left), e) ↦
        let took = take_pending-Took w.state.pending target id r left e in
        rw (take_response_for_target, e)
          record {
            unrouted = s.unrouted;
            empty = elim (Bool-cases (t == target)) [
              | inr n ↦ took.others t n ∙ s.empty
              | inl c ↦ ground (arith, c, took.first, s.empty)
            ];
          }
  ]

  Routes-queue_for :
      (w : World J R) (t target a id : ℕ) (result : R) (es : List (PendingEntry R))
      → (target == t) ≡ false
      → queue_for t w.state.pending ≡ []
      → Routes w target a id result es
      → queue_for t es ≡ []
  Routes-queue_for w t target a id result _ n h Routes.dropped = h
  Routes-queue_for w t target a id result _ n h (Routes.kept e f) =
      queue_for-push_pending t w.state.pending (response_entry target id result) h n
  Routes-queue_for w t target a id result _ n h (Routes.refused e f) =
      queue_for-drop_id t id _
        (queue_for-push_pending t w.state.pending (response_entry target id result) h n)

  Routes-unrouted :
      (w : World J R) (target a id : ℕ) (result : R) (es : List (PendingEntry R))
      → w.routes target ≡ none
      → Routes w target a id result es
      → es ≡ w.state.pending
  Routes-unrouted w target a id result _ h Routes.dropped = refl
  Routes-unrouted w target a id result _ h (Routes.kept e f) = ground (arith, h, e)
  Routes-unrouted w target a id result _ h (Routes.refused e f) = ground (arith, h, e)

  route_response-IsSilent :
      (w : World J R) (t target a id : ℕ) (result : R) (notified : Bool)
      → IsSilent t w
      → IsSilent t (route_response w target a id result notified)
  route_response-IsSilent w t target a id result notified s =
      let routed = route_response-Routes w target a id result notified in
      record {
        unrouted = ap (λ f. f t) (route_response-routes w target a id result notified) ∙ s.unrouted;
        empty = elim (Bool-cases (target == t)) [
          | inr n ↦ Routes-queue_for w t target a id result _ n s.empty routed
          | inl c ↦
              let unrouted : w.routes target ≡ none =
                ap w.routes ((==_iff target t).0 c) ∙ s.unrouted in
              ap (queue_for t) (Routes-unrouted w target a id result _ unrouted routed) ∙ s.empty
        ];
      }

  finish-IsSilent :
      (w : World J R) (t : ℕ) (r : Option (DispatchJob J × List (DispatchJob J))) (result : R)
      (notified : Bool)
      → IsSilent t w
      → IsSilent t (finish w r result notified)
  unfolding finish with_jobs
  finish-IsSilent w t none result notified s = s
  finish-IsSilent w t (some r) result notified s =
      route_response-IsSilent (with_jobs w w.queue r.1) t r.0.target r.0.route r.0.req.id result
        notified (record { unrouted = s.unrouted; empty = s.empty })

  unregister_other-IsSilent :
      (w : World J R) (t target : ℕ) → IsSilent t w → IsSilent t (unregister w target)
  unfolding unregister drop_target
  unregister_other-IsSilent w t target s = record {
    unrouted = ground (arith, s.unrouted);
    empty = queue_for-drop_for-nil t target w.state.pending s.empty;
  }

  perform-IsSilent :
      (w : World J R) (t : ℕ) (e : Event J R)
      → requests t e ≡ false
      → IsSilent t w
      → IsSilent t (perform w e)
  unfolding perform close
  perform-IsSilent w t (Event.requested target text job) n s =
      request-IsSilent w t target text job n s
  perform-IsSilent w t (Event.taken target) n s = take-IsSilent w t target s
  perform-IsSilent w t (Event.unregistered target) n s = unregister_other-IsSilent w t target s
  perform-IsSilent w t Event.received n s =
      let f = receive-frame w w.queue in
      record {
        unrouted = ap (λ g. g t) f.0 ∙ s.unrouted;
        empty = ap (λ q. queue_for t q.pending) f.3 ∙ s.empty;
      }
  perform-IsSilent w t (Event.finished i result notified) n s =
      finish-IsSilent w t (remove_at w.running i) result notified s
  perform-IsSilent w t (Event.superseded i) n s =
      let f = supersede-frame w (remove_at w.running i) in
      record {
        unrouted = ap (λ g. g t) f.0 ∙ s.unrouted;
        empty = ap (λ q. queue_for t q.pending) f.3 ∙ s.empty;
      }
  perform-IsSilent w t Event.closed n s = record { unrouted = s.unrouted; empty = s.empty }
  perform-IsSilent w t Event.exited n s =
      let f = exit-frame w w.queue in
      record {
        unrouted = ap (λ g. g t) f.0 ∙ s.unrouted;
        empty = ap (λ q. queue_for t q.pending) f.3 ∙ s.empty;
      }

  run-IsSilent :
      (w : World J R) (t : ℕ) (es : List (Event J R))
      → NoRequest t es
      → IsSilent t w
      → IsSilent t (run w es)
  unfolding run
  run-IsSilent w t [] n s = s
  run-IsSilent w t (e ∷ es) n s = run-IsSilent (perform w e) t es n.1 (perform-IsSilent w t e n.0 s)

  -- After a target is unregistered, whatever was queued, running or stored for it, no sequence of
  -- calls and of ends of tasks that holds no new request for it gives it a response.
  pub unregister_stays_silent :
      (w : World J R) (t : ℕ) (es : List (Event J R))
      → NoRequest t es
      → (take_response_for_target (run (unregister w t) es) t).0 ≡ none
  unfolding take_response_for_target
  unregister_stays_silent w t es n =
      rw
        (
          take_response_for_target,
          take_pending-none _ t
              (run-IsSilent (unregister w t) t es n (unregister-IsSilent w t)).empty,
        )
        refl
