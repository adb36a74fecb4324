-- ===== src/Dispatch/Router/Latest.antt =====
-- Which responses can reach a target of src/translation/worker/dispatch.rs after its newest request.
use anemone_rs.Base.{
  ℕ, ◌≡◌, refl, ap, ◌∙◌, ◌⊎◌, inl, inr, Bool, false, Bool-cases, Option-cases, Option, none, some,
  List, [], ◌∷◌, arith, ◌==◌, Text,
}
use mathlib.Core.List.{Memᴰ}
use anemone_rs.Dispatch.{PendingEntry, TranslationResponse, DispatchJob, World, drop_target}
use anemone_rs.Dispatch.Kept.{AllOf, AllOf-Mem, push_pending-AllOf, drop_id-AllOf, drop_for-AllOf}
use anemone_rs.Dispatch.Router.{
  Event, with_jobs, route, request, take_response_for_target, unregister, receive, route_response,
  finish, supersede, close, exit, perform, run, remove_at,
}
use anemone_rs.Dispatch.Router.Frames.{
  Routes, response_entry, request-pending, request-routes, request-slots, request-latest,
  take-frame, route_response-routes, route_response-slots, route_response-Routes, receive-frame,
  supersede-frame, exit-frame,
}
use anemone_rs.Dispatch.Router.Came.{Came, take-Came, taken-Came}
use anemone_rs.Dispatch.Router.Valid.{IsApart, IsValid, perform-IsValid}

-- An event that is neither a request for the target nor takes it off.
abbrev pub touches : {J R : Type 0} → ℕ → Event J R → Bool
touches t (Event.requested target text job) = target == t
touches t (Event.unregistered target) = target == t
touches t _ = false

abbrev pub Untouched : {J R : Type 0} → ℕ → List (Event J R) → Type 0
Untouched t [] = Unit {0}
Untouched t (e ∷ es) = (touches t e ≡ false) × Untouched t es

record IsLatest {J R : Type 0} (t a id : ℕ) (old : List (PendingEntry R)) (w : World J R)
    : Type 0 where
  valid : IsValid w
  routed : w.routes t ≡ some a
  latest : (w.slots a).latest_id ≡ id
  came : AllOf (Came t id old) w.state.pending

module _ {J R : Type 0} where
  route-apart :
      (w : World J R) (t u a : ℕ)
      → IsApart w.routes w.fresh
      → w.routes t ≡ some a
      → (u == t) ≡ false
      → ((route w u).0 == a) ≡ false
  unfolding route
  route-apart w t u a i e n = elim (Option-cases (w.routes u)) [
    | inl f ↦ ground (arith, f, i.owned t a e)
    | inr (b, f) ↦ ground (arith, f, e, n, i.apart u t a)
  ]

  IsLatest-frame :
      (w v : World J R) (t a id : ℕ) (old : List (PendingEntry R))
      → v.routes ≡ w.routes
      → v.slots ≡ w.slots
      → IsValid v
      → AllOf (Came t id old) v.state.pending
      → IsLatest t a id old w
      → IsLatest t a id old v
  IsLatest-frame w v t a id old e f i c l = record {
    valid = i;
    routed = ap (λ g. g t) e ∙ l.routed;
    latest = ap (λ g. (g a).latest_id) f ∙ l.latest;
    came = c;
  }

  -- The entry that is stored is for another target, or its request is the newest one.
  entry-Came :
      (w : World J R) (t a id target b n : ℕ) (result : R) (old : List (PendingEntry R))
      → IsLatest t a id old w
      → w.routes target ≡ some b
      → (w.slots b).latest_id ≡ n
      → Came t id old (response_entry target n result)
  entry-Came w t a id target b n result old l e f = elim (Bool-cases (target == t)) [
    | inr c ↦ Came.elsewhere c
    | inl c ↦ Came.newest (ground (arith, c, e, f, l.routed, l.latest))
  ]

  Routes-Came :
      (w : World J R) (t a id target b n : ℕ) (result : R) (old es : List (PendingEntry R))
      → IsLatest t a id old w
      → Routes w target b n result es
      → AllOf (Came t id old) es
  Routes-Came w t a id target b n result old _ l Routes.dropped = l.came
  Routes-Came w t a id target b n result old _ l (Routes.kept e f) =
      push_pending-AllOf _ l.came (entry-Came w t a id target b n result old l e f)
  Routes-Came w t a id target b n result old _ l (Routes.refused e f) =
      drop_id-AllOf n
        (push_pending-AllOf _ l.came (entry-Came w t a id target b n result old l e f))

  finish-IsLatest :
      (w : World J R) (t a id : ℕ) (old : List (PendingEntry R))
      (r : Option (DispatchJob J × List (DispatchJob J))) (result : R) (notified : Bool)
      → IsValid (finish w r result notified)
      → IsLatest t a id old w
      → IsLatest t a id old (finish w r result notified)
  unfolding finish with_jobs
  finish-IsLatest w t a id old none result notified i l = l
  finish-IsLatest w t a id old (some (job, jobs)) result notified i l =
      let v = with_jobs w w.queue jobs in
      let l' : IsLatest t a id old v = record {
        valid = record { apart = l.valid.apart; bounded = l.valid.bounded };
        routed = l.routed;
        latest = l.latest;
        came = l.came;
      } in
      IsLatest-frame v (route_response v job.target job.route job.req.id result notified) t a id old
        (route_response-routes v job.target job.route job.req.id result notified)
        (route_response-slots v job.target job.route job.req.id result notified) i
        (Routes-Came v t a id job.target job.route job.req.id result old _ l'
          (route_response-Routes v job.target job.route job.req.id result notified))
        l'

  unregister-slots :
      (w : World J R) (t u a : ℕ)
      → IsApart w.routes w.fresh
      → w.routes t ≡ some a
      → (u == t) ≡ false
      → (unregister w u).slots a ≡ w.slots a
  unfolding unregister
  unregister-slots w t u a i e n = elim (Option-cases (w.routes u)) [
    | inl f ↦ rw f refl
    | inr (b, f) ↦ ground (arith, f, e, n, i.apart u t a)
  ]

  unregister-IsLatest :
      (w : World J R) (t a id u : ℕ) (old : List (PendingEntry R))
      → (u == t) ≡ false
      → IsValid (unregister w u)
      → IsLatest t a id old w
      → IsLatest t a id old (unregister w u)
  unfolding unregister drop_target
  unregister-IsLatest w t a id u old n i l = record {
    valid = i;
    routed = ground (arith, n, l.routed);
    latest = ap (λ s. s.latest_id) (unregister-slots w t u a l.valid.apart l.routed n) ∙ l.latest;
    came = drop_for-AllOf u l.came;
  }

  perform-IsLatest :
      (w : World J R) (t a id : ℕ) (old : List (PendingEntry R)) (e : Event J R)
      → touches t e ≡ false
      → IsValid (perform w e)
      → IsLatest t a id old w
      → IsLatest t a id old (perform w e)
  unfolding perform close
  perform-IsLatest w t a id old (Event.requested u text job) n i l = record {
    valid = i;
    routed = request-routes w t u text job n ∙ l.routed;
    latest =
        ap (λ s. s.latest_id)
          (request-slots w u a text job (route-apart w t u a l.valid.apart l.routed n))
        ∙ l.latest;
    came = rw (request-pending w u text job) l.came;
  }
  perform-IsLatest w t a id old (Event.taken u) n i l =
      let f = take-frame w u in
      IsLatest-frame w _ t a id old f.0 f.1 i (take-Came w u t id old l.came) l
  perform-IsLatest w t a id old (Event.unregistered u) n i l =
      unregister-IsLatest w t a id u old n i l
  perform-IsLatest w t a id old Event.received n i l =
      let f = receive-frame w w.queue in
      IsLatest-frame w (receive w w.queue) t a id old f.0 f.1 i (rw f.3 l.came) l
  perform-IsLatest w t a id old (Event.finished k result notified) n i l =
      finish-IsLatest w t a id old (remove_at w.running k) result notified i l
  perform-IsLatest w t a id old (Event.superseded k) n i l =
      let f = supersede-frame w (remove_at w.running k) in
      IsLatest-frame w (supersede w (remove_at w.running k)) t a id old f.0 f.1 i (rw f.3 l.came) l
  perform-IsLatest w t a id old Event.closed n i l = record {
    valid = i;
    routed = l.routed;
    latest = l.latest;
    came = l.came;
  }
  perform-IsLatest w t a id old Event.exited n i l =
      let f = exit-frame w w.queue in
      IsLatest-frame w (exit w w.queue) t a id old f.0 f.1 i (rw f.3 l.came) l

  run-IsLatest :
      (w : World J R) (t a id : ℕ) (old : List (PendingEntry R)) (es : List (Event J R))
      → Untouched t es
      → IsLatest t a id old w
      → IsLatest t a id old (run w es)
  unfolding run
  run-IsLatest w t a id old [] n l = l
  run-IsLatest w t a id old (e ∷ es) n l =
      run-IsLatest (perform w e) t a id old es n.1
        (perform-IsLatest w t a id old e n.0 (perform-IsValid w e l.valid) l)

  -- In a valid world, the response that a target takes after a request of its own that was taken in, with no newer
  -- request and no unregistering of it between, is that request's, or was waiting when the request
  -- was made; whatever older tasks of it end meanwhile.
  pub request_delivers_latest :
      (w : World J R) (t id : ℕ) (text : Text) (job : J) (es : List (Event J R)) (n : ℕ)
      (r : TranslationResponse R)
      → IsValid w
      → (request w t text job).0 ≡ inr id
      → Untouched t es
      → (take_response_for_target (run (request w t text job).1 es) t).0 ≡ some (n, r)
      → (n ≡ id)
        ⊎ ((e : PendingEntry R) × Memᴰ e w.state.pending × (e.req_id ≡ n) × (e.response ≡ r))
  unfolding perform
  request_delivers_latest w t id text job es n r i h u k =
      let (a, e, f) = request-latest w t id text job h in
      let l = run-IsLatest (request w t text job).1 t a id w.state.pending es u (record {
        valid = perform-IsValid w (Event.requested t text job) i;
        routed = e;
        latest = f;
        came =
            rw (request-pending w t text job) (AllOf-Mem w.state.pending (λ x m. Came.earlier m));
      }) in
      taken-Came (run (request w t text job).1 es) t id n w.state.pending r l.came k
