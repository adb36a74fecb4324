-- ===== src/Dispatch.antt =====
-- src/translation/worker/state.rs and src/translation/worker/dispatch.rs: which translations run,
-- and which of their responses reach whom. An `Arc` is an address into a store of slots, a task of
-- the runtime is a job in `running`, and a step of the program is one call or one task's end.
pub mod Kept
pub mod Empty
pub mod Router
pub mod Pending
use anemone_rs.Base.{
  ℕ, zero, suc, ◌+◌, ◌-◌, ◌%◌, ◌⊎◌, inl, inr, Bool, true, false, not, Option, none, some, List, [],
  ◌∷◌, ◌++◌, ltb, ◌==◌, if◌then◌else◌, length, drop, Text,
}

abbrev pub max_response_storage : ℕ
max_response_storage = 100

pub data TranslationRequestError : Type 0 where
  worker_unavailable : TranslationRequestError

-- `J` is the prepared job of an engine, `R` the result of a translation.
pub record TranslationRequest (J : Type 0) : Type 0 where
  pub id : ℕ
  pub text : Text
  pub job : J

pub record TranslationResponse (R : Type 0) : Type 0 where
  pub result : R

pub record PendingEntry (R : Type 0) : Type 0 where
  pub req_id : ℕ
  pub target : ℕ
  pub response : TranslationResponse R

-- The atomic `latest_id`, and the value that the `watch` channel holds.
pub record RouteSlot : Type 0 where
  pub latest_id : ℕ
  pub cancellation : ℕ

pub record DispatchState (R : Type 0) : Type 0 where
  pub next_id : ℕ
  pub pending : List (PendingEntry R)

pub record DispatchJob (J : Type 0) : Type 0 where
  pub target : ℕ
  pub req : TranslationRequest J
  pub route : ℕ

-- `DispatchShared` and `TranslationDispatch` with the store of slots: `fresh` is its first free
-- address. The channel is open while `sender` is there, and its receiver lives while the worker
-- thread does.
pub record World (J R : Type 0) : Type 0 where
  pub state : DispatchState R
  pub routes : ℕ → Option ℕ
  pub slots : ℕ → RouteSlot
  pub fresh : ℕ
  pub sender : Bool
  pub receiver : Bool
  pub queue : List (DispatchJob J)
  pub running : List (DispatchJob J)

-- `insert` and `remove` of the map of routes, and a write through an `Arc`.
abbrev pub insert {ℓ} : {A : Type ℓ} → ℕ → A → (ℕ → A) → ℕ → A
insert k v f i = if k == i then v else f i

pub route_slot_new : RouteSlot
route_slot_new = record { latest_id = 0; cancellation = 0 }

pub dispatch_state_new : {R : Type 0} → DispatchState R
dispatch_state_new = record { next_id = 1; pending = [] }

pub spawn : {J R : Type 0} → World J R
spawn = record {
  state = dispatch_state_new;
  routes = λ t. none;
  slots = λ a. route_slot_new;
  fresh = 0;
  sender = true;
  receiver = true;
  queue = [];
  running = [];
}

module _ {R : Type 0} where
  -- `next_id` is a `u64` that wraps.
  pub assign_id : DispatchState R → ℕ × DispatchState R
  assign_id s =
      (s.next_id, record { next_id = (s.next_id + 1) % 18446744073709551616; pending = s.pending })

  pub push_pending : List (PendingEntry R) → PendingEntry R → List (PendingEntry R)
  push_pending pending entry =
      let pushed = pending ++ entry ∷ [] in
      if ltb max_response_storage (length pushed)
      then drop (length pushed - max_response_storage) pushed
      else pushed

  pub push_response : DispatchState R → PendingEntry R → DispatchState R
  unfolding push_pending
  push_response s entry = record { next_id = s.next_id; pending = push_pending s.pending entry }

  pub keep_going :
      PendingEntry R
      → Option ((ℕ × TranslationResponse R) × List (PendingEntry R))
      → Option ((ℕ × TranslationResponse R) × List (PendingEntry R))
  keep_going e none = none
  keep_going e (some r) = some (r.0, e ∷ r.1)

  -- `position` and `remove`: the first entry for the target leaves.
  pub take_pending :
      List (PendingEntry R) → ℕ → Option ((ℕ × TranslationResponse R) × List (PendingEntry R))
  unfolding keep_going
  take_pending [] target = none
  take_pending (e ∷ es) target =
      if e.target == target
      then some ((e.req_id, e.response), es)
      else keep_going e (take_pending es target)

  -- `retain` on the request's id.
  pub drop_id : List (PendingEntry R) → ℕ → List (PendingEntry R)
  drop_id [] req_id = []
  drop_id (e ∷ es) req_id = if e.req_id == req_id then drop_id es req_id else e ∷ drop_id es req_id

  -- `retain` on the target.
  pub drop_for : List (PendingEntry R) → ℕ → List (PendingEntry R)
  drop_for [] target = []
  drop_for (e ∷ es) target =
      if e.target == target then drop_for es target else e ∷ drop_for es target

  pub drop_response : DispatchState R → ℕ → DispatchState R
  drop_response s req_id = record { next_id = s.next_id; pending = drop_id s.pending req_id }

  pub drop_target : DispatchState R → ℕ → DispatchState R
  drop_target s target = record { next_id = s.next_id; pending = drop_for s.pending target }

pub set_latest : ℕ → RouteSlot
set_latest id = record { latest_id = id; cancellation = id }

pub cancel : RouteSlot
cancel = record { latest_id = 0; cancellation = 0 }

-- `compare_exchange(id, 0)` with its `send_replace(0)`.
pub withdraw : RouteSlot → ℕ → RouteSlot
unfolding cancel
withdraw slot id = if slot.latest_id == id then cancel else slot
