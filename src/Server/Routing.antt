-- ===== src/Server/Routing.antt =====
-- The choice of a model for a request (HttpServer::route_model_request,
-- server/src/server/http_server.cpp, 1825-1928). Each client has a thread. What it does between two
-- points where another thread may run is one turn: a turn takes the shared state and gives it back.
pub mod Admission
pub mod Turns
pub mod Release
pub mod Quiet
pub mod System
pub mod Pass
pub mod Priority
use codex_local_qwen27b.Base.{
  ℕ, zero, suc, ◌+◌, ◌-◌, Bool, true, false, not, ◌&&◌, ◌||◌, Option, none, some, List, [], ◌∷◌,
  Bytes, bytes_eq, codes, ◌==◌, leb, if◌then◌else◌, any, length, is_empty, get_elem?,
}

-- models_: one entry for each model, in the operator's order.
pub record RoutedModel : Type 0 where
  pub model_name : Bytes
  pub capacity : ℕ
  pub in_flight : ℕ

-- What routing_mu_ guards, with the limit of waiting clients and the flag of shutdown.
pub record Routing : Type 0 where
  pub models : List RoutedModel
  pub routing_waiters : ℕ
  pub routing_queue_limit : ℕ
  pub stopping : Bool

-- What the model's own handler says of a request.
pub data RoutingAdmission : Type 0 where
  handled : RoutingAdmission
  unfit : RoutingAdmission
  busy : RoutingAdmission

-- How the call ends: the client has gone, a model has handled the request, or one of the errors.
pub data Outcome : Type 0 where
  disconnected : Outcome
  served : Outcome
  unnamed_count : Outcome
  exceeds_model : Outcome
  exceeds_all : Outcome
  unknown_model : Outcome
  unavailable : Outcome
  queue_full : Outcome

-- Where a client's thread stands: at the top of `for (;;)`, before the look at model `i`, in the
-- handler of model `i`, behind the loop over the models, in wait_for, behind the call.
pub data Place : Type 0 where
  enters : Place
  looks : (i : ℕ) (known : Bool) → Place
  asks : (i : ℕ) (known : Bool) → Place
  scanned : (known : Bool) → Place
  asleep : Place
  finished : (outcome : Outcome) → Place

-- A client's thread: its request, the models that were unfit, whether it counts as waiting.
pub record Client : Type 0 where
  pub count_only : Bool
  pub requested : Bytes
  pub unfit_models : List ℕ
  pub waiting : Bool
  pub place : Place

abbrev pub at_place : Place → Client → Client
at_place p c = record {
  count_only = c.count_only;
  requested = c.requested;
  unfit_models = c.unfit_models;
  waiting = c.waiting;
  place = p;
}

-- 1827-1833
unfoldable pub start_client : Bool → Bytes → Client
start_client count_only requested = record {
  count_only = count_only;
  requested = requested;
  unfit_models = [];
  waiting = false;
  place =
      if count_only && (is_empty requested || bytes_eq requested (codes "auto"))
      then finished unnamed_count
      else enters;
}

-- The counter of model `i`, changed.
abbrev pub change_in_flight : (ℕ → ℕ) → ℕ → List RoutedModel → List RoutedModel
change_in_flight f i [] = []
change_in_flight f zero (m ∷ ms) =
    record { model_name = m.model_name; capacity = m.capacity; in_flight = f m.in_flight } ∷ ms
change_in_flight f (suc i) (m ∷ ms) = m ∷ change_in_flight f i ms

abbrev pub with_models : List RoutedModel → Routing → Routing
with_models ms r = record {
  models = ms;
  routing_waiters = r.routing_waiters;
  routing_queue_limit = r.routing_queue_limit;
  stopping = r.stopping;
}

abbrev pub with_waiters : ℕ → Routing → Routing
with_waiters n r = record {
  models = r.models;
  routing_waiters = n;
  routing_queue_limit = r.routing_queue_limit;
  stopping = r.stopping;
}

-- ~Waiting (1856-1860), and 1877-1880: the client counts as waiting no more.
unfoldable pub stop_waiting : Routing → Client → Routing × Client
stop_waiting r c = (
  if c.waiting then with_waiters (r.routing_waiters - 1) r else r,
  record {
    count_only = c.count_only;
    requested = c.requested;
    unfit_models = c.unfit_models;
    waiting = false;
    place = c.place;
  },
)

-- `return true`, behind the destructor of `waiting`
unfoldable pub leave : Outcome → Routing → Client → Routing × Client
unfolding stop_waiting
leave o r c = ((stop_waiting r c).0, at_place (finished o) (stop_waiting r c).1)

-- 1865-1867
unfoldable pub enter : Bool → Routing → Client → Routing × Client
unfolding leave
enter gone r c =
    if gone then leave disconnected r c else (r, at_place (looks 0 (not c.count_only)) c)

-- 1876-1880: the reservation, where the request is not only counted.
unfoldable pub reserve : ℕ → Routing → Client → Routing × Client
unfolding stop_waiting
reserve i r c =
    let taken =
      if c.count_only then r else with_models (change_in_flight (λ n. n + 1) i r.models) r in
    ((stop_waiting taken c).0, at_place (asks i true) (stop_waiting taken c).1)

-- 1869-1881, for the entry `m` of models_.
unfoldable pub look_at : RoutedModel → ℕ → Bool → Routing → Client → Routing × Client
unfolding reserve
look_at m i known r c =
    if c.count_only && not (bytes_eq c.requested m.model_name)
    then (r, at_place (looks (suc i) known) c)
    else if any (λ j. j == i) c.unfit_models
    then (r, at_place (looks (suc i) true) c)
    else if r.stopping
    then (r, at_place (scanned true) c)
    else if not c.count_only && leb m.capacity m.in_flight
    then (r, at_place (looks (suc i) true) c)
    else reserve i r c

-- 1868-1881: `for (auto & model : models_)`
unfoldable pub look : ℕ → Bool → Routing → Client → Routing × Client
unfolding look_at
look i known r c = elim (get_elem? r.models i) [
  | none ↦ (r, at_place (scanned known) c)
  | some m ↦ look_at m i known r c
]

-- ~Reservation (1844-1851)
unfoldable pub release : ℕ → Routing → Client → Routing
release i r c = if c.count_only then r else with_models (change_in_flight (λ n. n - 1) i r.models) r

abbrev pub note_unfit : ℕ → Client → Client
note_unfit i c = record {
  count_only = c.count_only;
  requested = c.requested;
  unfit_models = i ∷ c.unfit_models;
  waiting = c.waiting;
  place = c.place;
}

-- 1889-1896: the handler's answer, and the end of the reservation.
unfoldable pub answer : RoutingAdmission → ℕ → Bool → Routing → Client → Routing × Client
unfolding release leave
answer handled i known r c = leave served (release i r c) c
answer unfit i known r c =
    if c.count_only
    then leave exceeds_model (release i r c) c
    else (release i r c, at_place (looks (suc i) known) (note_unfit i c))
answer busy i known r c = (release i r c, at_place (looks (suc i) known) c)

-- 1910-1922
unfoldable pub wait_for_capacity : Routing → Client → Routing × Client
unfolding leave
wait_for_capacity r c =
    if c.waiting
    then (r, at_place asleep c)
    else if leb r.routing_queue_limit r.routing_waiters
    then leave queue_full r c
    else (
      with_waiters (r.routing_waiters + 1) r,
      record {
        count_only = c.count_only;
        requested = c.requested;
        unfit_models = c.unfit_models;
        waiting = true;
        place = asleep;
      },
    )

-- 1898-1922
unfoldable pub conclude : Bool → Routing → Client → Routing × Client
unfolding leave wait_for_capacity
conclude known r c =
    if length c.unfit_models == length r.models
    then leave exceeds_all r c
    else if not known
    then leave unknown_model r c
    else if c.count_only || r.stopping
    then leave unavailable r c
    else wait_for_capacity r c

-- 1925-1926
unfoldable pub wake : Bool → Routing → Client → Routing × Client
unfolding leave
wake gone r c = if gone then leave disconnected r c else (r, at_place enters c)

-- One turn of a client's thread from a place, with what its socket and the model's handler tell it.
unfoldable pub turn_from : Place → Bool → RoutingAdmission → Routing → Client → Routing × Client
unfolding enter look answer conclude wake
turn_from enters gone admission r c = enter gone r c
turn_from (looks i known) gone admission r c = look i known r c
turn_from (asks i known) gone admission r c = answer admission i known r c
turn_from (scanned known) gone admission r c = conclude known r c
turn_from asleep gone admission r c = wake gone r c
turn_from (finished o) gone admission r c = (r, c)

unfoldable pub turn : Bool → RoutingAdmission → Routing → Client → Routing × Client
unfolding turn_from
turn gone admission r c = turn_from c.place gone admission r c
