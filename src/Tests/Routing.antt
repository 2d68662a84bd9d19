-- ===== src/Tests/Routing.antt =====
-- The choice of a model (server/src/server/http_server.cpp, route_model_request) at concrete inputs.
use codex_local_qwen27b.Base.{
  ℕ, zero, suc, ◌≡◌, refl, true, false, some, [], ◌∷◌, codes, arith, any,
}
use codex_local_qwen27b.Server.Routing.{
  RoutedModel, Routing, handled, busy, served, Client, start_client, stop_waiting, leave, enter,
  reserve, look_at, look, release, answer, turn_from, turn,
}
use codex_local_qwen27b.Server.Routing.Admission.{in_flight_at}
use codex_local_qwen27b.Server.Routing.System.{System, Step, Reach, Initial, Counts, Reach-Counts}
use codex_local_qwen27b.Server.Routing.Quiet.{finished_holds_none}
use codex_local_qwen27b.Server.Routing.Pass.{Meets, pass, rests, pass_ends}
use codex_local_qwen27b.Server.Routing.Priority.{
  look_on, generates, chosen, first_free, look_on-first_free,
}

abbrev slots : ℕ → ℕ → RoutedModel
slots total taken = record { model_name = codes "qwen"; capacity = total; in_flight = taken }

abbrev idle : Routing
idle = record {
  models = slots 1 0 ∷ slots 2 0 ∷ [];
  routing_waiters = 0;
  routing_queue_limit = 1;
  stopping = false;
}

abbrev empty_server : System
empty_server = record { routing = idle; clients = [] }

in_flight_idle : (j : ℕ) → in_flight_at j idle.models ≡ 0
in_flight_idle zero = refl
in_flight_idle (suc zero) = refl
in_flight_idle (suc (suc j)) = refl

empty_server-Initial : Initial empty_server
empty_server-Initial = record {
  no_clients = refl;
  no_reservations = in_flight_idle;
  no_waiters = refl;
}

-- A client arrives, enters, looks at the first model and asks it; then it is served.
abbrev client : Client
client = start_client false []

abbrev turn_of : System → Client → System
turn_of s c = record {
  routing = (turn false handled s.routing c).0;
  clients = (turn false handled s.routing c).1 ∷ [];
}

abbrev arrived : System
arrived = record { routing = idle; clients = client ∷ [] }

abbrev entered : System
entered = turn_of arrived client

abbrev entered_client : Client
entered_client = (turn false handled idle client).1

abbrev asked : System
asked = turn_of entered entered_client

abbrev asked_client : Client
asked_client = (turn false handled entered.routing entered_client).1

abbrev ended : System
ended = turn_of asked asked_client

Reach-asked : Reach empty_server asked
Reach-asked =
    Reach.later
      (Reach.later (Reach.later Reach.here (Step.arrives false []))
        (Step.turns [] client [] false handled refl))
      (Step.turns [] entered_client [] false handled refl)

asked-Counts : Counts asked
asked-Counts = Reach-Counts empty_server asked empty_server-Initial Reach-asked

ended_idle :
    ((j : ℕ) → in_flight_at j ended.routing.models ≡ 0) × (ended.routing.routing_waiters ≡ 0)
unfolding start_client stop_waiting leave enter reserve look_at look release answer turn_from turn
    any
ended_idle =
    finished_holds_none empty_server ended empty_server-Initial
      (Reach.later Reach-asked (Step.turns [] asked_client [] false handled refl))
      ((served, refl), tt)

-- While the client asks, the first model's only slot is taken.
asked_takes : in_flight_at 0 asked.routing.models ≡ 1
unfolding start_client stop_waiting leave enter reserve look_at look turn_from turn any
asked_takes = refl

abbrev meets_busy : Meets
meets_busy = record { gone = false; admission = busy; shared = idle }

pass_example :
    rests
      (pass
        (meets_busy ∷ meets_busy ∷ meets_busy ∷ meets_busy ∷ meets_busy ∷ meets_busy ∷ meets_busy
          ∷ [])
        client).place
    ≡ true
unfolding start_client
pass_example =
    pass_ends 2
      (meets_busy ∷ meets_busy ∷ meets_busy ∷ meets_busy ∷ meets_busy ∷ meets_busy ∷ meets_busy
        ∷ [])
      client refl (refl, (refl, (refl, (refl, (refl, (refl, (refl, tt))))))) (omega arith)

abbrev first_taken : Routing
first_taken = record {
  models = slots 1 1 ∷ slots 2 1 ∷ [];
  routing_waiters = 0;
  routing_queue_limit = 1;
  stopping = false;
}

priority_example :
    (look_on 3 (first_taken, generates [] [] false 0)).1.place
    ≡ chosen (first_free [] 0 first_taken.models)
priority_example = look_on-first_free first_taken [] [] false refl

second_chosen : first_free [] 0 first_taken.models ≡ some 1
unfolding first_free any
second_chosen = refl
