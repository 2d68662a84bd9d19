-- ===== src/Server/Routing/System.antt =====
-- Any number of clients that share the routing state, their turns interleaved in any order, and what
-- then always holds of the counters.
use codex_local_qwen27b.Base.{
  ℕ, ◌+◌, ◌≤◌, ◌≡◌, refl, sym, ap, ◌∙◌, Bool, true, ◌&&◌, ◌||◌, List, [], ◌∷◌, ◌++◌, Bytes,
  bytes_eq, codes, is_empty, arith, if_both,
}
use codex_local_qwen27b.Server.Routing.{Routing, RoutingAdmission, Client, start_client, turn}
use codex_local_qwen27b.Server.Routing.Admission.{
  in_flight_at, capacity_at, held_at, holds, waits, Accounts, Includes,
}
use codex_local_qwen27b.Server.Routing.Release.{turn-Accounts}

pub record System : Type 0 where
  pub routing : Routing
  pub clients : List Client

abbrev pub stop : Routing → Routing
stop r = record {
  models = r.models;
  routing_waiters = r.routing_waiters;
  routing_queue_limit = r.routing_queue_limit;
  stopping = true;
}

-- One client takes a turn, a client arrives, or the server stops.
pub data Step (s : System) : System → Type 0 where
  turns :
      (before : List Client) (c : Client) (after : List Client) (gone : Bool)
      (admission : RoutingAdmission)
      → s.clients ≡ before ++ c ∷ after
      → Step s (record {
        routing = (turn gone admission s.routing c).0;
        clients = before ++ (turn gone admission s.routing c).1 ∷ after;
      })
  arrives :
      (count_only : Bool) (requested : Bytes)
      → Step s
          (record { routing = s.routing; clients = start_client count_only requested ∷ s.clients })
  stops : Step s (record { routing = stop s.routing; clients = s.clients })

-- run() (1517-1696) starts with no client, and no reservation on any model.
pub record Initial (s : System) : Type 0 where
  pub no_clients : s.clients ≡ []
  pub no_reservations : (j : ℕ) → in_flight_at j s.routing.models ≡ 0
  pub no_waiters : s.routing.routing_waiters ≡ 0

pub data Reach (s : System) : System → Type 0 where
  here : Reach s s
  later : {t u : System} → Reach s t → Step t u → Reach s u

-- How many slots of model `j` the clients hold, and how many clients wait.
abbrev pub all_held : ℕ → List Client → ℕ
all_held j [] = 0
all_held j (c ∷ cs) = holds j c + all_held j cs

abbrev pub all_waiting : List Client → ℕ
all_waiting [] = 0
all_waiting (c ∷ cs) = waits c + all_waiting cs

-- Each counter is the number of clients that it counts, and within its limit.
pub record Counts (s : System) : Type 0 where
  pub held : (j : ℕ) → in_flight_at j s.routing.models ≡ all_held j s.clients
  pub within : (j : ℕ) → in_flight_at j s.routing.models ≤ capacity_at j s.routing.models
  pub waiting : s.routing.routing_waiters ≡ all_waiting s.clients
  pub queue : s.routing.routing_waiters ≤ s.routing.routing_queue_limit

all_held-append :
    (j : ℕ) (xs ys : List Client) → all_held j (xs ++ ys) ≡ all_held j xs + all_held j ys
all_held-append j [] ys = omega arith
all_held-append j (x ∷ xs) ys = omega (arith, all_held-append j xs ys)

all_waiting-append :
    (xs ys : List Client) → all_waiting (xs ++ ys) ≡ all_waiting xs + all_waiting ys
all_waiting-append [] ys = omega arith
all_waiting-append (x ∷ xs) ys = omega (arith, all_waiting-append xs ys)

Initial-Counts : (s : System) → Initial s → Counts s
Initial-Counts s i = record {
  held = λ j. i.no_reservations j ∙ sym (ap (all_held j) i.no_clients);
  within = λ j. omega (arith, i.no_reservations j);
  waiting = i.no_waiters ∙ sym (ap all_waiting i.no_clients);
  queue = omega (arith, i.no_waiters);
}

-- A client of the system is counted.
client-Includes :
    (j : ℕ) (s : System) (before : List Client) (c : Client) (after : List Client)
    → Counts s
    → s.clients ≡ before ++ c ∷ after
    → Includes j s.routing c
client-Includes j s before c after h e = record {
  slot = omega (arith, h.held j, ap (all_held j) e, all_held-append j before (c ∷ after));
  waiter = omega (arith, h.waiting, ap all_waiting e, all_waiting-append before (c ∷ after));
}

turns-Counts :
    (s : System) (before : List Client) (c : Client) (after : List Client) (t : Routing × Client)
    → Counts s
    → s.clients ≡ before ++ c ∷ after
    → ((j : ℕ) → Accounts j s.routing c t)
    → Counts (record { routing = t.0; clients = before ++ t.1 ∷ after })
turns-Counts s before c after t h e k = record {
  held = λ j.
      let a = k j in
      omega (
        arith,
        a.slots,
        h.held j,
        ap (all_held j) e,
        all_held-append j before (c ∷ after),
        all_held-append j before (t.1 ∷ after),
      );
  within = λ j. (k j).within (h.within j);
  waiting =
      let a = k 0 in
      omega (
        arith,
        a.waiters,
        h.waiting,
        ap all_waiting e,
        all_waiting-append before (c ∷ after),
        all_waiting-append before (t.1 ∷ after),
      );
  queue = (k 0).queue h.queue;
}

start_holds : (j : ℕ) (b : Bool) (r : Bytes) → holds j (start_client b r) ≡ 0
unfolding start_client
start_holds j b r =
    if_both (λ p. held_at j b p ≡ 0) (b && (is_empty r || bytes_eq r (codes "auto"))) refl refl

arrives-Counts :
    (s : System) (b : Bool) (r : Bytes)
    → Counts s
    → Counts (record { routing = s.routing; clients = start_client b r ∷ s.clients })
unfolding start_client
arrives-Counts s b r h = record {
  held = λ j. omega (arith, h.held j, start_holds j b r);
  within = h.within;
  waiting = h.waiting ∙ omega arith;
  queue = h.queue;
}

Step-Counts : (s t : System) → Step s t → Counts s → Counts t
Step-Counts s t (Step.turns before c after gone a e) h =
    turns-Counts s before c after (turn gone a s.routing c) h e
      (λ j. turn-Accounts j gone a s.routing c (client-Includes j s before c after h e))
Step-Counts s t (Step.arrives b r) h = arrives-Counts s b r h
Step-Counts s t Step.stops h = record {
  held = h.held;
  within = h.within;
  waiting = h.waiting;
  queue = h.queue;
}

-- In every state that the server can reach, each model's in_flight is the number of clients that hold
-- a slot of it and at most its capacity, and routing_waiters is the number of waiting clients and at
-- most the limit, whatever the order of the turns.
pub Reach-Counts : (s t : System) → Initial s → Reach s t → Counts t
Reach-Counts s t i Reach.here = Initial-Counts s i
Reach-Counts s t i (Reach.later r k) = Step-Counts _ t k (Reach-Counts s _ i r)
