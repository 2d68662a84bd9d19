-- ===== src/Server/Routing/Admission.antt =====
-- What each turn does to the counters that routing_mu_ guards.
use codex_local_qwen27b.Base.{
  ℕ, zero, suc, ◌+◌, ◌-◌, ◌≤◌, ◌<◌, ◌≡◌, refl, sym, ap, ◌∙◌, Bool, true, false, not, ◌&&◌, some,
  List, [], ◌∷◌, arith, ◌==◌, if_both, get_elem?,
}
use mathlib.Core.Option.{some-injective}
use codex_local_qwen27b.Server.Routing.{
  RoutedModel, Routing, Place, asks, Client, at_place, change_in_flight, with_models, stop_waiting,
}

-- The counter and the capacity of model `j`.
abbrev pub in_flight_at : ℕ → List RoutedModel → ℕ
in_flight_at j [] = 0
in_flight_at zero (m ∷ ms) = m.in_flight
in_flight_at (suc j) (m ∷ ms) = in_flight_at j ms

abbrev pub capacity_at : ℕ → List RoutedModel → ℕ
capacity_at j [] = 0
capacity_at zero (m ∷ ms) = m.capacity
capacity_at (suc j) (m ∷ ms) = capacity_at j ms

abbrev pub one_if : Bool → ℕ
one_if true = 1
one_if false = 0

-- The slot of model `j` that a client holds.
abbrev pub held_at : ℕ → Bool → Place → ℕ
held_at j count_only (asks i known) = one_if (not count_only && i == j)
held_at j count_only _ = 0

abbrev pub holds : ℕ → Client → ℕ
holds j c = held_at j c.count_only c.place

abbrev pub waits : Client → ℕ
waits c = one_if c.waiting

-- What a turn of one client may do to the counters: they move by what the client takes or gives up,
-- and they stay within their limits.
pub record Accounts (j : ℕ) (r : Routing) (c : Client) (t : Routing × Client) : Type 0 where
  pub slots : in_flight_at j t.0.models + holds j c ≡ in_flight_at j r.models + holds j t.1
  pub within :
      in_flight_at j r.models ≤ capacity_at j r.models
      → in_flight_at j t.0.models ≤ capacity_at j t.0.models
  pub waiters : t.0.routing_waiters + waits c ≡ r.routing_waiters + waits t.1
  pub queue :
      r.routing_waiters ≤ r.routing_queue_limit → t.0.routing_waiters ≤ t.0.routing_queue_limit

-- What the counters hold includes what the client holds.
pub record Includes (j : ℕ) (r : Routing) (c : Client) : Type 0 where
  pub slot : holds j c ≤ in_flight_at j r.models
  pub waiter : waits c ≤ r.routing_waiters

-- A turn that only moves the client to a place where it holds nothing.
pub moved :
    (j : ℕ) (p : Place) (r : Routing) (c : Client)
    → holds j c ≡ 0
    → held_at j c.count_only p ≡ 0
    → Accounts j r c (r, at_place p c)
moved j p r c h k = record {
  slots = ap (λ z. in_flight_at j r.models + z) (h ∙ sym k);
  within = λ l. l;
  waiters = refl;
  queue = λ l. l;
}

stop_waiting-models : (r : Routing) (c : Client) → (stop_waiting r c).0.models ≡ r.models
unfolding stop_waiting
stop_waiting-models r c = if_both (λ (z : Routing). z.models ≡ r.models) c.waiting refl refl

stop_waiting-waiters :
    (r : Routing) (c : Client)
    → waits c ≤ r.routing_waiters
    → (stop_waiting r c).0.routing_waiters + waits c ≡ r.routing_waiters
unfolding stop_waiting
stop_waiting-waiters r c l = ground (arith, l)

stop_waiting-limit :
    (r : Routing) (c : Client) → (stop_waiting r c).0.routing_queue_limit ≡ r.routing_queue_limit
unfolding stop_waiting
stop_waiting-limit r c =
    if_both (λ (z : Routing). z.routing_queue_limit ≡ r.routing_queue_limit) c.waiting refl refl

-- A turn that changes the counters of the models, moves the client to a place, and ends its waiting.
pub stopped :
    (j : ℕ) (p : Place) (ms : List RoutedModel) (r : Routing) (c : Client)
    → waits c ≤ r.routing_waiters
    → in_flight_at j ms + holds j c ≡ in_flight_at j r.models + held_at j c.count_only p
    → (in_flight_at j r.models ≤ capacity_at j r.models → in_flight_at j ms ≤ capacity_at j ms)
    → Accounts j r c
        ((stop_waiting (with_models ms r) c).0, at_place p (stop_waiting (with_models ms r) c).1)
unfolding stop_waiting
stopped j p ms r c w e l =
    let models_kept = stop_waiting-models (with_models ms r) c in
    record {
      slots = ap (λ z. in_flight_at j z + holds j c) models_kept ∙ e;
      within = λ h. rw models_kept (l h);
      waiters = stop_waiting-waiters (with_models ms r) c w ∙ omega arith;
      queue = λ h. omega (
        arith,
        stop_waiting-waiters (with_models ms r) c w,
        stop_waiting-limit (with_models ms r) c,
      );
    }

pub in_flight-reserve :
    (ms : List RoutedModel) (i j : ℕ) (m : RoutedModel)
    → get_elem? ms i ≡ some m
    → in_flight_at j (change_in_flight (λ n. n + 1) i ms) ≡ in_flight_at j ms + one_if (i == j)
in_flight-reserve [] i j m e = cc
in_flight-reserve (x ∷ xs) zero zero m e = ground arith
in_flight-reserve (x ∷ xs) zero (suc j) m e = ground arith
in_flight-reserve (x ∷ xs) (suc i) zero m e = ground arith
in_flight-reserve (x ∷ xs) (suc i) (suc j) m e = in_flight-reserve xs i j m e ∙ ground arith

pub in_flight-release :
    (ms : List RoutedModel) (i j : ℕ)
    → one_if (i == j) ≤ in_flight_at j ms
    → in_flight_at j (change_in_flight (λ n. n - 1) i ms) + one_if (i == j) ≡ in_flight_at j ms
in_flight-release [] i j l = ground (arith, l)
in_flight-release (x ∷ xs) zero zero l = ground (arith, l)
in_flight-release (x ∷ xs) zero (suc j) l = ground arith
in_flight-release (x ∷ xs) (suc i) zero l = ground arith
in_flight-release (x ∷ xs) (suc i) (suc j) l = ground (arith, in_flight-release xs i j)

pub capacity-change :
    (f : ℕ → ℕ) (ms : List RoutedModel) (i j : ℕ)
    → capacity_at j (change_in_flight f i ms) ≡ capacity_at j ms
capacity-change f [] i j = refl
capacity-change f (x ∷ xs) zero zero = refl
capacity-change f (x ∷ xs) zero (suc j) = refl
capacity-change f (x ∷ xs) (suc i) zero = refl
capacity-change f (x ∷ xs) (suc i) (suc j) = capacity-change f xs i j

pub room :
    (ms : List RoutedModel) (i j : ℕ) (m : RoutedModel)
    → get_elem? ms i ≡ some m
    → m.in_flight < m.capacity
    → in_flight_at j ms ≤ capacity_at j ms
    → in_flight_at j ms + one_if (i == j) ≤ capacity_at j ms
room [] i j m e l h = cc
room (x ∷ xs) zero zero m e l h =
    let same = some-injective _ _ e in
    omega (
      arith,
      l,
      ap (λ (z : RoutedModel). z.in_flight) same,
      ap (λ (z : RoutedModel). z.capacity) same,
    )
room (x ∷ xs) zero (suc j) m e l h = ground arith
room (x ∷ xs) (suc i) zero m e l h = ground arith
room (x ∷ xs) (suc i) (suc j) m e l h = ground (arith, room xs i j m e l h)
