-- ===== src/Server/Routing/Release.antt =====
-- What an answer of a model does to the counters, and so every turn.
use codex_local_qwen27b.Base.{
  ℕ, suc, ◌+◌, ◌-◌, ◌≤◌, ◌≡◌, refl, sym, ap, Bool, true, false, not, ◌&&◌, List, arith, ◌==◌,
  if◌then◌else◌, if_both, if_cases,
}
use codex_local_qwen27b.Server.Routing.{
  RoutedModel, Routing, RoutingAdmission, handled, unfit, busy, Outcome, Place, enters, looks, asks,
  scanned, asleep, finished, Client, at_place, change_in_flight, with_models, leave, release,
  note_unfit, answer, turn, turn_from, served, exceeds_model,
}
use codex_local_qwen27b.Server.Routing.Admission.{
  in_flight_at, capacity_at, one_if, held_at, holds, Accounts, Includes, stopped, in_flight-release,
  capacity-change,
}
use codex_local_qwen27b.Server.Routing.Turns.{
  enter-Accounts, wake-Accounts, conclude-Accounts, look-Accounts,
}

-- The counters of the models behind a release.
release_slots :
    (j i : ℕ) (ms : List RoutedModel) (b : Bool)
    → one_if (not b && i == j) ≤ in_flight_at j ms
    → in_flight_at j (if b then ms else change_in_flight (λ n. n - 1) i ms)
        + one_if (not b && i == j)
      ≡ in_flight_at j ms
release_slots j i ms true l = omega arith
release_slots j i ms false l = in_flight-release ms i j l

release_within :
    (j i : ℕ) (ms : List RoutedModel) (b : Bool)
    → one_if (not b && i == j) ≤ in_flight_at j ms
    → in_flight_at j ms ≤ capacity_at j ms
    → in_flight_at j (if b then ms else change_in_flight (λ n. n - 1) i ms)
      ≤ capacity_at j (if b then ms else change_in_flight (λ n. n - 1) i ms)
release_within j i ms true l h = h
release_within j i ms false l h =
    omega (arith, in_flight-release ms i j l, capacity-change (λ n. n - 1) ms i j)

release-with_models :
    (i : ℕ) (r : Routing) (c : Client)
    → release i r c
      ≡ with_models (if c.count_only then r.models else change_in_flight (λ n. n - 1) i r.models) r
unfolding release
release-with_models i r c =
    if_cases
      (λ (z : Routing).
        z
        ≡ with_models (if c.count_only then r.models else change_in_flight (λ n. n - 1) i r.models)
            r)
      c.count_only (λ b. rw b refl) (λ b. rw b refl)

-- A client that stands in the handler of model `i`.
module _ (j i : ℕ) (known : Bool) (r : Routing) (c : Client) (stands : c.place ≡ asks i known)
    (n : Includes j r c) where
  held : holds j c ≡ one_if (not c.count_only && i == j)
  held = ap (held_at j c.count_only) stands

  released_left : (o : Outcome) → Accounts j r c (leave o (release i r c) c)
  unfolding leave
  released_left o = rw (release-with_models i r c) (
      stopped j (finished o) _ r c n.waiter
        (omega (arith, held, n.slot, release_slots j i r.models c.count_only))
        (release_within j i r.models c.count_only (omega (arith, held, n.slot))))

  released_moved :
      (p : Place) (d : Client)
      → d.count_only ≡ c.count_only
      → d.waiting ≡ c.waiting
      → held_at j c.count_only p ≡ 0
      → Accounts j r c (release i r c, at_place p d)
  released_moved p d e f k = rw (release-with_models i r c) (record {
    slots = omega (
      arith,
      held,
      n.slot,
      release_slots j i r.models c.count_only,
      ap (λ z. held_at j z p) e,
      k,
    );
    within = release_within j i r.models c.count_only (omega (arith, held, n.slot));
    waiters = ap (λ z. r.routing_waiters + one_if z) (sym f);
    queue = λ l. l;
  })

  pub answer-Accounts : (a : RoutingAdmission) → Accounts j r c (answer a i known r c)
  unfolding answer
  answer-Accounts handled = released_left served
  answer-Accounts unfit =
      if_both (Accounts j r c) c.count_only (released_left exceeds_model)
        (released_moved (looks (suc i) known) (note_unfit i c) refl refl refl)
  answer-Accounts busy = released_moved (looks (suc i) known) c refl refl refl

-- The same, by the place where the client stands.
turn_at :
    (j : ℕ) (gone : Bool) (a : RoutingAdmission) (r : Routing) (c : Client) (p : Place)
    → c.place ≡ p
    → Includes j r c
    → Accounts j r c (turn_from p gone a r c)
unfolding turn_from
turn_at j gone a r c enters e n = (enter-Accounts j gone r c (ap (held_at j c.count_only) e) n)
turn_at j gone a r c (looks i k) e n = (look-Accounts j i k r c (ap (held_at j c.count_only) e) n)
turn_at j gone a r c (asks i k) e n = (answer-Accounts j i k r c e n a)
turn_at j gone a r c (scanned k) e n = (conclude-Accounts j k r c (ap (held_at j c.count_only) e) n)
turn_at j gone a r c asleep e n = (wake-Accounts j gone r c (ap (held_at j c.count_only) e) n)
turn_at j gone a r c (finished o) e n = (record {
  slots = refl;
  within = λ l. l;
  waiters = refl;
  queue = λ l. l;
})

-- Whatever a client's thread does in a turn, the counters account for it.
pub turn-Accounts :
    (j : ℕ) (gone : Bool) (a : RoutingAdmission) (r : Routing) (c : Client)
    → Includes j r c
    → Accounts j r c (turn gone a r c)
unfolding turn
turn-Accounts j gone a r c n = turn_at j gone a r c c.place refl n
