-- ===== src/Server/Routing/Turns.antt =====
-- Every turn keeps the accounts of the counters.
use codex_local_qwen27b.Base.{
  ℕ, suc, ◌+◌, ◌≡◌, refl, sym, ap, ◌∙◌, Bool, true, false, not, ◌&&◌, ◌||◌, some, bytes_eq, arith,
  ◌==◌, leb, if_both, if_cases, any, length, get_elem?, Option-cases, inl, inr,
}
use codex_local_qwen27b.Server.Routing.{
  RoutedModel, Routing, Outcome, enters, looks, asks, scanned, asleep, finished, Client, at_place,
  change_in_flight, stop_waiting, leave, enter, reserve, look_at, look, wait_for_capacity, conclude,
  wake, exceeds_all, unknown_model, unavailable, queue_full, disconnected,
}
use codex_local_qwen27b.Server.Routing.Admission.{
  in_flight_at, one_if, holds, Accounts, Includes, moved, stopped, in_flight-reserve,
  capacity-change, room,
}

leave-Accounts :
    (j : ℕ) (o : Outcome) (r : Routing) (c : Client)
    → holds j c ≡ 0
    → Includes j r c
    → Accounts j r c (leave o r c)
unfolding leave
leave-Accounts j o r c h i =
    stopped j (finished o) r.models r c i.waiter (omega (arith, h)) (λ l. l)

pub enter-Accounts :
    (j : ℕ) (gone : Bool) (r : Routing) (c : Client)
    → holds j c ≡ 0
    → Includes j r c
    → Accounts j r c (enter gone r c)
unfolding enter
enter-Accounts j gone r c h i =
    if_both (Accounts j r c) gone (leave-Accounts j disconnected r c h i)
      (moved j (looks 0 (not c.count_only)) r c h refl)

pub wake-Accounts :
    (j : ℕ) (gone : Bool) (r : Routing) (c : Client)
    → holds j c ≡ 0
    → Includes j r c
    → Accounts j r c (wake gone r c)
unfolding wake
wake-Accounts j gone r c h i =
    if_both (Accounts j r c) gone (leave-Accounts j disconnected r c h i)
      (moved j enters r c h refl)

wait_for_capacity-Accounts :
    (j : ℕ) (r : Routing) (c : Client)
    → holds j c ≡ 0
    → Includes j r c
    → Accounts j r c (wait_for_capacity r c)
unfolding wait_for_capacity
wait_for_capacity-Accounts j r c h i =
    if_cases (Accounts j r c) c.waiting (λ e. moved j asleep r c h refl)
      (λ e.
        if_cases (Accounts j r c) (leb r.routing_queue_limit r.routing_waiters)
          (λ f. leave-Accounts j queue_full r c h i)
          (λ f. record {
            slots = ap (λ z. in_flight_at j r.models + z) h;
            within = λ l. l;
            waiters = ground (arith, e);
            queue = ground (arith, f);
          }))

pub conclude-Accounts :
    (j : ℕ) (known : Bool) (r : Routing) (c : Client)
    → holds j c ≡ 0
    → Includes j r c
    → Accounts j r c (conclude known r c)
unfolding conclude
conclude-Accounts j known r c h i =
    if_both (Accounts j r c) (length c.unfit_models == length r.models)
      (leave-Accounts j exceeds_all r c h i)
      (if_both (Accounts j r c) (not known) (leave-Accounts j unknown_model r c h i) (
        if_both (Accounts j r c) (c.count_only || r.stopping) (leave-Accounts j unavailable r c h i)
          (wait_for_capacity-Accounts j r c h i)))

reserve-Accounts :
    (j i : ℕ) (r : Routing) (c : Client) (m : RoutedModel)
    → holds j c ≡ 0
    → Includes j r c
    → get_elem? r.models i ≡ some m
    → (not c.count_only && leb m.capacity m.in_flight) ≡ false
    → Accounts j r c (reserve i r c)
unfolding reserve
reserve-Accounts j i r c m h n e l =
    if_cases
      (λ (z : Routing).
        Accounts j r c ((stop_waiting z c).0, at_place (asks i true) (stop_waiting z c).1))
      c.count_only
      (λ b.
        stopped j (asks i true) r.models r c n.waiter
          (ap (λ z. in_flight_at j r.models + z) (h ∙ sym (ap (λ z. one_if (not z && i == j)) b)))
          (λ k. k))
      (λ b.
        stopped j (asks i true) (change_in_flight (λ n. n + 1) i r.models) r c n.waiter
          (omega
            (arith, h, in_flight-reserve r.models i j m e, ap (λ z. one_if (not z && i == j)) b))
          (λ k. omega (
            arith,
            in_flight-reserve r.models i j m e,
            capacity-change (λ n. n + 1) r.models i j,
            room r.models i j m e (ground (arith, l, b)) k,
          )))

look_at-Accounts :
    (j i : ℕ) (known : Bool) (r : Routing) (c : Client) (m : RoutedModel)
    → holds j c ≡ 0
    → Includes j r c
    → get_elem? r.models i ≡ some m
    → Accounts j r c (look_at m i known r c)
unfolding look_at
look_at-Accounts j i known r c m h n e =
    if_both (Accounts j r c) (c.count_only && not (bytes_eq c.requested m.model_name))
      (moved j (looks (suc i) known) r c h refl)
      (if_both (Accounts j r c) (any (λ j. j == i) c.unfit_models)
        (moved j (looks (suc i) true) r c h refl)
        (if_both (Accounts j r c) r.stopping (moved j (scanned true) r c h refl) (
          if_cases (Accounts j r c) (not c.count_only && leb m.capacity m.in_flight)
            (λ f. moved j (looks (suc i) true) r c h refl)
            (λ f. reserve-Accounts j i r c m h n e f))))

pub look-Accounts :
    (j i : ℕ) (known : Bool) (r : Routing) (c : Client)
    → holds j c ≡ 0
    → Includes j r c
    → Accounts j r c (look i known r c)
unfolding look
look-Accounts j i known r c h n = elim (Option-cases (get_elem? r.models i)) [
  | inl e ↦ rw (look, e) (moved j (scanned known) r c h refl)
  | inr (m, e) ↦ rw (look, e) (look_at-Accounts j i known r c m h n e)
]
