-- ===== src/Server/Routing/Pass.antt =====
-- One pass of a client over the models: from the top of `for (;;)` to wait_for or to the end of the
-- call (1865-1922), while the other clients change the shared state between its turns.
use codex_local_qwen27b.Base.{
  ℕ, zero, suc, ◌+◌, ◌-◌, ◌*◌, ◌≤◌, ◌<◌, ◌≡◌, refl, sym, ap, Bool, true, false, not, ◌&&◌, ◌||◌,
  some, List, [], ◌∷◌, bytes_eq, arith, ◌==◌, leb, if◌then◌else◌, if_both, if_cases, any, length,
  get_elem?, Option-cases, inl, inr,
}
use mathlib.Core.Path.{subst}
use codex_local_qwen27b.Server.Routing.{
  RoutedModel, Routing, RoutingAdmission, handled, unfit, busy, Place, enters, looks, asks, scanned,
  asleep, finished, Outcome, Client, leave, enter, look_at, look, answer, conclude,
  wait_for_capacity, reserve, release, stop_waiting, turn, turn_from,
}

-- What a turn of the client meets.
pub record Meets : Type 0 where
  pub gone : Bool
  pub admission : RoutingAdmission
  pub shared : Routing

-- The client waits for capacity, or its call has ended.
abbrev pub rests : Place → Bool
rests asleep = true
rests (finished o) = true
rests _ = false

abbrev pub pass : List Meets → Client → Client
pass [] c = c
pass (m ∷ ms) c =
    let next = pass ms (turn m.gone m.admission m.shared c).1 in if rests c.place then c else next

abbrev pub AllModels : ℕ → List Meets → Type 0
AllModels k [] = Unit
AllModels k (m ∷ ms) = (length m.shared.models ≡ k) × AllModels k ms

-- How many turns are left of a pass over `k` models, at most.
abbrev left : ℕ → Place → ℕ
left k enters = 2 * k + 3
left k (looks i known) = 2 * (k - i) + 2
left k (asks i known) = 2 * (k - i) + 1
left k (scanned known) = 1
left k _ = 0

abbrev Within : ℕ → Place → Type 0
Within k (asks i known) = i < k
Within k _ = Unit

-- The turn comes closer to the end of the pass.
record Closer (k n : ℕ) (t : Routing × Client) : Type 0 where
  fewer : left k t.1.place < n
  within : Within k t.1.place

get_elem?-lt {ℓ} :
    {A : Type ℓ} (xs : List A) (i : ℕ) (a : A) → get_elem? xs i ≡ some a → i < length xs
get_elem?-lt [] i a e = cc
get_elem?-lt (x ∷ xs) zero a e = omega arith
get_elem?-lt (x ∷ xs) (suc i) a e = omega (arith, get_elem?-lt xs i a e)

leave-Closer : (k n : ℕ) (o : Outcome) (r : Routing) (c : Client) → 0 < n → Closer k n (leave o r c)
unfolding leave
leave-Closer k n o r c l = record { fewer = l; within = tt }

enter-Closer :
    (k : ℕ) (gone : Bool) (r : Routing) (c : Client) → Closer k (2 * k + 3) (enter gone r c)
unfolding enter
enter-Closer k gone r c =
    if_both (Closer k (2 * k + 3)) gone (leave-Closer k _ _ r c (omega arith))
      (record { fewer = omega arith; within = tt })

look_at-Closer :
    (k : ℕ) (m : RoutedModel) (i : ℕ) (known : Bool) (r : Routing) (c : Client)
    → i < k
    → Closer k (2 * (k - i) + 2) (look_at m i known r c)
unfolding look_at reserve stop_waiting
look_at-Closer k m i known r c l =
    let P = Closer k (2 * (k - i) + 2) in
    if_both P (c.count_only && not (bytes_eq c.requested m.model_name))
      (record { fewer = omega arith; within = tt })
      (if_both P (any (λ j. j == i) c.unfit_models) (record { fewer = omega arith; within = tt })
        (if_both P r.stopping (record { fewer = omega arith; within = tt })
          (if_both P (not c.count_only && leb m.capacity m.in_flight)
            (record { fewer = omega arith; within = tt })
            (record { fewer = omega arith; within = l }))))

look-Closer :
    (k i : ℕ) (known : Bool) (r : Routing) (c : Client)
    → length r.models ≡ k
    → Closer k (2 * (k - i) + 2) (look i known r c)
unfolding look
look-Closer k i known r c e = elim (Option-cases (get_elem? r.models i)) [
  | inl h ↦ rw (look, h) (record { fewer = omega arith; within = tt })
  | inr (m, h) ↦
      rw (look, h) (look_at-Closer k m i known r c (omega (arith, e, get_elem?-lt r.models i m h)))
]

answer-Closer :
    (k : ℕ) (a : RoutingAdmission) (i : ℕ) (known : Bool) (r : Routing) (c : Client)
    → i < k
    → Closer k (2 * (k - i) + 1) (answer a i known r c)
unfolding answer
answer-Closer k handled i known r c l = leave-Closer k _ _ (release i r c) c (omega arith)
answer-Closer k unfit i known r c l =
    if_both (Closer k (2 * (k - i) + 1)) c.count_only
      (leave-Closer k _ _ (release i r c) c (omega arith))
      (record { fewer = omega arith; within = tt })
answer-Closer k busy i known r c l = record { fewer = omega arith; within = tt }

conclude-Closer :
    (k : ℕ) (known : Bool) (r : Routing) (c : Client) → Closer k 1 (conclude known r c)
unfolding conclude wait_for_capacity
conclude-Closer k known r c =
    if_both (Closer k 1) (length c.unfit_models == length r.models)
      (leave-Closer k 1 _ r c (omega arith))
      (if_both (Closer k 1) (not known) (leave-Closer k 1 _ r c (omega arith)) (
        if_both (Closer k 1) (c.count_only || r.stopping) (leave-Closer k 1 _ r c (omega arith)) (
          if_both (Closer k 1) c.waiting (record { fewer = omega arith; within = tt })
            (if_both (Closer k 1) (leb r.routing_queue_limit r.routing_waiters)
              (leave-Closer k 1 _ r c (omega arith))
              (record { fewer = omega arith; within = tt })))))

turn_from-Closer :
    (k : ℕ) (p : Place) (gone : Bool) (a : RoutingAdmission) (r : Routing) (c : Client)
    → rests p ≡ false
    → length r.models ≡ k
    → Within k p
    → Closer k (left k p) (turn_from p gone a r c)
unfolding turn_from
turn_from-Closer k enters gone a r c h e w = enter-Closer k gone r c
turn_from-Closer k (looks i known) gone a r c h e w = look-Closer k i known r c e
turn_from-Closer k (asks i known) gone a r c h e w = answer-Closer k a i known r c w
turn_from-Closer k (scanned known) gone a r c h e w = conclude-Closer k known r c
turn_from-Closer k asleep gone a r c h e w = cc
turn_from-Closer k (finished o) gone a r c h e w = cc

none_left : (k : ℕ) (p : Place) → left k p ≤ 0 → rests p ≡ true
none_left k enters l = absurd (omega arith)
none_left k (looks i known) l = absurd (omega arith)
none_left k (asks i known) l = absurd (omega arith)
none_left k (scanned known) l = absurd (omega arith)
none_left k asleep l = refl
none_left k (finished o) l = refl

pass-rests :
    (k : ℕ) (ms : List Meets) (c : Client)
    → AllModels k ms
    → Within k c.place
    → left k c.place ≤ length ms
    → rests (pass ms c).place ≡ true
unfolding turn
pass-rests k [] c h w l = none_left k c.place l
pass-rests k (m ∷ ms) c h w l =
    if_cases (λ (z : Client). rests z.place ≡ true) (rests c.place) (λ e. e)
      (λ e.
        let t = turn_from-Closer k c.place m.gone m.admission m.shared c e h.0 w in
        pass-rests k ms (turn m.gone m.admission m.shared c).1 h.1 t.within
          (omega (arith, l, t.fewer)))

-- A pass over `k` models ends: after 2k + 3 turns at most the client waits for capacity or its call
-- has ended, whatever the models answer and the other clients do to the shared state in between.
pub pass_ends :
    (k : ℕ) (ms : List Meets) (c : Client)
    → c.place ≡ enters
    → AllModels k ms
    → 2 * k + 3 ≤ length ms
    → rests (pass ms c).place ≡ true
pass_ends k ms c e h l =
    pass-rests k ms c h (subst (Within k) (sym e) tt) (omega (arith, ap (left k) e))
