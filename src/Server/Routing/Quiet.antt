-- ===== src/Server/Routing/Quiet.antt =====
-- A client that is behind its call has given back what it took, so an idle server holds nothing.
use codex_local_qwen27b.Base.{
  ℕ, ◌≡◌, refl, sym, ap, ◌∙◌, Bool, false, not, ◌&&◌, ◌||◌, List, [], ◌∷◌, ◌++◌, Bytes, bytes_eq,
  codes, is_empty, arith, ◌==◌, leb, if_both, any, length, get_elem?, Option-cases, inl, inr,
}
use mathlib.Core.Path.{subst}
use codex_local_qwen27b.Server.Routing.{
  RoutedModel, Routing, RoutingAdmission, handled, unfit, busy, Place, enters, looks, asks, scanned,
  asleep, finished, Outcome, Client, start_client, leave, enter, look_at, look, answer, conclude,
  wake, wait_for_capacity, reserve, release, stop_waiting, turn, turn_from, exceeds_all,
  unknown_model, unavailable, queue_full, disconnected, served, exceeds_model,
}
use codex_local_qwen27b.Server.Routing.Admission.{in_flight_at, one_if, held_at}
use codex_local_qwen27b.Server.Routing.System.{
  System, Step, Initial, Reach, all_held, all_waiting, Reach-Counts,
}

abbrev left_waiting : Place → Bool → ℕ
left_waiting (finished o) b = one_if b
left_waiting _ b = 0

-- Behind its call a client does not count as waiting.
abbrev Tidy : Client → Type 0
Tidy c = left_waiting c.place c.waiting ≡ 0

abbrev TidyAfter : Routing × Client → Type 0
TidyAfter t = Tidy t.1

leave-Tidy : (o : Outcome) (r : Routing) (c : Client) → TidyAfter (leave o r c)
unfolding leave stop_waiting
leave-Tidy o r c = refl

look_at-Tidy :
    (m : RoutedModel) (i : ℕ) (known : Bool) (r : Routing) (c : Client)
    → TidyAfter (look_at m i known r c)
unfolding look_at reserve stop_waiting
look_at-Tidy m i known r c =
    if_both TidyAfter (c.count_only && not (bytes_eq c.requested m.model_name)) refl (
      if_both TidyAfter (any (λ j. j == i) c.unfit_models) refl (
        if_both TidyAfter r.stopping refl
          (if_both TidyAfter (not c.count_only && leb m.capacity m.in_flight) refl refl)))

look-Tidy : (i : ℕ) (known : Bool) (r : Routing) (c : Client) → TidyAfter (look i known r c)
unfolding look
look-Tidy i known r c = elim (Option-cases (get_elem? r.models i)) [
  | inl e ↦ rw (look, e) refl
  | inr (m, e) ↦ rw (look, e) (look_at-Tidy m i known r c)
]

answer-Tidy :
    (a : RoutingAdmission) (i : ℕ) (known : Bool) (r : Routing) (c : Client)
    → TidyAfter (answer a i known r c)
unfolding answer
answer-Tidy handled i known r c = leave-Tidy served (release i r c) c
answer-Tidy unfit i known r c =
    if_both TidyAfter c.count_only (leave-Tidy exceeds_model (release i r c) c) refl
answer-Tidy busy i known r c = refl

conclude-Tidy : (known : Bool) (r : Routing) (c : Client) → TidyAfter (conclude known r c)
unfolding conclude wait_for_capacity
conclude-Tidy known r c =
    if_both TidyAfter (length c.unfit_models == length r.models) (leave-Tidy exceeds_all r c) (
      if_both TidyAfter (not known) (leave-Tidy unknown_model r c) (
        if_both TidyAfter (c.count_only || r.stopping) (leave-Tidy unavailable r c) (
          if_both TidyAfter c.waiting refl (
            if_both TidyAfter (leb r.routing_queue_limit r.routing_waiters)
              (leave-Tidy queue_full r c) refl))))

turn_from-Tidy :
    (p : Place) (gone : Bool) (a : RoutingAdmission) (r : Routing) (c : Client)
    → c.place ≡ p
    → Tidy c
    → TidyAfter (turn_from p gone a r c)
unfolding turn_from enter wake
turn_from-Tidy enters gone a r c e h = if_both TidyAfter gone (leave-Tidy disconnected r c) refl
turn_from-Tidy (looks i k) gone a r c e h = look-Tidy i k r c
turn_from-Tidy (asks i k) gone a r c e h = answer-Tidy a i k r c
turn_from-Tidy (scanned k) gone a r c e h = conclude-Tidy k r c
turn_from-Tidy asleep gone a r c e h = if_both TidyAfter gone (leave-Tidy disconnected r c) refl
turn_from-Tidy (finished o) gone a r c e h = h

abbrev AllTidy : List Client → Type 0
AllTidy [] = Unit
AllTidy (c ∷ cs) = Tidy c × AllTidy cs

AllTidy-replace :
    (xs : List Client) (c : Client) (ys : List Client)
    → AllTidy (xs ++ c ∷ ys)
    → Tidy c × ((d : Client) → Tidy d → AllTidy (xs ++ d ∷ ys))
AllTidy-replace [] c ys h = (h.0, λ d k. (k, h.1))
AllTidy-replace (x ∷ xs) c ys h =
    let r = AllTidy-replace xs c ys h.1 in (r.0, λ d k. (h.0, r.1 d k))

start-Tidy : (b : Bool) (r : Bytes) → Tidy (start_client b r)
unfolding start_client
start-Tidy b r =
    if_both (λ p. left_waiting p false ≡ 0) (b && (is_empty r || bytes_eq r (codes "auto"))) refl
      refl

Step-AllTidy : (s t : System) → Step s t → AllTidy s.clients → AllTidy t.clients
unfolding turn
Step-AllTidy s t (Step.turns before c after gone a e) h =
    let r = AllTidy-replace before c after (subst AllTidy e h) in
    r.1 _ (turn_from-Tidy c.place gone a s.routing c refl r.0)
Step-AllTidy s t (Step.arrives b r) h = (start-Tidy b r, h)
Step-AllTidy s t Step.stops h = h

Reach-AllTidy : (s t : System) → Initial s → Reach s t → AllTidy t.clients
Reach-AllTidy s t i Reach.here = subst AllTidy (sym i.no_clients) tt
Reach-AllTidy s t i (Reach.later r k) = Step-AllTidy _ t k (Reach-AllTidy s _ i r)

-- Every client is behind its call.
abbrev pub AllFinished : List Client → Type 0
AllFinished [] = Unit
AllFinished (c ∷ cs) = ((o : Outcome) × (c.place ≡ finished o)) × AllFinished cs

none_held : (j : ℕ) (cs : List Client) → AllFinished cs → all_held j cs ≡ 0
none_held j [] h = refl
none_held j (c ∷ cs) h = omega (arith, ap (held_at j c.count_only) h.0.1, none_held j cs h.1)

none_waiting : (cs : List Client) → AllFinished cs → AllTidy cs → all_waiting cs ≡ 0
none_waiting [] h k = refl
none_waiting (c ∷ cs) h k =
    omega (arith, k.0, ap (λ p. left_waiting p c.waiting) h.0.1, none_waiting cs h.1 k.1)

-- When every client of a reachable state is behind its call, however the calls ended, no model has a
-- request in flight and no client counts as waiting.
pub finished_holds_none :
    (s t : System)
    → Initial s
    → Reach s t
    → AllFinished t.clients
    → ((j : ℕ) → in_flight_at j t.routing.models ≡ 0) × (t.routing.routing_waiters ≡ 0)
finished_holds_none s t i r f =
    let h = Reach-Counts s t i r in
    (
      λ j. h.held j ∙ none_held j t.clients f,
      h.waiting ∙ none_waiting t.clients f (Reach-AllTidy s t i r),
    )
