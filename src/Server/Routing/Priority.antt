-- ===== src/Server/Routing/Priority.antt =====
-- "Generation always follows operator priority" (1836): which model a pass over models_ asks.
use codex_local_qwen27b.Base.{
  ℕ, zero, suc, ◌≡◌, refl, ap, ◌∙◌, Bool, true, false, ◌||◌, Option, none, some, List, [], ◌∷◌,
  Bytes, ◌==◌, leb, if◌then◌else◌, Bool-cases, inl, inr, any, length, drop, get_elem?,
}
use codex_local_qwen27b.Server.Routing.{
  RoutedModel, Routing, busy, Place, looks, asks, scanned, Client, at_place, look_at, look, reserve,
  stop_waiting, turn, turn_from,
}

-- The first entry from `i` on that was not unfit for the request and has a free slot.
unfoldable pub first_free : List ℕ → ℕ → List RoutedModel → Option ℕ
first_free unfit_models i [] = none
first_free unfit_models i (m ∷ ms) =
    let rest = first_free unfit_models (suc i) ms in
    if any (λ j. j == i) unfit_models || leb m.capacity m.in_flight then rest else some i

abbrev is_look : Place → Bool
is_look (looks i known) = true
is_look _ = false

-- The client's turns while it looks for a model, `n` at most, with no turn of another client between.
abbrev pub look_on : ℕ → Routing × Client → Routing × Client
look_on zero t = t
look_on (suc n) t =
    let next = look_on n (turn false busy t.0 t.1) in if is_look t.1.place then next else t

abbrev pub chosen : Option ℕ → Place
chosen none = scanned true
chosen (some i) = asks i true

-- A client that asks for generation, before the look at model `i`.
abbrev pub generates : Bytes → List ℕ → Bool → ℕ → Client
generates requested unfit_models waiting i = record {
  count_only = false;
  requested = requested;
  unfit_models = unfit_models;
  waiting = waiting;
  place = looks i true;
}

get_elem?-drop {ℓ} :
    {A : Type ℓ} (xs ys : List A) (i : ℕ) (a : A)
    → drop i xs ≡ a ∷ ys
    → (get_elem? xs i ≡ some a) × (drop (suc i) xs ≡ ys)
get_elem?-drop [] ys zero a e = cc
get_elem?-drop [] ys (suc i) a e = cc
get_elem?-drop (x ∷ xs) ys zero a e = (cc, cc)
get_elem?-drop (x ∷ xs) ys (suc i) a e = get_elem?-drop xs ys i a e

get_elem?-drop-none {ℓ} :
    {A : Type ℓ} (xs : List A) (i : ℕ) → drop i xs ≡ [] → get_elem? xs i ≡ none
get_elem?-drop-none [] i e = refl
get_elem?-drop-none (x ∷ xs) zero e = cc
get_elem?-drop-none (x ∷ xs) (suc i) e = get_elem?-drop-none xs i e

-- Whether the look passes the entry by.
abbrev passed_by : List ℕ → ℕ → RoutedModel → Bool
passed_by u i m = any (λ j. j == i) u || leb m.capacity m.in_flight

passes_by {ℓ} :
    {A : Type ℓ} (a s b : Bool) (x y z : A)
    → s ≡ false
    → (if a then x else if s then z else if b then x else y) ≡ (if a || b then x else y)
passes_by true s b x y z h = refl
passes_by false true b x y z h = cc
passes_by false false b x y z h = refl

turn-looks :
    (r : Routing) (q : Bytes) (u : List ℕ) (w : Bool) (i : ℕ) (m : RoutedModel)
    → r.stopping ≡ false
    → get_elem? r.models i ≡ some m
    → turn false busy r (generates q u w i)
      ≡ (if passed_by u i m then (r, generates q u w (suc i)) else reserve i r (generates q u w i))
unfolding turn turn_from look
turn-looks r q u w i m h e =
    rw (look, e)
      (unfold look_at in
        passes_by (any (λ j. j == i) u) r.stopping (leb m.capacity m.in_flight)
          (r, generates q u w (suc i)) (reserve i r (generates q u w i))
          (r, at_place (scanned true) (generates q u w i)) h)

looks_from :
    (r : Routing) (q : Bytes) (u : List ℕ) (w : Bool) (ms : List RoutedModel) (i : ℕ)
    → r.stopping ≡ false
    → drop i r.models ≡ ms
    → (look_on (suc (length ms)) (r, generates q u w i)).1.place ≡ chosen (first_free u i ms)
unfolding first_free
looks_from r q u w [] i h e =
    unfold turn turn_from look in rw (look, get_elem?-drop-none r.models i e) refl
looks_from r q u w (m ∷ ms) i h e =
    let d = get_elem?-drop r.models ms i m e in
    ap (λ t. (look_on (suc (length ms)) t).1.place) (turn-looks r q u w i m h d.0)
    ∙ elim (Bool-cases (passed_by u i m)) [
      | inl b ↦ rw b (looks_from r q u w ms (suc i) h d.1)
      | inr b ↦ rw b (unfold reserve stop_waiting in refl)
    ]

-- While no other client takes a turn and the server does not stop, a client that asks for generation
-- asks the first model, in the operator's order, that was not unfit for it and has a free slot; when
-- there is none, it asks none.
pub look_on-first_free :
    (r : Routing) (requested : Bytes) (unfit_models : List ℕ) (waiting : Bool)
    → r.stopping ≡ false
    → (look_on (suc (length r.models)) (r, generates requested unfit_models waiting 0)).1.place
      ≡ chosen (first_free unfit_models 0 r.models)
look_on-first_free r q u w h = looks_from r q u w r.models 0 h refl
