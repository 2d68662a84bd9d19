-- ===== src/Server/Prompt/Match.antt =====
-- What the tests on prompts and token sequences find.
use mathlib.Core.Option.{some-injective}
use codex_local_qwen27b.Base.{
  ℕ, zero, suc, ◌+◌, ◌-◌, ◌≤◌, ◌<◌, min, ◌≡◌, refl, sym, ◌⊎◌, inl, inr, true, false, ◌||◌, Option,
  none, some, List, [], ◌∷◌, arith, Bytes, ltb, if◌then◌else◌, if_cases, if_both, length,
  length-take, is_empty, take, drop, starts_with, Bool-cases,
}
use codex_local_qwen27b.Server.Prompt.{
  find_end, PflashQueryWindow, query_window_loop, find_pflash_query_window,
}

-- The needle stands at the position.
find_end-stands_in :
    (t i : ℕ) (ts needle : Bytes) (o : Option ℕ)
    → find_end ts needle ≡ o
    → ((j : ℕ) → o ≡ some j → starts_with needle (drop j ts) ≡ true)
    → elim o as (λ q. Option ℕ) [
      | some j ↦ some (suc j)
      | none ↦ if starts_with needle (t ∷ ts) then some 0 else none
    ]
      ≡ some i
    → starts_with needle (drop i (t ∷ ts)) ≡ true
find_end-stands_in t i ts needle (some j) e h q = rw (sym (some-injective _ _ q)) (h j refl)
find_end-stands_in t i ts needle none e h q = elim (Bool-cases (starts_with needle (t ∷ ts))) [
  | inl b ↦ rw (sym (some-injective _ _ (rw b at q))) b
  | inr b ↦ absurd (ground arith)
]

find_end-stands :
    (ts needle : List ℕ) (i : ℕ)
    → find_end ts needle ≡ some i
    → starts_with needle (drop i ts) ≡ true
unfolding find_end
find_end-stands [] needle i e = cc
find_end-stands (t ∷ ts) needle i e =
    find_end-stands_in t i ts needle (find_end ts needle) refl
      (λ j q. find_end-stands ts needle j q) e

-- No window, or one right before whose end the query's last tokens stand.
pub data IsMatch (prompt query : List ℕ) : Option PflashQueryWindow → Type 0 where
  unmatched : IsMatch prompt query none
  matched :
      {w : PflashQueryWindow} (i : ℕ)
      → w.window_end ≡ i + w.width
      → starts_with (drop (length query - w.width) query) (drop i prompt) ≡ true
      → IsMatch prompt query (some w)

loop_found :
    (prompt query : List ℕ) (width : ℕ) (o : Option ℕ) (rest : Option PflashQueryWindow)
    → find_end prompt (drop (length query - width) query) ≡ o
    → IsMatch prompt query rest
    → IsMatch prompt query
        (elim o [ some i ↦ some (record { window_end = i + width; width = width }) | none ↦ rest ])
loop_found prompt query width none rest e h = h
loop_found prompt query width (some i) rest e h = matched i refl (find_end-stands prompt _ i e)

loop-IsMatch :
    (prompt query : List ℕ) (narrowest n : ℕ)
    → IsMatch prompt query (query_window_loop prompt query narrowest n)
unfolding query_window_loop
loop-IsMatch prompt query narrowest zero = unmatched
loop-IsMatch prompt query narrowest (suc n) =
    loop_found prompt query (narrowest + n) _ _ refl (loop-IsMatch prompt query narrowest n)

-- No window is found in a prompt, or the last tokens of the query, as many as its
-- width, stand right before its end in the part of the prompt that was searched.
pub find_pflash_query_window-IsMatch :
    (prompt query : List ℕ) (search_end max_tokens : ℕ)
    → IsMatch
        (take search_end prompt)
        query
        (find_pflash_query_window prompt query search_end max_tokens)
unfolding find_pflash_query_window
find_pflash_query_window-IsMatch prompt query search_end max_tokens =
    if_both (IsMatch (take search_end prompt) query)
      (is_empty prompt
        || is_empty query
        || ltb search_end 1
        || ltb (length prompt) search_end
        || ltb max_tokens 1)
      unmatched
      (loop-IsMatch (take search_end prompt) query (min 4 (min max_tokens (length query)))
        (suc (min max_tokens (length query) - min 4 (min max_tokens (length query)))))

-- A needle that stands somewhere is found somewhere.
abbrev IsFound : {A : Type 0} → Option A → Type 0
IsFound {A} o = (a : A) × (o ≡ some a)

end_step-IsFound :
    (t : ℕ) (ts needle : List ℕ) (o : Option ℕ)
    → IsFound o ⊎ (starts_with needle (t ∷ ts) ≡ true)
    → IsFound (elim o as (λ q. Option ℕ) [
      | some j ↦ some (suc j)
      | none ↦ if starts_with needle (t ∷ ts) then some 0 else none
    ])
end_step-IsFound t ts needle (some j) h = (suc j, refl)
end_step-IsFound t ts needle none (inl h) = cc
end_step-IsFound t ts needle none (inr h) = (0, rw h refl)

find_end-IsFound :
    (ts needle : List ℕ) (i : ℕ)
    → i < length ts
    → starts_with needle (drop i ts) ≡ true
    → IsFound (find_end ts needle)
unfolding find_end
find_end-IsFound [] needle i l e = absurd (omega arith)
find_end-IsFound (t ∷ ts) needle zero l e =
    end_step-IsFound t ts needle (find_end ts needle) (inr e)
find_end-IsFound (t ∷ ts) needle (suc i) l e =
    end_step-IsFound t ts needle (find_end ts needle)
      (inl (find_end-IsFound ts needle i (omega arith) e))

width_step-IsFound :
    (width : ℕ) (o : Option ℕ) (rest : Option PflashQueryWindow)
    → IsFound o ⊎ IsFound rest
    → IsFound (elim o as (λ q. Option PflashQueryWindow) [
      | some i ↦ some (record { window_end = i + width; width = width })
      | none ↦ rest
    ])
width_step-IsFound width (some i) rest h = (_, refl)
width_step-IsFound width none rest (inl h) = cc
width_step-IsFound width none rest (inr h) = h

loop-IsFound :
    (prompt query : List ℕ) (narrowest n : ℕ)
    → IsFound (find_end prompt (drop (length query - (narrowest + 0)) query))
    → IsFound (query_window_loop prompt query narrowest (suc n))
unfolding query_window_loop
loop-IsFound prompt query narrowest zero h = width_step-IsFound (narrowest + 0) _ none (inl h)
loop-IsFound prompt query narrowest (suc n) h =
    width_step-IsFound (narrowest + suc n)
      (find_end prompt (drop (length query - (narrowest + suc n)) query))
      (query_window_loop prompt query narrowest (suc n))
      (inr (loop-IsFound prompt query narrowest n h))

plus_zero : (n : ℕ) → n + 0 ≡ n
plus_zero n = omega arith

in_range :
    (prompt query : List ℕ) (search_end max_tokens i : ℕ)
    → is_empty query ≡ false
    → search_end ≤ length prompt
    → 1 ≤ max_tokens
    → i < search_end
    → (is_empty prompt
        || is_empty query
        || ltb search_end 1
        || ltb (length prompt) search_end
        || ltb max_tokens 1)
      ≡ true
    → ⊥
in_range [] query search_end max_tokens i q l m b r = omega arith
in_range (t ∷ ts) query search_end max_tokens i q l m b r = ground arith

-- Where the arguments are in range and the last tokens of the query, as many as the narrowest width,
-- stand at a position of the part that is searched, a window is found.
pub find_pflash_query_window-found :
    (prompt query : List ℕ) (search_end max_tokens i : ℕ)
    → is_empty query ≡ false
    → search_end ≤ length prompt
    → 1 ≤ max_tokens
    → i < search_end
    → starts_with
        (drop (length query - min 4 (min max_tokens (length query))) query)
        (drop i (take search_end prompt))
      ≡ true
    → (w : PflashQueryWindow) × (find_pflash_query_window prompt query search_end max_tokens
        ≡ some w)
unfolding find_pflash_query_window
find_pflash_query_window-found prompt query search_end max_tokens i q l m b e =
    let narrowest = min 4 (min max_tokens (length query)) in
    if_cases (λ o. (w : PflashQueryWindow) × (o ≡ some w))
      (is_empty prompt
        || is_empty query
        || ltb search_end 1
        || ltb (length prompt) search_end
        || ltb max_tokens 1)
      (λ r. absurd (in_range prompt query search_end max_tokens i q l m b r))
      (λ r.
        loop-IsFound (take search_end prompt) query narrowest
          (min max_tokens (length query) - narrowest)
          (find_end-IsFound (take search_end prompt) (drop (length query - (narrowest + 0)) query) i
            (omega (arith, length-take search_end prompt)) (rw (plus_zero narrowest) e)))
