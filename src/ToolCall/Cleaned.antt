-- ===== src/ToolCall/Cleaned.antt =====
-- The text that is left when the calls are taken out (parse_tool_calls,
-- server/src/server/tool_parser.cpp, 1835-1860), and which of its bytes these are.
use codex_local_qwen27b.Base.{
  ℕ, zero, suc, ◌+◌, ◌-◌, ◌≤◌, ◌<◌, ◌≡◌, refl, sym, ap, ◌∙◌, true, false, List, [], ◌∷◌, ◌++◌,
  Bytes, arith, ltb, if◌then◌else◌, any, is_empty, take, drop, is_ws, drop_leading, drop_trailing,
}
use codex_local_qwen27b.ToolCall.{Span, overlaps}

-- 1843-1850: from the position `cursor` on, with the text from there.
unfoldable pub clean_from : List Span → ℕ → Bytes → Bytes
clean_from [] cursor text = text
clean_from (s ∷ spans) cursor text =
    let skipped = clean_from spans cursor text in
    let taken = clean_from spans s.end (drop (s.end - cursor) text) in
    if ltb s.start cursor then skipped else take (s.start - cursor) text ++ taken

-- 1852-1859
unfoldable pub trim_text : Bytes → Bytes
unfolding drop_leading drop_trailing
trim_text text = drop_trailing is_ws (drop_leading is_ws text)

-- 1836-1860. std::sort may leave spans with the same start in any order: it is an argument.
unfoldable pub cleaned_text : (List Span → List Span) → List Span → Bytes → Bytes
unfolding clean_from trim_text
cleaned_text sort removals text =
    if is_empty removals then text else trim_text (clean_from (sort removals) 0 text)

-- The bytes, from position `i` on, that no span covers.
unfoldable pub uncovered : List Span → ℕ → Bytes → Bytes
uncovered spans i [] = []
uncovered spans i (c ∷ cs) =
    let rest = uncovered spans (suc i) cs in if overlaps spans i then rest else c ∷ rest

-- The spans stand behind `cursor`, in their order, and do not meet.
abbrev pub Disjoint : ℕ → List Span → Type 0
Disjoint cursor [] = Unit
Disjoint cursor (s ∷ spans) = (cursor ≤ s.start) × (s.start ≤ s.end) × Disjoint s.end spans

none_before :
    (spans : List Span) (cursor i : ℕ)
    → Disjoint cursor spans
    → i < cursor
    → overlaps spans i ≡ false
unfolding overlaps any
none_before [] cursor i h l = refl
none_before (s ∷ spans) cursor i h l = ground (arith, h.0, h.1, l, none_before spans s.end i h.2)

-- Before the first span all bytes stay.
before_span :
    (spans : List Span) (n cursor k : ℕ) (text : Bytes)
    → Disjoint k spans
    → cursor + n ≤ k
    → uncovered spans cursor text ≡ take n text ++ uncovered spans (cursor + n) (drop n text)
unfolding uncovered
before_span spans zero cursor k text h l =
    ap (λ i. uncovered spans i text) {x = cursor} {y = cursor + 0} (omega arith)
before_span spans (suc n) cursor k [] h l = refl
before_span spans (suc n) cursor k (c ∷ cs) h l =
    rw (uncovered, none_before spans k cursor h (omega (arith, l)))
      (ap (◌∷◌ c) (
        before_span spans n (suc cursor) k cs h (omega (arith, l))
        ∙ ap (λ i. take n cs ++ uncovered spans i (drop n cs)) {x = suc cursor + n}
            {y = cursor + suc n} (omega arith)))

covered :
    (s : Span) (spans : List Span) (i : ℕ) → s.start ≤ i → i < s.end → overlaps (s ∷ spans) i ≡ true
unfolding overlaps any
covered s spans i h l = ground (arith, h, l)

not_covered :
    (s : Span) (spans : List Span) (i : ℕ) → s.end ≤ i → overlaps (s ∷ spans) i ≡ overlaps spans i
unfolding overlaps any
not_covered s spans i h = ground (arith, h)

-- In the first span none stays.
in_span :
    (s : Span) (spans : List Span) (n cursor : ℕ) (text : Bytes)
    → s.start ≤ cursor
    → cursor + n ≤ s.end
    → uncovered (s ∷ spans) cursor text ≡ uncovered (s ∷ spans) (cursor + n) (drop n text)
unfolding uncovered
in_span s spans zero cursor text h l =
    ap (λ i. uncovered (s ∷ spans) i text) {x = cursor} {y = cursor + 0} (omega arith)
in_span s spans (suc n) cursor [] h l = refl
in_span s spans (suc n) cursor (c ∷ cs) h l =
    rw (uncovered, covered s spans cursor h (omega (arith, l)))
      (in_span s spans n (suc cursor) cs (omega (arith, h)) (omega (arith, l))
        ∙ ap (λ i. uncovered (s ∷ spans) i (drop n cs)) {x = suc cursor + n} {y = cursor + suc n}
            (omega arith))

-- Behind the first span the others decide.
behind_span :
    (s : Span) (spans : List Span) (cursor : ℕ) (text : Bytes)
    → s.end ≤ cursor
    → uncovered (s ∷ spans) cursor text ≡ uncovered spans cursor text
unfolding uncovered
behind_span s spans cursor [] h = refl
behind_span s spans cursor (c ∷ cs) h =
    rw
      (
        uncovered,
        not_covered s spans cursor h,
        behind_span s spans (suc cursor) cs (omega (arith, h)),
      )
      refl

uncovered_all : (cursor : ℕ) (text : Bytes) → uncovered [] cursor text ≡ text
unfolding uncovered overlaps any
uncovered_all cursor [] = refl
uncovered_all cursor (c ∷ cs) = ap (◌∷◌ c) (uncovered_all (suc cursor) cs)

drop_nil : (k : ℕ) → drop {A = ℕ} k [] ≡ []
drop_nil zero = refl
drop_nil (suc k) = refl

drop-drop : (m n : ℕ) (xs : Bytes) → drop n (drop m xs) ≡ drop (m + n) xs
drop-drop zero n xs = ap (λ k. drop k xs) {x = n} {y = 0 + n} (omega arith)
drop-drop (suc m) n [] = drop_nil n ∙ sym (drop_nil (suc m + n))
drop-drop (suc m) n (x ∷ xs) =
    drop-drop m n xs ∙ ap (λ k. drop k (x ∷ xs)) {x = suc (m + n)} {y = suc m + n} (omega arith)

-- Spans that stand in their order and do not meet: the bytes that the loop keeps are exactly those
-- that no span covers.
clean_from-uncovered :
    (spans : List Span) (cursor : ℕ) (text : Bytes)
    → Disjoint cursor spans
    → clean_from spans cursor text ≡ uncovered spans cursor text
unfolding clean_from
clean_from-uncovered [] cursor text h = sym (uncovered_all cursor text)
clean_from-uncovered (s ∷ spans) cursor text h =
    let n = s.start - cursor in
    let m = s.end - s.start in
    let behind = drop (s.end - cursor) text in
    let not_skipped : ltb s.start cursor ≡ false = ground (arith, h.0) in
    rw (clean_from, not_skipped)
      (ap (λ z. take n text ++ z)
          (clean_from-uncovered spans s.end behind h.2
            ∙ sym (behind_span s spans s.end behind (omega arith))
            ∙ ap (uncovered (s ∷ spans) s.end) (
                sym (
                  drop-drop n m text
                  ∙ ap (λ k. drop k text) {x = n + m} {y = s.end - cursor}
                      (omega (arith, h.0, h.1))))
            ∙ ap (λ i. uncovered (s ∷ spans) i (drop m (drop n text))) {x = s.end}
                {y = cursor + n + m} (omega (arith, h.0, h.1))
            ∙ sym (
                in_span s spans m (cursor + n) (drop n text) (omega (arith, h.0))
                  (omega (arith, h.0, h.1))))
        ∙ sym (
            before_span (s ∷ spans) n cursor s.start text (omega arith, h.1, h.2)
              (omega (arith, h.0))))

-- Where the spans do not meet once they are sorted, the text that is left is, up to the white space
-- at its ends, made of the bytes that no span covers, in their order.
pub cleaned_text-uncovered :
    (sort : List Span → List Span) (removals : List Span) (text : Bytes)
    → is_empty removals ≡ false
    → Disjoint 0 (sort removals)
    → cleaned_text sort removals text ≡ trim_text (uncovered (sort removals) 0 text)
unfolding cleaned_text
cleaned_text-uncovered sort removals text e h =
    rw (cleaned_text, e) (ap trim_text (clean_from-uncovered (sort removals) 0 text h))
