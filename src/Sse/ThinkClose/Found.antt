-- ===== src/Sse/ThinkClose/Found.antt =====
-- The scan for a top-level `</think>` ends, and what it finds is one.
use codex_local_qwen27b.Base.{
  ℕ, zero, suc, ◌+◌, ◌-◌, ◌<◌, ◌≡◌, refl, ap, true, not, ◌&&◌, Option, none, some, [], ◌∷◌, arith,
  Bytes, codes, ◌==◌, if◌then◌else◌, if_cases, if_both, &&-eq-true, find, length, length-drop, take,
  drop, is_empty, starts_with, drop_trailing, drop_leading, is_ws,
}
use codex_local_qwen27b.Sse.ThinkClose.{
  Scan, ScanStep, found, go_on, close_tag, tag_name_of, ends_with_slash, is_tool_tag, scan_open_tag,
  scan_tag, scan_byte, scan, scan_start,
}
use codex_local_qwen27b.Sse.Token.{think_close}
use codex_local_qwen27b.Sse.Toolkit.{Toolkit}

-- A round finds the tag in the text `here`, or goes on behind the position `p`.
StepsFrom : ℕ → Bytes → ScanStep → Type 0
StepsFrom p here found = starts_with think_close here ≡ true
StepsFrom p here (go_on s) = p < s.pos

module _ (k : Toolkit) where
  open_tag_at :
      (o : Option ℕ) (t here : Bytes) (s : Scan)
      → StepsFrom s.pos here (elim o [
        | none ↦ go_on (record s { pos = s.pos + 1 })
        | some j ↦ go_on (record s {
          pos = s.pos + 1 + j + 1;
          open_tags =
              if is_tool_tag k (tag_name_of (take j t))
                && not (is_empty (take j t))
                && not (ends_with_slash (take j t))
              then tag_name_of (take j t) ∷ s.open_tags
              else s.open_tags;
        })
      ])
  unfolding StepsFrom
  open_tag_at none t here s = omega arith
  open_tag_at (some j) t here s = omega arith

  scan_open_tag-StepsFrom : (t here : Bytes) (s : Scan) → StepsFrom s.pos here (scan_open_tag k t s)
  unfolding scan_open_tag
  scan_open_tag-StepsFrom t here s = open_tag_at (find t (codes ">")) t here s

  close_tag_at :
      (o : Option ℕ) (c : ℕ) (u here : Bytes) (s : Scan)
      → StepsFrom s.pos here (elim o [
        | none ↦ scan_open_tag k (c ∷ u) s
        | some j ↦ go_on (record s {
          pos = s.pos + 2 + j + 1;
          open_tags = close_tag (drop_trailing is_ws (drop_leading is_ws (take j u))) s.open_tags;
        })
      ])
  unfolding StepsFrom
  close_tag_at none c u here s = scan_open_tag-StepsFrom (c ∷ u) here s
  close_tag_at (some j) c u here s = omega arith

  scan_tag-StepsFrom : (t here : Bytes) (s : Scan) → StepsFrom s.pos here (scan_tag k t s)
  unfolding scan_tag
  scan_tag-StepsFrom [] here s = scan_open_tag-StepsFrom [] here s
  scan_tag-StepsFrom (c ∷ u) here s =
      if_both (StepsFrom s.pos here) (c == b'/') (close_tag_at (find u (codes ">")) c u here s)
        (scan_open_tag-StepsFrom (c ∷ u) here s)

  next_pos : (here : Bytes) (s s' : Scan) → s.pos < s'.pos → StepsFrom s.pos here (go_on s')
  unfolding StepsFrom
  next_pos here s s' h = h

  tag_or_found :
      (here t : Bytes) (s : Scan)
      → StepsFrom s.pos here
          (if starts_with think_close here && is_empty s.open_tags then found else scan_tag k t s)
  unfolding StepsFrom
  tag_or_found here t s =
      if_cases (StepsFrom s.pos here) (starts_with think_close here && is_empty s.open_tags)
        (λ e. (&&-eq-true (starts_with think_close here) (is_empty s.open_tags) e).0)
        (λ e. scan_tag-StepsFrom t here s)

  scan_byte-StepsFrom :
      (buf : Bytes) (c : ℕ) (t : Bytes) (s : Scan) → StepsFrom s.pos (c ∷ t) (scan_byte k buf c t s)
  unfolding scan_byte
  scan_byte-StepsFrom buf c t s =
      if_both (StepsFrom s.pos (c ∷ t)) (c == b'\\' && not (is_empty t))
        (next_pos (c ∷ t) s _ (omega arith))
        (if_both (StepsFrom s.pos (c ∷ t)) (c == b'\'' && not s.in_double_quote)
          (next_pos (c ∷ t) s _ (omega arith))
          (if_both (StepsFrom s.pos (c ∷ t)) (c == b'"' && not s.in_single_quote)
            (next_pos (c ∷ t) s _ (omega arith))
            (if_both (StepsFrom s.pos (c ∷ t))
              (not s.in_single_quote && not s.in_double_quote && c == b'<')
              (tag_or_found (c ∷ t) t s) (next_pos (c ∷ t) s _ (omega arith)))))

  module _ (buf : Bytes) where
    -- The loop ended, and a position that it reports holds the tag.
    pub data IsResult : Option (Option ℕ) → Type 0 where
      nowhere : IsResult (some none)
      stands : {i : ℕ} → starts_with think_close (drop i buf) ≡ true → IsResult (some (some i))

    after_step :
        (fuel : ℕ) (s : Scan) (here : Bytes) (step : ScanStep)
        → StepsFrom s.pos here step
        → drop s.pos buf ≡ here
        → ((s' : Scan) → s.pos < s'.pos → IsResult (scan k fuel buf s'))
        → IsResult (elim step [ found ↦ some (some s.pos) | go_on s' ↦ scan k fuel buf s' ])
    unfolding StepsFrom
    after_step fuel s here found h e rest = stands (rw e h)
    after_step fuel s here (go_on s') h e rest = rest s' h

    at_text :
        (fuel : ℕ) (s : Scan) (here : Bytes)
        → drop s.pos buf ≡ here
        → ((s' : Scan) → s.pos < length buf → s.pos < s'.pos → IsResult (scan k fuel buf s'))
        → IsResult (elim here [
          | [] ↦ some none
          | c ∷ t ↦ elim (scan_byte k buf c t s) [
            | found ↦ some (some s.pos)
            | go_on s' ↦ scan k fuel buf s'
          ]
        ])
    at_text fuel s [] e rest = nowhere
    at_text fuel s (c ∷ t) e rest =
        after_step fuel s (c ∷ t) (scan_byte k buf c t s) (scan_byte-StepsFrom buf c t s) e
          (λ s' h. rest s' (omega (arith, ap length e, length-drop s.pos buf)) h)

    scan-IsResult : (fuel : ℕ) (s : Scan) → length buf - s.pos < fuel → IsResult (scan k fuel buf s)
    unfolding scan
    scan-IsResult zero s h = absurd (omega arith)
    scan-IsResult (suc fuel) s h =
        at_text fuel s (drop s.pos buf) refl (λ s' b q. scan-IsResult fuel s' (omega arith))

    -- With one step for each byte and one more the scan always ends. Where it reports a position,
    -- `</think>` stands there.
    pub scan_start-IsResult : IsResult (scan k (suc (length buf)) buf (scan_start k))
    scan_start-IsResult = scan-IsResult (suc (length buf)) (scan_start k) (omega arith)
