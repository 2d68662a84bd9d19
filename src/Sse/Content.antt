-- ===== src/Sse/Content.antt =====
-- The CONTENT branch of the loop of emit_token (sse_emitter.cpp, 457-536).
use mathlib.Core.List.{reverse}
use codex_local_qwen27b.Base.{
  ℕ, ◌+◌, ◌-◌, Bool, true, false, not, ◌&&◌, ◌||◌, Option, none, some, [], Bytes, codes, ◌==◌, ltb,
  leb, if◌then◌else◌, take, drop, is_some, starts_with, find, find_first, not_ws, count_while,
}
use codex_local_qwen27b.Sse.Toolkit.{Toolkit}
use codex_local_qwen27b.Sse.Reasoning.{safe_cut, tool_hit}
use codex_local_qwen27b.Sse.Token.{
  reasoning, tool_buffer, think_open, think_close, Emitter, add_content,
}

-- `Hit::type` 0, 1 and 2
pub data HitType : Type 0 where
  think_tag think_close_tag tool_syntax : HitType

-- 465-474: the hit with the smallest position. Of two at one position this takes the one pushed
-- first. `std::sort` leaves that open; it happens only if a tool is declared with the name `think`.
abbrev pub earlier_hit : Option (ℕ × HitType) → Option (ℕ × HitType) → Option (ℕ × HitType)
earlier_hit none h = h
earlier_hit (some h) none = some h
earlier_hit (some (p, t)) (some (q, u)) = if ltb q p then some (q, u) else some (p, t)

abbrev pub hit_at : HitType → Option ℕ → Option (ℕ × HitType)
hit_at t none = none
hit_at t (some p) = some (p, t)

unfoldable pub first_hit : Option ℕ → Option ℕ → Option ℕ → Option (ℕ × HitType)
first_hit think close tool =
    earlier_hit (hit_at think_tag think)
      (earlier_hit (hit_at think_close_tag close) (hit_at tool_syntax tool))

-- 475-495
unfoldable pub take_hit : HitType → ℕ → Emitter → Emitter
take_hit think_tag p s =
    let s' = add_content (take p s.window) s in
    (record s' { window = drop (p + 7) s.window; mode = reasoning })
take_hit think_close_tag p s =
    let s' = add_content (take p s.window) s in (record s' { window = drop (p + 8) s.window })
take_hit tool_syntax p s =
    let s' = add_content (take p s.window) s in
    (record s' {
      tool_buffer = drop p s.window;
      tool_from_reasoning = false;
      window = [];
      mode = tool_buffer;
    })

-- 501-505
unfoldable pub buffer_bare_json : Emitter → Emitter
buffer_bare_json s = record s {
  tool_buffer = s.window;
  tool_from_reasoning = false;
  tool_buffer_fallback_to_content = true;
  window = [];
  mode = tool_buffer;
}

-- 520-523
unfoldable pub is_ident : ℕ → Bool
is_ident c =
    (leb b'a' c && leb c b'z')
    || (leb b'A' c && leb c b'Z')
    || (leb b'0' c && leb c b'9')
    || c == b'_'
    || c == b'-'

-- 524-527: a trailing run of fewer than 64 name bytes is held back.
unfoldable pub hold_name : Bytes → ℕ → ℕ
unfolding is_ident
hold_name window cut =
    let run = count_while is_ident 64 (reverse (take cut window)) in
    if ltb run 64 then cut - run else cut

-- The first byte after white space is `{`.
unfoldable pub starts_with_brace : Bytes → Bool
starts_with_brace t = elim (find_first not_ws t) [
  | none ↦ false
  | some i ↦ starts_with (codes "{") (drop i t)
]

module _ (k : Toolkit) where
  -- starts_with_potential_bare_json_tool (37-42)
  unfoldable pub starts_with_potential_bare_json_tool : Bytes → Bool
  unfolding starts_with_brace
  starts_with_potential_bare_json_tool t = k.has_request_tools && starts_with_brace t

  -- 512-528
  unfoldable pub content_cut : Emitter → ℕ
  content_cut s =
      let cut = safe_cut k s in
      if ltb 0 cut && k.has_request_tools then hold_name s.window cut else cut

  -- 529-534
  unfoldable pub flush_content : Emitter → Emitter
  flush_content s =
      let cut = content_cut s in
      if ltb 0 cut
      then (let s' = add_content (take cut s.window) s in record s' { window = drop cut s.window })
      else s

  -- 471-535, on the first hit
  unfoldable pub content_hit : Option (ℕ × HitType) → Emitter → Emitter × Bool
  content_hit (some (p, t)) s = (take_hit t p s, true)
  content_hit none s =
      if not (is_some (find_first not_ws s.accumulated_content))
        && starts_with_potential_bare_json_tool s.window
      then (buffer_bare_json s, true)
      else (flush_content s, false)

  -- 457-536
  unfoldable pub content_round : Emitter → Emitter × Bool
  content_round s =
      content_hit
        (first_hit (find s.window think_open) (find s.window think_close) (tool_hit k s.window)) s
