-- ===== src/Sse/Blocks/Wire.antt =====
-- The delta functions keep the Anthropic client in step.
use codex_local_qwen27b.Base.{
  ℕ, ◌≡◌, refl, ap, ◌∙◌, Bool, true, false, not, ◌||◌, Option, none, some, List, [], ◌∷◌, ◌++◌,
  arith, Bytes, if_cases,
}
use codex_local_qwen27b.Sse.Event.{
  ApiFormat, openai_chat, anthropic, responses, other, Kind, thinking, text, closed, Block,
  BlockDelta, Event, block_delta, text_delta, thinking_delta,
}
use codex_local_qwen27b.Sse.Blocks.{Stream, fresh, opened, fits, step, follow}
use codex_local_qwen27b.Sse.Wire.{
  Wire, push_back, same_kind, block_of, switch_block, close_responses_reasoning_item,
  content_delta_in, emit_content_delta, reasoning_delta_in, emit_reasoning_delta,
}

follow-append :
    (b : Bool) (o : Option Stream) (xs ys : List Event)
    → follow b o (xs ++ ys) ≡ follow b (follow b o xs) ys
follow-append b none [] ys = refl
follow-append b none (x ∷ xs) [] = refl
follow-append b none (x ∷ xs) (y ∷ ys) = refl
follow-append b (some s) [] ys = refl
follow-append b (some s) (x ∷ xs) ys = follow-append b (step b s x) xs ys

module _ (strict : Bool) where
  -- The client stands here after the events sent so far.
  abbrev pub At : Wire → Stream → Type 0
  At w st = follow strict (some fresh) w.sent ≡ some st

  -- Events that are appended move the client on from where it stands.
  pub At-append :
      {st : Stream} (w : Wire) (es : List Event)
      → At w st
      → follow strict (some fresh) (w.sent ++ es) ≡ follow strict (some st) es
  At-append {st} w es h =
      follow-append strict (some fresh) w.sent es ∙ ap (λ o. follow strict o es) h

  -- A block of the kind `active_kind` is open, number `block_index`.
  pub record IsOpen (w : Wire) : Type 0 where
    pub is_anthropic : w.format ≡ anthropic
    pub no_item : w.responses_reasoning_open ≡ false
    pub some_kind : same_kind w.active_kind closed ≡ false
    pub at_block : At w (opened w.block_index (block_of w.active_kind))

  same_kind-eq : (a b : Kind) → same_kind a b ≡ true → a ≡ b
  same_kind-eq thinking thinking e = refl
  same_kind-eq text text e = refl
  same_kind-eq closed closed e = refl
  same_kind-eq thinking text e = cc
  same_kind-eq thinking closed e = cc
  same_kind-eq text thinking e = cc
  same_kind-eq text closed e = cc
  same_kind-eq closed thinking e = cc
  same_kind-eq closed text e = cc

  -- Open, with a block of kind `k`.
  record IsOpenAt (k : Kind) (w : Wire) : Type 0 where
    open_block : IsOpen w
    kind_is : w.active_kind ≡ k

  switch_block-IsOpenAt :
      (k : Kind) (w : Wire) → same_kind k closed ≡ false → IsOpen w → IsOpenAt k (switch_block k w)
  unfolding switch_block
  switch_block-IsOpenAt k w some_k h =
      if_cases (IsOpenAt k) (same_kind w.active_kind k)
        (λ e. record { open_block = h; kind_is = same_kind-eq w.active_kind k e })
        (λ e. record {
          open_block = record {
            is_anthropic = h.is_anthropic;
            no_item = h.no_item;
            some_kind = some_k;
            at_block = At-append w _ h.at_block ∙ ground arith;
          };
          kind_is = refl;
        })

  delta_step :
      (n : ℕ) (b : Block) (d : BlockDelta)
      → (not strict || fits b d) ≡ true
      → follow strict (some (opened n b)) (block_delta n d ∷ []) ≡ some (opened n b)
  delta_step n b d e = ground arith

  -- A delta of the block that is open.
  pub push_delta-IsOpen :
      (w : Wire) (d : BlockDelta)
      → (not strict || fits (block_of w.active_kind) d) ≡ true
      → IsOpen w
      → IsOpen (push_back (block_delta w.block_index d) w)
  push_delta-IsOpen w d e h = record {
    is_anthropic = h.is_anthropic;
    no_item = h.no_item;
    some_kind = h.some_kind;
    at_block = At-append w _ h.at_block ∙ delta_step w.block_index (block_of w.active_kind) d e;
  }

  switched_delta-IsOpen :
      (k : Kind) (w : Wire) (d : BlockDelta)
      → (not strict || fits (block_of k) d) ≡ true
      → IsOpenAt k w
      → IsOpen (push_back (block_delta w.block_index d) w)
  switched_delta-IsOpen k w d e h =
      push_delta-IsOpen w d (ap (λ z. not strict || fits (block_of z) d) h.kind_is ∙ e) h.open_block

  or_true : (b : Bool) → (b || true) ≡ true
  or_true b = ground arith

  content_delta_in-IsOpen :
      (f : ApiFormat) (r t : Bytes) (w : Wire)
      → f ≡ anthropic
      → IsOpen w
      → IsOpen (content_delta_in f r t w)
  unfolding content_delta_in
  content_delta_in-IsOpen anthropic r t w e h =
      switched_delta-IsOpen text _ (text_delta t) (or_true (not strict))
        (switch_block-IsOpenAt text w refl h)
  content_delta_in-IsOpen openai_chat r t w e h = cc
  content_delta_in-IsOpen responses r t w e h = cc
  content_delta_in-IsOpen other r t w e h = cc

  pub emit_content_delta-IsOpen :
      (r t : Bytes) (w : Wire) → IsOpen w → IsOpen (emit_content_delta r t w)
  unfolding emit_content_delta
  emit_content_delta-IsOpen r [] w h = h
  emit_content_delta-IsOpen r (c ∷ cs) w h =
      content_delta_in-IsOpen w.format r (c ∷ cs) w h.is_anthropic h

  reasoning_delta_in-IsOpen :
      (f : ApiFormat) (t : Bytes) (w : Wire)
      → f ≡ anthropic
      → IsOpen w
      → IsOpen (reasoning_delta_in f t w)
  unfolding reasoning_delta_in
  reasoning_delta_in-IsOpen anthropic t w e h =
      switched_delta-IsOpen thinking _ (thinking_delta t) (or_true (not strict))
        (switch_block-IsOpenAt thinking w refl h)
  reasoning_delta_in-IsOpen openai_chat t w e h = cc
  reasoning_delta_in-IsOpen responses t w e h = cc
  reasoning_delta_in-IsOpen other t w e h = cc

  pub emit_reasoning_delta-IsOpen :
      (t : Bytes) (w : Wire) → IsOpen w → IsOpen (emit_reasoning_delta t w)
  unfolding emit_reasoning_delta
  emit_reasoning_delta-IsOpen [] w h = h
  emit_reasoning_delta-IsOpen (c ∷ cs) w h =
      reasoning_delta_in-IsOpen w.format (c ∷ cs) w h.is_anthropic h

  pub close_item-IsOpen :
      (r : Bytes) (w : Wire) → IsOpen w → IsOpen (close_responses_reasoning_item r w)
  unfolding close_responses_reasoning_item
  close_item-IsOpen r w h =
      if_cases IsOpen w.responses_reasoning_open (λ e. absurd (ground (arith, h.no_item))) (λ e. h)
