-- ===== src/Sse/View/Wire.antt =====
-- The client's view of the events, and what each delta function adds to it.
use codex_local_qwen27b.Base.{
  ◌≡◌, refl, sym, ap, ◌∙◌, List, [], ◌∷◌, ◌++◌, append-nil, append_assoc, Bytes, if_both,
}
use codex_local_qwen27b.Sse.Event.{
  ApiFormat, openai_chat, anthropic, responses, other, Event, content_delta, reasoning_delta,
  block_delta, text_delta, thinking_delta, thinking, text, output_text_delta, summary_text_delta,
  Kind,
}
use codex_local_qwen27b.Sse.Token.{stop_reasoning_delta}
use codex_local_qwen27b.Sse.Wire.{
  Wire, push_back, same_kind, switch_block, close_responses_reasoning_item, open_message_item,
  open_reasoning_item, content_delta_in, emit_content_delta, reasoning_delta_in,
  emit_reasoning_delta,
}

-- The answer text that one event carries.
abbrev pub content_in : Event → Bytes
content_in (content_delta t) = t
content_in (block_delta i (text_delta t)) = t
content_in (output_text_delta id i t) = t
content_in _ = []

-- The reasoning text that one event carries.
abbrev pub reasoning_in : Event → Bytes
reasoning_in (reasoning_delta t) = t
reasoning_in (block_delta i (thinking_delta t)) = t
reasoning_in (summary_text_delta id i t) = t
reasoning_in _ = []

-- The text that a client has after these events.
abbrev pub collect : (Event → Bytes) → List Event → Bytes
collect f [] = []
collect f (e ∷ es) = f e ++ collect f es

abbrev pub content_of : List Event → Bytes
content_of = collect content_in

abbrev pub reasoning_of : List Event → Bytes
reasoning_of = collect reasoning_in

pub collect-append :
    (f : Event → Bytes) (xs ys : List Event) → collect f (xs ++ ys) ≡ collect f xs ++ collect f ys
collect-append f [] ys = refl
collect-append f (x ∷ xs) ys = simp (collect-append f xs ys, append_assoc)

-- The formats that stream, and those whose every reasoning path sends a delta.
abbrev pub Streams : ApiFormat → Type 0
Streams other = ⊥
Streams _ = Unit

abbrev pub Chats : ApiFormat → Type 0
Chats openai_chat = Unit
Chats anthropic = Unit
Chats _ = ⊥

-- `w'` comes from `w` by events that add `c` to the answer and `r` to the reasoning.
pub record Adds (w w' : Wire) (c r : Bytes) : Type 0 where
  pub same_format : w'.format ≡ w.format
  pub adds_content : content_of w'.sent ≡ content_of w.sent ++ c
  pub adds_reasoning : reasoning_of w'.sent ≡ reasoning_of w.sent ++ r

-- Events that are only appended.
pub Adds-append :
    (w w' : Wire) (es : List Event)
    → w'.format ≡ w.format
    → w'.sent ≡ w.sent ++ es
    → Adds w w' (content_of es) (reasoning_of es)
Adds-append w w' es f e = record {
  same_format = f;
  adds_content = ap content_of e ∙ collect-append content_in w.sent es;
  adds_reasoning = ap reasoning_of e ∙ collect-append reasoning_in w.sent es;
}

pub Adds-refl : (w : Wire) → Adds w w [] []
Adds-refl w = record {
  same_format = refl;
  adds_content = sym (append-nil _);
  adds_reasoning = sym (append-nil _);
}

pub Adds-trans :
    {u v w : Wire} {c r d q : Bytes} → Adds u v c r → Adds v w d q → Adds u w (c ++ d) (r ++ q)
Adds-trans {u} {v} {w} {c} {r} {d} {q} a b = record {
  same_format = b.same_format ∙ a.same_format;
  adds_content =
      b.adds_content ∙ ap (λ z. z ++ d) a.adds_content ∙ append_assoc (content_of u.sent) c d;
  adds_reasoning =
      b.adds_reasoning ∙ ap (λ z. z ++ q) a.adds_reasoning ∙ append_assoc (reasoning_of u.sent) r q;
}

-- Each step leaves the format alone and appends events; on a test both branches do.
switch_block-Adds : (k : Kind) (w : Wire) → Adds w (switch_block k w) [] []
unfolding switch_block
switch_block-Adds k w =
    if_both (λ z. Adds w z [] []) (same_kind w.active_kind k) (Adds-refl w)
      (Adds-append w _ _ refl refl)

pub close_responses_reasoning_item-Adds :
    (r : Bytes) (w : Wire) → Adds w (close_responses_reasoning_item r w) [] []
unfolding close_responses_reasoning_item
close_responses_reasoning_item-Adds r w =
    if_both (λ z. Adds w z [] []) w.responses_reasoning_open (Adds-append w _ _ refl refl)
      (Adds-refl w)

pub open_message_item-Adds : (w : Wire) → Adds w (open_message_item w) [] []
unfolding open_message_item
open_message_item-Adds w =
    if_both (λ z. Adds w z [] []) w.responses_msg_item_open (Adds-refl w)
      (Adds-append w _ _ refl refl)

open_reasoning_item-Adds : (w : Wire) → Adds w (open_reasoning_item w) [] []
unfolding open_reasoning_item
open_reasoning_item-Adds w =
    if_both (λ z. Adds w z [] []) w.responses_reasoning_open (Adds-refl w)
      (Adds-append w _ _ refl refl)

-- One more event behind a step that adds nothing.
pub Adds-push :
    {u : Wire} (w : Wire) (e : Event) {c r : Bytes}
    → Adds u w [] []
    → content_in e ++ [] ≡ c
    → reasoning_in e ++ [] ≡ r
    → Adds u (push_back e w) c r
Adds-push w e a p q =
    rw (← p, ← q) (Adds-trans a (Adds-append w (push_back e w) (e ∷ []) refl refl))

content_delta_in-Adds :
    (f : ApiFormat) (r t : Bytes) (w : Wire) → Streams f → Adds w (content_delta_in f r t w) t []
unfolding content_delta_in
content_delta_in-Adds openai_chat r t w h = Adds-push w _ (Adds-refl w) (append-nil t) refl
content_delta_in-Adds anthropic r t w h =
    Adds-push _ _ (switch_block-Adds text w) (append-nil t) refl
content_delta_in-Adds responses r t w h =
    Adds-push _ _ (Adds-trans (close_responses_reasoning_item-Adds r w) (open_message_item-Adds _))
      (append-nil t) refl
content_delta_in-Adds other r t w h = absurd h

pub emit_content_delta-Adds :
    (r t : Bytes) (w : Wire) → Streams w.format → Adds w (emit_content_delta r t w) t []
unfolding emit_content_delta
emit_content_delta-Adds r [] w h = Adds-refl w
emit_content_delta-Adds r (c ∷ cs) w h = content_delta_in-Adds w.format r (c ∷ cs) w h

reasoning_delta_in-Adds :
    (f : ApiFormat) (t : Bytes) (w : Wire) → Streams f → Adds w (reasoning_delta_in f t w) [] t
unfolding reasoning_delta_in
reasoning_delta_in-Adds openai_chat t w h = Adds-push w _ (Adds-refl w) refl (append-nil t)
reasoning_delta_in-Adds anthropic t w h =
    Adds-push _ _ (switch_block-Adds thinking w) refl (append-nil t)
reasoning_delta_in-Adds responses t w h =
    Adds-push _ _ (open_reasoning_item-Adds w) refl (append-nil t)
reasoning_delta_in-Adds other t w h = absurd h

pub emit_reasoning_delta-Adds :
    (t : Bytes) (w : Wire) → Streams w.format → Adds w (emit_reasoning_delta t w) [] t
unfolding emit_reasoning_delta
emit_reasoning_delta-Adds [] w h = Adds-refl w
emit_reasoning_delta-Adds (c ∷ cs) w h = reasoning_delta_in-Adds w.format (c ∷ cs) w h

pub stop_reasoning_delta_in-Adds :
    (f : ApiFormat) (t : Bytes) (w : Wire) → Chats f → Adds w (stop_reasoning_delta f t w) [] t
unfolding stop_reasoning_delta
stop_reasoning_delta_in-Adds openai_chat t w h = Adds-push w _ (Adds-refl w) refl (append-nil t)
stop_reasoning_delta_in-Adds anthropic t w h = Adds-push w _ (Adds-refl w) refl (append-nil t)
stop_reasoning_delta_in-Adds responses t w h = absurd h
stop_reasoning_delta_in-Adds other t w h = absurd h
