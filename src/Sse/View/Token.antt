-- ===== src/Sse/View/Token.antt =====
-- What the deltas hold is carried through a request.
use codex_local_qwen27b.Base.{◌≡◌, refl, sym, ap, ◌∙◌, List, [], ◌∷◌, ◌++◌, append-nil, Bytes}
use codex_local_qwen27b.Sse.Carry.{IsCarried}
use codex_local_qwen27b.Sse.Event.{ApiFormat, openai_chat, anthropic, responses, other}
use codex_local_qwen27b.Sse.Token.{Emitter, stop_reasoning_delta}
use codex_local_qwen27b.Sse.View.Wire.{
  content_of, reasoning_of, Streams, Chats, Adds, emit_content_delta-Adds,
  emit_reasoning_delta-Adds, stop_reasoning_delta_in-Adds, close_responses_reasoning_item-Adds,
}
use codex_local_qwen27b.Sse.Wire.{Wire, emit_content_delta, emit_reasoning_delta}

-- The deltas that were sent hold exactly these texts; in Responses only the answer is compared.
pub record Holds (f : ApiFormat) (w : Wire) (answer thoughts : Bytes) : Type 0 where
  pub has_format : w.format ≡ f
  pub streams : Streams w.format
  pub holds_content : content_of w.sent ≡ answer
  pub holds_reasoning : Chats f → reasoning_of w.sent ≡ thoughts

-- The client has the emitter's text.
abbrev pub Delivers : ApiFormat → Emitter → Type 0
Delivers f s = Holds f s.wire s.accumulated_content s.reasoning_text

pub Holds-Adds :
    {f : ApiFormat} {w w' : Wire} {a t c r : Bytes}
    → Holds f w a t
    → Adds w w' c r
    → Holds f w' (a ++ c) (t ++ r)
Holds-Adds {f} {w} {w'} {a} {t} {c} {r} h d = record {
  has_format = d.same_format ∙ h.has_format;
  streams = rw d.same_format h.streams;
  holds_content = d.adds_content ∙ ap (λ z. z ++ c) h.holds_content;
  holds_reasoning = λ q. d.adds_reasoning ∙ ap (λ z. z ++ r) (h.holds_reasoning q);
}

pub Holds-silent :
    {f : ApiFormat} {w w' : Wire} {a t : Bytes} → Holds f w a t → Adds w w' [] [] → Holds f w' a t
Holds-silent {f} {w} {w'} {a} {t} h d = rw (append-nil a, append-nil t) at (Holds-Adds h d)

Holds-content :
    (x : Bytes) {f : ApiFormat} {w : Wire} {a t : Bytes}
    → Holds f w a t
    → Holds f (emit_content_delta t x w) (a ++ x) t
Holds-content x {f} {w} {a} {t} h =
    rw (append-nil t) at (Holds-Adds h (emit_content_delta-Adds t x w h.streams))

Holds-reasoning :
    (x : Bytes) {f : ApiFormat} {w : Wire} {a t : Bytes}
    → Holds f w a t
    → Holds f (emit_reasoning_delta x w) a (t ++ x)
Holds-reasoning x {f} {w} {a} {t} h =
    rw (append-nil a) at (Holds-Adds h (emit_reasoning_delta-Adds x w h.streams))

-- The delta before a stop sequence. Responses sends none, and is not compared.
stop_reasoning-Holds :
    (g : ApiFormat) {f : ApiFormat} (w : Wire) {a t : Bytes} (pre : Bytes)
    → w.format ≡ g
    → Holds f w a t
    → Holds f (stop_reasoning_delta g pre w) a (t ++ pre)
unfolding stop_reasoning_delta
stop_reasoning-Holds openai_chat w {a} pre e h =
    rw (append-nil a) at (Holds-Adds h (stop_reasoning_delta_in-Adds openai_chat pre w tt))
stop_reasoning-Holds anthropic w {a} pre e h =
    rw (append-nil a) at (Holds-Adds h (stop_reasoning_delta_in-Adds anthropic pre w tt))
stop_reasoning-Holds responses w pre e h = record {
  has_format = h.has_format;
  streams = h.streams;
  holds_content = h.holds_content;
  holds_reasoning = λ q. absurd (rw (sym h.has_format ∙ e) at q);
}
stop_reasoning-Holds other w pre e h = absurd (rw e at h.streams)

pub Holds-IsCarried : (f : ApiFormat) (seqs : List Bytes) → IsCarried seqs (Holds f)
Holds-IsCarried f seqs = record {
  carry_content = λ x {w} {a} {t} h. Holds-content x h;
  carry_reasoning = λ x {w} {a} {t} h. Holds-reasoning x h;
  carry_close = λ {w} {a} {t} h. Holds-silent h (close_responses_reasoning_item-Adds t w);
  carry_stop = λ window i c cs {w} {a} {t} e h. stop_reasoning-Holds w.format w (c ∷ cs) refl h;
}
