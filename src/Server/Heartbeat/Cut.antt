-- ===== src/Server/Heartbeat/Cut.antt =====
-- What the calls of send leave of a comment (http_server.cpp, 163-188).
use codex_local_qwen27b.Base.{
  ℕ, zero, suc, ◌+◌, ◌-◌, ◌≤◌, ◌<◌, min, ◌≡◌, refl, sym, ap, ◌∙◌, false, Option, none, some, List,
  [], ◌∷◌, ◌++◌, append-nil, append_assoc, arith, Bytes, ltb, if_cases, if_both, take, drop,
}
use codex_local_qwen27b.Server.Heartbeat.{
  sse_heartbeat, heartbeat_size, SendResult, accepted, interrupted, would_block, failed,
  HeartbeatSendResult, complete, retry, disconnected, HeartbeatSend, send_loop,
  try_send_sse_heartbeat,
}

plus_left : (n : ℕ) → 0 + n ≡ n
plus_left n = omega arith

plus_suc : (m n : ℕ) → suc m + n ≡ suc (m + n)
plus_suc m n = omega arith

take-+ {ℓ} :
    {A : Type ℓ} (m n : ℕ) (xs : List A) → take (m + n) xs ≡ take m xs ++ take n (drop m xs)
take-+ zero n xs = ap (λ z. take z xs) (plus_left n)
take-+ (suc m) zero [] = ap (λ z. take z []) (plus_suc m zero)
take-+ (suc m) (suc n) [] = ap (λ z. take z []) (plus_suc m (suc n))
take-+ (suc m) n (x ∷ xs) = ap (λ z. take z (x ∷ xs)) (plus_suc m n) ∙ ap (◌∷◌ x) (take-+ m n xs)

-- What a call that started at `from` has sent: the rest of the comment, or a part of the rest.
unfoldable pub Fits : ℕ → HeartbeatSendResult → Bytes → ℕ → Type 0
Fits from complete written offset =
    (take from sse_heartbeat ++ written ≡ sse_heartbeat) × (offset ≡ 0)
Fits from retry written offset =
    (take from sse_heartbeat ++ written ≡ take offset sse_heartbeat) × (offset < heartbeat_size)
Fits from disconnected written offset = Unit

unfoldable pub SendFits : ℕ → Option HeartbeatSend → Type 0
SendFits from none = Unit
SendFits from (some h) = Fits from h.result h.written h.offset

-- `written` and `offset` in the loop.
abbrev Sent : ℕ → Bytes → ℕ → Type 0
Sent from written offset =
    (take from sse_heartbeat ++ written ≡ take offset sse_heartbeat) × (offset ≤ heartbeat_size)

is_full :
    (offset : ℕ)
    → offset ≤ heartbeat_size
    → ltb offset heartbeat_size ≡ false
    → offset ≡ heartbeat_size
is_full offset b h = ground arith

at_end :
    (from offset : ℕ) (written : Bytes)
    → Sent from written offset
    → ltb offset heartbeat_size ≡ false
    → SendFits from (some (record { result = complete; written = written; offset = 0 }))
unfolding SendFits Fits
at_end from offset written (e, b) h =
    (e ∙ ap (λ z. take z sse_heartbeat) (is_full offset b h), refl)

Sent-more :
    (from offset n : ℕ) (written : Bytes)
    → Sent from written offset
    → Sent from
        (written ++ take (min n (heartbeat_size - offset)) (drop offset sse_heartbeat))
        (offset + min n (heartbeat_size - offset))
Sent-more from offset n written (e, b) = (
  sym (append_assoc (take from sse_heartbeat) written _)
      ∙ ap (λ z. z ++ take (min n (heartbeat_size - offset)) (drop offset sse_heartbeat)) e
      ∙ sym (take-+ offset (min n (heartbeat_size - offset)) sse_heartbeat),
  omega arith,
)

send_loop-Fits :
    (script : List SendResult) (from offset : ℕ) (written : Bytes)
    → Sent from written offset
    → SendFits from (send_loop script offset written)
unfolding send_loop SendFits Fits
send_loop-Fits [] from offset written h =
    if_cases (SendFits from) (ltb offset heartbeat_size) (λ q. tt) (at_end from offset written h)
send_loop-Fits (accepted n ∷ script) from offset written h =
    if_cases (SendFits from) (ltb offset heartbeat_size)
      (λ q.
        if_both (SendFits from) (ltb 0 n)
          (send_loop-Fits script from _ _ (Sent-more from offset n written h)) tt)
      (at_end from offset written h)
send_loop-Fits (interrupted ∷ script) from offset written h =
    if_cases (SendFits from) (ltb offset heartbeat_size)
      (λ q. send_loop-Fits script from offset written h) (at_end from offset written h)
send_loop-Fits (would_block ∷ script) from offset written h =
    if_cases (SendFits from) (ltb offset heartbeat_size) (λ q. (h.0, ground arith))
      (at_end from offset written h)
send_loop-Fits (failed ∷ script) from offset written h =
    if_cases (SendFits from) (ltb offset heartbeat_size) (λ q. tt) (at_end from offset written h)

pub try_send-Fits :
    (script : List SendResult) (offset : ℕ)
    → offset < heartbeat_size
    → SendFits offset (try_send_sse_heartbeat script offset)
unfolding try_send_sse_heartbeat SendFits Fits
try_send-Fits script offset h =
    if_both (SendFits offset) (ltb heartbeat_size offset) tt
      (send_loop-Fits script offset offset [] (append-nil _, omega (arith, h)))
