-- ===== src/Server/Heartbeat/Ends.antt =====
-- The loop that sends a comment ends (http_server.cpp, 170-187).
use codex_local_qwen27b.Base.{
  ℕ, suc, ◌+◌, ◌≤◌, ◌≡◌, refl, Option, some, List, [], ◌∷◌, arith, Bytes, ltb, if_cases,
}
use codex_local_qwen27b.Server.Heartbeat.{
  heartbeat_size, SendResult, accepted, interrupted, would_block, failed, HeartbeatSend, send_loop,
  try_send_sse_heartbeat,
}

-- The results that are no EINTR.
abbrev pub uninterrupted : List SendResult → ℕ
uninterrupted [] = 0
uninterrupted (interrupted ∷ script) = uninterrupted script
uninterrupted (_ ∷ script) = suc (uninterrupted script)

abbrev Ends : Option HeartbeatSend → Type 0
Ends o = (h : HeartbeatSend) × (o ≡ some h)

send_loop-Ends :
    (script : List SendResult) (offset : ℕ) (written : Bytes)
    → heartbeat_size ≤ offset + uninterrupted script
    → Ends (send_loop script offset written)
unfolding send_loop
send_loop-Ends [] offset written h =
    if_cases Ends (ltb offset heartbeat_size) (λ q. absurd (ground arith)) (λ q. (_, refl))
send_loop-Ends (accepted n ∷ script) offset written h =
    if_cases Ends (ltb offset heartbeat_size)
      (λ q.
        if_cases Ends (ltb 0 n) (λ p. send_loop-Ends script _ _ (ground arith)) (λ p. (_, refl)))
      (λ q. (_, refl))
send_loop-Ends (interrupted ∷ script) offset written h =
    if_cases Ends (ltb offset heartbeat_size) (λ q. send_loop-Ends script offset written h)
      (λ q. (_, refl))
send_loop-Ends (would_block ∷ script) offset written h =
    if_cases Ends (ltb offset heartbeat_size) (λ q. (_, refl)) (λ q. (_, refl))
send_loop-Ends (failed ∷ script) offset written h =
    if_cases Ends (ltb offset heartbeat_size) (λ q. (_, refl)) (λ q. (_, refl))

-- The call ends when send has returned at most fourteen times with anything but EINTR: every such
-- return sends a byte of the comment or ends the loop.
pub try_send_sse_heartbeat_ends :
    (script : List SendResult) (offset : ℕ)
    → heartbeat_size ≤ uninterrupted script
    → (h : HeartbeatSend) × (try_send_sse_heartbeat script offset ≡ some h)
unfolding try_send_sse_heartbeat
try_send_sse_heartbeat_ends script offset h =
    if_cases Ends (ltb heartbeat_size offset) (λ q. (_, refl))
      (λ q. send_loop-Ends script offset [] (omega arith))
