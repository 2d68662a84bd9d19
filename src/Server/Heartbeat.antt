-- ===== src/Server/Heartbeat.antt =====
-- The stream of one job (http_server.cpp, 143-188 and 4803-4876): data frames, and the comment that
-- is sent while no token is ready. `received` is what the socket has accepted; the system's send
-- and send_all are scripts of results. The locks and the clock's type are left out: a time is a
-- count of seconds.
pub mod Cut
pub mod Done
pub mod Ends
pub mod Whole
use codex_local_qwen27b.Base.{
  ℕ, zero, suc, ◌+◌, ◌-◌, min, Bool, true, false, not, ◌&&◌, ◌||◌, Option, none, some, List, [],
  ◌∷◌, ◌++◌, Bytes, codes, ◌==◌, ltb, leb, if◌then◌else◌, length, is_empty, take, drop, bytes_eq,
}

-- 105
abbrev pub sse_heartbeat : Bytes
sse_heartbeat = codes ": keep-alive\n\n"

-- sizeof(kSseHeartbeat) - 1
abbrev pub heartbeat_size : ℕ
heartbeat_size = 14

abbrev pub done_line : Bytes
done_line = codes "data: [DONE]"

-- 149-158: the state is `found` and `partial_line`.
unfoldable pub done_step : Bool → Bytes → ℕ → Bool × Bytes
done_step found partial_line ch =
    if ch == b'\r' || ch == b'\n'
    then (found || bytes_eq partial_line done_line, [])
    else if leb (length partial_line) 12
    then (found, partial_line ++ ch ∷ [])
    else (found, partial_line)

unfoldable pub done_scan : Bool → Bytes → Bytes → Bool × Bytes
done_scan found partial_line [] = (found, partial_line)
done_scan found partial_line (ch ∷ data_left) =
    let next = done_step found partial_line ch in done_scan next.0 next.1 data_left

-- The answer, and `partial_line` as the call leaves it.
unfoldable pub sse_chunk_has_done : Bytes → Bytes → Bool × Bytes
unfolding done_scan
sse_chunk_has_done partial_line chunk = done_scan false partial_line chunk

-- What one call of send reports; it accepts at most what it is given.
pub data SendResult : Type 0 where
  accepted : ℕ → SendResult
  interrupted would_block failed : SendResult

pub data HeartbeatSendResult : Type 0 where
  complete retry disconnected : HeartbeatSendResult

-- What a call sent and its new offset.
pub record HeartbeatSend : Type 0 where
  pub result : HeartbeatSendResult
  pub written : Bytes
  pub offset : ℕ

-- 170-187, on the results of the calls of send; `none` when the script is too short.
unfoldable pub send_loop : List SendResult → ℕ → Bytes → Option HeartbeatSend
send_loop [] offset written =
    if ltb offset heartbeat_size
    then none
    else some (record { result = complete; written = written; offset = 0 })
send_loop (accepted n ∷ script) offset written =
    let count = min n (heartbeat_size - offset) in
    let rest =
      send_loop script (offset + count) (written ++ take count (drop offset sse_heartbeat)) in
    if ltb offset heartbeat_size
    then (if ltb 0 n
        then rest
        else some (record { result = disconnected; written = written; offset = 0 }))
    else some (record { result = complete; written = written; offset = 0 })
send_loop (interrupted ∷ script) offset written =
    let rest = send_loop script offset written in
    if ltb offset heartbeat_size
    then rest
    else some (record { result = complete; written = written; offset = 0 })
send_loop (would_block ∷ script) offset written =
    if ltb offset heartbeat_size
    then some (record { result = retry; written = written; offset = offset })
    else some (record { result = complete; written = written; offset = 0 })
send_loop (failed ∷ script) offset written =
    if ltb offset heartbeat_size
    then some (record { result = disconnected; written = written; offset = 0 })
    else some (record { result = complete; written = written; offset = 0 })

unfoldable pub try_send_sse_heartbeat : List SendResult → ℕ → Option HeartbeatSend
unfolding send_loop
try_send_sse_heartbeat script offset =
    if ltb heartbeat_size offset
    then some (record { result = disconnected; written = []; offset = 0 })
    else send_loop script offset []

-- The stream's part of a ServerJob.
pub record Job : Type 0 where
  pub stream_ready : Bool
  pub heartbeat_offset : ℕ
  pub client_disconnected : Bool
  pub last_stream_write : ℕ
  pub received : Bytes

-- send_all: everything is sent, or it fails behind a prefix.
pub data SendAll : Type 0 where
  all_sent : SendAll
  failed_after : ℕ → SendAll

abbrev pub send_all : SendAll → Bytes → Bool × Bytes
send_all all_sent bytes = (true, bytes)
send_all (failed_after n) bytes = (false, take n bytes)

-- 4823-4828
unfoldable pub send_frame : SendAll → ℕ → Bytes → Job → Bool × Job
send_frame (failed_after n) now bytes job =
    (false, record job { received = job.received ++ take n bytes; client_disconnected = true })
send_frame all_sent now bytes job =
    (true, record job { received = job.received ++ bytes; last_stream_write = now })

-- 4812-4828: the rest of a comment that was cut, then the frame.
unfoldable pub send_behind : SendAll → SendAll → ℕ → Bytes → Job → Bool × Job
unfolding send_frame
send_behind (failed_after n) second now bytes job = (
  false,
  record job {
    received = job.received ++ take n (drop job.heartbeat_offset sse_heartbeat);
    heartbeat_offset = 0;
    client_disconnected = true;
  },
)
send_behind all_sent second now bytes job = send_frame second now bytes (record job {
  received = job.received ++ drop job.heartbeat_offset sse_heartbeat;
  heartbeat_offset = 0;
})

-- `first` and `second` are the results of the two calls of send_all.
unfoldable pub send_job_bytes : SendAll → SendAll → ℕ → Bytes → Job → Bool × Job
unfolding send_frame send_behind
send_job_bytes first second now bytes job =
    if job.client_disconnected
    then (false, job)
    else if ltb 0 job.heartbeat_offset
    then send_behind first second now bytes job
    else send_frame second now bytes job

unfoldable pub start_job_stream : ℕ → Job → Job
start_job_stream now job =
    if job.client_disconnected
    then job
    else record job { stream_ready = true; heartbeat_offset = 0; last_stream_write = now }

-- The job, and the bytes that are appended to the buffer, where the caller has one.
unfoldable pub stop_job_stream : Bool → Job → Job × Bytes
stop_job_stream has_buffer job =
    if has_buffer && ltb 0 job.heartbeat_offset
    then (
      record job { stream_ready = false; heartbeat_offset = 0 },
      drop job.heartbeat_offset sse_heartbeat,
    )
    else (record job { stream_ready = false }, [])

-- 4866-4875, on what the call of try_send_sse_heartbeat did
unfoldable pub after_heartbeat : ℕ → HeartbeatSend → Job → Job
after_heartbeat now h job =
    let tried = record job { heartbeat_offset = h.offset; received = job.received ++ h.written } in
    elim h.result [
      | disconnected ↦ record tried { client_disconnected = true }
      | retry ↦ tried
      | complete ↦ record tried { last_stream_write = now }
    ]

abbrev pub heartbeat_interval : Bool → ℕ
heartbeat_interval peer_read_closed = if peer_read_closed then 1 else 3

-- `none` when the script of send's results is too short.
unfoldable pub maybe_send_job_heartbeat : List SendResult → ℕ → Bool → Job → Option Job
unfolding after_heartbeat
maybe_send_job_heartbeat script now peer_read_closed job =
    if not job.stream_ready || job.client_disconnected
    then some job
    else if ltb (now - job.last_stream_write) (heartbeat_interval peer_read_closed)
    then some job
    else elim (try_send_sse_heartbeat script job.heartbeat_offset) [
      | none ↦ none
      | some h ↦ some (after_heartbeat now h job)
    ]
