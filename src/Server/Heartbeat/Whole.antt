-- ===== src/Server/Heartbeat/Whole.antt =====
-- The comment that keeps a stream alive never splits a data frame, whatever short writes occur.
use mathlib.Core.Option.{some-injective}
use mathlib.Core.Path.{subst}
use codex_local_qwen27b.Base.{
  ℕ, ◌-◌, ◌<◌, ◌≡◌, refl, sym, ap, ◌∙◌, Bool, true, false, not, ◌||◌, Option, none, some, List, [],
  ◌∷◌, ◌++◌, append-nil, append_assoc, arith, Bytes, ltb, if_cases, if_both, take, take-append-drop,
}
use codex_local_qwen27b.Server.Heartbeat.{
  sse_heartbeat, heartbeat_size, SendResult, HeartbeatSendResult, complete, retry, disconnected,
  HeartbeatSend, Job, SendAll, all_sent, failed_after, send_frame, send_behind, send_job_bytes,
  after_heartbeat, heartbeat_interval, maybe_send_job_heartbeat,
}
use codex_local_qwen27b.Server.Heartbeat.Cut.{Fits, SendFits, try_send-Fits}

-- These bytes are the frames, in their order, with whole comments between them.
pub data Whole : List Bytes → Bytes → Type 0 where
  nothing : Whole [] []
  beat : {fs : List Bytes} {b : Bytes} → Whole fs b → Whole fs (b ++ sse_heartbeat)
  frame : {fs : List Bytes} {b : Bytes} (f : Bytes) → Whole fs b → Whole (fs ++ f ∷ []) (b ++ f)

-- What the client has is whole, but for a comment that was cut at `heartbeat_offset`.
pub record Aligned (fs : List Bytes) (job : Job) : Type 0 where
  pub done : Bytes
  pub whole : Whole fs done
  pub is_received : job.received ≡ done ++ take job.heartbeat_offset sse_heartbeat
  pub bounded : job.heartbeat_offset < heartbeat_size

-- Aligned, unless the client is gone.
pub data Keeps (fs : List Bytes) (job : Job) : Type 0 where
  gone : job.client_disconnected ≡ true → Keeps fs job
  aligned : Aligned fs job → Keeps fs job

received_now :
    (received done part written more : Bytes)
    → received ≡ done ++ part
    → part ++ written ≡ more
    → received ++ written ≡ done ++ more
received_now received done part written more e f =
    ap (λ z. z ++ written) e ∙ append_assoc done part written ∙ ap (λ z. done ++ z) f

after_heartbeat-Keeps :
    (fs : List Bytes) (now : ℕ) (r : HeartbeatSendResult) (h : HeartbeatSend) (job : Job)
    → h.result ≡ r
    → Fits job.heartbeat_offset r h.written h.offset
    → Aligned fs job
    → Keeps fs (after_heartbeat now h job)
unfolding after_heartbeat Fits
after_heartbeat-Keeps fs now disconnected h job e f a = rw e (gone refl)
after_heartbeat-Keeps fs now retry h job e f a = rw e (
    aligned (record {
      done = a.done;
      whole = a.whole;
      is_received =
          received_now job.received a.done (take job.heartbeat_offset sse_heartbeat) h.written _
            a.is_received f.0;
      bounded = f.1;
    }))
after_heartbeat-Keeps fs now complete h job e f a = rw e (
    aligned (record {
      done = a.done ++ sse_heartbeat;
      whole = beat a.whole;
      is_received =
          received_now job.received a.done (take job.heartbeat_offset sse_heartbeat) h.written _
            a.is_received f.0
          ∙ sym (append-nil _)
          ∙ ap (λ z. (a.done ++ sse_heartbeat) ++ take z sse_heartbeat) (sym f.1);
      bounded = omega (arith, f.1);
    }))

KeepsIn : List Bytes → Option Job → Type 0
KeepsIn fs none = Unit
KeepsIn fs (some job) = Keeps fs job

heartbeat_in :
    (fs : List Bytes) (now : ℕ) (o : Option HeartbeatSend) (job : Job)
    → SendFits job.heartbeat_offset o
    → Aligned fs job
    → KeepsIn fs (elim o [ none ↦ none | some h ↦ some (after_heartbeat now h job) ])
unfolding SendFits KeepsIn
heartbeat_in fs now none job f a = tt
heartbeat_in fs now (some h) job f a = after_heartbeat-Keeps fs now h.result h job refl f a

heartbeat-KeepsIn :
    (fs : List Bytes) (script : List SendResult) (now : ℕ) (peer_read_closed : Bool) (job : Job)
    → Aligned fs job
    → KeepsIn fs (maybe_send_job_heartbeat script now peer_read_closed job)
unfolding maybe_send_job_heartbeat KeepsIn
heartbeat-KeepsIn fs script now peer_read_closed job a =
    if_both (KeepsIn fs) (not job.stream_ready || job.client_disconnected) (aligned a) (
      if_both (KeepsIn fs) (ltb (now - job.last_stream_write) (heartbeat_interval peer_read_closed))
        (aligned a)
        (heartbeat_in fs now _ job (try_send-Fits script job.heartbeat_offset a.bounded) a))

KeepsIn-some :
    (fs : List Bytes) (o : Option Job) (job : Job) → o ≡ some job → KeepsIn fs o → Keeps fs job
unfolding KeepsIn
KeepsIn-some fs none job e h = cc
KeepsIn-some fs (some j) job e h = subst (Keeps fs) (some-injective _ _ e) h

-- However short the writes of the socket are: after a tick of the monitor the client is gone, or has
-- the frames that were sent, whole and in their order, with whole comments between them and the
-- comment behind them that is cut at `heartbeat_offset`, if it was so before.
pub maybe_send_job_heartbeat-Keeps :
    (fs : List Bytes) (script : List SendResult) (now : ℕ) (peer_read_closed : Bool)
    (job job' : Job)
    → Aligned fs job
    → maybe_send_job_heartbeat script now peer_read_closed job ≡ some job'
    → Keeps fs job'
maybe_send_job_heartbeat-Keeps fs script now peer_read_closed job job' a e =
    KeepsIn-some fs _ job' e (heartbeat-KeepsIn fs script now peer_read_closed job a)

-- Where the call answers true, the job is aligned with the frame, and no comment is cut.
record FrameSent (fs : List Bytes) (p : Bool × Job) : Type 0 where
  is_aligned : p.0 ≡ true → Aligned fs p.1 × (p.1.heartbeat_offset ≡ 0)

send_frame-FrameSent :
    (fs : List Bytes) (bytes : Bytes) (second : SendAll) (now : ℕ) (job : Job)
    → Whole fs job.received
    → job.heartbeat_offset ≡ 0
    → FrameSent (fs ++ bytes ∷ []) (send_frame second now bytes job)
unfolding send_frame
send_frame-FrameSent fs bytes (failed_after n) now job w z = record { is_aligned = λ q. cc }
send_frame-FrameSent fs bytes all_sent now job w z = record {
  is_aligned = λ q. (
    record {
      done = job.received ++ bytes;
      whole = frame bytes w;
      is_received =
          sym (append-nil _) ∙ ap (λ x. (job.received ++ bytes) ++ take x sse_heartbeat) (sym z);
      bounded = omega (arith, z);
    },
    z,
  );
}

send_behind-FrameSent :
    (fs : List Bytes) (bytes : Bytes) (first second : SendAll) (now : ℕ) (job : Job)
    → Aligned fs job
    → FrameSent (fs ++ bytes ∷ []) (send_behind first second now bytes job)
unfolding send_behind
send_behind-FrameSent fs bytes (failed_after n) second now job a = record { is_aligned = λ q. cc }
send_behind-FrameSent fs bytes all_sent second now job a =
    send_frame-FrameSent fs bytes second now _
      (subst (Whole fs)
        (sym (
          received_now job.received a.done _ _ _ a.is_received
            (take-append-drop job.heartbeat_offset sse_heartbeat)))
        (beat a.whole))
      refl

at_zero : (n : ℕ) → ltb 0 n ≡ false → n ≡ 0
at_zero n e = ground arith

nothing_cut :
    (fs : List Bytes) (job : Job)
    → Aligned fs job
    → job.heartbeat_offset ≡ 0
    → Whole fs job.received
nothing_cut fs job a z =
    subst (Whole fs)
      (sym (a.is_received ∙ ap (λ x. a.done ++ take x sse_heartbeat) z ∙ append-nil a.done)) a.whole

-- If the client had the frames that were sent, whole and in their order, with whole comments between
-- them and at most a cut comment behind them, and the call answers true, the client has these
-- frames and then the new one in the same way, and no comment is cut.
pub send_job_bytes-Aligned :
    (fs : List Bytes) (bytes : Bytes) (first second : SendAll) (now : ℕ) (job : Job)
    → Aligned fs job
    → (send_job_bytes first second now bytes job).0 ≡ true
    → Aligned (fs ++ bytes ∷ []) (send_job_bytes first second now bytes job).1
      × ((send_job_bytes first second now bytes job).1.heartbeat_offset ≡ 0)
unfolding send_job_bytes
send_job_bytes-Aligned fs bytes first second now job a q =
    (if_cases (FrameSent (fs ++ bytes ∷ [])) job.client_disconnected
        (λ e. record { is_aligned = λ r. cc })
        (λ e.
          if_cases (FrameSent (fs ++ bytes ∷ [])) (ltb 0 job.heartbeat_offset)
            (λ z. send_behind-FrameSent fs bytes first second now job a)
            (λ z.
              send_frame-FrameSent fs bytes second now job
                (nothing_cut fs job a (at_zero job.heartbeat_offset z))
                (at_zero job.heartbeat_offset z)))).is_aligned
      q
