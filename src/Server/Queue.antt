-- ===== src/Server/Queue.antt =====
-- The queue of jobs (http_server.cpp, 4606-4672): a list through the jobs' own `next` fields. A job
-- is named by a number. The locks, the waits and the notifications are left out.
pub mod Fifo
use codex_local_qwen27b.Base.{
  ℕ, Bool, true, false, Option, none, some, ◌==◌, if◌then◌else◌, is_some,
}

pub record JobQueue : Type 0 where
  pub queue_head : Option ℕ
  pub queue_tail : Option ℕ
  pub next : ℕ → Option ℕ
  pub stopping : Bool
  -- done, with admission busy
  pub returned : ℕ → Bool

-- A field of one job is written.
abbrev pub set {ℓ} : {A : Type ℓ} → (ℕ → A) → ℕ → A → ℕ → A
set field job value i = if i == job then value else field i

-- 4616-4619: the writes to queue_tail_->next or queue_head_, and to queue_tail_
unfoldable pub link : Option ℕ → ℕ → JobQueue → JobQueue
link none job q = record q { queue_head = some job; queue_tail = some job }
link (some tail) job q = record q { next = set q.next tail (some job); queue_tail = some job }

unfoldable pub enqueue : ℕ → JobQueue → JobQueue
unfolding link
enqueue job q =
    if q.stopping
    then record q { returned = set q.returned job true }
    else link q.queue_tail job (record q { next = set q.next job none })

unfoldable pub has_pending_jobs : JobQueue → Bool
has_pending_jobs q = is_some q.queue_head

-- The end of dequeue, of try_dequeue and of dequeue_for.
unfoldable pub take_head : Option ℕ → JobQueue → Option ℕ × JobQueue
take_head none q = (none, q)
take_head (some job) q =
    let head = q.next job in
    (
      some job,
      record q {
        queue_head = head;
        queue_tail = if is_some head then q.queue_tail else none;
        next = set q.next job none;
      },
    )

unfoldable pub try_dequeue : JobQueue → Option ℕ × JobQueue
unfolding take_head
try_dequeue q = take_head q.queue_head q
