-- ===== src/Server/Queue/Fifo.antt =====
-- The queue of jobs is a queue: the jobs that wait, in the order in which they came.
use mathlib.Core.Option.{some-injective}
use mathlib.Core.Path.{subst}
use codex_local_qwen27b.Base.{
  if_cases, ℕ, ◌≡◌, refl, sym, ap, ◌∙◌, false, Option, none, some, List, [], ◌∷◌, ◌++◌, arith, ◌==◌,
  if◌then◌else◌, is_some,
}
use codex_local_qwen27b.Server.Queue.{JobQueue, set, link, enqueue, take_head, try_dequeue}

-- The jobs are linked from `head` on, and the last has no next job.
abbrev pub Linked : (ℕ → Option ℕ) → Option ℕ → List ℕ → Type 0
Linked next head [] = head ≡ none
Linked next head (j ∷ js) = (head ≡ some j) × Linked next (next j) js

abbrev pub Fresh : ℕ → List ℕ → Type 0
Fresh j [] = Unit
Fresh j (x ∷ xs) = ((x == j) ≡ false) × Fresh j xs

abbrev pub Distinct : List ℕ → Type 0
Distinct [] = Unit
Distinct (x ∷ xs) = Fresh x xs × Distinct xs

abbrev pub last_from : ℕ → List ℕ → ℕ
last_from x [] = x
last_from x (y ∷ ys) = last_from y ys

abbrev pub last_of : List ℕ → Option ℕ
last_of [] = none
last_of (x ∷ xs) = some (last_from x xs)

-- The fields represent the jobs that wait.
pub record Queues (q : JobQueue) (js : List ℕ) : Type 0 where
  pub linked : Linked q.next q.queue_head js
  pub ends : q.queue_tail ≡ last_of js
  pub distinct : Distinct js

Fresh-last : (x y : ℕ) (ys : List ℕ) → Fresh x (y ∷ ys) → (last_from y ys == x) ≡ false
Fresh-last x y [] h = h.0
Fresh-last x y (z ∷ zs) h = Fresh-last x z zs h.1

set_other :
    {A : Type 0} (field : ℕ → A) (i j : ℕ) (v : A) → (i == j) ≡ false → set field j v i ≡ field i
set_other field i j v e = rw e

set_same : {A : Type 0} (field : ℕ → A) (i : ℕ) (v : A) → set field i v i ≡ v
set_same field i v = ground arith

Linked-set :
    (next : ℕ → Option ℕ) (a : ℕ) (v : Option ℕ) (js : List ℕ) (h : Option ℕ)
    → Fresh a js
    → Linked next h js
    → Linked (set next a v) h js
Linked-set next a v [] h f l = l
Linked-set next a v (j ∷ js) h f l =
    (l.0, Linked-set next a v js (set next a v j) f.1 (rw (sym (set_other next j a v f.0)) at l.1))

last_snoc : (x j : ℕ) (js : List ℕ) → last_from x (js ++ j ∷ []) ≡ j
last_snoc x j [] = refl
last_snoc x j (y ∷ ys) = last_snoc y j ys

Fresh-snoc : (x j : ℕ) (js : List ℕ) → Fresh x js → (j == x) ≡ false → Fresh x (js ++ j ∷ [])
Fresh-snoc x j [] f e = (e, tt)
Fresh-snoc x j (y ∷ ys) f e = (f.0, Fresh-snoc x j ys f.1 e)

eq_false-sym : (a b : ℕ) → (a == b) ≡ false → (b == a) ≡ false
eq_false-sym a b e = ground arith

Distinct-snoc : (j : ℕ) (js : List ℕ) → Fresh j js → Distinct js → Distinct (js ++ j ∷ [])
Distinct-snoc j [] f d = (tt, tt)
Distinct-snoc j (x ∷ xs) f d =
    (Fresh-snoc x j xs d.0 (eq_false-sym x j f.0), Distinct-snoc j xs f.1 d.1)

-- The list when `j` is linked behind its last job.
abbrev pub relinked : (ℕ → Option ℕ) → ℕ → ℕ → ℕ → Option ℕ
relinked next j tail = set (set next j none) tail (some j)

Linked-snoc :
    (next : ℕ → Option ℕ) (j : ℕ) (js : List ℕ) (x : ℕ) (h : Option ℕ)
    → h ≡ some x
    → Linked next (next x) js
    → Fresh j (x ∷ js)
    → Distinct (x ∷ js)
    → Linked (relinked next j (last_from x js)) h (x ∷ (js ++ j ∷ []))
Linked-snoc next j [] x h e l f d = (
  e,
  (
    set_same (set next j none) x (some j),
    set_other (set next j none) j x (some j) (eq_false-sym x j f.0) ∙ set_same next j none,
  ),
)
Linked-snoc next j (y ∷ ys) x h e l f d = (
  e,
  Linked-snoc next j ys y (relinked next j (last_from y ys) x)
      (set_other (set next j none) x (last_from y ys) (some j)
          (eq_false-sym _ x (Fresh-last x y ys d.0))
        ∙ set_other next x j none f.0
        ∙ l.0)
      l.1 f.1 d.1,
)

enqueue_behind :
    (j : ℕ) (q : JobQueue) (js : List ℕ) (tail : Option ℕ)
    → q.queue_tail ≡ tail
    → Queues q js
    → Fresh j js
    → Queues (link tail j (record q { next = set q.next j none })) (js ++ j ∷ [])
unfolding link
enqueue_behind j q [] none e h f = record {
  linked = (refl, set_same q.next j none);
  ends = refl;
  distinct = (tt, tt);
}
enqueue_behind j q (x ∷ xs) none e h f = absurd (ground (arith, h.ends))
enqueue_behind j q [] (some t) e h f = absurd (ground (arith, h.ends))
enqueue_behind j q (x ∷ xs) (some t) e h f = record {
  linked =
      subst (λ z. Linked (relinked q.next j z) q.queue_head (x ∷ (xs ++ j ∷ [])))
        (some-injective _ _ (sym h.ends ∙ e))
        (Linked-snoc q.next j xs x q.queue_head h.linked.0 h.linked.1 f h.distinct);
  ends = ap some (sym (last_snoc x j xs));
  distinct = Distinct-snoc j (x ∷ xs) f h.distinct;
}

-- While the server runs, a job that does not wait yet is put behind those that do.
pub enqueue-Queues :
    (j : ℕ) (q : JobQueue) (js : List ℕ)
    → q.stopping ≡ false
    → Fresh j js
    → Queues q js
    → Queues (enqueue j q) (js ++ j ∷ [])
unfolding enqueue
enqueue-Queues j q js e f h =
    if_cases (λ z. Queues z (js ++ j ∷ [])) q.stopping (λ p. absurd (ground arith))
      (λ p. enqueue_behind j q js q.queue_tail refl h f)

-- The last job is the tail until no job is left.
ends_after :
    (head : Option ℕ) (next : ℕ → Option ℕ) (j : ℕ) (tail : Option ℕ) (js : List ℕ)
    → Linked next head js
    → tail ≡ some (last_from j js)
    → (if is_some head then tail else none) ≡ last_of js
ends_after none next j tail [] l e = refl
ends_after (some i) next j tail [] l e = cc
ends_after none next j tail (y ∷ ys) l e = absurd (ground (arith, l.0))
ends_after (some i) next j tail (y ∷ ys) l e = e

take_behind :
    (j : ℕ) (q : JobQueue) (js : List ℕ) (head : Option ℕ)
    → head ≡ some j
    → Queues q (j ∷ js)
    → ((take_head head q).0 ≡ some j) × Queues (take_head head q).1 js
unfolding take_head
take_behind j q js none e h = cc
take_behind j q js (some i) e h = rw (some-injective _ _ e) (
  refl,
  record {
    linked = Linked-set q.next j none js (q.next j) h.distinct.0 h.linked.1;
    ends = ends_after (q.next j) q.next j q.queue_tail js h.linked.1 h.ends;
    distinct = h.distinct.1;
  },
)

-- From a queue in which jobs wait, the job that has waited longest is taken, and the others wait in
-- the same order.
pub try_dequeue-Queues :
    (j : ℕ) (q : JobQueue) (js : List ℕ)
    → Queues q (j ∷ js)
    → ((try_dequeue q).0 ≡ some j) × Queues (try_dequeue q).1 js
unfolding try_dequeue take_head
try_dequeue-Queues j q js h = take_behind j q js q.queue_head h.linked.0 h
