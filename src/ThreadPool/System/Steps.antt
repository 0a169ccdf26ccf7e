-- ===== src/ThreadPool/System/Steps.antt =====
-- Every action of src/threadpool/'s callers and threads keeps the invariant of the pool.
use shared_bike.Base.{
  ℕ, ◌+◌, ◌≤◌, ◌≡◌, refl, sym, ◌∙◌, ap, ap₂, subst, ◌≢◌, inl, inr, Bool, true, false, none, some,
  List, [], ◌∷◌, ◌++◌, Option-cases, arith, ◌==◌, ok, length-append, get_elem?, set,
}
use shared_bike.Base.Int.{ℤ, pos_part, neg_part, increment, increment_parts, leb_ℤ}
use shared_bike.ThreadPool.{
  Ptr, null, Task, Pool, PostAnswers, running, svc, write, thread_task_alloc, thread_task_post,
}
use shared_bike.ThreadPool.Queue.{
  post_status, has, has-append, CanPost, PostResult, accepts, post_lem, deref-ok, Chain-write,
}
use shared_bike.ThreadPool.System.{enqueue, System, Action, enqueues, turns, fill_task, step}
use shared_bike.ThreadPool.System.Turn.{thread_pool_cycle-Turn}
use shared_bike.ThreadPool.System.Invariant.{Inv, allocated, HoldsTask-frame, Turn-Inv}

-- `calloc` returns memory, and none that is in use.
abbrev pub Enabled : Action → System → Type 0
Enabled (enqueues fresh ctx a) s = (fresh ≢ null) × (s.pool.cells fresh ≡ none)
Enabled (turns i a) s = Unit {0}

abbrev pub Steps : Action → System → Type 0
Steps act s = (t : System) × (ys : List Ptr) × (step act s ≡ ok t) × Inv t ys

below_limit :
    (m w : ℤ)
    → leb_ℤ m w ≡ false
    → pos_part (increment w) + neg_part m ≤ pos_part m + neg_part (increment w)
below_limit m w h = ground (arith, increment_parts w)

-- A running task is not the cell that `calloc` returns.
pub running-ne :
    {s : System} {xs : List Ptr} (inv : Inv s xs) (fresh : Ptr)
    → s.pool.cells fresh ≡ none
    → (i : ℕ) (t : Ptr) → get_elem? s.pcs i ≡ some (running t)
    → t ≢ fresh
running-ne {s} inv fresh new i t at e =
    let (_, _, (n, holds)) = inv.holding i (running t) at in
    let holds' = subst (λ a. s.pool.cells a ≡ some n) e holds in cc

-- The queue after a post that was accepted or not.
abbrev pub queue_after : Bool → List Ptr → Ptr → List Ptr
queue_after true xs fresh = xs ++ fresh ∷ []
queue_after false xs fresh = xs

-- Only the cell of the new task was written, and the queue is `xs` or `xs` with the task.
pub enqueue-Inv :
    (b : Bool) (s : System) (xs : List Ptr) (p r : Pool) (fresh : Ptr)
    → Inv s xs
    → ((i : ℕ) (t : Ptr) → get_elem? s.pcs i ≡ some (running t) → t ≢ fresh)
    → p.waiting ≡ s.pool.waiting
    → p.max_queue ≡ s.pool.max_queue
    → ((t : Ptr) → t ≢ fresh → p.cells t ≡ s.pool.cells t)
    → (b ≡ true → leb_ℤ p.max_queue p.waiting ≡ false)
    → PostResult b p xs fresh r
    → Inv (record s { pool = r }) (queue_after b xs fresh)
enqueue-Inv true s xs p r fresh inv new w m same room posted = record {
  queue = posted.queue;
  counted =
      rw (posted.waiting ∙ ap increment w)
        (omega (arith, inv.counted, increment_parts s.pool.waiting, length-append xs (fresh ∷ [])));
  limited =
      rw (posted.waiting ∙ ap increment w, posted.max_queue ∙ m)
        (below_limit s.pool.max_queue s.pool.waiting (ap₂ leb_ℤ (sym m) (sym w) ∙ room refl));
  capacity = posted.max_queue ∙ (m ∙ inv.capacity);
  crew = inv.crew;
  holding = λ i pc at.
      HoldsTask-frame s.pool r xs (xs ++ fresh ∷ []) pc (inv.holding i pc at) λ t e out.
        let ne : t ≢ fresh = new i t (at ∙ ap some e) in
        (ground (arith, has-append t xs (fresh ∷ [])), posted.others t out ne ∙ same t ne);
  apart = inv.apart;
}
enqueue-Inv false s xs p r fresh inv new w m same room kept = record {
  queue = kept.queue;
  counted = rw (kept.waiting ∙ w) inv.counted;
  limited = rw (kept.waiting ∙ w, kept.max_queue ∙ m) inv.limited;
  capacity = kept.max_queue ∙ (m ∙ inv.capacity);
  crew = inv.crew;
  holding = λ i pc at. HoldsTask-frame s.pool r xs xs pc (inv.holding i pc at) λ t e out.
      let ne : t ≢ fresh = new i t (at ∙ ap some e) in (out, kept.others t ne ∙ same t ne);
  apart = inv.apart;
}

pub accepts_room :
    (a : PostAnswers) (p : Pool) → accepts a p ≡ true → leb_ℤ p.max_queue p.waiting ≡ false
accepts_room a p h = ground arith

abbrev pub blank : Ptr → Task
blank fresh = record { next = null; id = 0; ctx = fresh + 0; handler = svc }

-- The pool once `DispatchMsgService::enqueue` has filled in its task.
abbrev pub filled : Ptr → ℕ → Pool → Pool
filled fresh ctx p = record p {
  cells =
      write (write p.cells fresh (some (blank fresh))) fresh
        (some (record (blank fresh) { ctx = ctx }));
}

alloc-ok :
    (fresh : ℕ) (p : Pool)
    → fresh ≢ null
    → thread_task_alloc fresh 0 p
      ≡ (fresh, record p { cells = write p.cells fresh (some (blank fresh)) })
unfolding thread_task_alloc
alloc-ok fresh p ne = let here : (fresh == null) ≡ false = ground arith in rw here

pub enqueue-filled :
    (fresh ctx : ℕ) (a : PostAnswers) (p : Pool)
    → fresh ≢ null
    → enqueue fresh a (some ctx) p ≡ thread_task_post a (filled fresh ctx p) fresh
unfolding enqueue fill_task
enqueue-filled fresh ctx a p ne =
    let cell : write p.cells fresh (some (blank fresh)) fresh ≡ some (blank fresh) =
      unfold write in ground arith in
    rw (alloc-ok fresh p ne, fill_task, deref-ok _ fresh (blank fresh) cell ne)

-- An enqueue of the network thread, by whether its task is accepted.
pub enqueue_lem :
    (fresh ctx : ℕ) (a : PostAnswers) (s : System) (xs : List Ptr)
    → fresh ≢ null
    → s.pool.cells fresh ≡ none
    → Inv s xs
    → (r : Pool) × (thread_task_post a (filled fresh ctx s.pool) fresh
        ≡ ok (post_status (accepts a s.pool), r))
      × Inv (record s { pool = r }) (queue_after (accepts a s.pool) xs fresh)
enqueue_lem fresh ctx a s xs ne new inv =
    let p : Pool = filled fresh ctx s.pool in
    let out : has fresh xs ≡ false =
      allocated s.pool.cells s.pool.first xs fresh inv.queue.chain new in
    let can : CanPost p xs fresh (record (blank fresh) { ctx = ctx }) = record {
      queue = record {
        chain =
            Chain-write _ s.pool.first xs fresh _ out
              (Chain-write s.pool.cells s.pool.first xs fresh _ out inv.queue.chain);
        end = inv.queue.end;
      };
      valid = ne;
      holds = unfold write in ground arith;
      outside = out;
    } in
    let (r, posted, result) = post_lem a p xs fresh _ can in
    (
      r,
      posted,
      enqueue-Inv (accepts a p) s xs p r fresh inv (running-ne inv fresh new) refl refl
          (λ t ne'. unfold write in ground arith) (accepts_room a p) result,
    )

-- An enabled action runs without a fault and keeps the invariant.
pub step-Inv : (act : Action) (s : System) (xs : List Ptr) → Enabled act s → Inv s xs → Steps act s
unfolding step
step-Inv (enqueues fresh ctx a) s xs (ne, new) inv =
    let (r, posted, inv') = enqueue_lem fresh ctx a s xs ne new inv in
    (
      record s { pool = r },
      queue_after (accepts a s.pool) xs fresh,
      rw (enqueue-filled fresh ctx a s.pool ne, posted),
      inv',
    )
step-Inv (turns i a) s xs h inv = elim (Option-cases (get_elem? s.pcs i)) [
  | inl missing ↦ (s, xs, rw (missing, step), inv)
  | inr (pc, at) ↦
      let (pc', r, ys, e, turn) =
        thread_pool_cycle-Turn a s.pool xs pc inv.queue (inv.holding i pc at) in
      (
        record { pool = r; pcs = set s.pcs i pc' },
        ys,
        rw (at, step, e),
        Turn-Inv inv i pc pc' r ys at turn,
      )
]
