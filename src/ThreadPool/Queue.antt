-- ===== src/ThreadPool/Queue.antt =====
-- The linked queue of src/threadpool/thread_pool.cc as a list of tasks: posting appends, and a
-- thread takes from the front.
use shared_bike.Base.{
  ℕ, ◌+◌, ◌%◌, ◌^◌, ◌≡◌, refl, sym, ap, ◌∙◌, ◌&&◌, not, ==_iff, inl, inr, Bool-cases, ◌≢◌, Bool,
  true, false, Option, some, List, [], ◌∷◌, ◌++◌, ◌||◌, arith, ◌==◌, ok,
}
use shared_bike.Base.Int.{leb_ℤ, increment}
use shared_bike.ThreadPool.{
  Ptr, null, Task, Slot, first_slot, next_slot, Cells, write, Pool, PostAnswers, t_ok, t_error,
  deref, store_last, append_task, thread_cond_signal, thread_mutex_lock, thread_task_post, Status,
  take_task,
}

abbrev pub has : Ptr → List Ptr → Bool
has a [] = false
has a (x ∷ xs) = (a == x) || has a xs

-- From `p` the `next` pointers lead through the distinct tasks `xs` to NULL.
abbrev pub Chain : Cells → Ptr → List Ptr → Type 0
Chain c p [] = p ≡ null
Chain c p (x ∷ xs) =
    (p ≡ x) × (x ≢ null) × (has x xs ≡ false) × ((t : Task) × (c x ≡ some t) × Chain c t.next xs)

-- The slot that follows the tasks `xs`, which hang on the slot `s`.
abbrev pub end_slot : Slot → List Ptr → Slot
end_slot s [] = s
end_slot s (x ∷ xs) = end_slot (next_slot x) xs

-- The pool's queue holds the tasks `xs`, oldest first.
pub record IsQueue (p : Pool) (xs : List Ptr) : Type 0 where
  pub chain : Chain p.cells p.first xs
  pub end : p.last ≡ end_slot first_slot xs

-- A chain survives a write outside its tasks.
pub Chain-write :
    (c : Cells) (p : Ptr) (xs : List Ptr) (a : Ptr) (t : Option Task)
    → has a xs ≡ false
    → Chain c p xs
    → Chain (write c a t) p xs
unfolding write
Chain-write c p [] a t out h = h
Chain-write c p (x ∷ xs) a t out (e, ne, new, (u, holds, rest)) =
    (e, ne, new, (u, ground arith, Chain-write c u.next xs a t (ground arith) rest))

pub has-append : (a : Ptr) (xs ys : List Ptr) → has a (xs ++ ys) ≡ (has a xs || has a ys)
has-append a [] ys = refl
has-append a (x ∷ xs) ys = ground (arith, has-append a xs ys)

last_of : Ptr → List Ptr → Ptr
last_of x [] = x
last_of x (y ∷ ys) = last_of y ys

end_slot-last_of : (x : Ptr) (xs : List Ptr) → end_slot (next_slot x) xs ≡ next_slot (last_of x xs)
unfolding last_of
end_slot-last_of x [] = refl
end_slot-last_of x (y ∷ ys) = end_slot-last_of y ys

has-last_of : (x : Ptr) (xs : List Ptr) → has (last_of x xs) (x ∷ xs) ≡ true
unfolding last_of
has-last_of x [] = ground arith
has-last_of x (y ∷ ys) = ground (arith, has-last_of y ys)

end_slot-append : (s : Slot) (xs : List Ptr) (t : Ptr) → end_slot s (xs ++ t ∷ []) ≡ next_slot t
end_slot-append s [] t = refl
end_slot-append s (x ∷ xs) t = end_slot-append (next_slot x) xs t

-- A task that is allocated, ends a chain and stands in none of `xs`.
record IsFresh (c : Cells) (xs : List Ptr) (task : Ptr) (n : Task) : Type 0 where
  holds : c task ≡ some n
  final : n.next ≡ null
  valid : task ≢ null
  outside : has task xs ≡ false

-- `*last = task` on a queue that is not empty links `task` behind the last one.
Chain-link :
    (c : Cells) (p x : Ptr) (xs : List Ptr) (task : Ptr) (n : Task)
    → IsFresh c (x ∷ xs) task n
    → Chain c p (x ∷ xs)
    → (t : Task) × (c (last_of x xs) ≡ some t)
      × (last_of x xs ≢ null)
      × Chain (write c (last_of x xs) (some (record t { next = task }))) p ((x ∷ xs) ++ task ∷ [])
unfolding write last_of
Chain-link c p x [] task n f (e, ne, new, (u, holds, rest)) = (
  u,
  holds,
  ne,
  (
    e,
    ne,
    ground arith,
    (record u { next = task }, ground arith, (refl, f.valid, refl, (n, ground arith, f.final))),
  ),
)
Chain-link c p x (y ∷ ys) task n f (e, ne, new, (u, holds, rest)) =
    let (t, got, valid, linked) =
      Chain-link c u.next y ys task n
        (record {
          holds = f.holds;
          final = f.final;
          valid = f.valid;
          outside = ground (arith, f.outside);
        })
        rest in
    (
      t,
      got,
      valid,
      (
        e,
        ne,
        ground (arith, f.outside, has-append x (y ∷ ys) (task ∷ [])),
        (u, ground (arith, has-last_of y ys), linked),
      ),
    )

pub deref-ok : (c : Cells) (a : Ptr) (t : Task) → c a ≡ some t → a ≢ null → deref c a ≡ ok t
unfolding deref
deref-ok c a t h ne = ground arith

-- `r` is `p` but for the tasks `xs` and the ends of its queue.
record SameCounts (p r : Pool) (xs : List Ptr) : Type 0 where
  waiting : r.waiting ≡ p.waiting
  max_queue : r.max_queue ≡ p.max_queue
  threads : r.threads ≡ p.threads
  ids : r.thread_pool_task_id ≡ p.thread_pool_task_id
  others : (a : Ptr) → has a xs ≡ false → r.cells a ≡ p.cells a

store_last-Chain :
    (p : Pool) (xs : List Ptr) (task : Ptr) (n : Task)
    → IsQueue p xs
    → IsFresh p.cells xs task n
    → (r : Pool) × (store_last task p p.last ≡ ok r)
      × Chain r.cells r.first (xs ++ task ∷ [])
      × SameCounts p r xs
unfolding store_last
store_last-Chain p [] task n q f = (
  record p { first = task },
  ap (store_last task p) q.end,
  (refl, f.valid, refl, (n, f.holds, f.final)),
  record { waiting = refl; max_queue = refl; threads = refl; ids = refl; others = λ a out. refl },
)
store_last-Chain p (x ∷ xs) task n q f =
    let (t, got, valid, linked) = Chain-link p.cells p.first x xs task n f q.chain in
    (
      record p { cells = write p.cells (last_of x xs) (some (record t { next = task })) },
      ap (store_last task p) (q.end ∙ end_slot-last_of x xs)
          ∙ rw (deref-ok p.cells (last_of x xs) t got valid),
      linked,
      record {
        waiting = refl;
        max_queue = refl;
        threads = refl;
        ids = refl;
        others = λ a out. unfold write in ground (arith, has-last_of x xs);
      },
    )

-- A pool whose queue is `xs`, and a task that is allocated and not queued.
pub record CanPost (p : Pool) (xs : List Ptr) (task : Ptr) (t : Task) : Type 0 where
  pub queue : IsQueue p xs
  pub valid : task ≢ null
  pub holds : p.cells task ≡ some t
  pub outside : has task xs ≡ false

-- What a successful post leaves: the task at the end of the queue, the counters moved by one.
pub record Posted (p : Pool) (xs : List Ptr) (task : Ptr) (r : Pool) : Type 0 where
  pub queue : IsQueue r (xs ++ task ∷ [])
  pub waiting : r.waiting ≡ increment p.waiting
  pub max_queue : r.max_queue ≡ p.max_queue
  pub threads : r.threads ≡ p.threads
  pub ids : r.thread_pool_task_id ≡ (p.thread_pool_task_id + 1) % 2 ^ 64
  pub others : (a : Ptr) → has a xs ≡ false → a ≢ task → r.cells a ≡ p.cells a

append_task-Posted :
    (p : Pool) (xs : List Ptr) (task : Ptr) (t : Task)
    → CanPost p xs task t
    → (r : Pool) × (append_task 0 p task ≡ ok (t_ok, r)) × Posted p xs task r
unfolding append_task
append_task-Posted p xs task t c =
    let n = record t { id = p.thread_pool_task_id; next = null } in
    let q = record p {
      cells = write p.cells task (some n);
      thread_pool_task_id = (p.thread_pool_task_id + 1) % 2 ^ 64;
    } in
    let queue : IsQueue q xs = record {
      chain = Chain-write p.cells p.first xs task (some n) c.outside c.queue.chain;
      end = c.queue.end;
    } in
    let fresh : IsFresh q.cells xs task n = record {
      holds = unfold write in ground arith;
      final = refl;
      valid = c.valid;
      outside = c.outside;
    } in
    let (r, stored, chain, same) = store_last-Chain q xs task n queue fresh in
    (
      record r { last = next_slot task; waiting = increment r.waiting },
      rw (deref-ok p.cells task t c.holds c.valid, append_task, stored),
      record {
        queue = record { chain = chain; end = sym (end_slot-append first_slot xs task) };
        waiting = ap increment same.waiting;
        max_queue = same.max_queue;
        threads = same.threads;
        ids = same.ids;
        others = λ a out ne. same.others a out ∙ unfold write in ground arith;
      },
    )

-- What a failed post leaves: the same queue and counts, and no write but into the task itself.
pub record Unchanged (p : Pool) (xs : List Ptr) (task : Ptr) (r : Pool) : Type 0 where
  pub queue : IsQueue r xs
  pub waiting : r.waiting ≡ p.waiting
  pub max_queue : r.max_queue ≡ p.max_queue
  pub threads : r.threads ≡ p.threads
  pub others : (a : Ptr) → a ≢ task → r.cells a ≡ p.cells a

same_pool : (p : Pool) (xs : List Ptr) (task : Ptr) → IsQueue p xs → Unchanged p xs task p
same_pool p xs task q = record {
  queue = q;
  waiting = refl;
  max_queue = refl;
  threads = refl;
  others = λ a ne. refl;
}

marked_pool :
    (p : Pool) (xs : List Ptr) (task : Ptr) (n : Option Task) (ids : ℕ)
    → IsQueue p xs
    → has task xs ≡ false
    → Unchanged p xs task (record p { cells = write p.cells task n; thread_pool_task_id = ids })
unfolding write
marked_pool p xs task n ids q out = record {
  queue = record { chain = Chain-write p.cells p.first xs task n out q.chain; end = q.end };
  waiting = refl;
  max_queue = refl;
  threads = refl;
  others = λ a ne. ground arith;
}

-- The outcome of a post, by whether it was accepted.
abbrev pub PostResult : Bool → Pool → List Ptr → Ptr → Pool → Type 0
PostResult true p xs task r = Posted p xs task r
PostResult false p xs task r = Unchanged p xs task r

abbrev pub post_status : Bool → Status
post_status true = t_ok
post_status false = t_error

-- The lock is taken, the queue is below its limit, and the signal is sent.
abbrev pub accepts : PostAnswers → Pool → Bool
accepts a p = (a.lock == 0) && (not (leb_ℤ p.max_queue p.waiting) && (a.signal == 0))

append_task_failed :
    (signal : ℕ) (p : Pool) (xs : List Ptr) (task : Ptr) (t : Task)
    → CanPost p xs task t
    → (signal == 0) ≡ false
    → (r : Pool) × (append_task signal p task ≡ ok (t_error, r)) × Unchanged p xs task r
unfolding append_task thread_cond_signal
append_task_failed signal p xs task t c failed = (
  record p {
    cells = write p.cells task (some (record t { id = p.thread_pool_task_id; next = null }));
    thread_pool_task_id = (p.thread_pool_task_id + 1) % 2 ^ 64;
  },
  rw (deref-ok p.cells task t c.holds c.valid, append_task, failed),
  marked_pool p xs task _ _ c.queue c.outside,
)

-- `thread_task_post` on every branch, for a task that is allocated and not queued: it appends the
-- task to the queue and counts it exactly if the lock is taken, fewer than `max_queue` tasks are
-- counted and the signal is sent; otherwise it returns T_ERROR and leaves the queue and its count
-- as they were.
pub post_lem :
    (a : PostAnswers) (p : Pool) (xs : List Ptr) (task : Ptr) (t : Task)
    → CanPost p xs task t
    → (r : Pool) × (thread_task_post a p task ≡ ok (post_status (accepts a p), r))
      × PostResult (accepts a p) p xs task r
unfolding thread_task_post thread_mutex_lock
post_lem a p xs task t c = elim (Bool-cases (a.lock == 0)) [
  | inr failed ↦ rw (failed, thread_task_post) (p, refl, same_pool p xs task c.queue)
  | inl locked ↦
      rw (locked, thread_task_post)
        (elim (Bool-cases (leb_ℤ p.max_queue p.waiting)) [
          | inl full ↦ rw full (p, refl, same_pool p xs task c.queue)
          | inr room ↦ rw room (elim (Bool-cases (a.signal == 0)) [
            | inl sent ↦ rw ((==_iff a.signal 0).0 sent) (append_task-Posted p xs task t c)
            | inr lost ↦ rw lost (append_task_failed a.signal p xs task t c lost)
          ])
        ])
]

-- The dequeue of `thread_pool_cycle` takes the oldest task and leaves the others queued.
pub take_task_lem :
    (p : Pool) (x : Ptr) (xs : List Ptr)
    → IsQueue p (x ∷ xs)
    → (r : Pool) × (take_task p ≡ ok (x, r))
      × IsQueue r xs
      × (r.waiting ≡ p.waiting)
      × (r.max_queue ≡ p.max_queue)
      × (r.cells ≡ p.cells)
      × (has x xs ≡ false)
unfolding take_task
take_task_lem p x [] q =
    let (e, ne, new, (t, holds, rest)) = q.chain in
    (
      record p { first = t.next; last = first_slot },
      ground arith,
      record { chain = rest; end = refl },
      refl,
      refl,
      refl,
      new,
    )
take_task_lem p x (y ∷ ys) q =
    let (e, ne, new, (t, holds, rest)) = q.chain in
    let (e', ne', _, _) = rest in
    (
      record p { first = t.next },
      ground arith,
      record { chain = rest; end = q.end },
      refl,
      refl,
      refl,
      new,
    )
