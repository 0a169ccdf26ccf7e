-- ===== src/ThreadPool/Lifecycle.antt =====
-- `thread_pool_init` of src/threadpool/thread_pool.cc: the early returns, and the pool that the
-- threads start on.
use shared_bike.Base.{
  ℕ, zero, suc, ◌+◌, ◌≡◌, Bool, true, false, Option, none, some, ◌==◌, if◌then◌else◌, Outcome, ok,
  fault, null_deref, use_after_free, ◌>>=◌, refl, sym, ◌∙◌, ◌⊎◌, inl, inr, arith, Bool-cases,
  some_inj,
}
use shared_bike.Base.Int.{pos}
use shared_bike.ThreadPool.{
  Status, t_ok, t_error, MutexAnswers, thread_mutex_create, thread_cond_create, null, first_slot,
  Cells, Pool, default_threads_num, default_queue_num,
}

-- What the calls of `thread_pool_init` return; `create n` is that of the n-th `pthread_create`.
pub record InitAnswers : Type 0 where
  pub calloc : Bool
  pub mutex : MutexAnswers
  pub cond : ℕ
  pub attr_init : ℕ
  pub attr_detach : ℕ
  pub create : ℕ → ℕ

-- A pool fresh from `calloc`, on the heap `c`, with the static id counter at `ids`.
abbrev zeroed : Cells → ℕ → Pool
zeroed c ids = record {
  cells = c;
  first = null;
  last = first_slot;
  waiting = pos 0;
  threads = 0;
  max_queue = pos 0;
  thread_pool_task_id = ids;
}

unfoldable pub thread_pool_init_default : Option Pool → Status × Option Pool
thread_pool_init_default none = (t_error, none)
thread_pool_init_default (some p) =
    (t_ok, some (record p { threads = default_threads_num; max_queue = pos default_queue_num }))

-- `thread_pool_queue_init(&tp->queue)`
unfoldable pub thread_pool_queue_init : Option Pool → Outcome Pool
thread_pool_queue_init none = fault null_deref
thread_pool_queue_init (some p) = ok (record p { first = null; last = first_slot })

-- The loop of `pthread_create`: how many threads were started, and whether all were.
unfoldable pub create_threads : ℕ → ℕ → (ℕ → ℕ) → ℕ × Bool
create_threads zero n create = (n, true)
create_threads (suc left) n create =
    let rest = create_threads left (n + 1) create in if create n == 0 then rest else (n, false)

-- The pool that is returned, NULL as `none`, and the number of threads that were started on it.
pub record Started : Type 0 where
  pub pool : Option Pool
  pub threads : ℕ

abbrev failed : Started
failed = record { pool = none; threads = 0 }

-- After the loop. Where a later `pthread_create` fails, the pool is freed under the threads that were
-- started on it, and they go on to lock its mutex.
abbrev launched : Pool → ℕ × Bool → Outcome Started
launched p (n, true) = ok (record { pool = some p; threads = n })
launched p (zero, false) = ok failed
launched p (suc n, false) = fault use_after_free

unfoldable pub thread_pool_init : InitAnswers → Cells → ℕ → Outcome Started
unfolding thread_pool_init_default thread_pool_queue_init create_threads thread_mutex_create
    thread_cond_create
thread_pool_init a c ids = do
  let tp = if a.calloc then some (zeroed c ids) else none
  let (_, tp') = thread_pool_init_default tp
  p ← thread_pool_queue_init tp'
  elim (thread_mutex_create a.mutex) [
    | t_error ↦ ok failed
    | t_ok ↦ elim (thread_cond_create a.cond) [
      | t_error ↦ ok failed
      | t_ok ↦
          if a.attr_init == 0
          then (if a.attr_detach == 0
              then launched p (create_threads p.threads 0 a.create)
              else ok failed)
          else ok failed
    ]
  ]

-- The pool that `thread_pool_init` hands to its threads.
abbrev pub initial_pool : Cells → ℕ → Pool
initial_pool c ids = record (zeroed c ids) {
  threads = default_threads_num;
  max_queue = pos default_queue_num;
}

-- Without memory for the pool, `thread_pool_init` does not return NULL: it goes on to write
-- through the null pointer.
pub init-no_memory :
    (a : InitAnswers) (c : Cells) (ids : ℕ)
    → a.calloc ≡ false
    → thread_pool_init a c ids ≡ fault null_deref
unfolding thread_pool_init
init-no_memory a c ids e = rw e

-- The pool that is returned, if there is one, is the initial pool, and its four threads run.
abbrev pub IsInitial : Cells → ℕ → Started → Type 0
IsInitial c ids tp =
    (p : Pool) → tp.pool ≡ some p → (p ≡ initial_pool c ids) × (tp.threads ≡ default_threads_num)

abbrev pub InitEnds : Cells → ℕ → Outcome Started → Type 0
InitEnds c ids (ok tp) = IsInitial c ids tp
InitEnds c ids (fault x) = Unit {0}

create_threads-all :
    (left n : ℕ) (create : ℕ → ℕ)
    → (create_threads left n create).1 ≡ true
    → (create_threads left n create).0 ≡ n + left
unfolding create_threads
create_threads-all zero n create h = omega arith
create_threads-all (suc left) n create h = elim (Bool-cases (create n == 0)) [
  | inl started ↦
      rw (started, create_threads)
        (create_threads-all left (n + 1) create (rw (started, create_threads) at h) ∙ omega arith)
  | inr not_started ↦
      let clash : false ≡ true = rw (not_started, create_threads) at h in absurd (cc)
]

launched-IsInitial :
    (c : Cells) (ids : ℕ) (r : ℕ × Bool)
    → (r.1 ≡ true → r.0 ≡ default_threads_num)
    → InitEnds c ids (launched (initial_pool c ids) r)
launched-IsInitial c ids (n, true) all = λ p e. (sym (some_inj e), all refl)
launched-IsInitial c ids (zero, false) all = λ p e. absurd (cc)
launched-IsInitial c ids (suc n, false) all = tt

Status-cases : (s : Status) → (s ≡ t_ok) ⊎ (s ≡ t_error)
Status-cases t_ok = inl refl
Status-cases t_error = inr refl

pub thread_pool_init-InitEnds :
    (a : InitAnswers) (c : Cells) (ids : ℕ) → InitEnds c ids (thread_pool_init a c ids)
unfolding thread_pool_init thread_pool_init_default thread_pool_queue_init
thread_pool_init-InitEnds a c ids = elim (Bool-cases (a.calloc)) [
  | inr no_memory ↦ rw (no_memory, thread_pool_init) tt
  | inl memory ↦ elim (Status-cases (thread_mutex_create a.mutex)) [
    | inr e ↦ rw (memory, thread_pool_init, e) (λ p n. absurd (cc))
    | inl e ↦ elim (Status-cases (thread_cond_create a.cond)) [
      | inr e' ↦ rw (memory, thread_pool_init, e, e') (λ p n. absurd (cc))
      | inl e' ↦ elim (Bool-cases (a.attr_init == 0)) [
        | inr i ↦ rw (memory, thread_pool_init, e, e', i) (λ p n. absurd (cc))
        | inl i ↦ elim (Bool-cases (a.attr_detach == 0)) [
          | inr d ↦ rw (memory, thread_pool_init, e, e', i, d) (λ p n. absurd (cc))
          | inl d ↦
              rw (memory, thread_pool_init, e, e', i, d)
                (launched-IsInitial c ids (create_threads default_threads_num 0 a.create)
                  (create_threads-all default_threads_num 0 a.create))
        ]
      ]
    ]
  ]
]

-- `pthread_create` fails after it has started a thread.
abbrev pub FailsLate : InitAnswers → Type 0
FailsLate a = (n : ℕ) × (create_threads default_threads_num 0 a.create ≡ (suc n, false))

-- What `thread_pool_init` comes to, on a pool that there is memory for.
abbrev pub Fair : InitAnswers → Outcome Started → Type 0
Fair a (ok tp) = Unit {0}
Fair a (fault x) = (x ≡ use_after_free) × FailsLate a

launched-Fair :
    (a : InitAnswers) (p : Pool) (r : ℕ × Bool)
    → create_threads default_threads_num 0 a.create ≡ r
    → Fair a (launched p r)
launched-Fair a p (n, true) e = tt
launched-Fair a p (zero, false) e = tt
launched-Fair a p (suc n, false) e = (refl, (n, e))

pub thread_pool_init-Fair :
    (a : InitAnswers) (c : Cells) (ids : ℕ) → a.calloc ≡ true → Fair a (thread_pool_init a c ids)
unfolding thread_pool_init thread_pool_init_default thread_pool_queue_init
thread_pool_init-Fair a c ids memory = elim (Status-cases (thread_mutex_create a.mutex)) [
  | inr e ↦ rw (memory, thread_pool_init, e) tt
  | inl e ↦ elim (Status-cases (thread_cond_create a.cond)) [
    | inr e' ↦ rw (memory, thread_pool_init, e, e') tt
    | inl e' ↦ elim (Bool-cases (a.attr_init == 0)) [
      | inr i ↦ rw (memory, thread_pool_init, e, e', i) tt
      | inl i ↦ elim (Bool-cases (a.attr_detach == 0)) [
        | inr d ↦ rw (memory, thread_pool_init, e, e', i, d) tt
        | inl d ↦
            rw (memory, thread_pool_init, e, e', i, d)
              (launched-Fair a (initial_pool c ids) (create_threads default_threads_num 0 a.create)
                refl)
      ]
    ]
  ]
]
