-- ===== src/ThreadPool/Destroy/Release.antt =====
-- The wait of `thread_pool_destroy` in src/threadpool/thread_pool.cc comes to an end: a thread whose
-- pthread calls succeed runs the queue down to the caller's task.
use shared_bike.Base.{
  ℕ, zero, suc, ◌*◌, ◌≤◌, ◌≡◌, refl, sym, ap, ◌∙◌, subst, ◌≢◌, ◌⊎◌, inl, inr, Bool, true, false,
  Option, some, none, some_inj, List, [], ◌∷◌, ◌==◌, arith, length, replicate, get_elem?, set, ok,
  if◌then◌else◌,
}
use shared_bike.Base.Int.{decrement}
use shared_bike.ThreadPool.{
  Cells, Ptr, null, Task, Handler, svc, thread_pool_exit_handler, Pool, Pc, looping, asleep,
  running, stopped, stopped_asleep, CycleAnswers, write, thread_mutex_lock, thread_mutex_unlock,
  thread_cond_wait, thread_task_free, pick_task, finish_task, thread_pool_cycle,
}
use shared_bike.ThreadPool.Queue.{has, IsQueue, take_task_lem, deref-ok, Chain-write}
use shared_bike.ThreadPool.System.{System, step}
use shared_bike.ThreadPool.Destroy.{
  spinning, Closing, is_exit, runs_exit, exits_at, is_freed, thread_step, Move, thread, move, moves,
}
use shared_bike.ThreadPool.Destroy.Invariant.{ClosingInv}
use shared_bike.ThreadPool.Destroy.Moves.{thread_step-Inv, cycle-exits}

-- Every call succeeds.
abbrev pub good : CycleAnswers
good = record { lock = 0; wait = 0; unlock = 0 }

-- A thread that goes on to the queue.
abbrev pub IsIdle : Option Pc → Type 0
IsIdle o = (o ≡ some looping) ⊎ (o ≡ some asleep)

get-set_own :
    (pcs : List Pc) (i : ℕ) (pc v : Pc)
    → get_elem? pcs i ≡ some pc
    → get_elem? (set pcs i v) i ≡ some v
get-set_own [] i pc v h = cc
get-set_own (x ∷ pcs) zero pc v h = refl
get-set_own (x ∷ pcs) (suc i) pc v h = get-set_own pcs i pc v h

-- An idle thread takes the oldest task.
pick_good :
    (p : Pool) (x : Ptr) (xs : List Ptr)
    → IsQueue p (x ∷ xs)
    → (r : Pool) × (pick_task good p ≡ ok (running x, r)) × IsQueue r xs × (r.cells ≡ p.cells)
unfolding pick_task thread_mutex_unlock
pick_good p x xs q =
    let (r, taken, rq, _, _, c, _) = take_task_lem p x xs q in
    let (e, ne, _, _) = q.chain in
    let some_first : (p.first == null) ≡ false = ground arith in
    (r, rw (some_first, pick_task, taken) refl, rq, c)

cycle_good :
    (pc : Pc) (p : Pool) (x : Ptr) (xs : List Ptr)
    → IsIdle (some pc)
    → IsQueue p (x ∷ xs)
    → (r : Pool) × (thread_pool_cycle good pc p ≡ ok (running x, r))
      × IsQueue r xs
      × (r.cells ≡ p.cells)
unfolding thread_pool_cycle thread_mutex_lock thread_cond_wait
cycle_good pc p x xs (inl e) q =
    let (r, picked, rq, c) =
      pick_good (record p { waiting = decrement p.waiting }) x xs
        (record { chain = q.chain; end = q.end }) in
    (r, ap (λ z. thread_pool_cycle good z p) (some_inj e) ∙ picked, rq, c)
cycle_good pc p x xs (inr e) q =
    let (r, picked, rq, c) = pick_good p x xs q in
    (r, ap (λ z. thread_pool_cycle good z p) (some_inj e) ∙ picked, rq, c)

-- A thread that runs a task of `svc` comes back to the queue.
cycle_svc :
    (p : Pool) (x : Ptr) (xs : List Ptr) (n : Task)
    → IsQueue p xs
    → x ≢ null
    → has x xs ≡ false
    → p.cells x ≡ some n
    → n.handler ≡ svc
    → (r : Pool) × (thread_pool_cycle good (running x) p ≡ ok (looping, r)) × IsQueue r xs
unfolding thread_pool_cycle finish_task thread_task_free
cycle_svc p x xs n q ne out holds kind =
    let none_null : (x == null) ≡ false = ground arith in
    (
      record p { cells = write (write p.cells x (some (record n { next = null }))) x none },
      rw (deref-ok p.cells x n holds ne, thread_pool_cycle)
          (ap (λ h. finish_task h x p) kind ∙ rw (deref-ok p.cells x n holds ne, none_null) refl),
      record {
        chain =
            Chain-write _ p.first xs x none out (Chain-write p.cells p.first xs x _ out q.chain);
        end = q.end;
      },
    )

module _ {gone : ℕ} {c : Closing} {zs : List Ptr} (k : ClosingInv gone c zs) where
  -- One step of thread `i` whose effect is known.
  stepped :
      (i : ℕ) (pc pc' : Pc) (r : Pool) (lock : ℕ)
      → get_elem? c.system.pcs i ≡ some pc
      → thread_pool_cycle good pc c.system.pool ≡ ok (pc', r)
      → (if exits_at c.system (some pc) then 0 else c.lock) ≡ lock
      → let c' = record c {
        system = record { pool = r; pcs = set c.system.pcs i pc' };
        lock = lock;
      } in
        (thread_step i good c ≡ ok c') × ((ys : List Ptr) × ClosingInv gone c' ys)
  unfolding thread_step step
  stepped i pc pc' r lock at e l =
      let c' : Closing = record c {
        system = record { pool = r; pcs = set c.system.pcs i pc' };
        lock = lock;
      } in
      let (d, ys, e', inv) = thread_step-Inv k i good in
      let own : thread_step i good c ≡ ok c' = rw (at, thread_step, step, e, l) refl in
      let same : d ≡ c' = ok_inj d c' (sym e' ∙ own) in
      (own, (ys, subst (λ b. ClosingInv gone b ys) same inv))
    where
      ok_inj : (a b : Closing) → ok a ≡ ok b → a ≡ b
      ok_inj a b h = cc

abbrev pub Released : ℕ → Closing → ℕ → Type 0
Released i c n =
    (c' : Closing) × (moves (replicate n (thread i good)) c ≡ ok c')
    × (c'.lock ≡ 0)
    × (c'.at ≡ c.at)
    × (c'.n ≡ c.n)

runs_exit_cases :
    (o : Option Task) (n : Task)
    → o ≡ some n
    → (runs_exit o ≡ true) ⊎ ((runs_exit o ≡ false) × (n.handler ≡ svc))
runs_exit_cases o n e = handler_cases n.handler (ap runs_exit e)
  where
    handler_cases :
        (h : Handler)
        → runs_exit o ≡ is_exit h
        → (runs_exit o ≡ true) ⊎ ((runs_exit o ≡ false) × (h ≡ svc))
    handler_cases svc r = inr (r, refl)
    handler_cases thread_pool_exit_handler r = inl r

-- One move of a thread while the pool is there.
move_thread :
    (i : ℕ) (c c' : Closing)
    → c.at ≡ spinning
    → thread_step i good c ≡ ok c'
    → move (thread i good) c ≡ ok c'
unfolding move
move_thread i c c' at e = let before : is_freed c.at ≡ false = ap is_freed at in rw (before, move) e

two_moves :
    (m : Move) (n : ℕ) (c d e f : Closing)
    → move m c ≡ ok d
    → move m d ≡ ok e
    → moves (replicate n m) e ≡ ok f
    → moves (replicate (suc (suc n)) m) c ≡ ok f
unfolding moves
two_moves m n c d e f a b rest = rw (a, moves, b) rest

idle_stays :
    (s : System) (pc : Pc) (lock : ℕ)
    → IsIdle (some pc)
    → (if exits_at s (some pc) then 0 else lock) ≡ lock
idle_stays s looping lock idle = refl
idle_stays s asleep lock idle = refl
idle_stays s (running t) lock (inl e) = cc
idle_stays s (running t) lock (inr e) = cc
idle_stays s stopped lock idle = refl
idle_stays s stopped_asleep lock idle = refl

pub release :
    (xs : List Ptr) {gone : ℕ} (c : Closing) (zs : List Ptr) (i : ℕ) (pc : Pc)
    → ClosingInv gone c zs
    → c.at ≡ spinning
    → IsQueue c.system.pool xs
    → has c.task xs ≡ true
    → get_elem? c.system.pcs i ≡ some pc
    → IsIdle (some pc)
    → (n : ℕ) × (n ≤ 2 * length xs) × Released i c n
release [] c zs i pc k at q queued here idle = cc
release (x ∷ xs) {gone} c zs i pc k at q queued here idle =
    let (r, took, rq, same) = cycle_good pc c.system.pool x xs idle q in
    let (_, ne, out, (t, holds, _)) = q.chain in
    let holds' : r.cells x ≡ some t = ap (λ (f : Cells). f x) same ∙ holds in
    let (e1, (ys, k1)) =
      stepped k i pc (running x) r c.lock here took (idle_stays c.system pc c.lock idle) in
    let c1 : Closing = record c {
      system = record { pool = r; pcs = set c.system.pcs i (running x) };
    } in
    let m1 = move_thread i c c1 at e1 in
    let here1 = get-set_own c.system.pcs i pc (running x) here in
    elim (runs_exit_cases (r.cells x) t holds') [
      | inl ends ↦
          let own : running c.task ≡ running x = ap running (sym (k1.only x ends)) in
          let gone_now = ap (λ z. thread_pool_cycle good z r) (sym own) ∙ cycle-exits k1 good in
          let (e2, _) =
            stepped k1 i (running x) stopped r 0 here1 gone_now
              (ap (λ (b : Bool). if b then 0 else c.lock) ends) in
          let c2 : Closing = record c1 {
            system = record { pool = r; pcs = set c1.system.pcs i stopped };
            lock = 0;
          } in
          (
            2,
            omega arith,
            (
              c2,
              two_moves (thread i good) 0 c c1 c2 c2 m1 (move_thread i c1 c2 at e2)
                  (unfold moves in refl),
              refl,
              refl,
              refl,
            ),
          )
      | inr (stays, kind) ↦
          let (r2, ran, rq2) = cycle_svc r x xs t rq ne out holds' kind in
          let (e2, (ws, k2)) =
            stepped k1 i (running x) looping r2 c.lock here1 ran
              (ap (λ (b : Bool). if b then 0 else c.lock) stays) in
          let c2 : Closing = record c1 {
            system = record { pool = r2; pcs = set c1.system.pcs i looping };
          } in
          let other : c.task ≢ x = λ e.
            let clash : true ≡ false = sym k1.own ∙ (ap (λ a. runs_exit (r.cells a)) e ∙ stays) in
            cc in
          let (n, le, (c3, ran3, free, at3, n3)) =
            release xs c2 ws i looping k2 at rq2 (ground (arith, queued, other))
              (get-set_own c1.system.pcs i (running x) looping here1) (inl refl) in
          (
            suc (suc n),
            omega (arith, le),
            (
              c3,
              two_moves (thread i good) n c c1 c2 c3 m1 (move_thread i c1 c2 at e2) ran3,
              free,
              at3,
              n3,
            ),
          )
    ]
