-- ===== src/ThreadPool/Destroy/Progress.antt =====
-- `thread_pool_destroy` of src/threadpool/thread_pool.cc goes on.
use shared_bike.Base.{
  ℕ, ◌+◌, ◌*◌, ◌≤◌, ◌≡◌, refl, sym, ap, ◌∙◌, subst, ◌≢◌, true, false, some, none, List, [], ◌∷◌,
  ◌++◌, ◌==◌, arith, length, replicate, get_elem?, Outcome-cases, ok, inl, inr,
}
use shared_bike.ThreadPool.{Ptr, null, Cells, Pc, PostAnswers}
use shared_bike.ThreadPool.Queue.{has, IsQueue}
use shared_bike.ThreadPool.System.{System}
use shared_bike.ThreadPool.System.Safety.{Reach, initial_system}
use shared_bike.ThreadPool.Destroy.{
  posting, spinning, Closing, runs_exit, thread_pool_destroy, destroy_step, Move, caller, thread,
  move, moves,
}
use shared_bike.ThreadPool.Destroy.Keeps.{total_halted}
use shared_bike.ThreadPool.Destroy.Invariant.{ClosingInv}
use shared_bike.ThreadPool.Destroy.Start.{Reach-IsReady, destroy-start}
use shared_bike.ThreadPool.Destroy.Release.{good, IsIdle, release}
use shared_bike.ThreadPool.Destroy.Safety.{moves-Inv, ok_inj}

moves-append :
    (ms ns : List Move) (c d : Closing) → moves ms c ≡ ok d → moves (ms ++ ns) c ≡ moves ns d
unfolding moves
moves-append [] ns c d e = ap (moves ns) (ok_inj c d e)
moves-append (m ∷ ms) ns c d e = elim (Outcome-cases (move m c)) [
  | inl (b, a) ↦ rw a (moves-append ms ns b d (rw a at e))
  | inr (x, a) ↦ absurd (ground (arith, e, a))
]

-- The caller counts a task that was run.
counts :
    (a : PostAnswers) (c : Closing)
    → c.at ≡ spinning
    → c.lock ≡ 0
    → moves (caller a ∷ []) c ≡ ok (record c { n = c.n + 1; at = posting })
unfolding moves move destroy_step
counts a c at free =
    let over : (c.lock == 0) ≡ true = ground (arith, free) in
    let d : Closing = record c { n = c.n + 1; at = posting } in
    let counted : destroy_step a spinning c ≡ ok d = rw (over, destroy_step) refl in
    let moved : move (caller a) c ≡ ok d = ap (λ z. destroy_step a z c) at ∙ counted in
    rw (moves, moved) refl

-- While `thread_pool_destroy`, called on a started pool after any use, waits with its task in the
-- queue, any thread that is idle and whose pthread calls succeed ends the wait: after at most two
-- steps of that thread for each queued task, the caller counts the task and goes on to the next.
pub destroy-goes_on :
    {c : Cells} {ids : ℕ} {s : System}
    → ((a : Ptr) → runs_exit (c a) ≡ false)
    → Reach (initial_system c ids) s
    → (task : Ptr) (lock_at unset : ℕ) → task ≢ null
    → s.pool.cells task ≡ none
    → (ms : List Move) (d : Closing) → moves ms (thread_pool_destroy task lock_at unset s) ≡ ok d
    → d.at ≡ spinning
    → (xs : List Ptr) → IsQueue d.system.pool xs
    → has d.task xs ≡ true
    → (i : ℕ) (pc : Pc) → get_elem? d.system.pcs i ≡ some pc
    → IsIdle (some pc)
    → (a : PostAnswers)
    → (n : ℕ) × (e : Closing) × (n ≤ 2 * length xs)
      × (moves (replicate n (thread i good) ++ caller a ∷ []) d ≡ ok e)
      × (e.at ≡ posting)
      × (e.n ≡ d.n + 1)
destroy-goes_on {s = s} clean r task lock_at unset ne new ms d run at xs q queued i pc here idle a =
    let (zs, inv, ready) = Reach-IsReady clean r in
    let (d', ys, ran, k) =
      moves-Inv ms (thread_pool_destroy task lock_at unset s) zs
        (destroy-start s zs task lock_at unset ne new inv ready) in
    let same : d' ≡ d = ok_inj d' d (sym ran ∙ run) in
    let (n, le, (e, released, free, at', n')) =
      release xs d ys i pc (subst (λ b. ClosingInv (total_halted s.pcs) b ys) same k) at q queued
        here idle in
    (
      n,
      record e { n = e.n + 1; at = posting },
      le,
      moves-append (replicate n (thread i good)) (caller a ∷ []) d e released
          ∙ counts a e (at' ∙ at) free,
      refl,
      ap (λ (m : ℕ). m + 1) n',
    )
