-- ===== src/Assembled/Turns.antt =====
-- A step of a thread of src/threadpool/thread_pool.cc: what it does to the contexts that are queued or
-- run, where every task is one of `DispatchMsgService::svc`.
use shared_bike.Base.{
  ℕ, ◌+◌, ◌≤◌, ◌≡◌, refl, sym, ap, ◌∙◌, subst, ◌≢◌, inl, inr, true, some, List, arith, get_elem?,
  set, Bool-cases,
}
use shared_bike.ThreadPool.{
  Ptr, Cells, svc, Pool, Pc, looping, asleep, running, stopped, stopped_asleep,
}
use shared_bike.ThreadPool.Work.{work}
use shared_bike.ThreadPool.Queue.{has}
use shared_bike.ThreadPool.System.{System}
use shared_bike.ThreadPool.System.Turn.{Turn, HoldsTask}
use shared_bike.ThreadPool.System.Invariant.{Inv, get-set_cases}
use shared_bike.ThreadPool.System.Fifo.{contexts, ctx_at, ctx_of}
use shared_bike.ThreadPool.System.Fifo.Steps.{queued-some, Turn-contexts}
use shared_bike.Assembled.Contexts.{count, one, busy, busy_at, busy-set}

-- A task that calls `svc`.
abbrev pub IsSvc : Cells → Ptr → Type 0
IsSvc c t = (ctx : ℕ) × (work (c t) ≡ some (svc, ctx))

-- Every task that is queued or run calls `svc`.
pub record AllSvc (s : System) (xs : List Ptr) : Type 0 where
  pub queued : (t : Ptr) → has t xs ≡ true → IsSvc s.pool.cells t
  pub run : (i : ℕ) (t : Ptr) → get_elem? s.pcs i ≡ some (running t) → IsSvc s.pool.cells t

module _ {p r : Pool} {xs ys : List Ptr} {pc pc' : Pc} (turn : Turn p r xs ys pc pc') where
  -- The task that a thread starts on has the work it had in the queue.
  started-work : (t : Ptr) → pc' ≡ running t → work (r.cells t) ≡ work (p.cells t)
  started-work t e = elim (turn.works t) [
    | inr same ↦ same
    | inl gone ↦ let (_, _, (n, holds)) = subst (HoldsTask r ys) e turn.held in absurd (cc)
  ]

  kept-count : (n : ℕ) → count n (contexts p.cells ys) ≤ count n (contexts p.cells xs)
  kept-count n = elim (turn.moves) [
    | inl e ↦ let same = ap (λ zs. count n (contexts p.cells zs)) e in omega (arith, same)
    | inr (x, e) ↦ let same = ap (λ zs. count n (contexts p.cells zs)) e in omega (arith, same)
  ]

  started-count :
      (n : ℕ) (q : Pc)
      → pc' ≡ q
      → count n (contexts p.cells ys) + busy_at n r.cells q ≤ count n (contexts p.cells xs)
  started-count n looping e = omega (arith, kept-count n)
  started-count n asleep e = omega (arith, kept-count n)
  started-count n stopped e = omega (arith, kept-count n)
  started-count n stopped_asleep e = omega (arith, kept-count n)
  started-count n (running t) e =
      let own : one n (ctx_at r.cells t) ≡ one n (ctx_at p.cells t) =
        ap (λ w. one n (ctx_of w)) (started-work t e) in
      let took = ap (λ zs. count n (contexts p.cells zs)) (turn.starts t e) in
      omega (arith, own, took)

  -- What leaves the queue is what the thread starts on, if it does.
  pub Turn-count :
      (n : ℕ)
      → count n (contexts r.cells ys) + busy_at n r.cells pc' ≤ count n (contexts p.cells xs)
  Turn-count n =
      omega (arith, started-count n pc' refl, ap (count n) (Turn-contexts p r xs ys pc pc' turn))

  queued_before : (t : Ptr) → has t ys ≡ true → has t xs ≡ true
  queued_before t h = elim (Bool-cases (has t xs)) [
    | inl old ↦ old
    | inr new ↦ let gone = turn.shrinks t new in cc
  ]

  queued-work : (t : Ptr) → has t ys ≡ true → work (r.cells t) ≡ work (p.cells t)
  queued-work t h = elim (turn.works t) [
    | inr same ↦ same
    | inl gone ↦ absurd (queued-some r.cells r.first ys t turn.queue.chain h gone)
  ]

  IsSvc-frame : (t : Ptr) → work (r.cells t) ≡ work (p.cells t) → IsSvc p.cells t → IsSvc r.cells t
  IsSvc-frame t same (ctx, e) = (ctx, same ∙ e)

module _ {s : System} {xs ys : List Ptr} {pc pc' : Pc} {r : Pool} (inv : Inv s xs) (i : ℕ)
    (at : get_elem? s.pcs i ≡ some pc) (turn : Turn s.pool r xs ys pc pc') where
  -- The tasks that the other threads run stay as they are.
  others-work :
      (j t : ℕ)
      → j ≢ i
      → get_elem? s.pcs j ≡ some (running t)
      → work (r.cells t) ≡ work (s.pool.cells t)
  others-work j t ne here = ap work (turn.keeps t (λ e. ne (inv.apart j i t here (at ∙ ap some e))))

  pub Turn-busy :
      (n : ℕ)
      → busy n r.cells (set s.pcs i pc') + busy_at n s.pool.cells pc
        ≡ busy n s.pool.cells s.pcs + busy_at n r.cells pc'
  Turn-busy n = busy-set n s.pool.cells r.cells s.pcs i pc pc' at others-work

  pub Turn-AllSvc : AllSvc s xs → AllSvc (record { pool = r; pcs = set s.pcs i pc' }) ys
  Turn-AllSvc all = record {
    queued =
        λ t h. IsSvc-frame turn t (queued-work turn t h) (all.queued t (queued_before turn t h));
    run = λ j t h. elim (get-set_cases s.pcs i j pc' (running t) h) [
      | inl (_, e) ↦
          IsSvc-frame turn t (started-work turn t (sym e))
            (all.queued t (let first = ap (has t) (turn.starts t (sym e)) in ground arith))
      | inr (ne, old) ↦ IsSvc-frame turn t (others-work j t ne old) (all.run j t old)
    ];
  }
