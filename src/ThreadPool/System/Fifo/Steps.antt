-- ===== src/ThreadPool/System/Fifo/Steps.antt =====
-- Each step of src/threadpool/thread_pool.cc's callers and threads is one of the queue's.
use shared_bike.Base.{
  ℕ, ◌≡◌, refl, sym, ap, ◌∙◌, subst, ◌≢◌, inl, inr, Bool, true, false, Option-cases, none, some,
  List, [], ◌∷◌, ◌++◌, arith, ◌==◌, ==_refl, get_elem?, set, ok,
}
use shared_bike.ThreadPool.{Ptr, null, Cells, svc, Pool, Pc, write}
use shared_bike.ThreadPool.Work.{work, SameWork, thread_task_post-SameWork}
use shared_bike.ThreadPool.Queue.{has, Chain, IsQueue, accepts, post_status}
use shared_bike.ThreadPool.System.{System, Action, enqueues, turns, step}
use shared_bike.ThreadPool.System.Turn.{Turn, thread_pool_cycle-Turn}
use shared_bike.ThreadPool.System.Invariant.{Inv, allocated, Turn-Inv}
use shared_bike.ThreadPool.System.Steps.{Enabled, filled, queue_after, enqueue-filled, enqueue_lem}
use shared_bike.ThreadPool.System.Fifo.{
  taken, fifo, ctx_at, ctx_of, contexts, seen_post, seen_turn, seen,
}

pub contexts-frame :
    (c d : Cells) (xs : List Ptr)
    → ((a : Ptr) → has a xs ≡ true → work (d a) ≡ work (c a))
    → contexts d xs ≡ contexts c xs
contexts-frame c d [] same = refl
contexts-frame c d (x ∷ xs) same =
    λ k. ctx_of (same x (ground arith) k) ∷ contexts-frame c d xs (λ a h. same a (ground arith)) k

pub contexts-append :
    (c : Cells) (xs ys : List Ptr) → contexts c (xs ++ ys) ≡ contexts c xs ++ contexts c ys
contexts-append c [] ys = refl
contexts-append c (x ∷ xs) ys = rw (contexts-append c xs ys)

-- A task of a queue is allocated.
pub queued-some :
    (c : Cells) (p : Ptr) (xs : List Ptr) (a : Ptr) → Chain c p xs → has a xs ≡ true → c a ≢ none
queued-some c p xs a chain h e =
    let out = allocated c p xs a chain e in let clash : true ≡ false = sym h ∙ out in cc

-- A step does what the specification says, and reaches a state of which the invariant holds again.
abbrev pub Follows : Action → System → List Ptr → Type 0
Follows act s xs =
    (t : System) × (ys : List Ptr) × (step act s ≡ ok t)
    × Inv t ys
    × (fifo (seen act s) (contexts s.pool.cells xs) ≡ some (contexts t.pool.cells ys))

pub filled-work :
    (fresh ctx : ℕ) (p : Pool) → work ((filled fresh ctx p).cells fresh) ≡ some (svc, ctx)
unfolding write
filled-work fresh ctx p = ground arith

pub filled-others :
    (fresh ctx : ℕ) (p : Pool) (a : Ptr) → a ≢ fresh → (filled fresh ctx p).cells a ≡ p.cells a
unfolding write
filled-others fresh ctx p a ne = ground arith

pub has-ne : (a b : Ptr) (xs : List Ptr) → has a xs ≡ true → has b xs ≡ false → a ≢ b
has-ne a b xs h k e = let clash : true ≡ false = sym h ∙ (ap (λ (z : Ptr). has z xs) e ∙ k) in cc

pub fifo_post :
    (b : Bool) (s : System) (xs : List Ptr) (fresh ctx : ℕ) (r : Pool)
    → has fresh xs ≡ false
    → SameWork (filled fresh ctx s.pool).cells r.cells
    → fifo (seen_post ctx (ok (post_status b, r))) (contexts s.pool.cells xs)
      ≡ some (contexts r.cells (queue_after b xs fresh))
unfolding fifo
fifo_post b s xs fresh ctx r out same =
    let old : contexts r.cells xs ≡ contexts s.pool.cells xs =
      contexts-frame s.pool.cells r.cells xs
        (λ a h. same a ∙ ap work (filled-others fresh ctx s.pool a (has-ne a fresh xs h out))) in
    let own : ctx_at r.cells fresh ≡ ctx = ap ctx_of (same fresh ∙ filled-work fresh ctx s.pool) in
    fifo_cases b old own
  where
    fifo_cases :
        (b : Bool)
        → contexts r.cells xs ≡ contexts s.pool.cells xs
        → ctx_at r.cells fresh ≡ ctx
        → fifo (seen_post ctx (ok (post_status b, r))) (contexts s.pool.cells xs)
          ≡ some (contexts r.cells (queue_after b xs fresh))
    fifo_cases false old own = ap some (sym old)
    fifo_cases true old own =
        ap some (sym (contexts-append r.cells xs (fresh ∷ []) ∙ (λ k. old k ++ own k ∷ [])))

abbrev head_of : List Ptr → Ptr
head_of [] = null
head_of (x ∷ xs) = x

Chain-head : (c : Cells) (p : Ptr) (xs : List Ptr) → Chain c p xs → p ≡ head_of xs
Chain-head c p [] e = e
Chain-head c p (x ∷ xs) (e, _, _, _) = e

head-ne : (x : Ptr) (ys : List Ptr) → x ≢ null → has x ys ≡ false → head_of ys ≢ x
head-ne x [] ne out e = ne (sym e)
head-ne x (y ∷ ys) ne out e = ground (arith, out, e)

pub Turn-contexts :
    (p r : Pool) (xs ys : List Ptr) (pc pc' : Pc)
    → Turn p r xs ys pc pc'
    → contexts r.cells ys ≡ contexts p.cells ys
Turn-contexts p r xs ys pc pc' turn = contexts-frame p.cells r.cells ys (λ a h.
    elim (turn.works a) [
      | inl gone ↦ absurd (queued-some r.cells r.first ys a turn.queue.chain h gone)
      | inr same ↦ same
    ])

fifo-Turn :
    (p r : Pool) (xs ys : List Ptr) (pc pc' : Pc)
    → IsQueue p xs
    → Turn p r xs ys pc pc'
    → fifo (seen_turn p (ok (pc', r))) (contexts p.cells xs) ≡ some (contexts r.cells ys)
unfolding fifo
fifo-Turn p r xs ys pc pc' q turn =
    let now = Chain-head p.cells p.first xs q.chain in
    let after = Chain-head r.cells r.first ys turn.queue.chain in
    let kept = Turn-contexts p r xs ys pc pc' turn in
    elim (turn.moves) [
      | inl e ↦
          let still : (r.first == p.first) ≡ true = ground (arith, now, after, ap head_of e) in
          rw still (ap some (ap (contexts p.cells) e ∙ sym kept))
      | inr (x, e) ↦
          let (_, ne, out, _) = subst (Chain p.cells p.first) e q.chain in
          let first : p.first ≡ x = now ∙ ap head_of e in
          let moved : (r.first == p.first) ≡ false =
            ground (arith, after, first, head-ne x ys ne out) in
          rw moved (
            ap (fifo (taken (ctx_at p.cells p.first))) (ap (contexts p.cells) e)
            ∙ (let same : (ctx_at p.cells x == ctx_at p.cells p.first) ≡ true =
                  ap (λ (z : Ptr). ctx_at p.cells x == ctx_at p.cells z) first
                  ∙ ==_refl (ctx_at p.cells x) in
                rw same (ap some (sym kept))))
    ]

-- From every state of the invariant, an enabled action has a step, and what is seen of it is a step
-- of the specification between the contexts that are queued.
pub step-Follows :
    (act : Action) (s : System) (xs : List Ptr) → Enabled act s → Inv s xs → Follows act s xs
unfolding step seen
step-Follows (enqueues fresh ctx a) s xs (ne, new) inv =
    let (r, posted, inv') = enqueue_lem fresh ctx a s xs ne new inv in
    let out : has fresh xs ≡ false =
      allocated s.pool.cells s.pool.first xs fresh inv.queue.chain new in
    let same : SameWork (filled fresh ctx s.pool).cells r.cells =
      thread_task_post-SameWork a (filled fresh ctx s.pool) fresh (post_status (accepts a s.pool)) r
        posted in
    (
      record s { pool = r },
      queue_after (accepts a s.pool) xs fresh,
      rw (enqueue-filled fresh ctx a s.pool ne, posted),
      inv',
      rw (enqueue-filled fresh ctx a s.pool ne, posted)
          (fifo_post (accepts a s.pool) s xs fresh ctx r out same),
    )
step-Follows (turns i a) s xs h inv = elim (Option-cases (get_elem? s.pcs i)) [
  | inl missing ↦ (s, xs, rw (missing, step), inv, rw (missing, seen) (unfold fifo in refl))
  | inr (pc, at) ↦
      let (pc', r, ys, e, turn) =
        thread_pool_cycle-Turn a s.pool xs pc inv.queue (inv.holding i pc at) in
      (
        record { pool = r; pcs = set s.pcs i pc' },
        ys,
        rw (at, step, e),
        Turn-Inv inv i pc pc' r ys at turn,
        rw (at, seen, e) (fifo-Turn s.pool r xs ys pc pc' inv.queue turn),
      )
]
